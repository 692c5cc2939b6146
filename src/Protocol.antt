-- ===== src/Protocol.antt =====
-- protocol/vusb_protocol.h: constants, packed structures and the header of every message.
-- A structure is a record of numbers; its bytes are those of the packed C layout.
pub mod Command
pub mod Status
pub mod Transfer
pub mod Direction
pub mod Layout
pub mod Endpoint
use usb_over_ip.Common.{ℕ, ◌*◌, ◌/◌, ◌^◌, List, Bool, ◌&&◌, ◌==◌}
use Prim.Native.Nat.{bit_and, bit_or}

abbrev pub protocol_magic : ℕ
protocol_magic = 0x56555342

abbrev pub protocol_version : ℕ
protocol_version = 0x0100

abbrev pub max_packet_size : ℕ
max_packet_size = 65536

abbrev pub max_devices : ℕ
max_devices = 16

pub record Header : Type 0 where
  pub magic : ℕ
  pub version : ℕ
  pub command : ℕ
  pub payload_length : ℕ
  pub sequence : ℕ

abbrev pub header_size : ℕ
header_size = 16

unfoldable pub init_header : ℕ → ℕ → ℕ → Header
init_header command len sequence = record {
  magic = protocol_magic;
  version = protocol_version;
  command = command;
  payload_length = len;
  sequence = sequence;
}

unfoldable pub validate_header : Header → Bool
validate_header h = h.magic == protocol_magic && h.version == protocol_version

pub record SetupPacket : Type 0 where
  pub bm_request_type : ℕ
  pub b_request : ℕ
  pub w_value : ℕ
  pub w_index : ℕ
  pub w_length : ℕ

pub record DeviceInfo : Type 0 where
  pub device_id : ℕ
  pub vendor_id : ℕ
  pub product_id : ℕ
  pub device_class : ℕ
  pub device_sub_class : ℕ
  pub device_protocol : ℕ
  pub speed : ℕ
  pub num_configurations : ℕ
  pub num_interfaces : ℕ
  pub reserved : ℕ
  pub manufacturer : List ℕ
  pub product : List ℕ
  pub serial_number : List ℕ

abbrev pub device_info_size : ℕ
device_info_size = 208

-- The fields that follow the header of a submit message.
pub record UrbSubmit : Type 0 where
  pub device_id : ℕ
  pub urb_id : ℕ
  pub endpoint_address : ℕ
  pub transfer_type : ℕ
  pub direction : ℕ
  pub reserved : ℕ
  pub transfer_flags : ℕ
  pub transfer_buffer_length : ℕ
  pub interval : ℕ
  pub setup_packet : SetupPacket

abbrev pub urb_submit_size : ℕ
urb_submit_size = 48

-- The fields that follow the header of a completion message.
pub record UrbComplete : Type 0 where
  pub device_id : ℕ
  pub urb_id : ℕ
  pub status : ℕ
  pub actual_length : ℕ
  pub error_count : ℕ

abbrev pub urb_complete_size : ℕ
urb_complete_size = 36

-- The endpoint macros.
unfoldable pub make_endpoint : ℕ → ℕ → ℕ
make_endpoint num dir = bit_or (dir * 2 ^ 7) (bit_and num 0x0F)

unfoldable pub endpoint_number : ℕ → ℕ
endpoint_number ep = bit_and ep 0x0F

unfoldable pub endpoint_direction : ℕ → ℕ
endpoint_direction ep = bit_and (ep / 2 ^ 7) 0x01
