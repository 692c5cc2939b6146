-- ===== src/Userspace.antt =====
-- userspace/vusb_userspace.h: the state of the user-mode server. A client is referred to by its slot
-- in the array of clients, where it stays while it is connected; a pointer to it is its slot.
pub mod Devices
pub mod Urbs
pub mod Endpoints
pub mod Requests
pub mod Messages
pub mod Startup
use usb_over_ip.Common.{ℕ, List, [], Bool, false, Option, none, replicate}
use usb_over_ip.Protocol.{DeviceInfo, SetupPacket}

pub data EpState : Type 0 where
  disabled enabled stalled halted : EpState

-- The part of an endpoint that some operation reads or writes.
pub record UserEndpoint : Type 0 where
  pub state : EpState
  pub buffer : Option (List ℕ)
  pub buffer_size : ℕ
  pub data_length : ℕ
  pub data_offset : ℕ

pub data DevState : Type 0 where
  detached attached powered default addressed configured suspended : DevState

pub record UserUrb : Type 0 where
  pub urb_id : ℕ
  pub sequence : ℕ
  pub endpoint_address : ℕ
  pub transfer_type : ℕ
  pub direction : ℕ
  pub transfer_flags : ℕ
  pub transfer_buffer_length : ℕ
  pub interval : ℕ
  pub setup_packet : SetupPacket
  pub transfer_buffer : Option (List ℕ)
  pub actual_length : ℕ
  pub status : ℕ
  pub completed : Bool
  pub submit_time : ℕ

pub record UserDevice : Type 0 where
  pub active : Bool
  pub device_id : ℕ
  pub remote_device_id : ℕ
  pub state : DevState
  pub device_info : DeviceInfo
  pub descriptors : Option (List ℕ)
  pub descriptor_length : ℕ
  pub configuration : ℕ
  pub address : ℕ
  pub endpoints : List UserEndpoint
  pub pending_urbs : List UserUrb
  pub pending_urb_count : ℕ
  pub next_urb_id : ℕ
  pub owner_client : Option ℕ
  pub bytes_in : ℕ
  pub bytes_out : ℕ
  pub urbs_submitted : ℕ
  pub urbs_completed : ℕ

-- The ids of its devices are the first `device_count` of the array.
pub record UserClient : Type 0 where
  pub session_id : ℕ
  pub connected : Bool
  pub authenticated : Bool
  pub client_name : List ℕ
  pub client_version : ℕ
  pub capabilities : ℕ
  pub device_ids : List ℕ

pub record UserContext : Type 0 where
  pub running : Bool
  pub clients : List (Option UserClient)
  pub client_count : ℕ
  pub next_session_id : ℕ
  pub devices : List UserDevice
  pub next_device_id : ℕ
  pub total_urbs_processed : ℕ
  pub total_bytes_transferred : ℕ

abbrev pub user_max_devices : ℕ
user_max_devices = 16

abbrev pub user_max_clients : ℕ
user_max_clients = 32

abbrev pub user_max_endpoints : ℕ
user_max_endpoints = 32

abbrev pub urb_buffer_size : ℕ
urb_buffer_size = 65536
