-- ===== src/Driver.antt =====
-- driver/vusb_driver.h: the state of the kernel driver. Pointers into memory that the driver reads
-- or writes are byte lists; handles of the framework are numbers; a null pointer is `none`.
-- Spin locks leave no trace: each function below is one step.
pub mod Table
pub mod Queue
pub mod Urb
pub mod Request
pub mod DeviceHandlers
pub mod UrbHandlers
pub mod Dispatch
use usb_over_ip.Common.{ℕ, List, Bool, true, false, Option}
use usb_over_ip.Protocol.{SetupPacket, DeviceInfo}
use usb_over_ip.Ioctl.{Statistics}

-- The codes that the driver returns; `failed` is any other error that the framework returns.
pub data NtStatus : Type 0 where
  success pending : NtStatus
  buffer_too_small insufficient_resources too_many_nodes invalid_parameter : NtStatus
  device_not_connected not_found cancelled unsuccessful invalid_device_request : NtStatus
  failed : ℕ → NtStatus

-- NT_SUCCESS
unfoldable pub nt_success : NtStatus → Bool
nt_success NtStatus.success = true
nt_success NtStatus.pending = true
nt_success _ = false

pub record VirtualDevice : Type 0 where
  pub device_id : ℕ
  pub port_number : ℕ
  pub state : ℕ
  pub device_info : DeviceInfo
  pub descriptors : Option (List ℕ)
  pub descriptor_length : ℕ
  pub current_configuration : ℕ
  pub current_interface : ℕ
  pub current_alternate_setting : ℕ
  pub bytes_in : ℕ
  pub bytes_out : ℕ
  pub urbs_completed : ℕ
  pub urbs_error : ℕ

pub record UrbEntry : Type 0 where
  pub urb_id : ℕ
  pub sequence_number : ℕ
  pub device_id : ℕ
  pub request : Option ℕ
  pub endpoint_address : ℕ
  pub transfer_type : ℕ
  pub direction : ℕ
  pub transfer_flags : ℕ
  pub transfer_buffer_length : ℕ
  pub transfer_buffer : Option (List ℕ)
  pub transfer_buffer_mdl : Option ℕ
  pub setup_packet : SetupPacket
  pub submit_time : ℕ
  pub timeout : ℕ

-- `parked` holds the requests that were forwarded to `PendingUrbQueue`.
pub record DeviceContext : Type 0 where
  pub parked : List ℕ
  pub max_devices : ℕ
  pub device_count : ℕ
  pub devices : List (Option VirtualDevice)
  pub next_urb_id : ℕ
  pub next_sequence : ℕ
  pub pending_urb_list : List UrbEntry
  pub pending_urb_count : ℕ
  pub statistics : Statistics
