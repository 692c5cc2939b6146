-- ===== src/Ioctl.antt =====
-- protocol/vusb_ioctl.h: the control codes and the structures between the server and the driver.
pub mod State
pub mod Layout
pub mod Reading
pub mod Sizes
use usb_over_ip.Common.{ℕ, List}
use usb_over_ip.Protocol.{SetupPacket, DeviceInfo}

-- The control codes that the driver is asked for; `other` stands for any code without a case.
pub data IoctlCode : Type 0 where
  get_version plugin_device unplug_device get_device_list get_pending_urb : IoctlCode
  complete_urb cancel_urb get_statistics reset_device set_device_state : IoctlCode
  other : ℕ → IoctlCode

pub record VersionInfo : Type 0 where
  pub driver_version : ℕ
  pub protocol_version : ℕ
  pub max_devices : ℕ
  pub capabilities : ℕ

abbrev pub version_info_size : ℕ
version_info_size = 16

pub record PluginRequest : Type 0 where
  pub device_info : DeviceInfo
  pub descriptor_length : ℕ

abbrev pub plugin_request_size : ℕ
plugin_request_size = 212

pub record PluginResponse : Type 0 where
  pub status : ℕ
  pub device_id : ℕ
  pub port_number : ℕ

abbrev pub plugin_response_size : ℕ
plugin_response_size = 12

-- An unplug request is one 32-bit device id.
abbrev pub unplug_request_size : ℕ
unplug_request_size = 4

pub record DeviceEntry : Type 0 where
  pub device_id : ℕ
  pub port_number : ℕ
  pub state : ℕ
  pub device_info : DeviceInfo

-- The entries in use; the C array is filled up with zeros to 16.
pub record DeviceList : Type 0 where
  pub device_count : ℕ
  pub devices : List DeviceEntry

abbrev pub device_list_size : ℕ
device_list_size = 3524

pub record PendingUrb : Type 0 where
  pub device_id : ℕ
  pub urb_id : ℕ
  pub sequence_number : ℕ
  pub endpoint_address : ℕ
  pub transfer_type : ℕ
  pub direction : ℕ
  pub reserved : ℕ
  pub transfer_flags : ℕ
  pub transfer_buffer_length : ℕ
  pub interval : ℕ
  pub setup_packet : SetupPacket

abbrev pub pending_urb_size : ℕ
pending_urb_size = 36

pub record UrbCompletion : Type 0 where
  pub device_id : ℕ
  pub urb_id : ℕ
  pub sequence_number : ℕ
  pub status : ℕ
  pub actual_length : ℕ

abbrev pub urb_completion_size : ℕ
urb_completion_size = 20

pub record UrbCancelRequest : Type 0 where
  pub device_id : ℕ
  pub urb_id : ℕ

abbrev pub urb_cancel_request_size : ℕ
urb_cancel_request_size = 8

pub record Statistics : Type 0 where
  pub total_urbs_submitted : ℕ
  pub total_urbs_completed : ℕ
  pub total_urbs_canceled : ℕ
  pub total_bytes_in : ℕ
  pub total_bytes_out : ℕ
  pub total_errors : ℕ
  pub active_devices : ℕ
  pub pending_urbs : ℕ

abbrev pub statistics_size : ℕ
statistics_size = 56
