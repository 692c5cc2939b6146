-- ===== src/Client/Capture.antt =====
-- client/vusb_capture.h, client/vusb_capture.c: the captured devices and the transfers on them. The
-- calls of WinUSB are parameters. `none` is an access outside a buffer; a null pointer is an empty
-- one.
pub mod Descriptors
pub mod Walking
pub mod Placing
pub mod Configuration
use usb_over_ip.Common.{
  ℕ, ◌/◌, ◌%◌, List, [], ◌∷◌, Bool, true, false, ◌&&◌, ◌||◌, Option, none, some, ◌==◌, leb,
  if◌then◌else◌, length,
}
use usb_over_ip.Protocol.{DeviceInfo, SetupPacket}
use usb_over_ip.Driver.Table.{inc32, add64}

-- What a WinUSB call leaves: whether it succeeded, the error if not, the count of bytes transferred,
-- and the caller's buffer.
pub record Piped : Type 0 where
  pub ok : Bool
  pub error : ℕ
  pub transferred : ℕ
  pub buffer : List ℕ

-- WinUsb_GetDescriptor gives the caller's buffer of a length, for a type of descriptor, or fails. The
-- device with a local id is opened or not. The pipes take a buffer and a length.
pub record WinUsb : Type 0 where
  pub opens : ℕ → Bool
  pub get_descriptor : ℕ → ℕ → Option (List ℕ)
  pub control_transfer : SetupPacket → List ℕ → ℕ → Piped
  pub read_pipe : ℕ → List ℕ → ℕ → Piped
  pub write_pipe : ℕ → List ℕ → ℕ → Piped

pub record EndpointInfo : Type 0 where
  pub address : ℕ
  pub attributes : ℕ
  pub max_packet_size : ℕ
  pub interval : ℕ

pub record InterfaceInfo : Type 0 where
  pub interface_number : ℕ
  pub alternate_setting : ℕ
  pub interface_class : ℕ
  pub interface_sub_class : ℕ
  pub interface_protocol : ℕ
  pub num_endpoints : ℕ
  pub endpoints : List EndpointInfo

pub record CapturedDevice : Type 0 where
  pub local_id : ℕ
  pub remote_id : ℕ
  pub active : Bool
  pub opened : Bool
  pub device_info : DeviceInfo
  pub device_descriptor : List ℕ
  pub num_interfaces : ℕ
  pub interfaces : List InterfaceInfo
  pub descriptors : List ℕ
  pub descriptor_length : ℕ
  pub bytes_in : ℕ
  pub bytes_out : ℕ
  pub transfers_completed : ℕ
  pub transfer_errors : ℕ

unfoldable pub find_captured : ℕ → List CapturedDevice → Option CapturedDevice
find_captured id [] = none
find_captured id (d ∷ ds) =
    let rest = find_captured id ds in if d.active && d.local_id == id then some d else rest

unfoldable pub find_by_vid_pid : ℕ → ℕ → List CapturedDevice → Option CapturedDevice
find_by_vid_pid vid pid [] = none
find_by_vid_pid vid pid (d ∷ ds) =
    let rest = find_by_vid_pid vid pid ds in
    if d.active && d.device_info.vendor_id == vid && d.device_info.product_id == pid
    then some d
    else rest

-- A write through the pointer that `find_captured` returned.
unfoldable pub put_captured : CapturedDevice → ℕ → List CapturedDevice → List CapturedDevice
put_captured e id [] = []
put_captured e id (d ∷ ds) =
    let rest = put_captured e id ds in if d.active && d.local_id == id then e ∷ ds else d ∷ rest

-- Whether the caller sees success, what was transferred, the buffer, and the device.
pub record Transferred : Type 0 where
  pub succeeded : Bool
  pub actual_length : ℕ
  pub buffer : List ℕ
  pub device : CapturedDevice

-- The device's counters after a transfer in a direction.
unfoldable pub counted : CapturedDevice → Bool → Piped → CapturedDevice
counted d inward p =
    if p.ok
    then record d {
      transfers_completed = inc32 d.transfers_completed;
      bytes_in = if inward then add64 d.bytes_in p.transferred else d.bytes_in;
      bytes_out = if inward then d.bytes_out else add64 d.bytes_out p.transferred;
    }
    else record d { transfer_errors = inc32 d.transfer_errors }

-- The error of a failed call is what the transfer returns.
abbrev pub after_pipe : CapturedDevice → Bool → Piped → Transferred
after_pipe d inward p = record {
  succeeded = p.ok || p.error == 0;
  actual_length = p.transferred;
  buffer = p.buffer;
  device = counted d inward p;
}

-- A transfer on a device that is not open does nothing.
abbrev pub refused_transfer : CapturedDevice → List ℕ → Transferred
refused_transfer d buffer = record {
  succeeded = false;
  actual_length = 0;
  buffer = buffer;
  device = d;
}

module _ (usb : WinUsb) where
  unfoldable pub open_device : CapturedDevice → Bool × CapturedDevice
  open_device d =
      if d.opened
      then (false, d)
      else if usb.opens d.local_id
      then (true, record d { opened = true })
      else (false, d)

  unfoldable pub control_on : CapturedDevice → SetupPacket → List ℕ → ℕ → Option Transferred
  control_on d setup buffer len =
      if d.opened
      then (if leb len (length buffer)
          then some (
              after_pipe d (setup.bm_request_type / 128 % 2 == 1)
                (usb.control_transfer setup buffer len))
          else none)
      else some (refused_transfer d buffer)

  -- The endpoint's address has the direction of the pipe.
  unfoldable pub bulk_on : CapturedDevice → ℕ → List ℕ → ℕ → Option Transferred
  bulk_on d endpoint buffer len =
      let inward = endpoint / 128 % 2 == 1 in
      if d.opened
      then (if leb len (length buffer)
          then some (
              after_pipe d inward (
                if inward
                then usb.read_pipe endpoint buffer len
                else usb.write_pipe endpoint buffer len))
          else none)
      else some (refused_transfer d buffer)
