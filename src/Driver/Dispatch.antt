-- ===== src/Driver/Dispatch.antt =====
-- driver/vusb_driver.c: the dispatch of the control requests (VusbEvtIoDeviceControl).
pub mod Keeping
pub mod Invariant
use usb_over_ip.Common.{
  ℕ, ◌+◌, ◌-◌, List, [], ◌∷◌, ◌++◌, Bool, true, false, ◌&&◌, Option, none, some, ◌==◌, ltb, leb,
  if◌then◌else◌, ◌>>=◌, length, drop, set,
}
use usb_over_ip.Common.Codec.{uint}
use usb_over_ip.Protocol
use usb_over_ip.Protocol.Status
use usb_over_ip.Protocol.Direction
use usb_over_ip.Ioctl.State
use usb_over_ip.Ioctl.{
  IoctlCode, version_info_size, PluginRequest, plugin_request_size, plugin_response_size,
  unplug_request_size, DeviceEntry, device_list_size, pending_urb_size, UrbCompletion,
  urb_completion_size, UrbCancelRequest, urb_cancel_request_size, statistics_size,
}
use usb_over_ip.Ioctl.Layout.{
  decode_plugin_request, decode_urb_completion, decode_urb_cancel_request, encode_pending_urb,
}
use usb_over_ip.Driver.{NtStatus, nt_success, VirtualDevice, UrbEntry, DeviceContext}
use usb_over_ip.Driver.Table.{
  copy_memory, create_virtual_device, destroy_virtual_device, find_device,
}
use usb_over_ip.Driver.Queue.{
  Completion, queue_urb, dequeue_urb, find_urb, complete_urb, cancel_urb, update_device,
}
use usb_over_ip.Driver.Urb.{pending_of}
use usb_over_ip.Driver.Request.{Framework, Retrieved, Output, Reply, status_only, answer}
use usb_over_ip.Driver.DeviceHandlers.{
  handle_get_version, handle_plugin_device, handle_unplug_device, handle_get_device_list,
  handle_get_statistics, handle_reset_device,
}
use usb_over_ip.Driver.UrbHandlers.{handle_get_pending_urb, handle_complete_urb, handle_cancel_urb}

module _ (f : Framework) where
  -- The handler of each control code.
  unfoldable pub handle : IoctlCode → DeviceContext → ℕ → ℕ → ℕ → Option Reply
  handle IoctlCode.get_version ctx request output_length input_length =
      handle_get_version f ctx request output_length
  handle IoctlCode.plugin_device ctx request output_length input_length =
      handle_plugin_device f ctx request input_length output_length
  handle IoctlCode.unplug_device ctx request output_length input_length =
      handle_unplug_device f ctx request input_length
  handle IoctlCode.get_device_list ctx request output_length input_length =
      handle_get_device_list f ctx request output_length
  handle IoctlCode.get_pending_urb ctx request output_length input_length =
      handle_get_pending_urb f ctx request output_length
  handle IoctlCode.complete_urb ctx request output_length input_length =
      handle_complete_urb f ctx request input_length
  handle IoctlCode.cancel_urb ctx request output_length input_length =
      handle_cancel_urb f ctx request input_length
  handle IoctlCode.get_statistics ctx request output_length input_length =
      handle_get_statistics f ctx request output_length
  handle IoctlCode.reset_device ctx request output_length input_length =
      handle_reset_device f ctx request input_length
  handle IoctlCode.set_device_state ctx request output_length input_length =
      some (status_only NtStatus.invalid_device_request ctx)
  handle (IoctlCode.other c) ctx request output_length input_length =
      some (status_only NtStatus.invalid_device_request ctx)

-- How the request ends: a call that waits for a pending URB stays open.
pub record Dispatched : Type 0 where
  pub completed : Option (NtStatus × ℕ)
  pub reply : Reply

abbrev is_waiting : IoctlCode → NtStatus → Bool
is_waiting IoctlCode.get_pending_urb NtStatus.pending = true
is_waiting _ _ = false

unfoldable pub io_device_control :
    Framework → IoctlCode → DeviceContext → ℕ → ℕ → ℕ → Option Dispatched
io_device_control f code ctx request output_length input_length =
    handle f code ctx request output_length input_length >>= λ (r : Reply). some (record {
      completed = if is_waiting code r.status then none else some (r.status, r.bytes_returned);
      reply = r;
    })
