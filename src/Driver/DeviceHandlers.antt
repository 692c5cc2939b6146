-- ===== src/Driver/DeviceHandlers.antt =====
-- driver/vusb_ioctl.c: the handlers of the requests about devices and counters. `none` is an access
-- outside a buffer or through a null pointer.
pub mod Plugging
pub mod Listing
use usb_over_ip.Common.{
  ℕ, ◌+◌, ◌-◌, List, [], ◌∷◌, ◌++◌, Bool, true, false, ◌&&◌, Option, none, some, ◌==◌, ltb, leb,
  if◌then◌else◌, ◌>>=◌, length, drop, set,
}
use usb_over_ip.Common.Codec.{uint}
use usb_over_ip.Protocol
use usb_over_ip.Protocol.Status
use usb_over_ip.Protocol.Direction
use usb_over_ip.Ioctl.State
use usb_over_ip.Ioctl.{
  IoctlCode, version_info_size, PluginRequest, plugin_request_size, plugin_response_size,
  unplug_request_size, DeviceEntry, device_list_size, pending_urb_size, UrbCompletion,
  urb_completion_size, UrbCancelRequest, urb_cancel_request_size, statistics_size,
}
use usb_over_ip.Ioctl.Layout.{
  decode_plugin_request, decode_urb_completion, decode_urb_cancel_request, encode_pending_urb,
}
use usb_over_ip.Driver.{NtStatus, nt_success, VirtualDevice, UrbEntry, DeviceContext}
use usb_over_ip.Driver.Table.{
  copy_memory, create_virtual_device, destroy_virtual_device, find_device,
}
use usb_over_ip.Driver.Queue.{
  Completion, queue_urb, dequeue_urb, find_urb, complete_urb, cancel_urb, update_device,
}
use usb_over_ip.Driver.Urb.{pending_of}
use usb_over_ip.Driver.Request.{Framework, Retrieved, Output, Reply, status_only, answer}

-- The entries of the devices in the order of their slots.
unfoldable pub list_devices : List (Option VirtualDevice) → List DeviceEntry
list_devices [] = []
list_devices (none ∷ ds) = list_devices ds
list_devices (some d ∷ ds) =
    record {
      device_id = d.device_id;
      port_number = d.port_number;
      state = d.state;
      device_info = d.device_info;
    }
    ∷ list_devices ds

abbrev pub status_word : NtStatus → ℕ
status_word s = if nt_success s then Status.success else Status.error

abbrev pub reset : VirtualDevice → VirtualDevice
reset d = record d {
  state = State.default;
  current_configuration = 0;
  current_interface = 0;
  current_alternate_setting = 0;
}

unfoldable pub reset_device : DeviceContext → ℕ → Reply
reset_device ctx id = elim (find_device ctx id) [
  | none ↦ status_only NtStatus.device_not_connected ctx
  | some d ↦ status_only NtStatus.success (update_device ctx id reset)
]

module _ (f : Framework) where
  unfoldable pub handle_get_version : DeviceContext → ℕ → ℕ → Option Reply
  handle_get_version ctx request output_length =
      if ltb output_length version_info_size
      then some (status_only NtStatus.buffer_too_small ctx)
      else elim (f.retrieve_output request version_info_size) [
        | Retrieved.refused s ↦ some (status_only s ctx)
        | Retrieved.retrieved _ ↦ some (
            answer version_info_size
              (Output.version (record {
                driver_version = 0x00010000;
                protocol_version = Protocol.protocol_version;
                max_devices = Protocol.max_devices;
                capabilities = 0;
              }))
              ctx)
      ]

  -- The part after the device is created. `status` is that of the second retrieval.
  unfoldable pub respond_plugin : NtStatus × ℕ × DeviceContext → ℕ → Option Reply
  respond_plugin (created, id, ctx) request =
      elim (f.retrieve_output request plugin_response_size) [
        | Retrieved.refused s ↦
            some (status_only s (if id == 0 then ctx else (destroy_virtual_device ctx id).1))
        | Retrieved.retrieved _ ↦
            let status = NtStatus.success in
            some (
              answer plugin_response_size
                (Output.plugin
                  (record { status = status_word status; device_id = id; port_number = id }))
                ctx)
      ]

  unfoldable pub plugin_with : DeviceContext → ℕ → List ℕ → Option Reply
  plugin_with ctx request buffer = do
    (r, descriptors) ← decode_plugin_request buffer
    if ltb (length buffer) (plugin_request_size + r.descriptor_length)
        then some (status_only NtStatus.buffer_too_small ctx)
        else (create_virtual_device f.device_allocated f.descriptors_allocated ctx r.device_info
              (some descriptors) r.descriptor_length
            >>= λ (c : NtStatus × ℕ × DeviceContext). respond_plugin c request)

  unfoldable pub handle_plugin_device : DeviceContext → ℕ → ℕ → ℕ → Option Reply
  handle_plugin_device ctx request input_length output_length =
      if ltb input_length plugin_request_size
      then some (status_only NtStatus.buffer_too_small ctx)
      else if ltb output_length plugin_response_size
      then some (status_only NtStatus.buffer_too_small ctx)
      else elim (f.retrieve_input request plugin_request_size) [
        | Retrieved.refused s ↦ some (status_only s ctx)
        | Retrieved.retrieved buffer ↦ plugin_with ctx request buffer
      ]

  unfoldable pub handle_unplug_device : DeviceContext → ℕ → ℕ → Option Reply
  handle_unplug_device ctx request input_length =
      if ltb input_length unplug_request_size
      then some (status_only NtStatus.buffer_too_small ctx)
      else elim (f.retrieve_input request unplug_request_size) [
        | Retrieved.refused s ↦ some (status_only s ctx)
        | Retrieved.retrieved buffer ↦ uint 4 buffer >>= λ (r : ℕ × List ℕ).
            some (status_only (destroy_virtual_device ctx r.0).0 (destroy_virtual_device ctx r.0).1)
      ]

  unfoldable pub handle_get_device_list : DeviceContext → ℕ → ℕ → Option Reply
  handle_get_device_list ctx request output_length =
      if ltb output_length device_list_size
      then some (status_only NtStatus.buffer_too_small ctx)
      else elim (f.retrieve_output request device_list_size) [
        | Retrieved.refused s ↦ some (status_only s ctx)
        | Retrieved.retrieved _ ↦
            let entries = list_devices ctx.devices in
            some (
              answer device_list_size
                (Output.device_list (record { device_count = length entries; devices = entries }))
                ctx)
      ]

  unfoldable pub handle_get_statistics : DeviceContext → ℕ → ℕ → Option Reply
  handle_get_statistics ctx request output_length =
      if ltb output_length statistics_size
      then some (status_only NtStatus.buffer_too_small ctx)
      else elim (f.retrieve_output request statistics_size) [
        | Retrieved.refused s ↦ some (status_only s ctx)
        | Retrieved.retrieved _ ↦ some (
            answer statistics_size
              (Output.statistics (record (ctx.statistics) {
                active_devices = ctx.device_count;
                pending_urbs = ctx.pending_urb_count;
              }))
              ctx)
      ]

  unfoldable pub handle_reset_device : DeviceContext → ℕ → ℕ → Option Reply
  handle_reset_device ctx request input_length =
      if ltb input_length unplug_request_size
      then some (status_only NtStatus.buffer_too_small ctx)
      else elim (f.retrieve_input request unplug_request_size) [
        | Retrieved.refused s ↦ some (status_only s ctx)
        | Retrieved.retrieved buffer ↦
            uint 4 buffer >>= λ (r : ℕ × List ℕ). some (reset_device ctx r.0)
      ]
