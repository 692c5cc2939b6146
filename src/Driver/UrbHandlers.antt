-- ===== src/Driver/UrbHandlers.antt =====
-- driver/vusb_ioctl.c: the handlers of the requests about pending URBs. `none` is an access outside
-- a buffer or through a null pointer.
pub mod Fetching
pub mod Arriving
pub mod Losing
pub mod Safety
use usb_over_ip.Common.{
  ℕ, ◌+◌, ◌-◌, List, [], ◌∷◌, ◌++◌, Bool, true, false, ◌&&◌, Option, none, some, ◌==◌, ltb, leb,
  if◌then◌else◌, ◌>>=◌, length, drop, set,
}
use usb_over_ip.Common.Codec.{uint}
use usb_over_ip.Protocol
use usb_over_ip.Protocol.Status
use usb_over_ip.Protocol.Direction
use usb_over_ip.Ioctl.State
use usb_over_ip.Ioctl.{
  IoctlCode, version_info_size, PluginRequest, plugin_request_size, plugin_response_size,
  unplug_request_size, DeviceEntry, device_list_size, pending_urb_size, UrbCompletion,
  urb_completion_size, UrbCancelRequest, urb_cancel_request_size, statistics_size,
}
use usb_over_ip.Ioctl.Layout.{
  decode_plugin_request, decode_urb_completion, decode_urb_cancel_request, encode_pending_urb,
}
use usb_over_ip.Driver.{NtStatus, nt_success, VirtualDevice, UrbEntry, DeviceContext}
use usb_over_ip.Driver.Table.{
  copy_memory, create_virtual_device, destroy_virtual_device, find_device,
}
use usb_over_ip.Driver.Queue.{
  Completion, queue_urb, dequeue_urb, find_urb, complete_urb, cancel_urb, update_device,
}
use usb_over_ip.Driver.Urb.{pending_of}
use usb_over_ip.Driver.Request.{Framework, Retrieved, Output, Reply, status_only, answer}

-- The OUT data behind the structure: a null transfer buffer is read all the same.
unfoldable pub pending_data : UrbEntry → List ℕ → Option (List ℕ)
pending_data e tail =
    if e.direction == Direction.out && ltb 0 e.transfer_buffer_length
    then (e.transfer_buffer >>= λ (b : List ℕ). copy_memory tail b e.transfer_buffer_length)
    else some tail

abbrev pub pending_size : UrbEntry → ℕ
pending_size e =
    if e.direction == Direction.out
    then pending_urb_size + e.transfer_buffer_length
    else pending_urb_size

unfoldable pub fill_pending : DeviceContext → UrbEntry → List ℕ → Option Reply
fill_pending ctx e buffer =
    if leb pending_urb_size (length buffer)
    then (pending_data e (drop pending_urb_size buffer) >>= λ (tail : List ℕ).
        some (
          answer (pending_size e) (Output.pending_urb (encode_pending_urb (pending_of e) tail))
            ctx))
    else none

-- The bytes behind the structure, if the call's length covers what the structure announces.
abbrev pub completion_data : UrbCompletion → List ℕ → ℕ → Option (List ℕ)
completion_data c tail input_length =
    if ltb 0 c.actual_length && leb (urb_completion_size + c.actual_length) input_length
    then some tail
    else none

unfoldable pub complete_found :
    Option UrbEntry → DeviceContext → UrbCompletion → List ℕ → ℕ → Option Reply
complete_found none ctx c tail input_length = some (status_only NtStatus.not_found ctx)
complete_found (some e) ctx c tail input_length =
    complete_urb ctx e
      (if c.status == Status.success then NtStatus.success else NtStatus.unsuccessful)
      c.actual_length (completion_data c tail input_length)
    >>= λ (p : DeviceContext × Completion).
        some (record (status_only NtStatus.success p.0) { completion = some p.1 })

unfoldable pub complete_with : DeviceContext → List ℕ → ℕ → Option Reply
complete_with ctx buffer input_length = do
  (c, tail) ← decode_urb_completion buffer
  complete_found (find_urb ctx c.urb_id).0 (find_urb ctx c.urb_id).1 c tail input_length

unfoldable pub cancel_with : DeviceContext → List ℕ → Option Reply
cancel_with ctx buffer = do
  (c, tail) ← decode_urb_cancel_request buffer
  p ← cancel_urb ctx c.urb_id
  some (record (status_only NtStatus.success p.0) { completion = p.1 })

module _ (f : Framework) where
  -- The entry is out of the queue of `ctx` here, and goes back to its end where the answer fails.
  unfoldable pub answer_pending : DeviceContext → UrbEntry → ℕ → ℕ → Option Reply
  answer_pending ctx e request output_length =
      if ltb output_length (pending_size e)
      then some (status_only NtStatus.buffer_too_small (queue_urb ctx e))
      else elim (f.output_mdl request) [
        | some none ↦ none
        | some (some buffer) ↦ fill_pending ctx e buffer
        | none ↦ elim (f.retrieve_output request pending_urb_size) [
          | Retrieved.refused s ↦ some (status_only s (queue_urb ctx e))
          | Retrieved.retrieved buffer ↦ fill_pending ctx e buffer
        ]
      ]

  -- With nothing pending the request itself is put into the manual queue.
  unfoldable pub park : DeviceContext → ℕ → Reply
  park ctx request =
      if nt_success (f.forward_to_pending_queue request)
      then status_only NtStatus.pending (record ctx { parked = ctx.parked ++ request ∷ [] })
      else status_only (f.forward_to_pending_queue request) ctx

  unfoldable pub handle_get_pending_urb : DeviceContext → ℕ → ℕ → Option Reply
  handle_get_pending_urb ctx request output_length = elim (dequeue_urb ctx).0 [
    | none ↦ some (park (dequeue_urb ctx).1 request)
    | some e ↦ answer_pending (dequeue_urb ctx).1 e request output_length
  ]

  unfoldable pub handle_complete_urb : DeviceContext → ℕ → ℕ → Option Reply
  handle_complete_urb ctx request input_length =
      if ltb input_length urb_completion_size
      then some (status_only NtStatus.buffer_too_small ctx)
      else elim (f.input_mdl request) [
        | some none ↦ none
        | some (some buffer) ↦ complete_with ctx buffer input_length
        | none ↦ elim (f.retrieve_input request urb_completion_size) [
          | Retrieved.refused s ↦ some (status_only s ctx)
          | Retrieved.retrieved buffer ↦ complete_with ctx buffer input_length
        ]
      ]

  unfoldable pub handle_cancel_urb : DeviceContext → ℕ → ℕ → Option Reply
  handle_cancel_urb ctx request input_length =
      if ltb input_length urb_cancel_request_size
      then some (status_only NtStatus.buffer_too_small ctx)
      else elim (f.retrieve_input request urb_cancel_request_size) [
        | Retrieved.refused s ↦ some (status_only s ctx)
        | Retrieved.retrieved buffer ↦ cancel_with ctx buffer
      ]
