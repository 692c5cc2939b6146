-- ===== src/Tests/Control.antt =====
-- The control requests at concrete inputs.
use mathlib.Core.Option
use usb_over_ip.Ioctl.{UrbCompletion}
use usb_over_ip.Driver.UrbHandlers.Arriving.{completion_arrives, Supplies}
use usb_over_ip.Driver.Queue.{Effect}
use usb_over_ip.Driver.Queue.Order.{Takes}
use usb_over_ip.Common.{inr}
use mathlib.Core.Option.{some-injective}
use usb_over_ip.Protocol.Layout.{encode_device_info}
use usb_over_ip.Common.Codec.{to_le}
use usb_over_ip.Driver.Urb.{pending_of}
use usb_over_ip.Common.{
  ℕ, ◌≡◌, ◌≢◌, refl, false, true, is_some, List, [], ◌∷◌, none, some, arith, ◌≤◌, ◌+◌, length,
  replicate, All,
}
use usb_over_ip.Ioctl.{IoctlCode, DeviceEntry}
use usb_over_ip.Ioctl.Layout.{
  encode_pending_urb, encode_urb_completion, encode_plugin_request,
  decode_urb_completion-encode_urb_completion,
}
use usb_over_ip.Driver.{NtStatus, nt_success, DeviceContext}
use usb_over_ip.Driver.Table.{find_device, copy_memory}
use usb_over_ip.Driver.Table.Invariant.{IsSound}
use usb_over_ip.Driver.Queue.{dequeue_urb, with_urbs}
use usb_over_ip.Driver.Request.{
  Framework, Retrieved, Output, Reply, status_only, answer, IsDocumented,
}
use usb_over_ip.Driver.DeviceHandlers.{handle_plugin_device, handle_get_device_list}
use usb_over_ip.Driver.DeviceHandlers.Plugging.{
  plugged, plugin_creates, plugin_misreports, handle_plugin_device_total, response,
}
use usb_over_ip.Driver.DeviceHandlers.Listing.{device_list_shows, entry_of, shown}
use usb_over_ip.Driver.UrbHandlers.{
  handle_get_pending_urb, handle_complete_urb, complete_with, answer_pending, fill_pending,
  pending_data,
}
use usb_over_ip.Driver.UrbHandlers.Losing.{fetched_urb_cannot_complete, fetch_requeues}
use usb_over_ip.Driver.UrbHandlers.Safety.{handle_complete_urb_faults, IsSized}
use usb_over_ip.Driver.UrbHandlers.Fetching.{
  handle_get_pending_urb_faults, IsReadable, HeadIsReadable, has_room,
}
use usb_over_ip.Driver.Dispatch.{io_device_control, handle, Dispatched}
use usb_over_ip.Driver.Dispatch.Invariant.{io_device_control-IsSound}
use usb_over_ip.Tests.Samples.{
  mouse, descriptors, full_context, busy_context, out_entry, in_entry, request, framework, hand_out,
  completion_of,
}

abbrev unplugged : Dispatched
unplugged = record {
  completed = some (NtStatus.invalid_device_request, 0);
  reply = status_only NtStatus.invalid_device_request busy_context;
}

io_device_control-IsSound_example : IsSound busy_context
unfolding io_device_control handle
io_device_control-IsSound_example =
    io_device_control-IsSound (framework [] []) IoctlCode.set_device_state busy_context 7 0 0
      unplugged (omega arith) refl

abbrev plug_bytes : List ℕ
plug_bytes = encode_plugin_request request descriptors

hand_out_lem :
    (b c : List ℕ) (n : ℕ)
    → hand_out b n ≡ Retrieved.retrieved c
    → (n ≤ length b) × (length c ≡ length b)
hand_out_lem b c n h = ground arith

hand_out_refusal :
    (b : List ℕ) (n : ℕ) (s : NtStatus) → hand_out b n ≡ Retrieved.refused s → nt_success s ≡ false
unfolding nt_success
hand_out_refusal b n s h = ground arith

framework-IsDocumented : (i o : List ℕ) → IsDocumented (framework i o) 7 (length i) (length o)
framework-IsDocumented i o = record {
  input_length_lem = λ n b. hand_out_lem i b n;
  output_length_lem = λ n b. hand_out_lem o b n;
  input_mdl_lem = λ b h. absurd (ground arith);
  output_mdl_lem = λ b h. ground arith;
  output_refusal = λ n. hand_out_refusal o n;
}

abbrev response_buffer : List ℕ
response_buffer = replicate 12 0

-- What a sample framework gives to request 7 with the bytes of a plug-in request.
abbrev plugging : Framework
plugging = framework plug_bytes response_buffer

plugin_creates_example :
    (slot : ℕ) × (ctx' : DeviceContext) × (handle_plugin_device plugging busy_context 7 230 12
      ≡ some (response (slot + 1) ctx'))
    × (find_device busy_context (slot + 1) ≡ none)
    × (find_device ctx' (slot + 1) ≡ some (plugged mouse descriptors slot))
    × ((id : ℕ) → id ≢ slot + 1 → find_device ctx' id ≡ find_device busy_context id)
unfolding encode_plugin_request encode_device_info to_le
plugin_creates_example =
    plugin_creates plugging busy_context 7 230 12 request descriptors response_buffer (omega arith)
      (omega arith) (omega arith) refl (omega arith) (refl, refl) refl refl (omega arith)
      (omega arith)

plugin_misreports_example :
    handle_plugin_device plugging full_context 7 230 12 ≡ some (response 0 full_context)
unfolding encode_plugin_request encode_device_info to_le
plugin_misreports_example =
    plugin_misreports plugging full_context 7 230 12 request descriptors response_buffer
      (omega arith) refl (omega arith) refl (omega arith) (refl, refl) (omega arith) (omega arith)

handle_plugin_device_total_example :
    handle_plugin_device plugging busy_context 7 (length plug_bytes) 12 ≢ none
handle_plugin_device_total_example =
    handle_plugin_device_total plugging busy_context 7 (length plug_bytes) 12
      (framework-IsDocumented plug_bytes response_buffer)

device_list_shows_example :
    (entries : List DeviceEntry) × (handle_get_device_list
        (framework [] (replicate 3524 0))
        busy_context
        7
        3524
      ≡ some (
          answer 3524
            (Output.device_list (record { device_count = 1; devices = entries }))
            busy_context))
    × (length entries ≡ 1)
    × ((id : ℕ) → entry_of id entries ≡ Option.map shown (find_device busy_context id))
device_list_shows_example =
    device_list_shows (framework [] (replicate 3524 0)) busy_context 7 3524 (replicate 3524 0)
      (omega arith) (omega arith) refl

abbrev big : List ℕ
big = replicate 40 0

abbrev fetched : Reply
fetched =
    answer 39
      (Output.pending_urb (encode_pending_urb (pending_of (out_entry 1)) (7 ∷ 8 ∷ 9 ∷ 0 ∷ [])))
      (with_urbs busy_context (in_entry 2 ∷ []))

-- The completion of the entry just fetched, with two bytes of data.
abbrev completing : List ℕ
completing = encode_urb_completion (completion_of 1) (5 ∷ 6 ∷ [])

fetched_urb_cannot_complete_example :
    complete_with fetched.context completing 22
    ≡ some (status_only NtStatus.not_found fetched.context)
unfolding handle_get_pending_urb answer_pending fill_pending pending_data dequeue_urb copy_memory
fetched_urb_cannot_complete_example =
    fetched_urb_cannot_complete (framework [] big) busy_context (out_entry 1) (in_entry 2 ∷ []) 7 0
      40 fetched completing (5 ∷ 6 ∷ []) (completion_of 1) 22 (framework-IsDocumented [] big) refl
      (omega arith) refl refl
      (decode_urb_completion-encode_urb_completion (completion_of 1) (5 ∷ 6 ∷ []) (omega arith))
      refl

fetch_requeues_example :
    (r : Reply) × (handle_get_pending_urb (framework [] big) busy_context 7 38 ≡ some r)
    × (r.status ≡ NtStatus.buffer_too_small)
    × (r.context.pending_urb_list ≡ in_entry 2 ∷ out_entry 1 ∷ [])
    × (r.context.statistics.total_urbs_submitted ≡ 1)
fetch_requeues_example =
    fetch_requeues (framework [] big) busy_context (out_entry 1) (in_entry 2 ∷ []) 7 38 refl
      (omega arith)

busy_context-IsSized : All IsSized busy_context.pending_urb_list
busy_context-IsSized = (λ b h. ground arith, (λ b h. ground arith, tt))

handle_complete_urb_faults_example :
    is_some (handle_complete_urb (framework completing []) busy_context 7 (length completing))
    ≡ true
unfolding encode_urb_completion to_le
handle_complete_urb_faults_example =
    handle_complete_urb_faults (framework completing []) busy_context 7 (length completing) 0
      (framework-IsDocumented completing []) busy_context-IsSized

out_entry-IsReadable : IsReadable (out_entry 1)
out_entry-IsReadable = record {
  sized = λ b q. ground arith;
  mapped = λ d l q. absurd (ground arith);
}

handle_get_pending_urb_faults_example :
    is_some (handle_get_pending_urb (framework [] big) busy_context 7 40) ≡ true
unfolding HeadIsReadable has_room
handle_get_pending_urb_faults_example =
    handle_get_pending_urb_faults (framework [] big) busy_context 7 0 40
      (framework-IsDocumented [] big) out_entry-IsReadable

-- The completion of the second request, of two bytes.
abbrev arrived : UrbCompletion
arrived = completion_of 2

second_taken : Takes 2 busy_context.pending_urb_list (in_entry 2) (out_entry 1 ∷ [])
second_taken = record {
  front = out_entry 1 ∷ [];
  back = [];
  split = refl;
  kept = refl;
  found = refl;
  first = (λ e. absurd (ground arith), tt);
}

completion_arrives_example :
    (ctx' : DeviceContext) × (handle_complete_urb
        (framework (encode_urb_completion arrived (5 ∷ 6 ∷ [])) [])
        busy_context
        7
        22
      ≡ some (record (status_only NtStatus.success ctx') {
        completion = some (record {
          buffer = some (5 ∷ 6 ∷ 9 ∷ []);
          effects = Effect.complete_request 40 NtStatus.success 2 ∷ Effect.free_entry ∷ [];
        });
      }))
    × (ctx'.pending_urb_list ≡ out_entry 1 ∷ [])
unfolding Supplies encode_urb_completion to_le
completion_arrives_example =
    completion_arrives (framework (encode_urb_completion arrived (5 ∷ 6 ∷ [])) []) busy_context 7
      arrived (in_entry 2) (out_entry 1 ∷ []) 40 (5 ∷ 6 ∷ []) (7 ∷ 8 ∷ 9 ∷ []) (omega arith)
      (inr (refl, refl)) second_taken refl refl (omega arith) (omega arith) refl
