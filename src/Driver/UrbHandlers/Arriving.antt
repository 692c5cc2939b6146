-- ===== src/Driver/UrbHandlers/Arriving.antt =====
-- The way of the data of a completion, from the bytes of the control request to the owner's buffer.
use usb_over_ip.Common.{
  ℕ, ◌+◌, ◌≤◌, ◌<◌, ◌≡◌, List, [], ◌∷◌, none, some, arith, ◌⊎◌, inl, inr, le→ltb, refl, ◌∙◌,
  if◌then◌else◌, ◌==◌, length, min,
}
use usb_over_ip.Protocol.Status
use usb_over_ip.Ioctl.{UrbCompletion, urb_completion_size}
use usb_over_ip.Ioctl.Layout.{
  encode_urb_completion, FitsUrbCompletion, decode_urb_completion-encode_urb_completion,
}
use usb_over_ip.Driver.{NtStatus, UrbEntry, DeviceContext}
use usb_over_ip.Protocol.Direction
use usb_over_ip.Driver.Queue.{Effect, find_urb, with_urbs}
use usb_over_ip.Driver.Queue.Order.{Takes, take_urb-Takes}
use usb_over_ip.Driver.Queue.Completing.{complete_urb_copies, copied_over}
use usb_over_ip.Driver.Request.{Framework, Retrieved, status_only}
use usb_over_ip.Driver.UrbHandlers.{complete_found, complete_with, handle_complete_urb}

-- The status that the owner of the request gets.
abbrev pub owner_status : UrbCompletion → NtStatus
owner_status c = if c.status == Status.success then NtStatus.success else NtStatus.unsuccessful

-- The handler gets the bytes, mapped from a list or, where there is none, buffered.
unfoldable pub Supplies : Framework → ℕ → List ℕ → Type 0
Supplies f req bytes =
    (f.input_mdl req ≡ some (some bytes))
    ⊎ ((f.input_mdl req ≡ none)
        × (f.retrieve_input req urb_completion_size ≡ Retrieved.retrieved bytes))

handle_supplied :
    (f : Framework) (ctx : DeviceContext) (req n : ℕ) (bytes : List ℕ)
    → Supplies f req bytes
    → urb_completion_size ≤ n
    → handle_complete_urb f ctx req n ≡ complete_with ctx bytes n
unfolding handle_complete_urb Supplies
handle_supplied f ctx req n bytes (inl p) h =
    rw (le→ltb n urb_completion_size h, p, handle_complete_urb) refl
handle_supplied f ctx req n bytes (inr (p, q)) h =
    rw (le→ltb n urb_completion_size h, p, q, handle_complete_urb) refl

-- The bytes of a completion with some data, whose fields fit the packed layout, and which the
-- handler gets, for the first pending entry with its id, which an owner waits for and whose buffer
-- holds the announced length: the handler answers success, the first bytes of the entry's buffer
-- become those of the data, as many as the completion says and the entry has room for, the owner's
-- request ends with success or failure, as the completion says, and with the completion's length,
-- and exactly that entry leaves the queue.
pub completion_arrives :
    (f : Framework) (ctx : DeviceContext) (req : ℕ) (c : UrbCompletion) (e : UrbEntry)
    (rest : List UrbEntry) (owner : ℕ) (payload dst : List ℕ)
    → FitsUrbCompletion c
    → Supplies f req (encode_urb_completion c payload)
    → Takes c.urb_id ctx.pending_urb_list e rest
    → e.request ≡ some owner
    → e.transfer_buffer ≡ some dst
    → e.transfer_buffer_length ≤ length dst
    → 0 < c.actual_length
    → c.actual_length ≡ length payload
    → (ctx' : DeviceContext) × (handle_complete_urb f ctx req (urb_completion_size + length payload)
        ≡ some (record (status_only NtStatus.success ctx') {
          completion = some (record {
            buffer = some (copied_over payload dst (min c.actual_length e.transfer_buffer_length));
            effects =
                Effect.complete_request owner (owner_status c) c.actual_length
                ∷ (if e.direction == Direction.out
                    then Effect.free_buffer ∷ Effect.free_entry ∷ []
                    else Effect.free_entry ∷ []);
          });
        }))
      × (ctx'.pending_urb_list ≡ rest)
unfolding complete_with complete_found find_urb
completion_arrives f ctx req c e rest owner payload dst fits s t o b l p k =
    let mid = with_urbs ctx rest in
    let (ctx', made, kept, _, _, _) =
      complete_urb_copies mid e (owner_status c) c.actual_length payload dst b l p (omega arith) in
    let taken = take_urb-Takes c.urb_id ctx.pending_urb_list rest e t in
    (
      ctx',
      handle_supplied f ctx req _ (encode_urb_completion c payload) s (omega arith)
          ∙ rw (decode_urb_completion-encode_urb_completion c payload fits)
              (rw (taken, find_urb) (ground (arith, made, o, b))),
      kept,
    )
