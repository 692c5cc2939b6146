-- ===== src/Driver/Dispatch/Invariant.antt =====
-- The soundness of the driver's table and counters over the control requests.
use usb_over_ip.Common.{
  ℕ, ◌≡◌, refl, List, Option, none, some, arith, Option-cases, inl, inr, if◌then◌else◌, ◌==◌,
  length, Bool-cases, drop, leb,
}
use usb_over_ip.Protocol.Status
use usb_over_ip.Ioctl.{
  IoctlCode, UrbCompletion, pending_urb_size, urb_completion_size, urb_cancel_request_size,
}
use usb_over_ip.Ioctl.Layout.{decode_urb_completion, decode_urb_cancel_request}
use usb_over_ip.Driver.{NtStatus, UrbEntry, DeviceContext}
use usb_over_ip.Driver.Table.Invariant.{IsSound, statistics-IsSound}
use usb_over_ip.Driver.Queue.{
  Completion, dequeue_urb, complete_urb, cancel_urb, cancel_found, inc64,
}
use usb_over_ip.Driver.Queue.Order.{queue_urb-IsSound, dequeue_urb-IsSound, find_urb-IsSound}
use usb_over_ip.Driver.Queue.Completing.{complete_urb-IsSound}
use usb_over_ip.Driver.Request.{Framework, Retrieved}
use usb_over_ip.Driver.UrbHandlers.{
  fill_pending, pending_data, answer_pending, park, handle_get_pending_urb, complete_found,
  complete_with, handle_complete_urb, cancel_with, handle_cancel_urb, completion_data,
}
use usb_over_ip.Driver.Dispatch.{handle, Dispatched, io_device_control}
use usb_over_ip.Driver.Dispatch.Keeping.{
  Keeps, Keeps->>=, get_version-Keeps, device_list-Keeps, statistics-Keeps, plugin_device-Keeps,
  unplug_device-Keeps, reset_device-Keeps,
}

module _ (f : Framework) (ctx : DeviceContext) (v : IsSound ctx) where
  fill_pending-Keeps : (e : UrbEntry) (b : List ℕ) → Keeps (fill_pending ctx e b)
  unfolding fill_pending
  fill_pending-Keeps e b = elim (Bool-cases (leb pending_urb_size (length b))) [
    | inl h ↦ rw h (Keeps->>= (pending_data e (drop pending_urb_size b)) _ (λ t q. v))
    | inr h ↦ rw h tt
  ]

  answer_pending-Keeps : (e : UrbEntry) (r n : ℕ) → Keeps (answer_pending f ctx e r n)
  unfolding answer_pending
  answer_pending-Keeps e r n = go (f.output_mdl r) (f.retrieve_output r pending_urb_size) refl refl
    where
      go :
          (m : Option (Option (List ℕ))) (b : Retrieved)
          → f.output_mdl r ≡ m
          → f.retrieve_output r pending_urb_size ≡ b
          → Keeps (answer_pending f ctx e r n)
      go (some none) b p q = ground (arith, queue_urb-IsSound ctx e v)
      go (some (some c)) b p q = ground (arith, queue_urb-IsSound ctx e v, fill_pending-Keeps e c)
      go none (Retrieved.refused s) p q = ground (arith, queue_urb-IsSound ctx e v)
      go none (Retrieved.retrieved c) p q =
          ground (arith, queue_urb-IsSound ctx e v, fill_pending-Keeps e c)

park-IsSound :
    (f : Framework) (ctx : DeviceContext) (r : ℕ) → IsSound ctx → IsSound (park f ctx r).context
unfolding park
park-IsSound f ctx r v = ground arith

get_pending_urb-Keeps :
    (f : Framework) (ctx : DeviceContext) (r n : ℕ)
    → IsSound ctx
    → Keeps (handle_get_pending_urb f ctx r n)
unfolding handle_get_pending_urb
get_pending_urb-Keeps f ctx r n v = elim (Option-cases (dequeue_urb ctx).0) [
  | inl q ↦
      rw (q, handle_get_pending_urb)
        (park-IsSound f (dequeue_urb ctx).1 r (dequeue_urb-IsSound ctx v))
  | inr (e, q) ↦
      rw (q, handle_get_pending_urb)
        (answer_pending-Keeps f (dequeue_urb ctx).1 (dequeue_urb-IsSound ctx v) e r n)
]

complete_found-Keeps :
    (o : Option UrbEntry) (ctx : DeviceContext) (c : UrbCompletion) (tail : List ℕ) (n : ℕ)
    → IsSound ctx
    → Keeps (complete_found o ctx c tail n)
unfolding complete_found
complete_found-Keeps none ctx c tail n v = v
complete_found-Keeps (some e) ctx c tail n v =
    let s : NtStatus =
      if c.status == Status.success then NtStatus.success else NtStatus.unsuccessful in
    let src = completion_data c tail n in
    elim (Option-cases (complete_urb ctx e s c.actual_length src)) [
      | inl q ↦ rw q tt
      | inr (p, q) ↦ rw q (complete_urb-IsSound ctx e s c.actual_length src v q)
    ]

complete_with-Keeps :
    (ctx : DeviceContext) (b : List ℕ) (n : ℕ) → IsSound ctx → Keeps (complete_with ctx b n)
unfolding complete_with
complete_with-Keeps ctx b n v =
    Keeps->>= (decode_urb_completion b) _
      λ p q. complete_found-Keeps _ _ p.0 p.1 n (find_urb-IsSound ctx p.0.urb_id v)

cancel_found-IsSound :
    (o : Option UrbEntry) (ctx ctx' : DeviceContext) (c : Option Completion)
    → IsSound ctx
    → cancel_found o ctx ≡ some (ctx', c)
    → IsSound ctx'
unfolding cancel_found
cancel_found-IsSound none ctx ctx' c v h = ground arith
cancel_found-IsSound (some e) ctx ctx' c v h =
    elim (Option-cases (complete_urb counted e NtStatus.cancelled 0 none)) [
      | inl q ↦ absurd (ground arith)
      | inr (p, q) ↦ ground (
        arith,
        complete_urb-IsSound counted e NtStatus.cancelled 0 none (statistics-IsSound ctx _ v) q,
      )
    ]
  where
    counted : DeviceContext
    counted = record ctx {
      statistics = record (ctx.statistics) {
        total_urbs_canceled = inc64 ctx.statistics.total_urbs_canceled;
      };
    }

cancel_with-Keeps : (ctx : DeviceContext) (b : List ℕ) → IsSound ctx → Keeps (cancel_with ctx b)
unfolding cancel_with cancel_urb
cancel_with-Keeps ctx b v = Keeps->>= (decode_urb_cancel_request b) _ λ p e.
    Keeps->>= (cancel_urb ctx p.0.urb_id) _
      λ q h. cancel_found-IsSound _ _ q.0 q.1 (find_urb-IsSound ctx p.0.urb_id v) h

module _ (f : Framework) (ctx : DeviceContext) (v : IsSound ctx) where
  complete_urb-Keeps : (r n : ℕ) → Keeps (handle_complete_urb f ctx r n)
  unfolding handle_complete_urb
  complete_urb-Keeps r n = go (f.input_mdl r) (f.retrieve_input r urb_completion_size) refl refl
    where
      go :
          (m : Option (Option (List ℕ))) (b : Retrieved)
          → f.input_mdl r ≡ m
          → f.retrieve_input r urb_completion_size ≡ b
          → Keeps (handle_complete_urb f ctx r n)
      go (some none) b p q = ground arith
      go (some (some c)) b p q = ground (arith, complete_with-Keeps ctx c n v)
      go none (Retrieved.refused s) p q = ground arith
      go none (Retrieved.retrieved c) p q = ground (arith, complete_with-Keeps ctx c n v)

  cancel_urb-Keeps : (r n : ℕ) → Keeps (handle_cancel_urb f ctx r n)
  unfolding handle_cancel_urb
  cancel_urb-Keeps r n = go (f.retrieve_input r urb_cancel_request_size) refl
    where
      go :
          (b : Retrieved)
          → f.retrieve_input r urb_cancel_request_size ≡ b
          → Keeps (handle_cancel_urb f ctx r n)
      go (Retrieved.refused s) e = ground arith
      go (Retrieved.retrieved b) e = ground (arith, cancel_with-Keeps ctx b v)

  handle-Keeps :
      (code : IoctlCode) (r out_len in_len : ℕ) → Keeps (handle f code ctx r out_len in_len)
  unfolding handle
  handle-Keeps IoctlCode.get_version r m n = get_version-Keeps f ctx v r m
  handle-Keeps IoctlCode.plugin_device r m n = plugin_device-Keeps f ctx v r n m
  handle-Keeps IoctlCode.unplug_device r m n = unplug_device-Keeps f ctx v r n
  handle-Keeps IoctlCode.get_device_list r m n = device_list-Keeps f ctx v r m
  handle-Keeps IoctlCode.get_pending_urb r m n = get_pending_urb-Keeps f ctx r m v
  handle-Keeps IoctlCode.complete_urb r m n = complete_urb-Keeps r n
  handle-Keeps IoctlCode.cancel_urb r m n = cancel_urb-Keeps r n
  handle-Keeps IoctlCode.get_statistics r m n = statistics-Keeps f ctx v r m
  handle-Keeps IoctlCode.reset_device r m n = reset_device-Keeps f ctx v r n
  handle-Keeps IoctlCode.set_device_state r m n = v
  handle-Keeps (IoctlCode.other c) r m n = v

-- Every control request, whatever its code, its lengths and the framework's answers, leaves the
-- context sound if it does not fault: sixteen slots with the device of slot i under the number
-- i + 1, and the count of devices and the count of pending requests (mod 2^32) right.
pub io_device_control-IsSound :
    (f : Framework) (code : IoctlCode) (ctx : DeviceContext) (r out_len in_len : ℕ) (d : Dispatched)
    → IsSound ctx
    → io_device_control f code ctx r out_len in_len ≡ some d
    → IsSound d.reply.context
unfolding io_device_control
io_device_control-IsSound f code ctx r m n d v h = elim (Option-cases (handle f code ctx r m n)) [
  | inl q ↦ absurd (ground arith)
  | inr (p, q) ↦
      let k : IsSound p.context = rw q at (handle-Keeps f ctx v code r m n) in ground (arith, k)
]
