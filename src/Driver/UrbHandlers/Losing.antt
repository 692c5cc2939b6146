-- ===== src/Driver/UrbHandlers/Losing.antt =====
-- What becomes of a pending URB once user mode has fetched it.
use mathlib.Core.Path.{subst}
use usb_over_ip.Common.{
  ℕ, ◌<◌, ◌≡◌, refl, sym, List, [], ◌∷◌, ◌++◌, Option, none, some, arith, Option-cases, inl, inr,
  drop, All, ◌≢◌,
}
use usb_over_ip.Ioctl.{UrbCompletion, pending_urb_size}
use usb_over_ip.Ioctl.Layout.{decode_urb_completion}
use usb_over_ip.Driver.{NtStatus, nt_success, UrbEntry, DeviceContext}
use usb_over_ip.Driver.Queue.{queue_urb, dequeue_urb, find_urb, with_urbs, inc64}
use usb_over_ip.Driver.Queue.Order.{take_urb-without}
use usb_over_ip.Driver.Request.{Framework, Retrieved, Reply, status_only, IsDocumented}
use usb_over_ip.Driver.UrbHandlers.{
  fill_pending, pending_data, pending_size, answer_pending, handle_get_pending_urb, complete_found,
  complete_with,
}

fill_pending_context :
    (ctx : DeviceContext) (e : UrbEntry) (b : List ℕ) (r : Reply)
    → fill_pending ctx e b ≡ some r
    → r.context ≡ ctx
unfolding fill_pending
fill_pending_context ctx e b r h = elim (Option-cases (pending_data e (drop pending_urb_size b))) [
  | inl q ↦ ground arith
  | inr (t, q) ↦ ground arith
]

-- A successful answer keeps the context, from which the entry was taken already.
answer_success :
    (f : Framework) (ctx : DeviceContext) (e : UrbEntry) (req m n : ℕ) (r : Reply)
    → IsDocumented f req m n
    → answer_pending f ctx e req n ≡ some r
    → r.status ≡ NtStatus.success
    → r.context ≡ ctx
unfolding answer_pending nt_success
answer_success f ctx e req m n r doc h k =
    go (f.output_mdl req) (f.retrieve_output req pending_urb_size) refl refl
  where
    go :
        (o : Option (Option (List ℕ))) (b : Retrieved)
        → f.output_mdl req ≡ o
        → f.retrieve_output req pending_urb_size ≡ b
        → r.context ≡ ctx
    go (some none) b p q = ground arith
    go (some (some c)) b p q = ground (arith, fill_pending_context ctx e c r)
    go none (Retrieved.refused s) p q = ground (arith, doc.output_refusal pending_urb_size s q)
    go none (Retrieved.retrieved c) p q = ground (arith, fill_pending_context ctx e c r)

fetched_context :
    (f : Framework) (ctx : DeviceContext) (e : UrbEntry) (rest : List UrbEntry) (req m n : ℕ)
    (r : Reply)
    → IsDocumented f req m n
    → ctx.pending_urb_list ≡ e ∷ rest
    → handle_get_pending_urb f ctx req n ≡ some r
    → r.status ≡ NtStatus.success
    → r.context ≡ with_urbs ctx rest
unfolding handle_get_pending_urb dequeue_urb
fetched_context f ctx e rest req m n r doc p h k =
    answer_success f (with_urbs ctx rest) e req m n r doc (ground arith) k

find_urb-without :
    (ctx : DeviceContext) (id : ℕ)
    → All (λ (x : UrbEntry). x.urb_id ≢ id) ctx.pending_urb_list
    → find_urb ctx id ≡ (none, ctx)
unfolding find_urb
find_urb-without ctx id h = rw (take_urb-without id ctx.pending_urb_list h, find_urb)

-- Against the comment in the code, fetching a pending URB takes it out of the list for good: once
-- user mode has successfully fetched the head of the queue, whose id no other pending entry has,
-- every completion of that id is answered `not_found` and changes nothing.
pub fetched_urb_cannot_complete :
    (f : Framework) (ctx : DeviceContext) (e : UrbEntry) (rest : List UrbEntry) (req m n : ℕ)
    (r : Reply) (buffer tail : List ℕ) (c : UrbCompletion) (len : ℕ)
    → IsDocumented f req m n
    → ctx.pending_urb_list ≡ e ∷ rest
    → All (λ (x : UrbEntry). x.urb_id ≢ e.urb_id) rest
    → handle_get_pending_urb f ctx req n ≡ some r
    → r.status ≡ NtStatus.success
    → decode_urb_completion buffer ≡ some (c, tail)
    → c.urb_id ≡ e.urb_id
    → complete_with r.context buffer len ≡ some (status_only NtStatus.not_found r.context)
unfolding complete_with
fetched_urb_cannot_complete f ctx e rest req m n r buffer tail c len doc p w h k d q =
    rw (d, q, found) (unfold complete_found in refl)
  where
    found : find_urb r.context e.urb_id ≡ (none, r.context)
    found = find_urb-without r.context e.urb_id (
        subst
          (λ (t : DeviceContext). All (λ (x : UrbEntry). x.urb_id ≢ e.urb_id) t.pending_urb_list)
          (sym (fetched_context f ctx e rest req m n r doc p h k)) w)

-- A fetch whose buffer is too small for the head of the queue loses no entry: the head goes behind
-- the others, and is counted as submitted once more.
pub fetch_requeues :
    (f : Framework) (ctx : DeviceContext) (e : UrbEntry) (rest : List UrbEntry) (req n : ℕ)
    → ctx.pending_urb_list ≡ e ∷ rest
    → n < pending_size e
    → (r : Reply) × (handle_get_pending_urb f ctx req n ≡ some r)
      × (r.status ≡ NtStatus.buffer_too_small)
      × (r.context.pending_urb_list ≡ rest ++ e ∷ [])
      × (r.context.statistics.total_urbs_submitted ≡ inc64 ctx.statistics.total_urbs_submitted)
unfolding handle_get_pending_urb dequeue_urb answer_pending queue_urb
fetch_requeues f ctx e rest req n p h = (
  status_only NtStatus.buffer_too_small (queue_urb (with_urbs ctx rest) e),
  ground arith,
  refl,
  refl,
  refl,
)
