-- ===== src/Driver/UrbHandlers/Fetching.antt =====
-- The buffer accesses of the handler of fetches.
use usb_over_ip.Common.{
  ℕ, ◌+◌, ◌≤◌, ◌<◌, ◌≡◌, ◌≢◌, refl, List, ◌∷◌, Option, none, some, arith, Option-cases, inl, inr,
  ◌==◌, ltb, length, Bool-cases, drop, ◌&&◌, ◌||◌, not, Bool, false, [], leb, is_some,
  if◌then◌else◌, ◌∙◌, ap, length-drop,
}
use usb_over_ip.Protocol.Direction
use usb_over_ip.Ioctl.{pending_urb_size}
use usb_over_ip.Driver.{UrbEntry, DeviceContext}
use usb_over_ip.Driver.Queue.{dequeue_urb, with_urbs}
use usb_over_ip.Driver.Queue.Completing.{copy_memory_lem}
use usb_over_ip.Driver.Request.{Framework, Retrieved, IsDocumented, maps}
use usb_over_ip.Driver.UrbHandlers.{
  fill_pending, pending_data, pending_size, answer_pending, handle_get_pending_urb,
}
use usb_over_ip.Driver.UrbHandlers.Safety.{IsSized, is_some_ne}

-- A pending OUT entry with data that lies only in a memory descriptor list, its transfer buffer
-- null, makes the fetch fault as soon as the output buffer is large enough: the null pointer is read.
pub fetch_mdl_faults :
    (f : Framework) (ctx : DeviceContext) (e : UrbEntry) (rest : List UrbEntry) (req n : ℕ)
    (b : List ℕ)
    → ctx.pending_urb_list ≡ e ∷ rest
    → e.direction ≡ Direction.out
    → 0 < e.transfer_buffer_length
    → e.transfer_buffer ≡ none
    → pending_urb_size + e.transfer_buffer_length ≤ n
    → f.output_mdl req ≡ some (some b)
    → handle_get_pending_urb f ctx req n ≡ none
unfolding handle_get_pending_urb dequeue_urb answer_pending fill_pending pending_data
fetch_mdl_faults f ctx e rest req n b p d l t h o = ground arith

pending_data_total :
    (e : UrbEntry) (tail : List ℕ)
    → IsSized e
    → (e.direction ≡ Direction.out → 0 < e.transfer_buffer_length → e.transfer_buffer ≢ none)
    → (e.direction ≡ Direction.out → e.transfer_buffer_length ≤ length tail)
    → pending_data e tail ≢ none
unfolding pending_data
pending_data_total e tail h k l =
    elim (Bool-cases (e.direction == Direction.out && ltb 0 e.transfer_buffer_length)) [
      | inl q ↦ elim (Option-cases e.transfer_buffer) [
        | inl p ↦ absurd (k (ground arith) (ground arith) p)
        | inr (b, p) ↦
            ground
              (arith, copy_memory_lem tail b e.transfer_buffer_length (l (ground arith)) (h b p))
      ]
      | inr q ↦ rw q (λ e. cc)
    ]

fill_pending_total :
    (ctx : DeviceContext) (e : UrbEntry) (b : List ℕ)
    → IsSized e
    → (e.direction ≡ Direction.out → 0 < e.transfer_buffer_length → e.transfer_buffer ≢ none)
    → pending_size e ≤ length b
    → fill_pending ctx e b ≢ none
unfolding fill_pending
fill_pending_total ctx e b h k l = ground (
  arith,
  pending_data_total e (drop pending_urb_size b) h k
      (λ d. ground (arith, length-drop pending_urb_size b)),
)

-- What the driver needs of an entry to hand it out: the announced bytes, not in a memory list only.
pub record IsReadable (e : UrbEntry) : Type 0 where
  pub sized : IsSized e
  pub mapped : e.direction ≡ Direction.out → 0 < e.transfer_buffer_length → e.transfer_buffer ≢ none

answer_pending_faults :
    (f : Framework) (ctx : DeviceContext) (e : UrbEntry) (req m n : ℕ)
    → IsDocumented f req m n
    → IsReadable e
    → is_some (answer_pending f ctx e req n) ≡ (ltb n (pending_size e) || maps (f.output_mdl req))
unfolding answer_pending
answer_pending_faults f ctx e req m n doc v = elim (Bool-cases (ltb n (pending_size e))) [
  | inl q ↦ rw (q, answer_pending) refl
  | inr q ↦ go q (f.output_mdl req) (f.retrieve_output req pending_urb_size) refl refl
]
  where
    go :
        ltb n (pending_size e) ≡ false
        → (o : Option (Option (List ℕ))) (b : Retrieved) → f.output_mdl req ≡ o
        → f.retrieve_output req pending_urb_size ≡ b
        → is_some (answer_pending f ctx e req n)
          ≡ (ltb n (pending_size e) || maps (f.output_mdl req))
    go t (some none) b p q = rw (t, p, answer_pending) refl
    go t (some (some c)) b p q =
        let fine =
          fill_pending_total ctx e c v.sized v.mapped (ground (arith, doc.output_mdl_lem c p)) in
        rw (t, p, answer_pending) (is_some_ne (fill_pending ctx e c) fine)
    go t none (Retrieved.refused s) p q = rw (t, p, q, answer_pending) refl
    go t none (Retrieved.retrieved c) p q =
        let fine =
          fill_pending_total ctx e c v.sized v.mapped
            (ground (arith, doc.output_length_lem pending_urb_size c q)) in
        rw (t, p, q, answer_pending) (is_some_ne (fill_pending ctx e c) fine)

-- The entry that a fetch hands out, if there is one.
unfoldable pub HeadIsReadable : List UrbEntry → Type 0
HeadIsReadable [] = Unit
HeadIsReadable (e ∷ es) = IsReadable e

-- Whether there is an entry to hand out, and room for the structure and the data of an OUT entry.
unfoldable pub has_room : List UrbEntry → ℕ → Bool
has_room [] n = false
has_room (e ∷ es) n =
    leb (if e.direction == Direction.out then 36 + e.transfer_buffer_length else 36) n

short_of :
    (e : UrbEntry) (es : List UrbEntry) (n : ℕ) → ltb n (pending_size e) ≡ not (has_room (e ∷ es) n)
unfolding has_room
short_of e es n = ground arith

-- Where the framework behaves as documented, and the transfer buffer of the first pending entry, if
-- there is one, holds the announced length and, for an OUT entry with data, is not null: a fetch goes
-- outside the memory exactly if there is such an entry, the output has room for the structure and
-- its data, and the direct buffer cannot be mapped, which the code does not test.
pub handle_get_pending_urb_faults :
    (f : Framework) (ctx : DeviceContext) (req m n : ℕ)
    → IsDocumented f req m n
    → HeadIsReadable ctx.pending_urb_list
    → is_some (handle_get_pending_urb f ctx req n)
      ≡ (not (has_room ctx.pending_urb_list n) || maps (f.output_mdl req))
unfolding handle_get_pending_urb dequeue_urb HeadIsReadable has_room
handle_get_pending_urb_faults f ctx req m n doc a = go ctx.pending_urb_list refl a
  where
    go :
        (es : List UrbEntry)
        → ctx.pending_urb_list ≡ es
        → HeadIsReadable es
        → is_some (handle_get_pending_urb f ctx req n)
          ≡ (not (has_room es n) || maps (f.output_mdl req))
    go [] p h = rw p refl
    go (e ∷ es) p h = rw p (
        answer_pending_faults f (with_urbs ctx es) e req m n doc h
        ∙ ap (λ b. b || maps (f.output_mdl req)) (short_of e es n))
