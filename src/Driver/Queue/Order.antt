-- ===== src/Driver/Queue/Order.antt =====
-- The order in which pending requests leave the queue, and which one a search takes.
use mathlib.Core.List.{append-nil, append_assoc}
use usb_over_ip.Common.{
  ℕ, zero, suc, ◌≡◌, ◌≢◌, refl, sym, ap, ◌∙◌, List, [], ◌∷◌, ◌++◌, none, some, length, arith, false,
  Option-cases, inl, inr, ◌==◌, Bool-cases, length-append, All, ◌⊎◌,
}
use usb_over_ip.Driver.{UrbEntry, DeviceContext}
use usb_over_ip.Driver.Table.Invariant.{IsSound}
use usb_over_ip.Driver.Queue.{queue_urb, dequeue_urb, take_urb, find_urb, with_urbs}

-- Queueing one after the other, and dequeueing `n` times.
pub fill : DeviceContext → List UrbEntry → DeviceContext
fill ctx [] = ctx
fill ctx (e ∷ es) = fill (queue_urb ctx e) es

pub drain : ℕ → DeviceContext → List UrbEntry × DeviceContext
drain zero ctx = ([], ctx)
drain (suc n) ctx =
    let (o, ctx') = dequeue_urb ctx in
    elim o [ none ↦ ([], ctx') | some e ↦ (e ∷ (drain n ctx').0, (drain n ctx').1) ]

fill_lem :
    (ctx : DeviceContext) (es : List UrbEntry)
    → (fill ctx es).pending_urb_list ≡ ctx.pending_urb_list ++ es
unfolding fill queue_urb
fill_lem ctx [] = sym (append-nil _)
fill_lem ctx (e ∷ es) =
    fill_lem (queue_urb ctx e) es ∙ append_assoc ctx.pending_urb_list (e ∷ []) es

drain_lem :
    (n : ℕ) (ctx : DeviceContext) (es : List UrbEntry)
    → ctx.pending_urb_list ≡ es
    → length es ≡ n
    → ((drain n ctx).0 ≡ es) × ((drain n ctx).1.pending_urb_list ≡ [])
unfolding drain dequeue_urb
drain_lem zero ctx [] p h = (refl, p)
drain_lem zero ctx (e ∷ es) p h = absurd (omega arith)
drain_lem (suc n) ctx [] p h = absurd (omega arith)
drain_lem (suc n) ctx (e ∷ es) p h = ground (arith, drain_lem n (with_urbs ctx es) es)

-- The queue is first in, first out: after any requests are queued behind those that are pending,
-- taking out as many as there are gives them all in that order, and leaves the queue empty.
pub drain-fill :
    (ctx : DeviceContext) (es : List UrbEntry)
    → ((drain (length (ctx.pending_urb_list ++ es)) (fill ctx es)).0 ≡ ctx.pending_urb_list ++ es)
      × ((drain (length (ctx.pending_urb_list ++ es)) (fill ctx es)).1.pending_urb_list ≡ [])
drain-fill ctx es = drain_lem _ (fill ctx es) _ (fill_lem ctx es) refl

-- How the list splits at the entry that a search takes out.
pub record Takes (id : ℕ) (es : List UrbEntry) (e : UrbEntry) (rest : List UrbEntry) : Type 0 where
  pub front : List UrbEntry
  pub back : List UrbEntry
  pub split : es ≡ front ++ e ∷ back
  pub kept : rest ≡ front ++ back
  pub found : e.urb_id ≡ id
  pub first : All (λ (f : UrbEntry). f.urb_id ≢ id) front

ne_of_test : (a b : ℕ) → (a == b) ≡ false → a ≢ b
ne_of_test a b h = ground arith

pub take_urb-some :
    (id : ℕ) (es : List UrbEntry) (e : UrbEntry) (rest : List UrbEntry)
    → take_urb id es ≡ some (e, rest)
    → Takes id es e rest
unfolding take_urb
take_urb-some id [] e rest h = cc
take_urb-some id (x ∷ es) e rest h = elim (Bool-cases (x.urb_id == id)) [
  | inl hit ↦ record {
    front = [];
    back = es;
    split = ground arith;
    kept = ground arith;
    found = ground arith;
    first = tt;
  }
  | inr miss ↦ elim (Option-cases (take_urb id es)) [
    | inl q ↦ absurd (ground arith)
    | inr ((y, ys), q) ↦
        let t = take_urb-some id es y ys q in
        record {
          front = x ∷ t.front;
          back = t.back;
          split = ground (arith, t.split);
          kept = ground (arith, t.kept);
          found = ground (arith, t.found);
          first = (ne_of_test _ _ miss, t.first);
        }
  ]
]

pub take_urb-none :
    (id : ℕ) (es : List UrbEntry) → take_urb id es ≡ none → All (λ (e : UrbEntry). e.urb_id ≢ id) es
unfolding take_urb
take_urb-none id [] h = tt
take_urb-none id (x ∷ es) h = elim (Bool-cases (x.urb_id == id)) [
  | inl hit ↦ absurd (ground arith)
  | inr miss ↦ elim (Option-cases (take_urb id es)) [
    | inl q ↦ (ne_of_test _ _ miss, take_urb-none id es q)
    | inr (p, q) ↦ absurd (ground arith)
  ]
]

pub take_urb-without :
    (id : ℕ) (es : List UrbEntry) → All (λ (e : UrbEntry). e.urb_id ≢ id) es → take_urb id es ≡ none
unfolding take_urb
take_urb-without id [] h = refl
take_urb-without id (x ∷ es) (n, h) = ground (arith, take_urb-without id es h)

-- A search by id takes out the first entry with the id and leaves the others in their order, or
-- leaves the context alone, and then no pending entry has the id.
pub find_urb-Takes :
    (ctx : DeviceContext) (id : ℕ)
    → ((find_urb ctx id ≡ (none, ctx)) × All (λ (e : UrbEntry). e.urb_id ≢ id) ctx.pending_urb_list)
      ⊎ ((e : UrbEntry) × (rest : List UrbEntry) × (find_urb ctx id ≡ (some e, with_urbs ctx rest))
          × Takes id ctx.pending_urb_list e rest)
unfolding find_urb
find_urb-Takes ctx id = elim (Option-cases (take_urb id ctx.pending_urb_list)) [
  | inl q ↦ inl (rw (q, find_urb), take_urb-none id _ q)
  | inr ((e, rest), q) ↦ inr (e, rest, rw (q, find_urb), take_urb-some id _ e rest q)
]

pub queue_urb-IsSound :
    (ctx : DeviceContext) (e : UrbEntry) → IsSound ctx → IsSound (queue_urb ctx e)
unfolding queue_urb
queue_urb-IsSound ctx e v = ground (arith, length-append ctx.pending_urb_list (e ∷ []))

pub dequeue_urb-IsSound : (ctx : DeviceContext) → IsSound ctx → IsSound (dequeue_urb ctx).1
unfolding dequeue_urb
dequeue_urb-IsSound ctx v = ground arith

pub length-Takes :
    (id : ℕ) (es : List UrbEntry) (e : UrbEntry) (rest : List UrbEntry)
    → Takes id es e rest
    → length es ≡ suc (length rest)
length-Takes id es e rest t = omega (
  arith,
  ap length t.split,
  ap length t.kept,
  length-append t.front (e ∷ t.back),
  length-append t.front t.back,
)

pub find_urb-IsSound : (ctx : DeviceContext) (id : ℕ) → IsSound ctx → IsSound (find_urb ctx id).1
find_urb-IsSound ctx id v = elim (find_urb-Takes ctx id) [
  | inl (q, _) ↦ rw q v
  | inr (e, rest, q, t) ↦ rw q (ground (arith, length-Takes id ctx.pending_urb_list e rest t))
]

-- The search takes out the entry at which the list splits.
pub take_urb-Takes :
    (id : ℕ) (es rest : List UrbEntry) (e : UrbEntry)
    → Takes id es e rest
    → take_urb id es ≡ some (e, rest)
unfolding take_urb
take_urb-Takes id es rest e t = rw (t.split, t.kept) (go t.front t.first)
  where
    go :
        (front : List UrbEntry)
        → All (λ (f : UrbEntry). f.urb_id ≢ id) front
        → take_urb id (front ++ e ∷ t.back) ≡ some (e, front ++ t.back)
    go [] a = ground (arith, t.found)
    go (x ∷ xs) a = ground (arith, a.0, go xs a.1)
