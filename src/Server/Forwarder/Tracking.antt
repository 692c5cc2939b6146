-- ===== src/Server/Forwarder/Tracking.antt =====
-- The tracked requests.
use usb_over_ip.Common.{
  ℕ, ◌+◌, ◌%◌, ◌^◌, ◌≤◌, ◌≡◌, ◌≢◌, ◌⊎◌, refl, List, [], ◌∷◌, ◌++◌, none, some, true, false, length,
  take, arith, Option-cases, Bool-cases, inl, inr, All, ◌==◌,
}
use usb_over_ip.Ioctl.{IoctlCode, urb_completion_size}
use usb_over_ip.Ioctl.Layout.{encode_urb_completion}
use usb_over_ip.Driver.Table.{dec32}
use usb_over_ip.Server.{ServerContext, Platform, Tracked, UrbContext, control}
use usb_over_ip.Server.Forwarder.{take_tracked, complete_tracked, server_urb_complete}

-- The request t is the first with the id, and `rest` is the list without it.
pub record TakesTracked (id : ℕ) (ts : List Tracked) (t : Tracked) (rest : List Tracked)
    : Type 0 where
  pub front : List Tracked
  pub back : List Tracked
  pub split : ts ≡ front ++ t ∷ back
  pub kept : rest ≡ front ++ back
  pub found : t.urb_id ≡ id
  pub first : All (λ (x : Tracked). x.urb_id ≢ id) front

take_tracked-TakesTracked :
    (id : ℕ) (ts : List Tracked) (t : Tracked) (rest : List Tracked)
    → take_tracked id ts ≡ some (t, rest)
    → TakesTracked id ts t rest
unfolding take_tracked
take_tracked-TakesTracked id [] t rest h = cc
take_tracked-TakesTracked id (x ∷ ts) t rest h = elim (Bool-cases (x.urb_id == id)) [
  | inl hit ↦ record {
    front = [];
    back = ts;
    split = ground arith;
    kept = ground arith;
    found = ground arith;
    first = tt;
  }
  | inr miss ↦ elim (Option-cases (take_tracked id ts)) [
    | inl q ↦ absurd (ground arith)
    | inr ((y, ys), q) ↦
        let t = take_tracked-TakesTracked id ts y ys q in
        record {
          front = x ∷ t.front;
          back = t.back;
          split = ground (arith, t.split);
          kept = ground (arith, t.kept);
          found = ground (arith, t.found);
          first = (λ e. absurd (ground arith), t.first);
        }
  ]
]

take_tracked-none :
    (id : ℕ) (ts : List Tracked)
    → take_tracked id ts ≡ none
    → All (λ (x : Tracked). x.urb_id ≢ id) ts
unfolding take_tracked
take_tracked-none id [] h = tt
take_tracked-none id (x ∷ ts) h = elim (Bool-cases (x.urb_id == id)) [
  | inl hit ↦ absurd (ground arith)
  | inr miss ↦ elim (Option-cases (take_tracked id ts)) [
    | inl q ↦ (λ e. absurd (ground arith), take_tracked-none id ts q)
    | inr (p, q) ↦ absurd (ground arith)
  ]
]

-- With an open driver, memory, and data of at least the given length, the completion of an id takes
-- the first tracked request with that id out of the list, and the driver completes that id for the
-- device of the request, with the given status and exactly the given bytes, as far as the length
-- in 32 bits reaches. If no tracked request
-- has the id, it is refused, and nothing changes.
pub server_urb_complete_takes :
    {D : Type 0} (sys : Platform D) (u : UrbContext) (ctx : ServerContext D) (d : D)
    (id status actual : ℕ) (payload fresh : List ℕ)
    → ctx.driver ≡ some d
    → sys.malloc (urb_completion_size + actual) ≡ true
    → actual ≤ length payload
    → ((server_urb_complete sys u ctx id status actual (some payload) fresh ≡ some (false, u, ctx))
        × All (λ (x : Tracked). x.urb_id ≢ id) u.pending_list)
      ⊎ ((t : Tracked) × (rest : List Tracked) × TakesTracked id u.pending_list t rest
          × (server_urb_complete sys u ctx id status actual (some payload) fresh
              ≡ some (
                true,
                record { pending_list = rest; pending_count = dec32 u.pending_count },
                (control sys ctx IoctlCode.complete_urb (
                    take ((urb_completion_size + actual) % 2 ^ 32) (
                      encode_urb_completion
                        (record {
                          device_id = t.device_id;
                          urb_id = id;
                          sequence_number = 0;
                          status = status;
                          actual_length = actual;
                        })
                        (take actual payload)))).1,
              )))
unfolding server_urb_complete complete_tracked
server_urb_complete_takes sys u ctx d id status actual payload fresh o m h =
    elim (Option-cases (take_tracked id u.pending_list)) [
      | inl q ↦ inl (rw (q, server_urb_complete) refl, take_tracked-none id u.pending_list q)
      | inr ((t, rest), q) ↦
          inr
            (t, rest, take_tracked-TakesTracked id u.pending_list t rest q, ground (arith, q, o, m))
    ]
