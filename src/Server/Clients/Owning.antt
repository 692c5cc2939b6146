-- ===== src/Server/Clients/Owning.antt =====
-- The client that a device belongs to.
use usb_over_ip.Common.{
  ℕ, zero, suc, ◌+◌, ◌≡◌, ◌⊎◌, refl, List, [], ◌∷◌, Option, none, some, true, false, Option-cases,
  Bool-cases, inl, inr, get_elem?, arith, ◌&&◌, ◌==◌, All, length, ◌++◌, ap, ◌∙◌,
}
use usb_over_ip.Server.{ClientConnection, ClientDevice, ServerContext}
use usb_over_ip.Server.Clients.{owns, find_from, find_client_for_device}

-- The connection is in use and has the device.
abbrev pub Serves : ClientConnection → ℕ → Type 0
Serves c id = (c.connected ≡ true) × (owns c.devices id ≡ true)

find_from-Serves :
    (cs : List (Option ClientConnection)) (k id slot : ℕ)
    → find_from cs k id ≡ some slot
    → (i : ℕ) × (c : ClientConnection) × (slot ≡ k + i)
      × (get_elem? cs i ≡ some (some c))
      × Serves c id
unfolding find_from
find_from-Serves [] k id slot h = cc
find_from-Serves (none ∷ cs) k id slot h =
    let (i, c, e, g, s) = find_from-Serves cs (k + 1) id slot h in (suc i, c, omega arith, g, s)
find_from-Serves (some c ∷ cs) k id slot h = elim (Bool-cases (c.connected && owns c.devices id)) [
  | inl q ↦ (0, c, ground arith, refl, (ground arith, ground arith))
  | inr q ↦
      let (i, b, e, g, s) = find_from-Serves cs (k + 1) id slot (ground arith) in
      (suc i, b, omega arith, g, s)
]

find_from-none :
    (cs : List (Option ClientConnection)) (k id i : ℕ) (c : ClientConnection)
    → find_from cs k id ≡ none
    → get_elem? cs i ≡ some (some c)
    → (c.connected && owns c.devices id) ≡ false
unfolding find_from
find_from-none [] k id i c h g = cc
find_from-none (none ∷ cs) k id zero c h g = absurd (ground arith)
find_from-none (none ∷ cs) k id (suc i) c h g = find_from-none cs (k + 1) id i c h g
find_from-none (some b ∷ cs) k id zero c h g = ground arith
find_from-none (some b ∷ cs) k id (suc i) c h g = find_from-none cs (k + 1) id i c (ground arith) g

-- The search for the owner of a device gives the slot of a connection that is in use and has the
-- device active, or there is no such connection.
pub find_client_for_device-Serves :
    {D : Type 0} (ctx : ServerContext D) (id : ℕ)
    → ((slot : ℕ) × (c : ClientConnection) × (find_client_for_device ctx id ≡ some slot)
        × (get_elem? ctx.clients slot ≡ some (some c))
        × Serves c id)
      ⊎ ((find_client_for_device ctx id ≡ none)
          × ((slot : ℕ) (c : ClientConnection)
              → get_elem? ctx.clients slot ≡ some (some c)
              → (c.connected && owns c.devices id) ≡ false))
unfolding find_client_for_device
find_client_for_device-Serves ctx id = elim (Option-cases (find_from ctx.clients 0 id)) [
  | inl q ↦ inr (q, λ slot c. find_from-none ctx.clients 0 id slot c q)
  | inr (slot, q) ↦
      let (i, c, e, g, s) = find_from-Serves ctx.clients 0 id slot q in
      inl (i, c, ground arith, g, s)
]

-- A device of a connection that is not the active one with the id.
unfoldable pub IsOther : ℕ → ClientDevice → Type 0
IsOther id d = (d.active && d.device_id == id) ≡ false

-- A slot without a connection that is in use and has the device active.
unfoldable pub Passes : ℕ → Option ClientConnection → Type 0
Passes id none = Unit
Passes id (some c) = (c.connected ≡ false) ⊎ All (IsOther id) c.devices

-- The connection is in use, and that device of it is active and has the id.
pub record Has (id : ℕ) (c : ClientConnection) (d : ClientDevice) : Type 0 where
  pub in_use : c.connected ≡ true
  pub place : ℕ
  pub there : get_elem? c.devices place ≡ some d
  pub active : d.active ≡ true
  pub named : d.device_id ≡ id

owns-IsOther : (id : ℕ) (ds : List ClientDevice) → All (IsOther id) ds → owns ds id ≡ false
unfolding owns IsOther
owns-IsOther id [] a = refl
owns-IsOther id (d ∷ ds) a = rw a.0 (owns-IsOther id ds a.1)

owns-get_elem? :
    (id : ℕ) (ds : List ClientDevice) (d : ClientDevice) (i : ℕ)
    → get_elem? ds i ≡ some d
    → d.active ≡ true
    → d.device_id ≡ id
    → owns ds id ≡ true
unfolding owns
owns-get_elem? id [] d i g a n = cc
owns-get_elem? id (x ∷ ds) d zero g a n = ground (arith, g, a, n)
owns-get_elem? id (x ∷ ds) d (suc i) g a n = ground (arith, owns-get_elem? id ds d i g a n)

passed_over :
    (id : ℕ) (c : ClientConnection)
    → Passes id (some c)
    → (c.connected && owns c.devices id) ≡ false
unfolding Passes
passed_over id c (inl p) = rw p refl
passed_over id c (inr a) = ground (arith, owns-IsOther id c.devices a)

find_from-first :
    (front back : List (Option ClientConnection)) (c : ClientConnection) (k id : ℕ)
    → All (Passes id) front
    → Serves c id
    → find_from (front ++ some c ∷ back) k id ≡ some (k + length front)
unfolding find_from Passes
find_from-first [] back c k id a s = rw (s.0, s.1) (ap some (omega arith))
find_from-first (none ∷ cs) back c k id a s =
    find_from-first cs back c (k + 1) id a.1 s ∙ ap some (omega arith)
find_from-first (some b ∷ cs) back c k id a s =
    rw (passed_over id b a.0) (find_from-first cs back c (k + 1) id a.1 s ∙ ap some (omega arith))

-- The first connection that serves the device is found.
pub find_client_for_device-first :
    {D : Type 0} (ctx : ServerContext D) (id : ℕ) (front back : List (Option ClientConnection))
    (c : ClientConnection) (d : ClientDevice)
    → ctx.clients ≡ front ++ some c ∷ back
    → All (Passes id) front
    → Has id c d
    → find_client_for_device ctx id ≡ some (length front)
unfolding find_client_for_device
find_client_for_device-first ctx id front back c d e a s =
    let serves : Serves c id =
      (s.in_use, owns-get_elem? id c.devices d s.place s.there s.active s.named) in
    rw e (find_from-first front back c 0 id a serves ∙ ap some (omega arith))
