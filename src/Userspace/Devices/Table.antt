-- ===== src/Userspace/Devices/Table.antt =====
-- userspace/vusb_userspace.c: the array of devices as a map from ids to devices.
use usb_over_ip.Common.{
  ℕ, ◌≤◌, ◌<◌, ◌≡◌, refl, sym, ◌∙◌, List, [], ◌∷◌, true, ◌&&◌, none, some, ◌==◌, if◌then◌else◌,
  arith, Option-cases, Bool-cases, inl, inr, is_some,
}
use mathlib.Core.Path.{subst, subst⁻¹}
use mathlib.Core.Option
use usb_over_ip.Userspace.{UserDevice, UserContext}
use usb_over_ip.Userspace.Devices.{fill_slot, first_device, change_first, cleaned, has_free_slot}

-- The active devices have ids up to that number, no two of them the same.
unfoldable pub HasDistinctIds : ℕ → List UserDevice → Type 0
HasDistinctIds n [] = Unit
HasDistinctIds n (d ∷ ds) =
    (d.active ≡ true → (d.device_id ≤ n) × (first_device d.device_id ds ≡ none))
    × HasDistinctIds n ds

-- No device has an id above the bound.
pub first_device_above :
    (n : ℕ) (ds : List UserDevice) (id : ℕ)
    → HasDistinctIds n ds
    → n < id
    → first_device id ds ≡ none
unfolding first_device HasDistinctIds
first_device_above n [] id h l = refl
first_device_above n (d ∷ ds) id h l = elim (Bool-cases d.active) [
  | inl q ↦ ground (arith, q, h.0 q, first_device_above n ds id h.1 l)
  | inr q ↦ rw q (first_device_above n ds id h.1 l)
]

-- A device put in a free slot is found by its id, and the others are found as before.
pub first_device-fill_slot :
    (n : UserDevice) (ds es : List UserDevice) (id : ℕ)
    → fill_slot n ds ≡ some es
    → n.active ≡ true
    → first_device n.device_id ds ≡ none
    → first_device id es ≡ (if n.device_id == id then some n else first_device id ds)
unfolding first_device fill_slot
first_device-fill_slot n [] es id h a f = absurd (ground arith)
first_device-fill_slot n (d ∷ ds) es id h a f = elim (Option-cases (fill_slot n ds)) [
  | inl q ↦ ground (arith, q)
  | inr (r, q) ↦ ground (arith, q, first_device-fill_slot n ds r id q a)
]

-- A device that is cleaned up is found no more, and the others are found as before.
pub first_device-cleaned :
    (n id : ℕ) (ds es : List UserDevice) (j : ℕ)
    → HasDistinctIds n ds
    → change_first cleaned id ds ≡ some es
    → first_device j es ≡ (if id == j then none else first_device j ds)
unfolding first_device change_first HasDistinctIds
first_device-cleaned n id [] es j h e = absurd (ground arith)
first_device-cleaned n id (d ∷ ds) es j h e = elim (Bool-cases (d.active && d.device_id == id)) [
  | inl q ↦
      let here = h.0 (ground (arith, q)) in
      let same : d.device_id ≡ id = ground (arith, q) in
      ground (arith, q, e, subst (λ i. first_device i ds ≡ none) same here.1)
  | inr q ↦ elim (Option-cases (change_first cleaned id ds)) [
    | inl p ↦ absurd (ground arith)
    | inr (r, p) ↦ ground (arith, first_device-cleaned n id ds r j h.1 p)
  ]
]

-- What keeps the ids of devices keeps what is found.
pub record KeepsId (f : UserDevice → UserDevice) : Type 0 where
  pub keeps_active : (d : UserDevice) → (f d).active ≡ d.active
  pub keeps_device_id : (d : UserDevice) → (f d).device_id ≡ d.device_id

-- A changed device is found by its id, and the others are found as before.
pub first_device-change_first :
    (f : UserDevice → UserDevice) (id : ℕ) (ds es : List UserDevice) (j : ℕ)
    → KeepsId f
    → change_first f id ds ≡ some es
    → first_device j es ≡ (if id == j then Option.map f (first_device j ds) else first_device j ds)
unfolding first_device change_first
first_device-change_first f id [] es j k e = absurd (ground arith)
first_device-change_first f id (d ∷ ds) es j k e =
    elim (Bool-cases (d.active && d.device_id == id)) [
      | inl q ↦ ground (arith, q, k.keeps_active d, k.keeps_device_id d)
      | inr q ↦ elim (Option-cases (change_first f id ds)) [
        | inl p ↦ absurd (ground arith)
        | inr (r, p) ↦ ground (arith, first_device-change_first f id ds r j k p)
      ]
    ]

HasDistinctIds-weaken :
    (n m : ℕ) (ds : List UserDevice) → n ≤ m → HasDistinctIds n ds → HasDistinctIds m ds
unfolding HasDistinctIds
HasDistinctIds-weaken n m [] l h = h
HasDistinctIds-weaken n m (d ∷ ds) l h =
    (λ a. (omega (arith, (h.0 a).0), (h.0 a).1), HasDistinctIds-weaken n m ds l h.1)

-- A free slot filled with a device that has a larger id.
pub fill_slot-HasDistinctIds :
    (n : ℕ) (d : UserDevice) (ds es : List UserDevice)
    → HasDistinctIds n ds
    → n < d.device_id
    → d.active ≡ true
    → fill_slot d ds ≡ some es
    → HasDistinctIds d.device_id es
unfolding fill_slot HasDistinctIds
fill_slot-HasDistinctIds n d [] es h l a e = absurd (ground arith)
fill_slot-HasDistinctIds n d (x ∷ ds) es h l a e = elim (Bool-cases x.active) [
  | inl q ↦ elim (Option-cases (fill_slot d ds)) [
    | inl p ↦ absurd (ground arith)
    | inr (r, p) ↦
        let whole : es ≡ x ∷ r = ground (arith, q, p) in
        let (low, once) = h.0 q in
        let other : first_device x.device_id r ≡ none = ground (
          arith,
          first_device-fill_slot d ds r x.device_id p a (first_device_above n ds d.device_id h.1 l),
          low,
          once,
        ) in
        subst⁻¹ (HasDistinctIds d.device_id) whole
          (λ _. (omega (arith, low), other), fill_slot-HasDistinctIds n d ds r h.1 l a p)
  ]
  | inr q ↦
      let whole : es ≡ d ∷ ds = ground (arith, q) in
      subst⁻¹ (HasDistinctIds d.device_id) whole (
        λ _. (omega arith, first_device_above n ds d.device_id h.1 l),
        HasDistinctIds-weaken n d.device_id ds (omega arith) h.1,
      )
]

-- The ids are distinct, and no id is new.
unfoldable pub StillDistinct : ℕ → List UserDevice → List UserDevice → Type 0
StillDistinct n ds es =
    HasDistinctIds n es × ((j : ℕ) → first_device j ds ≡ none → first_device j es ≡ none)

-- Changes that keep the ids, or clean the device up.
pub change_first-HasDistinctIds :
    (f : UserDevice → UserDevice) (n id : ℕ) (ds es : List UserDevice)
    → ((d : UserDevice) → (f d).active ≡ true → d.active ≡ true)
    → ((d : UserDevice) → (f d).device_id ≡ d.device_id)
    → HasDistinctIds n ds
    → change_first f id ds ≡ some es
    → StillDistinct n ds es
unfolding StillDistinct change_first HasDistinctIds first_device
change_first-HasDistinctIds f n id [] es a k h e = absurd (ground arith)
change_first-HasDistinctIds f n id (d ∷ ds) es a k h e =
    elim (Bool-cases (d.active && d.device_id == id)) [
      | inl q ↦
          let whole : es ≡ f d ∷ ds = ground (arith, q) in
          subst⁻¹ (StillDistinct n (d ∷ ds)) whole (
            (λ b. subst⁻¹ (λ i. (i ≤ n) × (first_device i ds ≡ none)) (k d) (h.0 (a d b)), h.1),
            λ j m. ground (arith, q, m, k d),
          )
      | inr q ↦ elim (Option-cases (change_first f id ds)) [
        | inl p ↦ absurd (ground arith)
        | inr (r, p) ↦
            let (later, kept) = change_first-HasDistinctIds f n id ds r a k h.1 p in
            let whole : es ≡ d ∷ r = ground (arith, q, p) in
            subst⁻¹ (StillDistinct n (d ∷ ds)) whole (
              (λ b. ((h.0 b).0, kept d.device_id (h.0 b).1), later),
              λ j m. ground (arith, m, kept j),
            )
      ]
    ]

pub change_first-KeepsId :
    (f : UserDevice → UserDevice) (n id : ℕ) (ds es : List UserDevice)
    → KeepsId f
    → HasDistinctIds n ds
    → change_first f id ds ≡ some es
    → HasDistinctIds n es
unfolding StillDistinct
change_first-KeepsId f n id ds es k h e =
    (change_first-HasDistinctIds f n id ds es (λ d a. sym (k.keeps_active d) ∙ a) k.keeps_device_id
      h e).0

-- The devices of the server have distinct ids, and the next id is above them.
abbrev pub IsSound : UserContext → Type 0
IsSound ctx = HasDistinctIds ctx.next_device_id ctx.devices

-- The search for a free slot finds one where there is one.
pub has_free_slot-fill_slot :
    (n : UserDevice) (ds : List UserDevice) → is_some (fill_slot n ds) ≡ has_free_slot ds
unfolding fill_slot has_free_slot
has_free_slot-fill_slot n [] = refl
has_free_slot-fill_slot n (d ∷ ds) = elim (Option-cases (fill_slot n ds)) [
  | inl q ↦ ground (arith, q, has_free_slot-fill_slot n ds)
  | inr (r, q) ↦ ground (arith, q, has_free_slot-fill_slot n ds)
]

-- A change is made exactly where a device is found.
pub first_device-some :
    (f : UserDevice → UserDevice) (id : ℕ) (ds : List UserDevice)
    → is_some (change_first f id ds) ≡ is_some (first_device id ds)
unfolding change_first first_device
first_device-some f id [] = refl
first_device-some f id (d ∷ ds) = elim (Option-cases (change_first f id ds)) [
  | inl q ↦ ground (arith, q, first_device-some f id ds)
  | inr (r, q) ↦ ground (arith, q, first_device-some f id ds)
]
