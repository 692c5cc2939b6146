-- ===== src/Driver/Table/Slots.antt =====
-- Facts on an array of slots: the first free one, the count of those in use, and their numbers.
use usb_over_ip.Common.{
  ℕ, zero, suc, ◌+◌, ◌≤◌, ◌<◌, ◌≡◌, refl, ap, List, [], ◌∷◌, Option, none, some, get_elem?, set,
  length, arith, ◌≢◌,
}
use usb_over_ip.Driver.{VirtualDevice}
use usb_over_ip.Driver.Table.{free_slot}

module _ {ℓ} {A : Type ℓ} where
  abbrev pub count_some : List (Option A) → ℕ
  count_some [] = 0
  count_some (none ∷ ds) = count_some ds
  count_some (some d ∷ ds) = suc (count_some ds)

module _ {ℓ} {A : Type ℓ} where
  pub count_some-le-length : (ds : List (Option A)) → count_some ds ≤ length ds
  count_some-le-length [] = omega arith
  count_some-le-length (none ∷ ds) = omega (arith, count_some-le-length ds)
  count_some-le-length (some d ∷ ds) = omega (arith, count_some-le-length ds)

  pub free_slot-get_elem? :
      (ds : List (Option A)) (i : ℕ) → free_slot ds ≡ some i → get_elem? ds i ≡ some none
  unfolding free_slot
  free_slot-get_elem? [] i e = cc
  free_slot-get_elem? (none ∷ ds) i e = ground arith
  free_slot-get_elem? (some d ∷ ds) zero e = ground arith
  free_slot-get_elem? (some d ∷ ds) (suc i) e = ground (arith, free_slot-get_elem? ds i)

  pub free_slot_first :
      (ds : List (Option A)) (i j : ℕ) → free_slot ds ≡ some i → j < i → get_elem? ds j ≢ some none
  unfolding free_slot
  free_slot_first [] i j e h = cc
  free_slot_first (none ∷ ds) i j e h = ground arith
  free_slot_first (some d ∷ ds) i zero e h = λ p. cc
  free_slot_first (some d ∷ ds) zero (suc j) e h = absurd (omega arith)
  free_slot_first (some d ∷ ds) (suc i) (suc j) e h = ground (arith, free_slot_first ds i j)

  -- A search that fails has seen a full array.
  pub free_slot_full : (ds : List (Option A)) → free_slot ds ≡ none → count_some ds ≡ length ds
  unfolding free_slot
  free_slot_full [] e = refl
  free_slot_full (none ∷ ds) e = cc
  free_slot_full (some d ∷ ds) e = ground (arith, free_slot_full ds)

  pub free_slot-lt :
      (ds : List (Option A)) (i : ℕ) → free_slot ds ≡ some i → count_some ds < length ds
  unfolding free_slot
  free_slot-lt [] i e = cc
  free_slot-lt (none ∷ ds) i e = omega (arith, count_some-le-length ds)
  free_slot-lt (some d ∷ ds) zero e = ground arith
  free_slot-lt (some d ∷ ds) (suc i) e = ground (arith, free_slot-lt ds i)

  pub count_some-set-some :
      (ds : List (Option A)) (i : ℕ) (d : A)
      → get_elem? ds i ≡ some none
      → count_some (set ds i (some d)) ≡ suc (count_some ds)
  count_some-set-some [] i d e = cc
  count_some-set-some (none ∷ ds) zero d e = refl
  count_some-set-some (some x ∷ ds) zero d e = cc
  count_some-set-some (none ∷ ds) (suc i) d e = count_some-set-some ds i d e
  count_some-set-some (some x ∷ ds) (suc i) d e = ap suc (count_some-set-some ds i d e)

  pub count_some-set-none :
      (ds : List (Option A)) (i : ℕ) {d : A}
      → get_elem? ds i ≡ some (some d)
      → suc (count_some (set ds i none)) ≡ count_some ds
  count_some-set-none [] i e = cc
  count_some-set-none (none ∷ ds) zero e = cc
  count_some-set-none (some x ∷ ds) zero e = refl
  count_some-set-none (none ∷ ds) (suc i) e = count_some-set-none ds i e
  count_some-set-none (some x ∷ ds) (suc i) e = ap suc (count_some-set-none ds i e)

  pub count_some-set_same :
      (ds : List (Option A)) (i : ℕ) (v : A) {d : A}
      → get_elem? ds i ≡ some (some d)
      → count_some (set ds i (some v)) ≡ count_some ds
  count_some-set_same [] i v e = cc
  count_some-set_same (none ∷ ds) zero v e = cc
  count_some-set_same (some x ∷ ds) zero v e = refl
  count_some-set_same (none ∷ ds) (suc i) v e = count_some-set_same ds i v e
  count_some-set_same (some x ∷ ds) (suc i) v e = ap suc (count_some-set_same ds i v e)

-- The device in slot i has the id and the port i + 1, counting from `k`.
abbrev pub IsNumbered : List (Option VirtualDevice) → ℕ → Type 0
IsNumbered [] k = Unit {0}
IsNumbered (none ∷ ds) k = IsNumbered ds (k + 1)
IsNumbered (some d ∷ ds) k = (d.device_id ≡ k + 1) × (d.port_number ≡ k + 1) × IsNumbered ds (k + 1)

abbrev pub HasNumber : Option VirtualDevice → ℕ → Type 0
HasNumber none k = Unit {0}
HasNumber (some d) k = (d.device_id ≡ k) × (d.port_number ≡ k)

pub IsNumbered-set :
    (ds : List (Option VirtualDevice)) (i k j : ℕ) (o : Option VirtualDevice)
    → j ≡ k + i + 1
    → HasNumber o j
    → IsNumbered ds k
    → IsNumbered (set ds i o) k
IsNumbered-set [] i k j o e h n = tt
IsNumbered-set (none ∷ ds) zero k j none e h n = n
IsNumbered-set (none ∷ ds) zero k j (some v) e h n = (omega arith, omega arith, n)
IsNumbered-set (some d ∷ ds) zero k j none e h n = n.2
IsNumbered-set (some d ∷ ds) zero k j (some v) e h n = (omega arith, omega arith, n.2)
IsNumbered-set (none ∷ ds) (suc i) k j o e h n = IsNumbered-set ds i (k + 1) j o (omega arith) h n
IsNumbered-set (some d ∷ ds) (suc i) k j o e h n =
    (n.0, n.1, IsNumbered-set ds i (k + 1) j o (omega arith) h n.2)

pub IsNumbered-get_elem? :
    (ds : List (Option VirtualDevice)) (i k j : ℕ) (d : VirtualDevice)
    → j ≡ k + i + 1
    → IsNumbered ds k
    → get_elem? ds i ≡ some (some d)
    → (d.device_id ≡ j) × (d.port_number ≡ j)
IsNumbered-get_elem? [] i k j d e n g = cc
IsNumbered-get_elem? (none ∷ ds) zero k j d e n g = cc
IsNumbered-get_elem? (some x ∷ ds) zero k j d e n g = ground arith
IsNumbered-get_elem? (none ∷ ds) (suc i) k j d e n g =
    IsNumbered-get_elem? ds i (k + 1) j d (omega arith) n g
IsNumbered-get_elem? (some x ∷ ds) (suc i) k j d e n g =
    IsNumbered-get_elem? ds i (k + 1) j d (omega arith) n.2 g
