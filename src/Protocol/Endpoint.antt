-- ===== src/Protocol/Endpoint.antt =====
-- The endpoint macros of protocol/vusb_protocol.h.
use usb_over_ip.Common.{
  ℕ, zero, suc, ◌%◌, ◌<◌, ◌≤◌, ◌≡◌, refl, Bool, true, Bool-cases, inl, inr, ◌&&◌, ◌==◌, ltb, arith,
}
use usb_over_ip.Protocol.{make_endpoint, endpoint_number, endpoint_direction}

-- Over each byte and each direction the macros take an address apart again.
splits : ℕ → ℕ → Bool
unfolding make_endpoint endpoint_number endpoint_direction
splits dir num =
    endpoint_number (make_endpoint num dir) == num % 16
    && endpoint_direction (make_endpoint num dir) == dir
    && ltb (make_endpoint num dir) 256

-- The same for all the numbers up to a given one.
splits_up_to : ℕ → ℕ → Bool
splits_up_to dir zero = splits dir 0
splits_up_to dir (suc k) = splits_up_to dir k && splits dir (suc k)

look_up : (dir k num : ℕ) → splits_up_to dir k ≡ true → num ≤ k → splits dir num ≡ true
unfolding splits_up_to
look_up dir zero zero h l = h
look_up dir zero (suc num) h l = absurd (omega arith)
look_up dir (suc k) num h l = elim (Bool-cases (num == suc k)) [
  | inl e ↦ ground arith
  | inr e ↦ ground (arith, look_up dir k num)
]

bytes_split : (splits_up_to 0 255 ≡ true) × (splits_up_to 1 255 ≡ true)
unfolding splits_up_to splits
bytes_split = (refl, refl)

abbrev Splits : ℕ → ℕ → Type 0
Splits num dir =
    (endpoint_number (make_endpoint num dir) ≡ num % 16)
    × (endpoint_direction (make_endpoint num dir) ≡ dir)
    × (make_endpoint num dir < 256)

splits-Splits : (num dir : ℕ) → splits dir num ≡ true → Splits num dir
unfolding splits
splits-Splits num dir h = ground arith

-- For any endpoint number of a byte and either direction, the address fits a byte, and the macros
-- give back the number's low four bits and the direction.
pub make_endpoint_splits :
    (num dir : ℕ)
    → num < 256
    → dir < 2
    → (endpoint_number (make_endpoint num dir) ≡ num % 16)
      × (endpoint_direction (make_endpoint num dir) ≡ dir)
      × (make_endpoint num dir < 256)
make_endpoint_splits num zero h d =
    splits-Splits num 0 (look_up 0 255 num bytes_split.0 (omega arith))
make_endpoint_splits num (suc zero) h d =
    splits-Splits num 1 (look_up 1 255 num bytes_split.1 (omega arith))
make_endpoint_splits num (suc (suc dir)) h d = absurd (omega arith)
