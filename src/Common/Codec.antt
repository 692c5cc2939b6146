-- ===== src/Common/Codec.antt =====
-- Packed little-endian structures: numbers of a fixed count of bytes, and decoders that take their
-- fields one after the other. The last declarations are memcpy and reads at an offset.
use mathlib.Core.List.{List, [], ◌∷◌, ◌++◌, append-nil}
use mathlib.Core.Option.{Option, none, some}
use mathlib.Core.Path.{◌≡◌, refl, ap, subst}
use Prim.Native.Nat.{ℕ, zero, suc, ◌+◌, ◌*◌, ◌/◌, ◌%◌, ◌^◌, ◌≤◌, ◌<◌}
use native.Mathlib.Omega.{arith}
use usb_over_ip.Common.Tests.{leb, le→leb, if◌then◌else◌, ◌>>=◌}
use usb_over_ip.Common.Lists.{
  length, take, drop, length-append, take-append, drop-append, length-drop, length-take,
}

unfoldable pub to_le : ℕ → ℕ → List ℕ
to_le zero n = []
to_le (suc k) n = n % 256 ∷ to_le k (n / 256)

unfoldable pub from_le : List ℕ → ℕ
from_le [] = 0
from_le (b ∷ bs) = b + 256 * from_le bs

pub length-to_le : (k n : ℕ) → length (to_le k n) ≡ k
unfolding to_le
length-to_le zero n = refl
length-to_le (suc k) n = ap suc (length-to_le k (n / 256))

pub from_le-to_le : (k n : ℕ) → n < 256 ^ k → from_le (to_le k n) ≡ n
unfolding to_le from_le
from_le-to_le zero n h = omega arith
from_le-to_le (suc k) n h = omega (arith, from_le-to_le k (n / 256) (omega arith))

abbrev pub Decoder : Type 0 → Type 0
Decoder A = List ℕ → Option (A × List ℕ)

-- Copies `k` bytes from the front; `none` is a read past the end.
unfoldable pub bytes : ℕ → Decoder (List ℕ)
bytes k bs = if leb k (length bs) then some (take k bs, drop k bs) else none

unfoldable pub uint : ℕ → Decoder ℕ
unfolding bytes
uint k bs = bytes k bs >>= λ (p : List ℕ × List ℕ). some (from_le p.0, p.1)

pub bytes-append :
    (k : ℕ) (xs rest : List ℕ) → length xs ≡ k → bytes k (xs ++ rest) ≡ some (xs, rest)
unfolding bytes
bytes-append k xs rest h = rw (
  le→leb k (length (xs ++ rest)) (omega (arith, length-append xs rest)),
  take-append k xs rest h,
  drop-append k xs rest h,
)

pub uint-to_le :
    (k n : ℕ) (rest : List ℕ) → n < 256 ^ k → uint k (to_le k n ++ rest) ≡ some (n, rest)
unfolding uint
uint-to_le k n rest h = rw (bytes-append k (to_le k n) rest (length-to_le k n), from_le-to_le k n h)

pub uint-to_le_last : (k n : ℕ) → n < 256 ^ k → uint k (to_le k n) ≡ some (n, [])
uint-to_le_last k n h =
    subst (λ bs. uint k bs ≡ some (n, [])) (append-nil (to_le k n)) (uint-to_le k n [] h)

pub bytes_total :
    (k : ℕ) (bs : List ℕ)
    → k ≤ length bs
    → (bytes k bs ≡ some (take k bs, drop k bs))
      × (length (drop k bs) + k ≡ length bs)
      × (length (take k bs) ≡ k)
unfolding bytes
bytes_total k bs h =
    (rw (le→leb k (length bs) h), omega (arith, length-drop k bs), omega (arith, length-take k bs))

pub uint_total :
    (k : ℕ) (bs : List ℕ)
    → k ≤ length bs
    → (uint k bs ≡ some (from_le (take k bs), drop k bs)) × (length (drop k bs) + k ≡ length bs)
unfolding uint
uint_total k bs h = (rw ((bytes_total k bs h).0), (bytes_total k bs h).1)
