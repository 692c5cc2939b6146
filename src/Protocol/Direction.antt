-- ===== src/Protocol/Direction.antt =====
-- protocol/vusb_protocol.h: the directions (VUSB_DIRECTION).
use Prim.Native.Nat.{ℕ}

abbrev pub out : ℕ
out = 0

abbrev pub inward : ℕ
inward = 1
