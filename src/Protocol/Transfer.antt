-- ===== src/Protocol/Transfer.antt =====
-- protocol/vusb_protocol.h: the transfer types (VUSB_TRANSFER_TYPE).
use Prim.Native.Nat.{ℕ}

abbrev pub control : ℕ
control = 0

abbrev pub isochronous : ℕ
isochronous = 1

abbrev pub bulk : ℕ
bulk = 2

abbrev pub interrupt : ℕ
interrupt = 3
