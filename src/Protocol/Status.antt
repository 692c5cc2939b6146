-- ===== src/Protocol/Status.antt =====
-- protocol/vusb_protocol.h: the status codes that the C code uses (VUSB_STATUS).
use Prim.Native.Nat.{ℕ}

abbrev pub success : ℕ
success = 0x0000

abbrev pub error : ℕ
error = 0x0002

abbrev pub no_device : ℕ
no_device = 0x0006

abbrev pub invalid_param : ℕ
invalid_param = 0x0007

abbrev pub no_memory : ℕ
no_memory = 0x0008

abbrev pub not_supported : ℕ
not_supported = 0x0009

abbrev pub canceled : ℕ
canceled = 0x0005
