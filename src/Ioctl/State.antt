-- ===== src/Ioctl/State.antt =====
-- protocol/vusb_ioctl.h: the device states that the driver uses (VUSB_DEVICE_STATE).
use Prim.Native.Nat.{ℕ}

abbrev pub attached : ℕ
attached = 1

abbrev pub default : ℕ
default = 3

abbrev pub configured : ℕ
configured = 5
