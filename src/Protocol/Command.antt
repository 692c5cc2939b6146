-- ===== src/Protocol/Command.antt =====
-- protocol/vusb_protocol.h: the command numbers (VUSB_COMMAND).
use Prim.Native.Nat.{ℕ}

abbrev pub connect : ℕ
connect = 0x0001

abbrev pub disconnect : ℕ
disconnect = 0x0002

abbrev pub ping : ℕ
ping = 0x0003

abbrev pub pong : ℕ
pong = 0x0004

abbrev pub device_attach : ℕ
device_attach = 0x0010

abbrev pub device_detach : ℕ
device_detach = 0x0011

abbrev pub device_list : ℕ
device_list = 0x0012

abbrev pub submit_urb : ℕ
submit_urb = 0x0020

abbrev pub urb_complete : ℕ
urb_complete = 0x0021

abbrev pub error : ℕ
error = 0x00FF

abbrev pub status : ℕ
status = 0x00FE
