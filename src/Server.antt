-- ===== src/Server.antt =====
-- server/vusb_server.h, server/vusb_server_urb.h: the server's state, and the calls of the system
-- that it makes, as parameters.
pub mod Devices
pub mod Clients
pub mod Messages
pub mod Forwarder
pub mod Driving
use usb_over_ip.Common.{ℕ, List, Bool, Option, none, some}
use usb_over_ip.Protocol.{DeviceInfo}
use usb_over_ip.Ioctl.{IoctlCode}

pub record ClientDevice : Type 0 where
  pub active : Bool
  pub device_id : ℕ
  pub remote_id : ℕ

-- A connection is referred to by its slot in the array of clients, where it stays from its
-- acceptance to its disconnection.
pub record ClientConnection : Type 0 where
  pub socket : ℕ
  pub session_id : ℕ
  pub connected : Bool
  pub devices : List ClientDevice

pub record SimDevice : Type 0 where
  pub active : Bool
  pub device_id : ℕ
  pub device_info : DeviceInfo

-- `driver` is the state behind an open driver handle, `none` the invalid handle.
pub record ServerContext (D : Type 0) : Type 0 where
  pub running : Bool
  pub driver : Option D
  pub client_count : ℕ
  pub next_session_id : ℕ
  pub clients : List (Option ClientConnection)
  pub next_sim_device_id : ℕ
  pub sim_devices : List SimDevice

-- DeviceIoControl gives the bytes of the output, or `none` as it fails; an allocation of a size
-- succeeds or not; a send transmits all bytes or not. `error_text` is what strncpy_s leaves in the
-- 256 bytes of an error message, for each text.
pub record Platform (D : Type 0) : Type 0 where
  pub device_io_control : D → IoctlCode → List ℕ → Option (List ℕ) × D
  pub malloc : ℕ → Bool
  pub tracking_allocated : Bool
  pub sends_all : ℕ → List ℕ → Bool
  pub error_text : ℕ → List ℕ

-- Bytes sent on the socket of the connection in a slot.
pub record Sent : Type 0 where
  pub slot : ℕ
  pub bytes : List ℕ

pub record Tracked : Type 0 where
  pub urb_id : ℕ
  pub device_id : ℕ
  pub client_device_id : ℕ
  pub client : ℕ
  pub submit_time : ℕ
  pub timeout : ℕ

-- The forwarder's list of the requests that clients work on.
pub record UrbContext : Type 0 where
  pub pending_list : List Tracked
  pub pending_count : ℕ

module _ {D : Type 0} (sys : Platform D) where
  -- DeviceIoControl on the handle; on an invalid one it fails.
  unfoldable pub control : ServerContext D → IoctlCode → List ℕ → Option (List ℕ) × ServerContext D
  control ctx code input = elim ctx.driver [
    | none ↦ (none, ctx)
    | some d ↦ let r = sys.device_io_control d code input in (r.0, record ctx { driver = some r.1 })
  ]
