-- ===== src/Client.antt =====
-- client/vusb_client.h: the state of the client, and the server that it talks to, as a parameter.
pub mod Requests
pub mod Capture
pub mod Urbs
pub mod Receiving
pub mod Serving
pub mod EndToEnd
use usb_over_ip.Common.{
  ℕ, List, [], ◌++◌, Bool, true, false, Option, none, some, leb, if◌then◌else◌, length, take, drop,
}

-- The socket connects or not; a send fails, or the server answers with bytes, which may be none. An
-- allocation of a size succeeds or not. The texts are what strncpy and snprintf leave in the 64 bytes
-- of a field, the name's last one being what was in memory.
pub record Network (P : Type 0) : Type 0 where
  pub connects : Bool
  pub answer : P → List ℕ → Option (List ℕ) × P
  pub malloc : ℕ → Bool
  pub name_field : List ℕ
  pub manufacturer_field : List ℕ
  pub product_field : ℕ → ℕ → List ℕ
  pub serial_field : ℕ → List ℕ

-- `unread` is what has come in on the socket and is not read yet; `peer` is the server's state.
pub record ClientContext (P : Type 0) : Type 0 where
  pub socket_open : Bool
  pub connected : Bool
  pub session_id : ℕ
  pub sequence : ℕ
  pub next_device_id : ℕ
  pub unread : List ℕ
  pub peer : P

module _ {P : Type 0} where
  -- recv of that many bytes with MSG_WAITALL; `none` is a short read.
  unfoldable pub recv : ℕ → ClientContext P → Option (List ℕ) × ClientContext P
  recv n ctx =
      if leb n (length ctx.unread)
      then (some (take n ctx.unread), record ctx { unread = drop n ctx.unread })
      else (none, record ctx { unread = [] })

  unfoldable pub sent : ClientContext P → Option (List ℕ) × P → Bool × ClientContext P
  sent ctx (none, p) = (false, record ctx { peer = p })
  sent ctx (some bytes, p) = (true, record ctx { peer = p; unread = ctx.unread ++ bytes })

  -- The response to a request whose send went that way.
  unfoldable pub respond : ℕ → Bool × ClientContext P → Option (List ℕ) × ClientContext P
  respond n (false, ctx) = (none, ctx)
  respond n (true, ctx) = recv n ctx

module _ {P : Type 0} (net : Network P) where
  unfoldable pub send : List ℕ → ClientContext P → Bool × ClientContext P
  send bytes ctx = sent ctx (net.answer ctx.peer bytes)

  -- A request, and a response of that many bytes.
  unfoldable pub request : List ℕ → ℕ → ClientContext P → Option (List ℕ) × ClientContext P
  request bytes n ctx = respond n (send bytes ctx)
