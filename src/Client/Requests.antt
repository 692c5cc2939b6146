-- ===== src/Client/Requests.antt =====
-- client/vusb_client.c: the requests of the client.
use usb_over_ip.Common.{
  ℕ, zero, suc, ◌+◌, ◌/◌, ◌%◌, List, [], ◌∷◌, ◌++◌, Bool, true, false, ◌&&◌, Option, none, some,
  ◌==◌, leb, if◌then◌else◌, ◌>>=◌, length, take, not, is_some,
}
use usb_over_ip.Common.Codec.{uint, to_le}
use usb_over_ip.Protocol.{Header, DeviceInfo, device_info_size, header_size, validate_header}
use usb_over_ip.Protocol.Status
use usb_over_ip.Protocol.Command
use usb_over_ip.Protocol.Layout.{decode_header, encode_device_info, decode_device_info}
use usb_over_ip.Driver.Table.{inc32}
use usb_over_ip.Server.Messages.{message}
use usb_over_ip.Client.{Network, ClientContext, recv, send, request}

-- A header and two numbers, the response to a connect (with more behind) or an attach.
pub record Response : Type 0 where
  pub header : Header
  pub status : ℕ
  pub value : ℕ
  pub rest : List ℕ

unfoldable pub decode_response : List ℕ → Option Response
decode_response bs = do
  (h, b1) ← decode_header bs
  (s, b2) ← uint 4 b1
  (v, b3) ← uint 4 b2
  some (record { header = h; status = s; value = v; rest = b3 })

-- The session of an accepted connection: the last number of the response.
unfoldable pub accepted_session : Option (List ℕ) → Option ℕ
accepted_session none = none
accepted_session (some bs) = do
  r ← decode_response bs
  (capabilities, b1) ← uint 4 r.rest
  (session, b2) ← uint 4 b1
  if validate_header r.header && r.status == Status.success then some session else none

-- The device's id at the server, where the response has success.
unfoldable pub attached_id : Option (List ℕ) → Option ℕ
attached_id none = none
attached_id (some bs) = do
  r ← decode_response bs
  if r.status == Status.success then some r.value else none

-- Whether the response is a pong.
unfoldable pub is_pong : Option (List ℕ) → Bool
is_pong none = false
is_pong (some bs) = elim (decode_header bs) [
  | none ↦ false
  | some (h, rest) ↦ h.command == Command.pong
]

-- One device of a list, if it comes in whole.
unfoldable pub listed : Option (List ℕ) → List DeviceInfo → List DeviceInfo
listed none infos = infos
listed (some bs) infos = elim (decode_device_info bs) [ none ↦ infos | some (i, rest) ↦ i ∷ infos ]

module _ {P : Type 0} where
  abbrev pub next_sequence : ClientContext P → ClientContext P
  next_sequence ctx = record ctx { sequence = inc32 ctx.sequence }

  unfoldable pub connect_end : Option ℕ × ClientContext P → Bool × ClientContext P
  connect_end (none, ctx) = (false, record ctx { socket_open = false })
  connect_end (some session, ctx) = (true, record ctx { connected = true; session_id = session })

  -- That many devices, as far as they come in.
  unfoldable pub receive_infos : ℕ → ClientContext P → List DeviceInfo × ClientContext P
  receive_infos zero ctx = ([], ctx)
  receive_infos (suc n) ctx =
      let r = recv device_info_size ctx in
      let later = receive_infos n r.1 in (listed r.0 later.0, later.1)

  unfoldable pub list_end :
      Option (List ℕ) × ClientContext P → Option (List DeviceInfo) × ClientContext P
  list_end (none, ctx) = (none, ctx)
  list_end (some bs, ctx) = elim (decode_response bs) [
    | none ↦ (none, ctx)
    | some r ↦ let infos = receive_infos r.value ctx in (some infos.0, infos.1)
  ]

module _ {P : Type 0} (net : Network P) where
  unfoldable pub client_connect : ClientContext P → Bool × ClientContext P
  client_connect ctx =
      let c = next_sequence ctx in
      let hello =
        message Command.connect (to_le 4 0x00010000 ++ (to_le 4 0 ++ net.name_field)) c.sequence in
      let r = request net hello 32 (record c { socket_open = true; unread = [] }) in
      if net.connects
      then connect_end (accepted_session r.0, r.1)
      else (false, record ctx { socket_open = false })

  unfoldable pub client_disconnect : ClientContext P → ClientContext P
  client_disconnect ctx =
      let c = next_sequence ctx in
      let closed = record (send net (message Command.disconnect [] c.sequence) c).1 {
        socket_open = false;
        unread = [];
      } in
      record (if ctx.socket_open then closed else ctx) { connected = false }

  -- `none` is a read outside the descriptors; then the server's id for the device, if it is attached.
  unfoldable pub attach_device :
      DeviceInfo → List ℕ → ℕ → ClientContext P → Option (Option ℕ × ClientContext P)
  attach_device info descriptors len ctx =
      let c = next_sequence ctx in
      if not ctx.connected
      then some (none, ctx)
      else if not (net.malloc (header_size + device_info_size + 4 + len))
      then some (none, ctx)
      else if leb len (length descriptors)
      then (let r =
            request net
              (message Command.device_attach
                (encode_device_info info (to_le 4 len ++ take len descriptors)) c.sequence)
              24 c in
          some (attached_id r.0, r.1))
      else none

  unfoldable pub detach_device : ℕ → ClientContext P → Bool × ClientContext P
  detach_device id ctx =
      let c = next_sequence ctx in
      let r = request net (message Command.device_detach (to_le 4 id) c.sequence) header_size c in
      if ctx.connected then (is_some r.0, r.1) else (false, ctx)

  abbrev pub simulated_info : ℕ → ℕ → ℕ → DeviceInfo
  simulated_info id vid pid = record {
    device_id = id;
    vendor_id = vid;
    product_id = pid;
    device_class = 0xFF;
    device_sub_class = 0;
    device_protocol = 0;
    speed = 3;
    num_configurations = 1;
    num_interfaces = 1;
    reserved = 0;
    manufacturer = net.manufacturer_field;
    product = net.product_field vid pid;
    serial_number = net.serial_field id;
  }

  abbrev pub simulated_descriptors : ℕ → ℕ → List ℕ
  simulated_descriptors vid pid =
      18
      ∷ 1
      ∷ 0x00
      ∷ 0x02
      ∷ 0xFF
      ∷ 0x00
      ∷ 0x00
      ∷ 64
      ∷ vid % 256
      ∷ vid / 256
      ∷ pid % 256
      ∷ pid / 256
      ∷ 0x00
      ∷ 0x01
      ∷ 1
      ∷ 2
      ∷ 3
      ∷ 1
      ∷ []

  unfoldable pub attach_simulated_device :
      ℕ → ℕ → ClientContext P → Option (Option ℕ × ClientContext P)
  attach_simulated_device vid pid ctx =
      let id = inc32 ctx.next_device_id in
      attach_device (simulated_info id vid pid) (simulated_descriptors vid pid) 18
        (record ctx { next_device_id = id })

  -- The devices that are printed, or `none` for the code's error.
  unfoldable pub list_devices : ClientContext P → Option (List DeviceInfo) × ClientContext P
  list_devices ctx =
      let c = next_sequence ctx in
      if ctx.connected
      then list_end (request net (message Command.device_list [] c.sequence) 24 c)
      else (none, ctx)

  unfoldable pub ping : ClientContext P → Bool × ClientContext P
  ping ctx =
      let c = next_sequence ctx in
      let r = request net (message Command.ping [] c.sequence) header_size c in
      if ctx.connected then (is_pong r.0, r.1) else (false, ctx)
