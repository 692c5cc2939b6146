-- ===== src/Server/Messages.antt =====
-- server/vusb_server.c: the messages of a client and the answers to them. A handler has the whole
-- receive buffer, with what earlier messages left in it behind the payload; `none` is an access
-- outside it. The client is the connection in a slot.
pub mod Session
pub mod Completing
pub mod Attaching
use usb_over_ip.Common.{
  ℕ, zero, suc, ◌+◌, ◌-◌, ◌*◌, ◌%◌, ◌^◌, List, [], ◌∷◌, ◌++◌, Bool, true, false, ◌&&◌, Option, none,
  some, ◌==◌, ltb, leb, if◌then◌else◌, ◌>>=◌, length, take, drop, replicate, set, get_elem?, not,
}
use usb_over_ip.Common.Codec.{uint, to_le, bytes}
use usb_over_ip.Protocol
use usb_over_ip.Protocol.{
  DeviceInfo, Header, UrbComplete, device_info_size, header_size, init_header, urb_complete_size,
}
use usb_over_ip.Protocol.Status
use usb_over_ip.Protocol.Command
use usb_over_ip.Protocol.Layout.{encode_header, decode_device_info, encode_device_info}
use usb_over_ip.Protocol.Layout.Urbs.{decode_urb_complete}
use usb_over_ip.Ioctl.{IoctlCode, device_list_size, urb_completion_size}
use usb_over_ip.Ioctl.Layout.{encode_urb_completion}
use usb_over_ip.Driver.Table.{copy_memory, join}
use usb_over_ip.Server.{
  ClientDevice, ClientConnection, SimDevice, ServerContext, Platform, Sent, control,
}
use usb_over_ip.Server.Devices.{plugin_device, unplug_device}

-- A message that the server builds, with the length of what follows its header.
unfoldable pub message : ℕ → List ℕ → ℕ → List ℕ
message command payload sequence =
    encode_header (init_header command (length payload) sequence) payload

-- The first inactive entry becomes active, with the ids.
unfoldable pub track : List ClientDevice → ℕ → ℕ → List ClientDevice
track [] id remote = []
track (d ∷ ds) id remote =
    let rest = track ds id remote in
    if d.active then d ∷ rest else record { active = true; device_id = id; remote_id = remote } ∷ ds

-- The first active entry with the id becomes inactive.
unfoldable pub untrack : List ClientDevice → ℕ → List ClientDevice
untrack [] id = []
untrack (d ∷ ds) id =
    let rest = untrack ds id in
    if d.active && d.device_id == id then record d { active = false } ∷ ds else d ∷ rest

unfoldable pub sim_infos : List SimDevice → List DeviceInfo
sim_infos [] = []
sim_infos (d ∷ ds) = let rest = sim_infos ds in if d.active then d.device_info ∷ rest else rest

-- The device information of that many entries of the driver's list, each behind 12 other bytes.
unfoldable pub read_infos : ℕ → List ℕ → Option (List DeviceInfo)
read_infos zero bs = some []
read_infos (suc n) bs = do
  (info, rest) ← decode_device_info (drop 12 bs)
  infos ← read_infos n rest
  some (info ∷ infos)

unfoldable pub send_infos : ℕ → List DeviceInfo → List Sent
send_infos slot [] = []
send_infos slot (i ∷ is) =
    record { slot = slot; bytes = encode_device_info i [] } ∷ send_infos slot is

module _ {D : Type 0} where
  abbrev pub client_in : ServerContext D → ℕ → Option ClientConnection
  client_in ctx slot = join (get_elem? ctx.clients slot)

  unfoldable pub change_client :
      (ClientConnection → ClientConnection) → ServerContext D → ℕ → ServerContext D
  change_client f ctx slot = elim (client_in ctx slot) [
    | none ↦ ctx
    | some c ↦ record ctx { clients = set ctx.clients slot (some (f c)) }
  ]

  -- The end of an attach, from the result of plugging in.
  unfoldable pub attached_reply :
      ℕ → ℕ → ℕ → Bool × ℕ × ServerContext D → ServerContext D × List Sent
  attached_reply slot sequence remote (ok, id, ctx) = (
    if ok && ltb 0 id
        then change_client (λ c. record c { devices = track c.devices id remote }) ctx slot
        else ctx,
    record {
      slot = slot;
      bytes =
          message Command.device_attach
            (to_le 4 (if ok then Status.success else Status.error) ++ to_le 4 id) sequence;
    }
        ∷ [],
  )

module _ {D : Type 0} (sys : Platform D) where
  unfoldable pub send_error : ℕ → ℕ → ℕ → ℕ → Sent
  send_error slot sequence code text = record {
    slot = slot;
    bytes =
        message Command.error (to_le 4 code ++ to_le 4 0 ++ to_le 4 sequence ++ sys.error_text text)
          sequence;
  }

  unfoldable pub send_pong : ℕ → ℕ → Sent
  send_pong slot sequence = record { slot = slot; bytes = message Command.pong [] sequence }

  unfoldable pub handle_connect : ServerContext D → ℕ → Header → Option (List Sent)
  handle_connect ctx slot header = client_in ctx slot >>= λ (c : ClientConnection). some (
      record {
        slot = slot;
        bytes =
            message Command.connect
              (to_le 4 Status.success ++ to_le 4 0x00010000 ++ to_le 4 0 ++ to_le 4 c.session_id)
              header.sequence;
      }
      ∷ [])

  unfoldable pub handle_device_attach :
      ServerContext D → ℕ → Header → List ℕ → ℕ → Option (ServerContext D × List Sent)
  handle_device_attach ctx slot header buffer payload_length =
      if ltb payload_length (device_info_size + 4)
      then some (ctx, send_error slot header.sequence Status.invalid_param 1 ∷ [])
      else (decode_device_info buffer >>= λ (p : DeviceInfo × List ℕ).
          uint 4 p.1 >>= λ (q : ℕ × List ℕ).
          plugin_device sys ctx p.0 q.1 q.0 >>= λ (r : Bool × ℕ × ServerContext D).
          some (attached_reply slot header.sequence p.0.device_id r))

  unfoldable pub handle_device_detach :
      ServerContext D → ℕ → Header → List ℕ → ℕ → Option (ServerContext D × List Sent)
  handle_device_detach ctx slot header buffer payload_length =
      if ltb payload_length 4
      then some (ctx, send_error slot header.sequence Status.invalid_param 2 ∷ [])
      else (uint 4 buffer >>= λ (p : ℕ × List ℕ). some (
        change_client (λ c. record c { devices = untrack c.devices p.0 })
            (unplug_device sys ctx p.0).1 slot,
        record { slot = slot; bytes = message Command.device_detach [] header.sequence } ∷ [],
      ))

  -- The input of the driver's completion, its data copied from behind the message.
  unfoldable pub complete_in_driver :
      ServerContext D → ℕ → UrbComplete → List ℕ → Option (ServerContext D)
  complete_in_driver ctx sequence u tail =
      if not (sys.malloc (urb_completion_size + u.actual_length))
      then some ctx
      else if leb u.actual_length (length tail)
      then some (
          (control sys ctx IoctlCode.complete_urb (
            encode_urb_completion
              (record {
                device_id = u.device_id;
                urb_id = u.urb_id;
                sequence_number = sequence;
                status = u.status;
                actual_length = u.actual_length;
              })
              (take u.actual_length tail))).1)
      else none

  -- The cast counts a header at the start of the payload, although the payload starts behind it.
  unfoldable pub handle_urb_complete :
      ServerContext D → Header → List ℕ → ℕ → Option (ServerContext D)
  handle_urb_complete ctx header buffer payload_length =
      if ltb payload_length (urb_complete_size - header_size) then some ctx else elim ctx.driver [
        | none ↦ some ctx
        | some _ ↦ decode_urb_complete (drop header_size buffer) >>= λ (p : UrbComplete × List ℕ).
            complete_in_driver ctx header.sequence p.0 p.1
      ]

  -- The driver's list over a zeroed structure, which stays zeroed if the call fails.
  unfoldable pub listed_infos : Option (List ℕ) → Option (List DeviceInfo)
  listed_infos none = some []
  listed_infos (some output) = do
    list ← copy_memory (replicate device_list_size 0) output (length output)
    (count, entries) ← uint 4 list
    read_infos count entries

  unfoldable pub list_reply : ℕ → ℕ → List DeviceInfo → List Sent
  list_reply slot sequence infos =
      record {
        slot = slot;
        bytes =
            encode_header
              (init_header Command.device_list ((8 + length infos * device_info_size) % 2 ^ 32)
                sequence)
              (to_le 4 Status.success ++ to_le 4 (length infos));
      }
      ∷ send_infos slot infos

  unfoldable pub handle_device_list :
      ServerContext D → ℕ → Header → Option (ServerContext D × List Sent)
  handle_device_list ctx slot header = elim ctx.driver [
    | none ↦ some (ctx, list_reply slot header.sequence (sim_infos ctx.sim_devices))
    | some _ ↦
        let r = control sys ctx IoctlCode.get_device_list [] in
        listed_infos r.0 >>= λ (infos : List DeviceInfo).
        some (r.1, list_reply slot header.sequence infos)
  ]

  unfoldable pub process_message :
      ServerContext D → ℕ → Header → List ℕ → ℕ → Option (ServerContext D × List Sent)
  process_message ctx slot header buffer payload_length =
      if header.command == Command.connect
      then (handle_connect ctx slot header >>= λ (s : List Sent). some (ctx, s))
      else if header.command == Command.disconnect
      then some (change_client (λ c. record c { connected = false }) ctx slot, [])
      else if header.command == Command.ping
      then some (ctx, send_pong slot header.sequence ∷ [])
      else if header.command == Command.device_attach
      then handle_device_attach ctx slot header buffer payload_length
      else if header.command == Command.device_detach
      then handle_device_detach ctx slot header buffer payload_length
      else if header.command == Command.urb_complete
      then (handle_urb_complete ctx header buffer payload_length >>= λ (c : ServerContext D).
          some (c, []))
      else if header.command == Command.device_list
      then handle_device_list ctx slot header
      else some (ctx, send_error slot header.sequence Status.not_supported 0 ∷ [])
