-- ===== src/Userspace/Messages.antt =====
-- userspace/vusb_userspace.c: the connections, the messages of a client and the answers to them. A
-- handler has the whole receive buffer, with what earlier messages left in it behind the payload;
-- `none` is an access outside it. The client is the one in a slot; a client that is gone sends none.
pub mod Session
pub mod Owning
pub mod Foreign
pub mod Ending
pub mod Attaching
use usb_over_ip.Common.{
  ℕ, zero, suc, ◌+◌, ◌-◌, ◌*◌, ◌%◌, ◌^◌, List, [], ◌∷◌, ◌++◌, Bool, true, false, ◌&&◌, Option, none,
  some, ◌==◌, ltb, leb, if◌then◌else◌, ◌>>=◌, length, take, drop, replicate, set, get_elem?,
}
use usb_over_ip.Common.Codec.{uint, to_le, bytes}
use usb_over_ip.Protocol.{
  DeviceInfo, Header, UrbComplete, device_info_size, header_size, init_header, urb_complete_size,
}
use usb_over_ip.Protocol.Status
use usb_over_ip.Protocol.Command
use usb_over_ip.Protocol.Layout.{encode_header, decode_device_info, encode_device_info}
use usb_over_ip.Protocol.Layout.Urbs.{decode_urb_complete}
use usb_over_ip.Driver.Table.{inc32, free_slot, join}
use usb_over_ip.Server.Messages.{message}
use usb_over_ip.Userspace.{UserDevice, UserClient, UserContext, UserUrb, user_max_devices}
use usb_over_ip.Userspace.Devices.{
  create_user_device, destroy_user_device, get_device, change_device, list_devices_of,
}
use usb_over_ip.Userspace.Urbs.{complete_user_urb}

-- A message in the receive buffer. `malloc` says for each size whether an allocation of it succeeds.
pub record Incoming : Type 0 where
  pub header : Header
  pub buffer : List ℕ
  pub payload_length : ℕ

abbrev pub user_client : UserContext → ℕ → Option UserClient
user_client ctx slot = join (get_elem? ctx.clients slot)

abbrev pub with_client : UserContext → ℕ → UserClient → UserContext
with_client ctx slot c = record ctx { clients = set ctx.clients slot (some c) }

-- The bytes of a string up to its null, padded with nulls to a length.
unfoldable pub strncpy : ℕ → List ℕ → List ℕ
strncpy zero bs = []
strncpy (suc n) [] = replicate (suc n) 0
strncpy (suc n) (b ∷ bs) = if b == 0 then replicate (suc n) 0 else b ∷ strncpy n bs

-- What a connect message sets, read from its payload where that is long enough.
unfoldable pub introduce : UserClient → Incoming → Option UserClient
introduce c m =
    if leb 72 m.payload_length
    then (do
      (version, b1) ← uint 4 m.buffer
      (capabilities, b2) ← uint 4 b1
      (name, rest) ← bytes 64 b2
      some (record c {
        client_version = version;
        capabilities = capabilities;
        client_name = strncpy 63 name ++ drop 63 c.client_name;
      }))
    else some c

unfoldable pub user_connect :
    UserContext → ℕ → UserClient → Incoming → Option (UserContext × List (List ℕ))
user_connect ctx slot c m = do
  n ← introduce c m
  some (
    with_client ctx slot (record n { authenticated = true }),
    message Command.connect
          (to_le 4 Status.success ++ to_le 4 0x00010000 ++ to_le 4 0 ++ to_le 4 n.session_id)
          m.header.sequence
        ∷ [],
  )

abbrev pub attach_response : ℕ → ℕ → ℕ → List (List ℕ)
attach_response status id sequence =
    message Command.device_attach (to_le 4 status ++ to_le 4 id) sequence ∷ []

-- The created device gets its owner and the client's id for it, and the client tracks it.
unfoldable pub own_device : UserContext → ℕ → UserClient → ℕ → ℕ → UserContext
own_device ctx slot c id remote =
    with_client
      (change_device (λ d. record d { owner_client = some slot; remote_device_id = remote }) ctx id)
      slot
      (record c {
        device_ids =
            if ltb (length c.device_ids) user_max_devices
            then c.device_ids ++ (id ∷ [])
            else c.device_ids;
      })

unfoldable pub attach_created :
    ℕ → UserClient → ℕ → ℕ → Bool × ℕ × UserContext → UserContext × List (List ℕ)
attach_created slot c remote sequence (false, id, ctx) =
    (ctx, attach_response Status.error id sequence)
attach_created slot c remote sequence (true, id, ctx) =
    (own_device ctx slot c id remote, attach_response Status.success id sequence)

unfoldable pub user_attach :
    (ℕ → Bool) → UserContext → ℕ → UserClient → Incoming → Option (UserContext × List (List ℕ))
user_attach malloc ctx slot c m =
    if ltb m.payload_length (device_info_size + 4)
    then some (ctx, attach_response Status.invalid_param 0 m.header.sequence)
    else (do
      (info, b) ← decode_device_info m.buffer
      (len, tail) ← uint 4 b
      r ← create_user_device (malloc len) ctx info (some tail) len
      some (attach_created slot c info.device_id m.header.sequence r))

-- The entry with the id gets the last one's place.
unfoldable pub last_of : ℕ → List ℕ → ℕ
last_of x [] = x
last_of x (y ∷ ys) = last_of y ys

unfoldable pub without_last : ℕ → List ℕ → List ℕ
without_last x [] = []
without_last x (y ∷ ys) = x ∷ without_last y ys

unfoldable pub forget_id : ℕ → List ℕ → List ℕ
forget_id id [] = []
forget_id id (x ∷ xs) =
    let rest = forget_id id xs in
    if x == id then elim xs [ [] ↦ [] | y ∷ ys ↦ last_of y ys ∷ without_last y ys ] else x ∷ rest

-- Whether the device is there and the client in the slot owns it.
unfoldable pub owned_by : ℕ → Option UserDevice → Bool
owned_by slot none = false
owned_by slot (some d) = elim d.owner_client [ none ↦ false | some s ↦ s == slot ]

unfoldable pub user_detach :
    UserContext → ℕ → UserClient → Incoming → Option (UserContext × List (List ℕ))
user_detach ctx slot c m = do
  (id, rest) ← uint 4 m.buffer
  some (
    if owned_by slot (get_device ctx id)
        then with_client (destroy_user_device ctx id).1 slot
            (record c { device_ids = forget_id id c.device_ids })
        else ctx,
    message Command.status [] m.header.sequence ∷ [],
  )

-- The first active device that a client knows by that id.
unfoldable pub remote_device : ℕ → List UserDevice → Option UserDevice
remote_device remote [] = none
remote_device remote (d ∷ ds) =
    let rest = remote_device remote ds in
    if d.active && d.remote_device_id == remote then some d else rest

unfoldable pub complete_on :
    UserContext → UrbComplete → List ℕ → Option UserDevice → Option (Option UserUrb × UserContext)
complete_on ctx u tail none = some (none, ctx)
complete_on ctx u tail (some d) =
    complete_user_urb ctx d.device_id u.urb_id u.status
      (if ltb 0 u.actual_length then some tail else none) u.actual_length

-- The request that is completed, if any. The cast starts a header in front of the payload, so
-- the fields behind the header are at its start.
unfoldable pub user_urb_complete : UserContext → Incoming → Option (Option UserUrb × UserContext)
user_urb_complete ctx m =
    if ltb m.payload_length (urb_complete_size - header_size)
    then some (none, ctx)
    else (decode_urb_complete m.buffer >>= λ (p : UrbComplete × List ℕ).
        complete_on ctx p.0 p.1 (remote_device p.0.device_id ctx.devices))

unfoldable pub concat_infos : List DeviceInfo → List ℕ
concat_infos [] = []
concat_infos (i ∷ is) = encode_device_info i (concat_infos is)

unfoldable pub user_device_list : UserContext → Incoming → List (List ℕ)
user_device_list ctx m =
    let infos = list_devices_of ctx user_max_devices in
    encode_header
      (init_header Command.device_list (8 + length infos * device_info_size) m.header.sequence)
      (to_le 4 Status.success ++ (to_le 4 (length infos) ++ concat_infos infos))
    ∷ []

unfoldable pub process_user_message :
    (ℕ → Bool) → UserContext → ℕ → UserClient → Incoming → Option (UserContext × List (List ℕ))
process_user_message malloc ctx slot c m =
    let command = m.header.command in
    if command == Command.connect
    then user_connect ctx slot c m
    else if command == Command.disconnect
    then some (with_client ctx slot (record c { connected = false }), [])
    else if command == Command.ping
    then some (ctx, message Command.pong [] m.header.sequence ∷ [])
    else if command == Command.device_attach
    then user_attach malloc ctx slot c m
    else if command == Command.device_detach
    then user_detach ctx slot c m
    else if command == Command.urb_complete
    then (user_urb_complete ctx m >>= λ (p : Option UserUrb × UserContext). some (p.1, []))
    else if command == Command.device_list
    then some (ctx, user_device_list ctx m)
    else some (ctx, [])
