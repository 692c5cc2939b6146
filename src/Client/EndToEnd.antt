-- ===== src/Client/EndToEnd.antt =====
-- The requests of client/vusb_client.c, answered by the user-mode server of
-- userspace/vusb_userspace.c.
use usb_over_ip.Common.{
  ℕ, suc, ◌+◌, ◌^◌, ◌≤◌, ◌<◌, ◌≡◌, ◌∙◌, refl, List, [], ◌++◌, Bool, true, some, ◌==◌, if◌then◌else◌,
  arith, length, take, drop, append_assoc, length-append, take-append, take_all, le→leb,
}
use usb_over_ip.Common.Codec.{to_le, length-to_le, uint-to_le, uint-to_le_last}
use usb_over_ip.Protocol.{DeviceInfo, header_size, init_header, device_info_size}
use usb_over_ip.Protocol.Command
use usb_over_ip.Protocol.Status
use usb_over_ip.Protocol.Layout.{encode_device_info, FitsDeviceInfo, decode_header-encode_header}
use usb_over_ip.Ioctl.{PluginRequest}
use usb_over_ip.Ioctl.Layout.{encode_plugin_request, FitsPluginRequest}
use usb_over_ip.Ioctl.Sizes.{length-encode_plugin_request}
use usb_over_ip.Driver.Table.{inc32}
use usb_over_ip.Server.Messages.{message}
use usb_over_ip.Userspace.{UserClient}
use usb_over_ip.Userspace.Devices.{get_device, has_free_slot}
use usb_over_ip.Userspace.Devices.Table.{IsSound}
use usb_over_ip.Userspace.Devices.Mapping.{created_device}
use usb_over_ip.Userspace.Messages.{process_user_message}
use usb_over_ip.Userspace.Messages.Attaching.{user_attach_creates}
use usb_over_ip.Client.{Network, ClientContext}
use usb_over_ip.Client.Requests.{
  ping, attach_device, attached_id, decode_response, is_pong, next_sequence,
}
use usb_over_ip.Client.Serving.{
  UserServer, IsServed, incoming_buffer, request_served, length-message, init_header-FitsHeader,
}

is_pong-pong :
    (sequence : ℕ) → sequence < 256 ^ 4 → is_pong (some (message Command.pong [] sequence)) ≡ true
unfolding is_pong message init_header
is_pong-pong sequence l = ground (
  arith,
  decode_header-encode_header (init_header Command.pong 0 sequence) []
      (init_header-FitsHeader Command.pong 0 sequence (omega arith) (omega arith) l),
)

-- A ping of a client that the user-mode server serves gets its pong: the client reports success, has
-- nothing unread, and the server's state is as before.
pub ping_answered :
    (malloc : ℕ → Bool) (slot : ℕ) (net : Network UserServer) (ctx : ClientContext UserServer)
    (c : UserClient)
    → IsServed malloc slot net ctx c
    → (ctx' : ClientContext UserServer) × (ping net ctx ≡ (true, ctx'))
      × (ctx'.unread ≡ [])
      × (ctx'.peer.context ≡ ctx.peer.context)
unfolding ping process_user_message init_header
ping_answered malloc slot net ctx c s =
    let sequence = inc32 ctx.sequence in
    let pong = message Command.pong [] sequence in
    let served =
      request_served malloc slot net ctx c Command.ping 16 [] pong ctx.peer.context s (omega arith)
        (omega arith) refl (length-message Command.pong sequence []) in
    let after : ClientContext UserServer = record (next_sequence ctx) {
      unread = [];
      peer = record { context = ctx.peer.context; buffer = incoming_buffer ctx [] };
    } in
    let answered : ping net ctx ≡ (true, after) =
      rw (served, is_pong-pong sequence (omega arith), s.is_connected) refl in
    (after, answered, refl, refl)

encode_plugin_request-append :
    (r : PluginRequest) (xs ys : List ℕ)
    → encode_plugin_request r xs ++ ys ≡ encode_plugin_request r (xs ++ ys)
unfolding encode_plugin_request encode_device_info
encode_plugin_request-append r xs ys = simp append_assoc refl

length-attach_response :
    (id sequence : ℕ)
    → length (message Command.device_attach (to_le 4 Status.success ++ to_le 4 id) sequence) ≡ 24
length-attach_response id sequence = omega (
  arith,
  length-message Command.device_attach sequence (to_le 4 Status.success ++ to_le 4 id),
  length-append (to_le 4 Status.success) (to_le 4 id),
  length-to_le 4 0,
  length-to_le 4 id,
)

attached_id-attach_response :
    (id sequence : ℕ)
    → id < 256 ^ 4
    → sequence < 256 ^ 4
    → attached_id
        (some (message Command.device_attach (to_le 4 Status.success ++ to_le 4 id) sequence))
      ≡ some id
unfolding attached_id decode_response message
attached_id-attach_response id sequence l k =
    let payload : List ℕ = to_le 4 Status.success ++ to_le 4 id in
    let size : length payload ≡ 8 = omega (
      arith,
      length-append (to_le 4 Status.success) (to_le 4 id),
      length-to_le 4 0,
      length-to_le 4 id,
    ) in
    rw
      (
        decode_header-encode_header (init_header Command.device_attach (length payload) sequence)
            payload
            (init_header-FitsHeader Command.device_attach (length payload) sequence (omega arith)
              (omega arith) k),
        uint-to_le 4 Status.success (to_le 4 id) (omega arith),
        uint-to_le_last 4 id l,
      )
      refl

-- The device of an attach request, with information that fits the packed layout and at most 65308
-- bytes of descriptors, is attached at the user-mode server that serves the client in one of its
-- slots, is sound, has room for a device and its counter of ids below its width, where both sides
-- have memory and the client tracks less than 16 devices: the client gets the next id of the
-- server, and under that id the server finds an attached device with the client's information,
-- exactly its descriptors, the client's slot as its owner, the client's id for it, and nothing
-- configured, pending or counted. All other devices of the server are as before.
pub attach_device_serves :
    (malloc : ℕ → Bool) (slot : ℕ) (net : Network UserServer) (ctx : ClientContext UserServer)
    (c : UserClient) (info : DeviceInfo) (descriptors : List ℕ)
    → IsServed malloc slot net ctx c
    → net.malloc (header_size + device_info_size + 4 + length descriptors) ≡ true
    → malloc (length descriptors) ≡ true
    → IsSound ctx.peer.context
    → suc ctx.peer.context.next_device_id < 2 ^ 32
    → has_free_slot ctx.peer.context.devices ≡ true
    → FitsDeviceInfo info
    → length descriptors ≤ 65308
    → length c.device_ids < 16
    → slot < length ctx.peer.context.clients
    → (ctx' : ClientContext UserServer) × (attach_device net info descriptors
          (length descriptors)
          ctx
        ≡ some (some (suc ctx.peer.context.next_device_id), ctx'))
      × (ctx'.unread ≡ [])
      × ((j : ℕ)
          → get_device ctx'.peer.context j ≡ (
              if suc ctx.peer.context.next_device_id == j
              then some
                  (record (created_device info descriptors
                    (length descriptors)
                    (suc ctx.peer.context.next_device_id)) {
                      owner_client = some slot;
                      remote_device_id = info.device_id;
                    })
              else get_device ctx.peer.context j))
unfolding attach_device process_user_message init_header encode_plugin_request
attach_device_serves malloc slot net ctx c info descriptors s nm um sound w free fi l t n =
    let len = length descriptors in
    let r : PluginRequest = record { device_info = info; descriptor_length = len } in
    let fits : FitsPluginRequest r = record {
      device_info_fits = fi;
      descriptor_length_fits = omega arith;
    } in
    let payload = encode_plugin_request r descriptors in
    let size : length payload ≡ 212 + len =
      omega (arith, length-encode_plugin_request r descriptors fits) in
    let sequence = inc32 ctx.sequence in
    let old = drop (length payload) ctx.peer.buffer in
    let (after, made, found, tracked) =
      user_attach_creates malloc ctx.peer.context slot c
        (record {
          header = init_header Command.device_attach (length payload) sequence;
          buffer = incoming_buffer ctx payload;
          payload_length = length payload;
        })
        r (descriptors ++ old) sound w free (encode_plugin_request-append r descriptors old) fits
        (omega (arith, size)) um (omega (arith, length-append descriptors old)) t n in
    let id = suc ctx.peer.context.next_device_id in
    let reply = message Command.device_attach (to_le 4 Status.success ++ to_le 4 id) sequence in
    let served =
      request_served malloc slot net ctx c Command.device_attach 24 payload reply after s
        (omega arith) (omega (arith, size)) made (length-attach_response id sequence) in
    let ctx' : ClientContext UserServer = record (next_sequence ctx) {
      unread = [];
      peer = record { context = after; buffer = incoming_buffer ctx payload };
    } in
    let whole : take len descriptors ≡ descriptors = take_all len descriptors (omega arith) in
    let attached : attach_device net info descriptors len ctx ≡ some (some id, ctx') =
      rw
        (
          whole,
          served,
          attached_id-attach_response id sequence (omega arith) (omega arith),
          s.is_connected,
          nm,
          le→leb len len (omega arith),
        )
        refl in
    (ctx', attached, refl, (λ j. found j ∙ rw (take-append len descriptors old refl, whole) refl))
