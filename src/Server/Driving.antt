-- ===== src/Server/Driving.antt =====
-- The server on top of the driver: an attach message from the client's bytes to the driver's table.
use usb_over_ip.Common.{
  ℕ, ◌+◌, ◌≤◌, ◌<◌, ◌^◌, ◌≡◌, ◌≢◌, refl, sym, List, ◌++◌, none, some, true, length, take, arith,
  length-take,
}
use usb_over_ip.Common.Codec.{to_le, uint, uint-to_le}
use usb_over_ip.Protocol.{Header, device_info_size}
use usb_over_ip.Protocol.Status
use usb_over_ip.Ioctl.{
  IoctlCode, PluginRequest, PluginResponse, plugin_request_size, plugin_response_size,
}
use usb_over_ip.Ioctl.Layout.{encode_plugin_request, FitsPluginRequest, encode_plugin_response}
use usb_over_ip.Ioctl.Sizes.{length-encode_plugin_request}
use usb_over_ip.Driver.{DeviceContext, VirtualDevice}
use usb_over_ip.Driver.Table.{find_device}
use usb_over_ip.Driver.Table.Invariant.{IsSound}
use usb_over_ip.Driver.Request.{Framework, Output, Reply}
use usb_over_ip.Driver.DeviceHandlers.{handle_plugin_device}
use usb_over_ip.Driver.DeviceHandlers.Plugging.{Delivers, plugged, plugin_creates, response}
use usb_over_ip.Server.{ClientConnection, ServerContext, Platform}
use usb_over_ip.Server.Devices.{plugin_result}
use usb_over_ip.Server.Messages.{
  handle_device_attach, attached_reply, change_client, client_in, message,
}
use usb_over_ip.Protocol.Layout.{encode_header}
use usb_over_ip.Common.{[], ◌∷◌, Option-cases, Bool-cases, inl, inr, ltb}
use usb_over_ip.Protocol.{init_header}
use usb_over_ip.Server.Messages.Attaching.{attach_forwards}

-- What the I/O manager documents: DeviceIoControl on the driver gives the request to its handler,
-- over a framework with the input as the request's buffer, and the bytes of the answer come back. It
-- says nothing of the pool allocations in the call.
pub record IsConnected (sys : Platform DeviceContext) (f : List ℕ → Framework) (request : ℕ)
    : Type 0 where
  pub delivers :
      (input : List ℕ)
      → plugin_request_size ≤ length input
      → (out : List ℕ) × Delivers (f input) request input out
  pub answers :
      (d : DeviceContext) (input : List ℕ) (r : Reply) (p : PluginResponse)
      → handle_plugin_device (f input) d request (length input) plugin_response_size ≡ some r
      → r.output ≡ Output.plugin p
      → sys.device_io_control d IoctlCode.plugin_device input
        ≡ (some (encode_plugin_response p), r.context)

decoded :
    (bs : List ℕ) (id : ℕ) (rest last : List ℕ)
    → uint 4 bs ≡ some (0, rest)
    → uint 4 rest ≡ some (id, last)
    → plugin_result bs ≡ some (true, id)
unfolding plugin_result
decoded bs id rest last e q = rw e (rw q refl)

plugin_result-response :
    (id : ℕ)
    → id < 256 ^ 4
    → plugin_result (
        encode_plugin_response
          (record { status = Status.success; device_id = id; port_number = id }))
      ≡ some (true, id)
unfolding encode_plugin_response
plugin_result-response id h =
    decoded
      (encode_plugin_response
        (record { status = Status.success; device_id = id; port_number = id }))
      id (to_le 4 id ++ to_le 4 id) (to_le 4 id)
      (uint-to_le 4 0 (to_le 4 id ++ to_le 4 id) (omega arith)) (uint-to_le 4 id (to_le 4 id) h)

low_id : (d : DeviceContext) (id : ℕ) (v : VirtualDevice) → find_device d id ≡ some v → id ≤ 16
unfolding find_device
low_id d id v h = ground arith

-- The message that answers an attach with success and an id.
abbrev pub attach_answer : ℕ → ℕ → List ℕ
attach_answer id sequence =
    encode_header
      (record {
        magic = 0x56555342;
        version = 0x0100;
        command = 0x0010;
        payload_length = 8;
        sequence = sequence;
      })
      (to_le 4 0 ++ to_le 4 id)

change_client-driver :
    (f : ClientConnection → ClientConnection) (ctx : ServerContext DeviceContext) (slot : ℕ)
    → (change_client f ctx slot).driver ≡ ctx.driver
unfolding change_client
change_client-driver f ctx slot = elim (Option-cases (client_in ctx slot)) [
  | inl q ↦ rw (q, change_client) refl
  | inr (c, q) ↦ rw (q, change_client) refl
]

attached_reply-driver :
    (ctx : ServerContext DeviceContext) (slot sequence remote id : ℕ)
    → (attached_reply slot sequence remote (true, id, ctx)).0.driver ≡ ctx.driver
unfolding attached_reply
attached_reply-driver ctx slot sequence remote id = elim (Bool-cases (ltb 0 id)) [
  | inl q ↦ rw q (change_client-driver _ ctx slot)
  | inr q ↦ rw q refl
]

-- With an open and sound driver that has fewer than 16 devices, an attach message whose fields fit
-- the packed layout and which is whole in the buffer, with some descriptors, makes the driver plug
-- in an attached device with the information of the message and exactly the announced bytes as
-- descriptors, under an id that found nothing before; one message is sent, which answers the client
-- success with that id, and the driver's other ids find what they found. The server's allocation
-- and both of the driver's succeed.
pub attach_plugs :
    (sys : Platform DeviceContext) (f : List ℕ → Framework) (request : ℕ)
    (ctx : ServerContext DeviceContext) (d : DeviceContext) (slot : ℕ) (h : Header)
    (r : PluginRequest) (tail : List ℕ) (n : ℕ)
    → IsConnected sys f request
    → ctx.driver ≡ some d
    → IsSound d
    → d.device_count < 16
    → FitsPluginRequest r
    → 0 < r.descriptor_length
    → r.descriptor_length ≤ length tail
    → device_info_size + 4 ≤ n
    → sys.malloc (plugin_request_size + r.descriptor_length) ≡ true
    → (f (encode_plugin_request r (take r.descriptor_length tail))).device_allocated ≡ true
    → (f (encode_plugin_request r (take r.descriptor_length tail))).descriptors_allocated ≡ true
    → (i : ℕ) × (d' : DeviceContext) × (ctx' : ServerContext DeviceContext) × (handle_device_attach
          sys ctx slot h
          (encode_plugin_request r tail)
          n
        ≡ some (ctx', record { slot = slot; bytes = attach_answer (i + 1) h.sequence } ∷ []))
      × (ctx'.driver ≡ some d')
      × (find_device d (i + 1) ≡ none)
      × (find_device d' (i + 1) ≡ some (plugged r.device_info (take r.descriptor_length tail) i))
      × ((id : ℕ) → id ≢ i + 1 → find_device d' id ≡ find_device d id)
unfolding attached_reply message init_header to_le
attach_plugs sys f request ctx d slot h r tail n io o v c fits p l k m da pa =
    let ds : List ℕ = take r.descriptor_length tail in
    let input : List ℕ = encode_plugin_request r ds in
    let exact : length ds ≡ r.descriptor_length =
      omega (arith, length-take r.descriptor_length tail, l) in
    let long : plugin_request_size ≤ length input =
      omega (arith, length-encode_plugin_request r ds fits) in
    let (out, given) = io.delivers input long in
    let (i, d', made, fresh, there, others) =
      plugin_creates (f input) d request (length input) plugin_response_size r ds out v c fits
        (sym exact) (omega arith) given da pa long (omega arith) in
    let after : ServerContext DeviceContext = record ctx { driver = some d' } in
    (
      i,
      d',
      (attached_reply slot h.sequence r.device_info.device_id (true, i + 1, after)).0,
      attach_forwards sys ctx slot h r tail
          (encode_plugin_response
            (record { status = Status.success; device_id = i + 1; port_number = i + 1 }))
          n (i + 1) d d' fits k o m l (io.answers d input (response (i + 1) d') _ made refl)
          (plugin_result-response (i + 1) (omega (arith, low_id d' (i + 1) _ there))),
      attached_reply-driver after slot h.sequence r.device_info.device_id (i + 1),
      fresh,
      there,
      others,
    )
