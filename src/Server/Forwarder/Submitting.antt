-- ===== src/Server/Forwarder/Submitting.antt =====
-- What a client is told of a pending request, and which client.
use usb_over_ip.Common.{
  ℕ, ◌+◌, ◌-◌, ◌^◌, ◌%◌, ◌≡◌, refl, ◌∙◌, List, [], ◌∷◌, ◌++◌, none, some, true, false, length,
  Option, All, ap, sym, if◌then◌else◌, ◌==◌, arith, take-append, length-append,
}
use usb_over_ip.Protocol.{
  Header, UrbSubmit, header_size, init_header, validate_header, urb_submit_size,
}
use usb_over_ip.Protocol.Command
use usb_over_ip.Protocol.Layout.{
  decode_header, encode_header, FitsHeader, decode_header-encode_header,
}
use usb_over_ip.Protocol.Layout.Urbs.{
  decode_urb_submit, encode_urb_submit, FitsUrbSubmit, decode_urb_submit-encode_urb_submit,
}
use usb_over_ip.Ioctl.{IoctlCode, PendingUrb}
use usb_over_ip.Ioctl.Layout.{
  encode_pending_urb, decode_pending_urb, FitsPendingUrb, decode_pending_urb-encode_pending_urb,
  encode_urb_completion,
}
use usb_over_ip.Protocol.Direction
use usb_over_ip.Server.Clients.Owning.{Passes, Has, find_client_for_device-first}
use usb_over_ip.Server.{
  ClientConnection, ClientDevice, ServerContext, Platform, UrbContext, control,
}
use usb_over_ip.Server.Clients.{find_client_for_device}
use usb_over_ip.Server.Forwarder.{
  submit_of, out_length, submit_message, Forwarded, forward_to, forward_found, urb_forward,
  no_device_completion, add_tracked,
}

-- The bytes of data that an OUT transfer carries.
abbrev pub data_length : PendingUrb → ℕ
data_length p = if p.direction == Direction.out then p.transfer_buffer_length else 0

-- What the client reads of a request: each of its fields.
abbrev pub asked : PendingUrb → UrbSubmit
asked p = record {
  device_id = p.device_id;
  urb_id = p.urb_id;
  endpoint_address = p.endpoint_address;
  transfer_type = p.transfer_type;
  direction = p.direction;
  reserved = 0;
  transfer_flags = p.transfer_flags;
  transfer_buffer_length = p.transfer_buffer_length;
  interval = p.interval;
  setup_packet = p.setup_packet;
}

-- The header that announces a request: the command, the bytes of the fields and the data, and the
-- driver's number for the request.
abbrev pub announcing : PendingUrb → Header
announcing p = record {
  magic = 0x56555342;
  version = 0x0100;
  command = 0x0020;
  payload_length = (32 + data_length p) % 2 ^ 32;
  sequence = p.sequence_number;
}

out_length-data_length : (p : PendingUrb) → out_length p ≡ data_length p
out_length-data_length p = ground arith

-- The header of the message for a request.
abbrev pub submit_header : PendingUrb → Header
submit_header p =
    init_header Command.submit_urb ((urb_submit_size + out_length p - header_size) % 2 ^ 32)
      p.sequence_number

submit_header-Fits : (p : PendingUrb) → FitsPendingUrb p → FitsHeader (submit_header p)
unfolding init_header
submit_header-Fits p f = record {
  magic_fits = omega arith;
  version_fits = omega arith;
  command_fits = omega arith;
  payload_length_fits = omega arith;
  sequence_fits = f.sequence_number_fits;
}

submit_of-Fits : (p : PendingUrb) → FitsPendingUrb p → FitsUrbSubmit (submit_of p)
submit_of-Fits p f = record {
  device_id_fits = f.device_id_fits;
  urb_id_fits = f.urb_id_fits;
  endpoint_address_fits = f.endpoint_address_fits;
  transfer_type_fits = f.transfer_type_fits;
  direction_fits = f.direction_fits;
  reserved_fits = omega arith;
  transfer_flags_fits = f.transfer_flags_fits;
  transfer_buffer_length_fits = f.transfer_buffer_length_fits;
  interval_fits = f.interval_fits;
  setup_packet_fits = f.setup_packet_fits;
}

decoded :
    {D : Type 0} (sys : Platform D) (u : UrbContext) (ctx : ServerContext D) (p : PendingUrb)
    (buffer tail : List ℕ) (now : ℕ)
    → decode_pending_urb buffer ≡ some (p, tail)
    → urb_forward sys u ctx buffer now
      ≡ forward_found sys u ctx p tail now (find_client_for_device ctx p.device_id)
unfolding urb_forward
decoded sys u ctx p buffer tail now e = rw e refl

-- For a pending request whose fields fit the packed layout, followed by the data of an OUT transfer
-- and other bytes, and whose device a connected client has active, as none in a slot before it, exactly
-- one message is sent, to that client, if the allocation succeeds. Its bytes are a valid header with the
-- command, the length and the number of the request, then each field of the request, then exactly
-- the data of the transfer.
pub urb_forward_submits :
    {D : Type 0} (sys : Platform D) (u : UrbContext) (ctx : ServerContext D) (p : PendingUrb)
    (payload rest : List ℕ) (front back : List (Option ClientConnection)) (c : ClientConnection)
    (own : ClientDevice) (now : ℕ)
    → FitsPendingUrb p
    → length payload ≡ data_length p
    → ctx.clients ≡ front ++ some c ∷ back
    → All (Passes p.device_id) front
    → Has p.device_id c own
    → sys.malloc (urb_submit_size + data_length p) ≡ true
    → (r : Forwarded D) × (m body : List ℕ) × (urb_forward sys u ctx
          (encode_pending_urb p (payload ++ rest))
          now
        ≡ some r)
      × (r.sent ≡ record { slot = length front; bytes = m } ∷ [])
      × (r.context ≡ ctx)
      × (decode_header m ≡ some (announcing p, body))
      × (validate_header (announcing p) ≡ true)
      × (decode_urb_submit body ≡ some (asked p, payload))
unfolding forward_found forward_to submit_message init_header validate_header
urb_forward_submits sys u ctx p payload rest front back c own now f l e a s m =
    let body : List ℕ = encode_urb_submit (submit_of p) payload in
    let bytes : List ℕ = encode_header (submit_header p) body in
    let slot = length front in
    let size : out_length p ≡ data_length p = out_length-data_length p in
    let owner = find_client_for_device-first ctx p.device_id front back c own e a s in
    let header : submit_header p ≡ announcing p =
      ap (λ n. record (announcing p) { payload_length = n }) (omega (arith, size)) in
    (
      record {
        ok = sys.sends_all slot bytes;
        urbs = add_tracked sys.tracking_allocated u p slot now;
        context = ctx;
        sent = record { slot = slot; bytes = bytes } ∷ [];
      },
      bytes,
      body,
      decoded sys u ctx p (encode_pending_urb p (payload ++ rest)) (payload ++ rest) now
            (decode_pending_urb-encode_pending_urb p (payload ++ rest) f)
          ∙ rw owner (
              ground (
                arith,
                m,
                size,
                take-append (out_length p) payload rest (l ∙ sym size),
                length-append payload rest,
              )),
      refl,
      refl,
      decode_header-encode_header (submit_header p) body (submit_header-Fits p f)
          ∙ ap (λ x. some (x, body)) header,
      ground arith,
      decode_urb_submit-encode_urb_submit (submit_of p) payload (submit_of-Fits p f),
    )

-- A pending request whose device no client owns is completed in the driver at once, under its own
-- ids, as having no device and no bytes; nothing is sent and nothing is tracked.
pub urb_forward_refuses :
    {D : Type 0} (sys : Platform D) (u : UrbContext) (ctx : ServerContext D) (p : PendingUrb)
    (rest : List ℕ) (now : ℕ)
    → FitsPendingUrb p
    → find_client_for_device ctx p.device_id ≡ none
    → urb_forward sys u ctx (encode_pending_urb p rest) now
      ≡ some (record {
        ok = false;
        urbs = u;
        context =
            (control sys ctx IoctlCode.complete_urb
              (encode_urb_completion (no_device_completion p) [])).1;
        sent = [];
      })
urb_forward_refuses sys u ctx p rest now f c =
    decoded sys u ctx p (encode_pending_urb p rest) rest now
      (decode_pending_urb-encode_pending_urb p rest f)
    ∙ rw c (unfold forward_found in refl)
