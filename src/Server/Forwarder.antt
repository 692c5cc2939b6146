-- ===== src/Server/Forwarder.antt =====
-- server/vusb_server_urb.c: the driver's pending requests on their way to the clients.
pub mod Submitting
pub mod Tracking
use usb_over_ip.Common.{
  ℕ, zero, suc, ◌+◌, ◌-◌, ◌%◌, ◌^◌, List, [], ◌∷◌, ◌++◌, Bool, true, false, ◌&&◌, Option, none,
  some, ◌==◌, ltb, leb, if◌then◌else◌, ◌>>=◌, length, take, replicate, not,
}
use usb_over_ip.Protocol.{UrbSubmit, header_size, init_header, urb_submit_size}
use usb_over_ip.Protocol.Status
use usb_over_ip.Protocol.Command
use usb_over_ip.Protocol.Direction
use usb_over_ip.Protocol.Layout.{encode_header}
use usb_over_ip.Protocol.Layout.Urbs.{encode_urb_submit}
use usb_over_ip.Ioctl.{IoctlCode, PendingUrb, UrbCompletion, urb_completion_size}
use usb_over_ip.Ioctl.Layout.{decode_pending_urb, encode_urb_completion}
use usb_over_ip.Driver.Table.{inc32, dec32}
use usb_over_ip.Server.{ServerContext, Platform, Sent, Tracked, UrbContext, control}
use usb_over_ip.Server.Clients.{find_client_for_device}

abbrev pub submit_of : PendingUrb → UrbSubmit
submit_of p = record {
  device_id = p.device_id;
  urb_id = p.urb_id;
  endpoint_address = p.endpoint_address;
  transfer_type = p.transfer_type;
  direction = p.direction;
  reserved = 0;
  transfer_flags = p.transfer_flags;
  transfer_buffer_length = p.transfer_buffer_length;
  interval = p.interval;
  setup_packet = p.setup_packet;
}

-- How many bytes of data go along.
abbrev pub out_length : PendingUrb → ℕ
out_length p =
    if p.direction == Direction.out && ltb 0 p.transfer_buffer_length
    then p.transfer_buffer_length
    else 0

-- The message for the client; `tail` are the bytes behind the structure.
unfoldable pub submit_message : PendingUrb → List ℕ → Option (List ℕ)
submit_message p tail =
    if leb (out_length p) (length tail)
    then some (
        encode_header
          (init_header Command.submit_urb ((urb_submit_size + out_length p - header_size) % 2 ^ 32)
            p.sequence_number)
          (encode_urb_submit (submit_of p) (take (out_length p) tail)))
    else none

unfoldable pub add_tracked : Bool → UrbContext → PendingUrb → ℕ → ℕ → UrbContext
add_tracked false u p slot now = u
add_tracked true u p slot now = record {
  pending_list =
      record {
        urb_id = p.urb_id;
        device_id = p.device_id;
        client_device_id = 0;
        client = slot;
        submit_time = now;
        timeout = 0;
      }
      ∷ u.pending_list;
  pending_count = inc32 u.pending_count;
}

-- The completion for a request whose device no client has.
abbrev pub no_device_completion : PendingUrb → UrbCompletion
no_device_completion p = record {
  device_id = p.device_id;
  urb_id = p.urb_id;
  sequence_number = p.sequence_number;
  status = Status.no_device;
  actual_length = 0;
}

-- The first tracked request with the id, and the list without it.
unfoldable pub take_tracked : ℕ → List Tracked → Option (Tracked × List Tracked)
take_tracked id [] = none
take_tracked id (t ∷ ts) =
    let rest = take_tracked id ts in
    if t.urb_id == id
    then some (t, ts)
    else (rest >>= λ (p : Tracked × List Tracked). some (p.0, t ∷ p.1))

-- What the caller gets, and what is sent.
pub record Forwarded (D : Type 0) : Type 0 where
  pub ok : Bool
  pub urbs : UrbContext
  pub context : ServerContext D
  pub sent : List Sent

module _ {D : Type 0} (sys : Platform D) where
  unfoldable pub forward_to :
      UrbContext → ServerContext D → PendingUrb → List ℕ → ℕ → ℕ → Option (Forwarded D)
  forward_to u ctx p tail slot now =
      if not (sys.malloc (urb_submit_size + out_length p))
      then some (record { ok = false; urbs = u; context = ctx; sent = [] })
      else (submit_message p tail >>= λ (m : List ℕ). some (record {
        ok = sys.sends_all slot m;
        urbs = add_tracked sys.tracking_allocated u p slot now;
        context = ctx;
        sent = record { slot = slot; bytes = m } ∷ [];
      }))

  unfoldable pub forward_found :
      UrbContext → ServerContext D → PendingUrb → List ℕ → ℕ → Option ℕ → Option (Forwarded D)
  forward_found u ctx p tail now (some slot) = forward_to u ctx p tail slot now
  forward_found u ctx p tail now none = some (record {
    ok = false;
    urbs = u;
    context =
        (control sys ctx IoctlCode.complete_urb
          (encode_urb_completion (no_device_completion p) [])).1;
    sent = [];
  })

  unfoldable pub urb_forward : UrbContext → ServerContext D → List ℕ → ℕ → Option (Forwarded D)
  urb_forward u ctx buffer now = decode_pending_urb buffer >>= λ (p : PendingUrb × List ℕ).
      forward_found u ctx p.0 p.1 now (find_client_for_device ctx p.0.device_id)

  -- The driver's completion for a tracked request, its length a DWORD; without data its bytes stay
  -- as allocated.
  unfoldable pub complete_tracked :
      ServerContext D → Tracked → ℕ → ℕ → ℕ → Option (List ℕ) → List ℕ → Option (ServerContext D)
  complete_tracked ctx t id status actual payload fresh =
      if not (sys.malloc (urb_completion_size + actual))
      then some ctx
      else ((elim payload [
        | none ↦ some (take actual fresh)
        | some d ↦ if leb actual (length d) then some (take actual d) else none
      ])
          >>= λ (d : List ℕ). some (
              (control sys ctx IoctlCode.complete_urb (
                take ((urb_completion_size + actual) % 2 ^ 32) (
                  encode_urb_completion
                    (record {
                      device_id = t.device_id;
                      urb_id = id;
                      sequence_number = 0;
                      status = status;
                      actual_length = actual;
                    })
                    d))).1))

  -- `fresh` are the bytes of the memory that the completion is built in.
  unfoldable pub server_urb_complete :
      UrbContext
      → ServerContext D
      → ℕ
      → ℕ
      → ℕ
      → Option (List ℕ)
      → List ℕ
      → Option (Bool × UrbContext × ServerContext D)
  server_urb_complete u ctx id status actual payload fresh = elim (take_tracked id u.pending_list) [
    | none ↦ some (false, u, ctx)
    | some (t, rest) ↦
        let v : UrbContext = record {
          pending_list = rest;
          pending_count = dec32 u.pending_count;
        } in
        elim ctx.driver [
          | none ↦ some (true, v, ctx)
          | some _ ↦
              complete_tracked ctx t id status actual payload fresh >>= λ (c : ServerContext D).
              some (true, v, c)
        ]
  ]
