-- ===== src/Client/Receiving.antt =====
-- client/vusb_client_enhanced.c: the messages of the server to the client with captured devices, and
-- the thread that receives them. `none` is an access outside a buffer.
pub mod Misreading
pub mod Finishing
use usb_over_ip.Common.{
  ℕ, zero, suc, ◌+◌, ◌-◌, List, [], ◌∷◌, ◌++◌, Bool, true, false, ◌&&◌, Option, none, some, ◌==◌,
  ltb, leb, if◌then◌else◌, ◌>>=◌, length, take, drop, not,
}
use usb_over_ip.Common.Codec.{bytes}
use usb_over_ip.Protocol
use usb_over_ip.Protocol.{
  Header, UrbSubmit, UrbComplete, header_size, urb_submit_size, urb_complete_size, init_header,
  validate_header,
}
use usb_over_ip.Protocol.Command
use usb_over_ip.Protocol.Direction
use usb_over_ip.Protocol.Layout.{encode_header, decode_header}
use usb_over_ip.Protocol.Layout.Urbs.{decode_urb_submit, encode_urb_complete}
use usb_over_ip.Driver.Table.{inc32}
use usb_over_ip.Server.Messages.{message}
use usb_over_ip.Client.Capture.{WinUsb, CapturedDevice}
use usb_over_ip.Client.Urbs.{Completion, Processed, process_urb}

-- `sequence` and `connected` are those of the client that it extends.
pub record ClientContextEx : Type 0 where
  pub running : Bool
  pub connected : Bool
  pub sequence : ℕ
  pub captured : List CapturedDevice

-- What follows the structure: the data, or what malloc left there.
unfoldable pub completion_tail : List ℕ → Completion → Option (List ℕ)
completion_tail memory c =
    let left = take c.actual_length (drop urb_complete_size memory) in
    elim c.bytes [
      | none ↦ some left
      | some b ↦ if leb c.actual_length (length b) then some (take c.actual_length b) else none
    ]

abbrev pub completion_fields : Completion → UrbComplete
completion_fields c = record {
  device_id = c.device_id;
  urb_id = c.urb_id;
  status = c.status;
  actual_length = c.actual_length;
  error_count = 0;
}

unfoldable pub completion_message : ℕ → Completion → List ℕ → List ℕ
completion_message sequence c tail =
    encode_header
      (init_header Command.urb_complete (urb_complete_size - header_size + c.actual_length)
        sequence)
      (encode_urb_complete (completion_fields c) tail)

-- `malloc` gives memory of a size, or none.
module _ (malloc : ℕ → Option (List ℕ)) where
  unfoldable pub send_urb_completion :
      ClientContextEx → Completion → Option (ClientContextEx × List (List ℕ))
  send_urb_completion ctx c = elim (malloc (urb_complete_size + c.actual_length)) [
    | none ↦ some (ctx, [])
    | some memory ↦
        let sequence = inc32 ctx.sequence in
        completion_tail memory c >>= λ (tail : List ℕ).
        some (record ctx { sequence = sequence }, completion_message sequence c tail ∷ [])
  ]

module _ (usb : WinUsb) (malloc : ℕ → Option (List ℕ)) where
  -- The processing of a request, with the data behind it for a transfer to the device.
  unfoldable pub submit_read :
      ClientContextEx → UrbSubmit → List ℕ → Option (ClientContextEx × List (List ℕ))
  submit_read ctx u behind =
      let outward = u.direction == Direction.out && ltb 0 u.transfer_buffer_length in
      process_urb usb malloc ctx.captured u (if outward then some behind else none)
        (if outward then u.transfer_buffer_length else 0)
      >>= λ (p : Processed).
          send_urb_completion malloc (record ctx { captured = p.devices }) p.completion

  -- The cast counts a header at the start of the payload, although the payload starts behind it.
  unfoldable pub handle_submit :
      ClientContextEx → List ℕ → ℕ → Option (ClientContextEx × List (List ℕ))
  handle_submit ctx payload payload_length =
      if ltb payload_length (urb_submit_size - header_size)
      then some (ctx, [])
      else (decode_urb_submit (drop header_size payload) >>= λ (p : UrbSubmit × List ℕ).
          submit_read ctx p.0 (drop (urb_submit_size - header_size) payload))

  -- A cancellation, an error and any other message only print.
  unfoldable pub process_server_message :
      ClientContextEx → Header → List ℕ → ℕ → Option (ClientContextEx × List (List ℕ))
  process_server_message ctx header payload payload_length =
      if header.command == Command.ping
      then some (ctx, message Command.pong [] header.sequence ∷ [])
      else if header.command == Command.submit_urb
      then handle_submit ctx payload payload_length
      else some (ctx, [])

-- What a turn of the thread's loop reads: the end, a header that it skips, or a message with the
-- buffer and the bytes still to come.
pub data Read : Type 0 where
  stopped : Read
  skipped : List ℕ → Read
  received : Header → List ℕ → List ℕ → Read

unfoldable pub read_rest : Header → List ℕ → Option (List ℕ × List ℕ) → Read
read_rest h buffer none = Read.stopped
read_rest h buffer (some (p, rest)) = Read.received h (p ++ drop h.payload_length buffer) rest

unfoldable pub read_payload : Header → List ℕ → List ℕ → Read
read_payload h buffer stream =
    if ltb 0 h.payload_length
    then (if ltb Protocol.max_packet_size h.payload_length
        then Read.stopped
        else read_rest h buffer (bytes h.payload_length stream))
    else Read.received h buffer stream

unfoldable pub read_header : List ℕ → Option (Header × List ℕ) → Read
read_header buffer none = Read.stopped
read_header buffer (some (h, rest)) =
    if validate_header h then read_payload h buffer rest else Read.skipped rest

unfoldable pub read_message : List ℕ → List ℕ → Read
read_message buffer stream = read_header buffer (decode_header stream)

-- `unfinished` is the thread out of fuel; `faulted` is an access outside its buffer.
pub data ReceiveOutcome : Type 0 where
  unfinished faulted : ReceiveOutcome
  ended : ClientContextEx → List (List ℕ) → ReceiveOutcome

unfoldable pub after_sends : List (List ℕ) → ReceiveOutcome → ReceiveOutcome
after_sends s ReceiveOutcome.unfinished = ReceiveOutcome.unfinished
after_sends s ReceiveOutcome.faulted = ReceiveOutcome.faulted
after_sends s (ReceiveOutcome.ended c t) = ReceiveOutcome.ended c (s ++ t)

-- The condition of the loop, and what the turn reads.
unfoldable pub next_read : ClientContextEx → List ℕ → List ℕ → Read
next_read ctx buffer stream =
    if ctx.running && ctx.connected then read_message buffer stream else Read.stopped

abbrev pub stop_receiving : ClientContextEx → ReceiveOutcome
stop_receiving ctx = ReceiveOutcome.ended (record ctx { connected = false }) []

module _ (usb : WinUsb) (malloc : ℕ → Option (List ℕ)) where
  unfoldable pub receive_loop : ℕ → ClientContextEx → List ℕ → List ℕ → ReceiveOutcome
  receive_loop zero ctx buffer stream = ReceiveOutcome.unfinished
  receive_loop (suc n) ctx buffer stream = elim (next_read ctx buffer stream) [
    | Read.stopped ↦ stop_receiving ctx
    | Read.skipped rest ↦ receive_loop n ctx buffer rest
    | Read.received h b rest ↦ elim (process_server_message usb malloc ctx h b h.payload_length) [
      | none ↦ ReceiveOutcome.faulted
      | some (c, sends) ↦ after_sends sends (receive_loop n c b rest)
    ]
  ]

  -- The thread over the bytes that the server sends until it closes the connection. Without memory
  -- for its buffer it ends at once.
  unfoldable pub receive_thread : ClientContextEx → List ℕ → ReceiveOutcome
  receive_thread ctx stream = elim (malloc Protocol.max_packet_size) [
    | none ↦ ReceiveOutcome.ended ctx []
    | some buffer ↦ receive_loop (suc (length stream)) ctx buffer stream
  ]
