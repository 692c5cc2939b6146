-- ===== src/Client/Receiving/Finishing.antt =====
-- client/vusb_client_enhanced.c: the thread that receives the server's messages ends.
use usb_over_ip.Common.{
  ℕ, zero, suc, ◌<◌, ◌≡◌, ◌≢◌, refl, List, ◌&&◌, Option, none, some, ltb, length, arith,
  Option-cases, Bool-cases, inl, inr, length-drop,
}
use usb_over_ip.Common.Codec.{bytes}
use usb_over_ip.Protocol
use usb_over_ip.Protocol.{Header, validate_header}
use usb_over_ip.Protocol.Layout.{decode_header}
use usb_over_ip.Server.Messages.Session.{decode_header_shrinks}
use usb_over_ip.Client.Capture.{WinUsb}
use usb_over_ip.Client.Receiving.{
  ClientContextEx, Read, read_rest, read_payload, read_header, read_message, next_read,
  ReceiveOutcome, after_sends, receive_loop, receive_thread, process_server_message,
}

-- What is left to read after a turn is less than what there was.
Shorter : List ℕ → Read → Type 0
Shorter stream Read.stopped = Unit
Shorter stream (Read.skipped rest) = length rest < length stream
Shorter stream (Read.received h b rest) = length rest < length stream

read_rest-Shorter :
    (h : Header) (buffer rest stream : List ℕ) (o : Option (List ℕ × List ℕ))
    → length rest < length stream
    → bytes h.payload_length rest ≡ o
    → Shorter stream (read_rest h buffer o)
unfolding read_rest Shorter bytes
read_rest-Shorter h buffer rest stream none l e = tt
read_rest-Shorter h buffer rest stream (some (p, last)) l e =
    ground (arith, length-drop h.payload_length rest)

read_payload-Shorter :
    (h : Header) (buffer rest stream : List ℕ)
    → length rest < length stream
    → Shorter stream (read_payload h buffer rest)
unfolding read_payload Shorter
read_payload-Shorter h buffer rest stream l = elim (Bool-cases (ltb 0 h.payload_length)) [
  | inr q ↦ rw q l
  | inl q ↦ elim (Bool-cases (ltb Protocol.max_packet_size h.payload_length)) [
    | inl p ↦ rw (q, p) tt
    | inr p ↦ rw (q, p) (read_rest-Shorter h buffer rest stream _ l refl)
  ]
]

read_header-Shorter :
    (buffer stream : List ℕ) (o : Option (Header × List ℕ))
    → decode_header stream ≡ o
    → Shorter stream (read_header buffer o)
unfolding read_header Shorter
read_header-Shorter buffer stream none e = tt
read_header-Shorter buffer stream (some (h, rest)) e =
    let less : length rest < length stream = omega (arith, decode_header_shrinks stream h rest e) in
    elim (Bool-cases (validate_header h)) [
      | inl q ↦ rw q (read_payload-Shorter h buffer rest stream less)
      | inr q ↦ rw q less
    ]

next_read-Shorter :
    (ctx : ClientContextEx) (buffer stream : List ℕ) → Shorter stream (next_read ctx buffer stream)
unfolding next_read read_message Shorter
next_read-Shorter ctx buffer stream = elim (Bool-cases (ctx.running && ctx.connected)) [
  | inl q ↦ rw q (read_header-Shorter buffer stream _ refl)
  | inr q ↦ rw q tt
]

after_sends_finishes :
    (s : List (List ℕ)) (o : ReceiveOutcome)
    → o ≢ ReceiveOutcome.unfinished
    → after_sends s o ≢ ReceiveOutcome.unfinished
unfolding after_sends
after_sends_finishes s ReceiveOutcome.unfinished h = h
after_sends_finishes s ReceiveOutcome.faulted h = λ e. cc
after_sends_finishes s (ReceiveOutcome.ended c t) h = λ e. cc

-- One turn of the loop, if the later turns finish.
turn_finishes :
    (usb : WinUsb) (malloc : ℕ → Option (List ℕ)) (n : ℕ) (ctx : ClientContextEx)
    (buffer stream : List ℕ) (r : Read)
    → ((c : ClientContextEx) (b s : List ℕ)
        → length s < length stream
        → receive_loop usb malloc n c b s ≢ ReceiveOutcome.unfinished)
    → Shorter stream r
    → next_read ctx buffer stream ≡ r
    → receive_loop usb malloc (suc n) ctx buffer stream ≢ ReceiveOutcome.unfinished
unfolding Shorter receive_loop
turn_finishes usb malloc n ctx buffer stream Read.stopped later l q = rw (q, receive_loop) (λ e. cc)
turn_finishes usb malloc n ctx buffer stream (Read.skipped rest) later l q =
    rw (q, receive_loop) (later ctx buffer rest l)
turn_finishes usb malloc n ctx buffer stream (Read.received h b rest) later l q =
    elim (Option-cases (process_server_message usb malloc ctx h b h.payload_length)) [
      | inl p ↦ rw (q, p, receive_loop) (λ e. cc)
      | inr ((c, sends), p) ↦
          rw (q, p, receive_loop)
            (after_sends_finishes sends (receive_loop usb malloc n c b rest) (later c b rest l))
    ]

receive_loop_finishes :
    (usb : WinUsb) (malloc : ℕ → Option (List ℕ)) (n : ℕ) (ctx : ClientContextEx)
    (buffer stream : List ℕ)
    → length stream < n
    → receive_loop usb malloc n ctx buffer stream ≢ ReceiveOutcome.unfinished
receive_loop_finishes usb malloc zero ctx buffer stream h = absurd (omega arith)
receive_loop_finishes usb malloc (suc n) ctx buffer stream h =
    turn_finishes usb malloc n ctx buffer stream (next_read ctx buffer stream)
      (λ c b s l. receive_loop_finishes usb malloc n c b s (omega arith))
      (next_read-Shorter ctx buffer stream) refl

-- The thread that receives the server's messages ends whatever bytes the server sends before it
-- closes the connection, also where a header is invalid and the thread goes on behind it: it is never
-- out of the fuel that it starts with, one more than the count of those bytes.
pub receive_thread_finishes :
    (usb : WinUsb) (malloc : ℕ → Option (List ℕ)) (ctx : ClientContextEx) (stream : List ℕ)
    → receive_thread usb malloc ctx stream ≢ ReceiveOutcome.unfinished
unfolding receive_thread
receive_thread_finishes usb malloc ctx stream =
    elim (Option-cases (malloc Protocol.max_packet_size)) [
      | inl q ↦ rw (q, receive_thread) (λ e. cc)
      | inr (buffer, q) ↦
          rw (q, receive_thread)
            (receive_loop_finishes usb malloc (suc (length stream)) ctx buffer stream (omega arith))
    ]
