-- ===== src/Server/Messages/Session.antt =====
-- server/vusb_server.c: the thread of a client (VusbClientThread), over the bytes that the client
-- sends until it closes the connection.
use usb_over_ip.Common.{
  ℕ, zero, suc, ◌+◌, ◌-◌, ◌≤◌, ◌<◌, ◌≡◌, ◌≢◌, refl, ◌⊎◌, List, [], ◌∷◌, ◌++◌, Bool, false, ◌&&◌,
  Option, none, some, ltb, if◌then◌else◌, ◌>>=◌, length, drop, arith, Option-cases, inl, inr,
  length-drop,
}
use usb_over_ip.Common.Codec.{bytes, uint, bytes-append}
use usb_over_ip.Protocol
use usb_over_ip.Protocol.{Header, validate_header, header_size, init_header}
use usb_over_ip.Protocol.Layout.{
  decode_header, encode_header, FitsHeader, decode_header-encode_header,
}
use usb_over_ip.Server.{ServerContext, Platform, Sent}
use usb_over_ip.Server.Clients.{disconnect_client}
use usb_over_ip.Server.Messages.{client_in, change_client, process_message}

-- The payload over the front of the receive buffer, and the bytes still to come; `none` is a
-- payload that is too large or cut short.
unfoldable pub receive_payload : ℕ → List ℕ → List ℕ → Option (List ℕ × List ℕ)
receive_payload len buffer stream =
    if ltb 0 len
    then if ltb (Protocol.max_packet_size - header_size) len
      then none
      else (bytes len stream >>= λ (p : List ℕ × List ℕ). some (p.0 ++ drop len buffer, p.1))
    else some (buffer, stream)

-- A valid header with its payload.
pub record Received : Type 0 where
  pub header : Header
  pub buffer : List ℕ
  pub stream : List ℕ

unfoldable pub receive : List ℕ → List ℕ → Option Received
receive buffer stream = decode_header stream >>= λ (p : Header × List ℕ).
    if validate_header p.0
    then (receive_payload p.0.payload_length buffer p.1 >>= λ (q : List ℕ × List ℕ).
        some (record { header = p.0; buffer = q.0; stream = q.1 }))
    else none

-- `unfinished` is the thread out of fuel; `faulted` is an access outside its buffer.
pub data Outcome (D : Type 0) : Type 0 where
  unfinished : Outcome D
  faulted : Outcome D
  closed : ServerContext D → List Sent → Outcome D

module _ {D : Type 0} where
  unfoldable pub after_sent : List Sent → Outcome D → Outcome D
  after_sent s Outcome.unfinished = Outcome.unfinished
  after_sent s Outcome.faulted = Outcome.faulted
  after_sent s (Outcome.closed c t) = Outcome.closed c (s ++ t)

  -- The condition of the loop.
  unfoldable pub is_open : ServerContext D → ℕ → Bool
  is_open ctx slot = elim (client_in ctx slot) [
    | none ↦ false
    | some c ↦ c.connected && ctx.running
  ]

module _ {D : Type 0} (sys : Platform D) where
  unfoldable pub close : ServerContext D → ℕ → Outcome D
  close ctx slot =
      Outcome.closed
        (disconnect_client sys (change_client (λ c. record c { connected = false }) ctx slot) slot)
        []

  unfoldable pub client_loop : ℕ → ServerContext D → ℕ → List ℕ → List ℕ → Outcome D
  client_loop zero ctx slot buffer stream = Outcome.unfinished
  client_loop (suc n) ctx slot buffer stream =
      elim (if is_open ctx slot then receive buffer stream else none) [
        | none ↦ close ctx slot
        | some r ↦ elim (process_message sys ctx slot r.header r.buffer r.header.payload_length) [
          | none ↦ Outcome.faulted
          | some (c, sent) ↦ after_sent sent (client_loop n c slot r.buffer r.stream)
        ]
      ]

  -- The thread, with its buffer as malloc gave it, or `none`.
  unfoldable pub client_thread : ServerContext D → ℕ → Option (List ℕ) → List ℕ → Outcome D
  client_thread ctx slot none stream = close ctx slot
  client_thread ctx slot (some buffer) stream =
      client_loop (suc (length stream)) ctx slot buffer stream

uint_shrinks :
    (k : ℕ) (bs : List ℕ) (n : ℕ) (rest : List ℕ)
    → uint k bs ≡ some (n, rest)
    → length rest + k ≡ length bs
unfolding uint bytes
uint_shrinks k bs n rest h = ground (arith, length-drop k bs)

-- What a field and the structure behind it take together.
shrinks->>= :
    {A B : Type 0} (o : Option (A × List ℕ)) (f : A × List ℕ → Option (B × List ℕ)) (bs : List ℕ)
    (j k : ℕ)
    → ((a : A) (r : List ℕ) → o ≡ some (a, r) → length r + j ≡ length bs)
    → ((a : A) (r : List ℕ) (b : B) (s : List ℕ) → f (a, r) ≡ some (b, s) → length s + k ≡ length r)
    → (b : B) (s : List ℕ) → (o >>= f) ≡ some (b, s)
    → length s + (j + k) ≡ length bs
shrinks->>= none f bs j k g h b s e = cc
shrinks->>= (some (a, r)) f bs j k g h b s e = omega (arith, g a r refl, h a r b s e)

pub decode_header_shrinks :
    (bs : List ℕ) (x : Header) (rest : List ℕ)
    → decode_header bs ≡ some (x, rest)
    → length rest + 16 ≡ length bs
unfolding decode_header
decode_header_shrinks bs = shrinks->>= (uint 4 bs) _ bs 4 12 (uint_shrinks 4 bs) λ a₀ b₀.
    shrinks->>= (uint 2 b₀) _ b₀ 2 10 (uint_shrinks 2 b₀) λ a₁ b₁.
      shrinks->>= (uint 2 b₁) _ b₁ 2 8 (uint_shrinks 2 b₁) λ a₂ b₂.
        shrinks->>= (uint 4 b₂) _ b₂ 4 4 (uint_shrinks 4 b₂)
          λ a₃ b₃. shrinks->>= (uint 4 b₃) _ b₃ 4 0 (uint_shrinks 4 b₃) λ a₄ b₄ x s e. ground arith

receive_payload_shrinks :
    (len : ℕ) (buffer stream b rest : List ℕ)
    → receive_payload len buffer stream ≡ some (b, rest)
    → length rest ≤ length stream
unfolding receive_payload bytes
receive_payload_shrinks len buffer stream b rest h = ground (arith, length-drop len stream)

pub receive_shrinks :
    (buffer stream : List ℕ) (r : Received)
    → receive buffer stream ≡ some r
    → length r.stream < length stream
unfolding receive
receive_shrinks buffer stream r h = elim (Option-cases (decode_header stream)) [
  | inl q ↦ absurd (ground arith)
  | inr ((x, rest), q) ↦ elim (Option-cases (receive_payload x.payload_length buffer rest)) [
    | inl p ↦ absurd (ground arith)
    | inr ((b, last), p) ↦ ground (
      arith,
      decode_header_shrinks stream x rest q,
      receive_payload_shrinks x.payload_length buffer rest b last p,
    )
  ]
]

after_sent_finishes :
    {D : Type 0} (s : List Sent) (o : Outcome D)
    → o ≢ Outcome.unfinished
    → after_sent s o ≢ Outcome.unfinished
unfolding after_sent
after_sent_finishes s Outcome.unfinished h = h
after_sent_finishes s Outcome.faulted h = λ e. cc
after_sent_finishes s (Outcome.closed c t) h = λ e. cc

-- One turn of the loop, if the later turns finish.
client_turn_finishes :
    {D : Type 0} (sys : Platform D) (n : ℕ) (ctx : ServerContext D) (slot : ℕ)
    (buffer stream : List ℕ) (o : Option Received)
    → ((c : ServerContext D) (b s : List ℕ)
        → length s < length stream
        → client_loop sys n c slot b s ≢ Outcome.unfinished)
    → (if is_open ctx slot then receive buffer stream else none) ≡ o
    → client_loop sys (suc n) ctx slot buffer stream ≢ Outcome.unfinished
unfolding close client_loop
client_turn_finishes sys n ctx slot buffer stream none later q = rw (q, client_loop) (λ e. cc)
client_turn_finishes sys n ctx slot buffer stream (some r) later q =
    elim (Option-cases (process_message sys ctx slot r.header r.buffer r.header.payload_length)) [
      | inl p ↦ rw (q, p, client_loop) (λ e. cc)
      | inr ((c, s), p) ↦
          rw (q, p, client_loop)
            (after_sent_finishes s (client_loop sys n c slot r.buffer r.stream)
              (later c r.buffer r.stream (receive_shrinks buffer stream r (ground arith))))
    ]

client_loop_finishes :
    {D : Type 0} (sys : Platform D) (n : ℕ) (ctx : ServerContext D) (slot : ℕ)
    (buffer stream : List ℕ)
    → length stream < n
    → client_loop sys n ctx slot buffer stream ≢ Outcome.unfinished
client_loop_finishes sys zero ctx slot buffer stream h = absurd (omega arith)
client_loop_finishes sys (suc n) ctx slot buffer stream h =
    client_turn_finishes sys n ctx slot buffer stream
      (if is_open ctx slot then receive buffer stream else none)
      (λ c b s l. client_loop_finishes sys n c slot b s (omega arith)) refl

-- The thread of a client ends whatever bytes the client sends before it closes the connection: it
-- is never out of the fuel that it starts with, one more than the count of those bytes.
pub client_thread_finishes :
    {D : Type 0} (sys : Platform D) (ctx : ServerContext D) (slot : ℕ) (memory : Option (List ℕ))
    (stream : List ℕ)
    → client_thread sys ctx slot memory stream ≢ Outcome.unfinished
unfolding client_thread close
client_thread_finishes sys ctx slot none stream = λ e. cc
client_thread_finishes sys ctx slot (some buffer) stream =
    client_loop_finishes sys (suc (length stream)) ctx slot buffer stream (omega arith)

-- A message whose header is valid and announces the length of its payload, at most 65520 bytes, is
-- received whole: the payload stands at the front of the buffer, with the earlier contents behind
-- it, and the bytes of later messages are left for later.
pub receive_frame :
    (command sequence : ℕ) (payload buffer rest : List ℕ)
    → FitsHeader (init_header command (length payload) sequence)
    → length payload ≤ 65520
    → receive buffer
        (encode_header (init_header command (length payload) sequence) (payload ++ rest))
      ≡ some (record {
        header = init_header command (length payload) sequence;
        buffer = payload ++ drop (length payload) buffer;
        stream = rest;
      })
unfolding receive receive_payload init_header validate_header
receive_frame command sequence [] buffer rest f h = rw (decode_header-encode_header _ rest f) refl
receive_frame command sequence (x ∷ xs) buffer rest f h =
    rw (decode_header-encode_header _ (x ∷ xs ++ rest) f)
      (ground (arith, bytes-append (length (x ∷ xs)) (x ∷ xs) rest refl))

-- Of bytes that start with a header, nothing is received if its magic or its version is not the
-- protocol's, if it announces more than 65520 bytes, or if it announces more than follow it.
pub receive_refuses :
    (buffer stream rest : List ℕ) (h : Header)
    → decode_header stream ≡ some (h, rest)
    → (h.magic ≢ Protocol.protocol_magic)
      ⊎ (h.version ≢ Protocol.protocol_version)
      ⊎ (65520 < h.payload_length)
      ⊎ (length rest < h.payload_length)
    → receive buffer stream ≡ none
unfolding receive receive_payload validate_header bytes
receive_refuses buffer stream rest h e c = ground (arith, e)
