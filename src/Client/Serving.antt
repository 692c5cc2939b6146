-- ===== src/Client/Serving.antt =====
-- The client of client/vusb_client.c against the user-mode server of userspace/vusb_userspace.c: the
-- server's state is behind the client's socket.
use mathlib.Core.Path.{subst}
use usb_over_ip.Common.{
  ℕ, ◌+◌, ◌^◌, ◌≤◌, ◌<◌, ◌≡◌, ◌∙◌, refl, ap, List, [], ◌∷◌, ◌++◌, Bool, true, Option, none, some,
  arith, length, drop, append-nil, take_all, drop_all, le→leb,
}
use usb_over_ip.Protocol.{init_header}
use usb_over_ip.Protocol.Layout.{encode_header, FitsHeader}
use usb_over_ip.Server.Messages.{message}
use usb_over_ip.Server.Messages.Session.{Received, receive, receive_frame}
use usb_over_ip.Userspace.{UserClient, UserContext}
use usb_over_ip.Userspace.Messages.{user_client, process_user_message}
use usb_over_ip.Userspace.Messages.Session.{incoming, next_message}
use usb_over_ip.Ioctl.Sizes.{length-encode_header}
use usb_over_ip.Driver.Table.{inc32}
use usb_over_ip.Client.{Network, ClientContext, send, sent, request, respond, recv}
use usb_over_ip.Client.Requests.{next_sequence}

-- The server's state, with the receive buffer of the client's thread.
pub record UserServer : Type 0 where
  pub context : UserContext
  pub buffer : List ℕ

unfoldable pub joined : List (List ℕ) → List ℕ
joined [] = []
joined (m ∷ ms) = m ++ joined ms

next_message_open :
    (ctx : UserContext) (slot : ℕ) (buffer stream : List ℕ) (c : UserClient) (r : Received)
    → user_client ctx slot ≡ some c
    → c.connected ≡ true
    → ctx.running ≡ true
    → receive buffer stream ≡ some r
    → next_message ctx slot buffer stream ≡ some (c, r)
unfolding next_message
next_message_open ctx slot buffer stream c r u k g e = ground (arith, u, k, g, e)

module _ (malloc : ℕ → Bool) (slot : ℕ) where
  unfoldable pub processed :
      UserServer → Option (UserContext × List (List ℕ)) → List ℕ → Option (List ℕ) × UserServer
  processed s none buffer = (none, s)
  processed s (some (ctx, answers)) buffer =
      (some (joined answers), record { context = ctx; buffer = buffer })

  -- A turn of the client's thread on one message; what ends the thread fails the send.
  unfoldable pub serve_next :
      UserServer → Option (UserClient × Received) → Option (List ℕ) × UserServer
  serve_next s none = (none, s)
  serve_next s (some (c, r)) =
      processed s (process_user_message malloc s.context slot c (incoming r)) r.buffer

  unfoldable pub serve : UserServer → List ℕ → Option (List ℕ) × UserServer
  serve s bytes = serve_next s (next_message s.context slot s.buffer bytes)

  -- The client's network is that server.
  unfoldable pub Serves : Network UserServer → Type 0
  Serves net = (s : UserServer) (bytes : List ℕ) → net.answer s bytes ≡ serve s bytes

  -- A message that fits is served as the thread handles it.
  pub serve-message :
      (s : UserServer) (c : UserClient) (command sequence : ℕ) (payload : List ℕ)
      → user_client s.context slot ≡ some c
      → c.connected ≡ true
      → s.context.running ≡ true
      → FitsHeader (init_header command (length payload) sequence)
      → length payload ≤ 65520
      → serve s (message command payload sequence)
        ≡ processed s
            (process_user_message malloc s.context slot c (record {
              header = init_header command (length payload) sequence;
              buffer = payload ++ drop (length payload) s.buffer;
              payload_length = length payload;
            }))
            (payload ++ drop (length payload) s.buffer)
  unfolding serve serve_next message init_header
  serve-message s c command sequence payload u k g f l =
      let r : Received = record {
        header = init_header command (length payload) sequence;
        buffer = payload ++ drop (length payload) s.buffer;
        stream = [];
      } in
      let whole : receive s.buffer (message command payload sequence) ≡ some r =
        subst
          (λ bs.
            receive s.buffer (encode_header (init_header command (length payload) sequence) bs)
            ≡ some r)
          (append-nil payload) (receive_frame command sequence payload s.buffer [] f l) in
      ap (serve_next s) (next_message_open s.context slot s.buffer _ c r u k g whole)

-- A header that a client or a server fills in fits its fields.
pub init_header-FitsHeader :
    (command len sequence : ℕ)
    → command < 256 ^ 2
    → len < 256 ^ 4
    → sequence < 256 ^ 4
    → FitsHeader (init_header command len sequence)
unfolding init_header
init_header-FitsHeader command len sequence c l s = record {
  magic_fits = omega arith;
  version_fits = omega arith;
  command_fits = c;
  payload_length_fits = l;
  sequence_fits = s;
}

-- A request that gets an answer of the length that the client waits for.
request_answered :
    {P : Type 0} (net : Network P) (ctx : ClientContext P) (bytes a : List ℕ) (n : ℕ) (p : P)
    → ctx.unread ≡ []
    → net.answer ctx.peer bytes ≡ (some a, p)
    → length a ≡ n
    → request net bytes n ctx ≡ (some a, record ctx { unread = []; peer = p })
unfolding request respond send sent recv
request_answered net ctx bytes a n p u e l =
    rw
      (
        e,
        u,
        le→leb n (length a) (omega arith),
        take_all n a (omega arith),
        drop_all n a (omega arith),
      )
      refl

-- The client's state has nothing unread, and the server serves it in the slot of a client that is
-- connected.
pub record IsServed (malloc : ℕ → Bool) (slot : ℕ) (net : Network UserServer)
    (ctx : ClientContext UserServer) (c : UserClient) : Type 0 where
  pub serves : Serves malloc slot net
  pub nothing_unread : ctx.unread ≡ []
  pub is_connected : ctx.connected ≡ true
  pub in_slot : user_client ctx.peer.context slot ≡ some c
  pub stays : c.connected ≡ true
  pub is_running : ctx.peer.context.running ≡ true

-- The server's message buffer after a payload has come in.
abbrev pub incoming_buffer : ClientContext UserServer → List ℕ → List ℕ
incoming_buffer ctx payload = payload ++ drop (length payload) ctx.peer.buffer

-- A request that the server answers with one message.
pub request_served :
    (malloc : ℕ → Bool) (slot : ℕ) (net : Network UserServer) (ctx : ClientContext UserServer)
    (c : UserClient) (command n : ℕ) (payload m : List ℕ) (after : UserContext)
    → IsServed malloc slot net ctx c
    → command < 256 ^ 2
    → length payload ≤ 65520
    → process_user_message malloc ctx.peer.context slot c (record {
      header = init_header command (length payload) (inc32 ctx.sequence);
      buffer = incoming_buffer ctx payload;
      payload_length = length payload;
    })
      ≡ some (after, m ∷ [])
    → length m ≡ n
    → request net (message command payload (inc32 ctx.sequence)) n (next_sequence ctx) ≡ (
      some m,
      record (next_sequence ctx) {
        unread = [];
        peer = record { context = after; buffer = incoming_buffer ctx payload };
      },
    )
unfolding Serves processed joined
request_served malloc slot net ctx c command n payload m after s k l e z =
    let fits =
      init_header-FitsHeader command (length payload) (inc32 ctx.sequence) k (omega arith)
        (omega arith) in
    request_answered net (next_sequence ctx) (message command payload (inc32 ctx.sequence)) m n _
      s.nothing_unread
      (s.serves ctx.peer (message command payload (inc32 ctx.sequence))
        ∙ (serve-message malloc slot ctx.peer c command (inc32 ctx.sequence) payload s.in_slot
              s.stays s.is_running fits l
            ∙ rw (e, append-nil m) refl))
      z

pub length-message :
    (command sequence : ℕ) (payload : List ℕ)
    → length (message command payload sequence) ≡ 16 + length payload
unfolding message
length-message command sequence payload =
    length-encode_header (init_header command (length payload) sequence) payload
