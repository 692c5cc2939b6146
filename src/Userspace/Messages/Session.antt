-- ===== src/Userspace/Messages/Session.antt =====
-- userspace/vusb_userspace.c: the acceptance of a connection, and the thread of a client over the
-- bytes that the client sends until it closes the connection (ClientThread).
use usb_over_ip.Common.{
  ℕ, zero, suc, ◌+◌, ◌-◌, ◌<◌, ◌≡◌, ◌≢◌, List, [], ◌∷◌, ◌++◌, Bool, true, false, ◌&&◌, Option, none,
  some, ◌==◌, if◌then◌else◌, length, set, replicate, arith, Option-cases, inl, inr,
}
use usb_over_ip.Driver.Table.{inc32, free_slot}
use usb_over_ip.Server.Messages.Session.{Received, receive, receive_shrinks}
use usb_over_ip.Userspace.{UserDevice, UserClient, UserContext}
use usb_over_ip.Userspace.Devices.{cleaned}
use usb_over_ip.Userspace.Messages.{Incoming, user_client, process_user_message}

-- The zeroed client with its session.
abbrev pub new_user_client : ℕ → UserClient
new_user_client session = record {
  session_id = session;
  connected = true;
  authenticated = false;
  client_name = replicate 64 0;
  client_version = 0;
  capabilities = 0;
  device_ids = [];
}

abbrev pub remove_user_client : UserContext → ℕ → UserContext
remove_user_client ctx slot = record ctx {
  clients = set ctx.clients slot none;
  client_count = ctx.client_count - 1;
}

unfoldable pub admit_client : Bool → UserContext → ℕ → Option ℕ → Option ℕ × UserContext
admit_client started ctx session none = (none, ctx)
admit_client started ctx session (some i) =
    let admitted = record ctx {
      clients = set ctx.clients i (some (new_user_client session));
      client_count = ctx.client_count + 1;
    } in
    if started then (some i, admitted) else (none, remove_user_client admitted i)

-- The slot of the new client, if its allocation succeeds, there is a slot and its thread starts.
unfoldable pub accept_user : Bool → Bool → UserContext → Option ℕ × UserContext
accept_user allocated started ctx =
    let session = inc32 ctx.next_session_id in
    if allocated
    then admit_client started (record ctx { next_session_id = session }) session
        (free_slot ctx.clients)
    else (none, ctx)

-- Every active device with the id is cleaned up.
unfoldable pub clean_id : ℕ → List UserDevice → List UserDevice
clean_id id [] = []
clean_id id (d ∷ ds) = (if d.active && d.device_id == id then cleaned d else d) ∷ clean_id id ds

unfoldable pub clean_ids : List ℕ → List UserDevice → List UserDevice
clean_ids [] ds = ds
clean_ids (id ∷ ids) ds = clean_ids ids (clean_id id ds)

-- The end of the thread.
unfoldable pub end_client : UserContext → ℕ → UserContext
end_client ctx slot = elim (user_client ctx slot) [
  | none ↦ ctx
  | some c ↦ remove_user_client (record ctx { devices = clean_ids c.device_ids ctx.devices }) slot
]

-- `unfinished` is the thread out of fuel; `faulted` is an access outside its buffer; `ended` has the
-- messages that were sent to the client.
pub data UserOutcome : Type 0 where
  unfinished faulted : UserOutcome
  ended : UserContext → List (List ℕ) → UserOutcome

unfoldable pub after_answers : List (List ℕ) → UserOutcome → UserOutcome
after_answers s UserOutcome.unfinished = UserOutcome.unfinished
after_answers s UserOutcome.faulted = UserOutcome.faulted
after_answers s (UserOutcome.ended c t) = UserOutcome.ended c (s ++ t)

-- The client that the loop goes on with, and its next message.
unfoldable pub next_message : UserContext → ℕ → List ℕ → List ℕ → Option (UserClient × Received)
next_message ctx slot buffer stream = elim (user_client ctx slot) [
  | none ↦ none
  | some c ↦ elim (receive buffer stream) [
    | none ↦ none
    | some r ↦ if c.connected && ctx.running then some (c, r) else none
  ]
]

abbrev pub incoming : Received → Incoming
incoming r = record {
  header = r.header;
  buffer = r.buffer;
  payload_length = r.header.payload_length;
}

unfoldable pub user_loop : (ℕ → Bool) → ℕ → UserContext → ℕ → List ℕ → List ℕ → UserOutcome
user_loop malloc zero ctx slot buffer stream = UserOutcome.unfinished
user_loop malloc (suc n) ctx slot buffer stream = elim (next_message ctx slot buffer stream) [
  | none ↦ UserOutcome.ended (end_client ctx slot) []
  | some (c, r) ↦ elim (process_user_message malloc ctx slot c (incoming r)) [
    | none ↦ UserOutcome.faulted
    | some (ctx', answers) ↦ after_answers answers (user_loop malloc n ctx' slot r.buffer r.stream)
  ]
]

-- The thread, with its buffer as malloc gave it, or `none`.
unfoldable pub user_thread : (ℕ → Bool) → UserContext → ℕ → Option (List ℕ) → List ℕ → UserOutcome
user_thread malloc ctx slot none stream = UserOutcome.ended (end_client ctx slot) []
user_thread malloc ctx slot (some buffer) stream =
    user_loop malloc (suc (length stream)) ctx slot buffer stream

after_answers_finishes :
    (s : List (List ℕ)) (o : UserOutcome)
    → o ≢ UserOutcome.unfinished
    → after_answers s o ≢ UserOutcome.unfinished
unfolding after_answers
after_answers_finishes s UserOutcome.unfinished h = h
after_answers_finishes s UserOutcome.faulted h = λ e. cc
after_answers_finishes s (UserOutcome.ended c t) h = λ e. cc

next_message_shrinks :
    (ctx : UserContext) (slot : ℕ) (buffer stream : List ℕ) (c : UserClient) (r : Received)
    → next_message ctx slot buffer stream ≡ some (c, r)
    → length r.stream < length stream
unfolding next_message
next_message_shrinks ctx slot buffer stream c r h = elim (Option-cases (user_client ctx slot)) [
  | inl q ↦ absurd (ground arith)
  | inr (c', q) ↦ elim (Option-cases (receive buffer stream)) [
    | inl p ↦ absurd (ground arith)
    | inr (r', p) ↦ ground (arith, receive_shrinks buffer stream r' p)
  ]
]

user_loop_finishes :
    (malloc : ℕ → Bool) (n : ℕ) (ctx : UserContext) (slot : ℕ) (buffer stream : List ℕ)
    → length stream < n
    → user_loop malloc n ctx slot buffer stream ≢ UserOutcome.unfinished
unfolding user_loop
user_loop_finishes malloc zero ctx slot buffer stream h = absurd (omega arith)
user_loop_finishes malloc (suc n) ctx slot buffer stream h =
    elim (Option-cases (next_message ctx slot buffer stream)) [
      | inl q ↦ rw (q, user_loop) (λ e. cc)
      | inr ((c, r), q) ↦
          (elim (Option-cases (process_user_message malloc ctx slot c (incoming r))) [
            | inl p ↦ rw (q, p, user_loop) (λ e. cc)
            | inr ((ctx', answers), p) ↦
                rw (q, p, user_loop)
                  (after_answers_finishes answers (user_loop malloc n ctx' slot r.buffer r.stream) (
                    user_loop_finishes malloc n ctx' slot r.buffer r.stream
                      (omega (arith, next_message_shrinks ctx slot buffer stream c r q))))
          ])
    ]

-- The thread of a client of the user-mode server ends whatever bytes the client sends before it
-- closes the connection: it is never out of the fuel that it starts with, one more than the count of
-- those bytes.
pub user_thread_finishes :
    (malloc : ℕ → Bool) (ctx : UserContext) (slot : ℕ) (memory : Option (List ℕ)) (stream : List ℕ)
    → user_thread malloc ctx slot memory stream ≢ UserOutcome.unfinished
unfolding user_thread
user_thread_finishes malloc ctx slot none stream = λ e. cc
user_thread_finishes malloc ctx slot (some buffer) stream =
    user_loop_finishes malloc (suc (length stream)) ctx slot buffer stream (omega arith)
