-- ===== src/Userspace/Messages/Foreign.antt =====
-- userspace/vusb_userspace.c: what a client's completion message completes (HandleUrbComplete).
use usb_over_ip.Common.{
  ℕ, ◌-◌, ◌≤◌, ◌≡◌, ◌∙◌, refl, List, [], Bool, Option, none, some, ◌==◌, ltb, ◌<◌, ◌≢◌, ◌∷◌, ◌++◌,
  true, false, ◌&&◌, All, length, take, drop, arith, sym, ==→eq, ==_refl, lt→ltb, le→leb,
  Bool-cases, inl, inr, if◌then◌else◌, le→ltb,
}
use usb_over_ip.Protocol.{UrbComplete, urb_complete_size, header_size}
use usb_over_ip.Protocol.Command
use usb_over_ip.Protocol.Layout.Urbs.{
  encode_urb_complete, FitsUrbComplete, decode_urb_complete-encode_urb_complete,
}
use usb_over_ip.Userspace.{UserUrb, UserDevice, UserClient, UserContext}
use usb_over_ip.Userspace.Devices.{get_device}
use usb_over_ip.Driver.Table.{copy_memory, add64, dec32}
use usb_over_ip.Protocol.Direction
use usb_over_ip.Userspace.Urbs.{take_urb, received_into, finished, complete_user_urb}
use usb_over_ip.Userspace.Urbs.Completing.{complete_pending}
use usb_over_ip.Userspace.Messages.{
  Incoming, process_user_message, user_urb_complete, complete_on, remote_device,
}

-- The bytes that a completion passes on.
abbrev pub passed_on : UrbComplete → List ℕ → Option (List ℕ)
passed_on x tail = if ltb 0 x.actual_length then some tail else none

user_urb_complete-encode_urb_complete :
    (ctx : UserContext) (m : Incoming) (x : UrbComplete) (tail : List ℕ) (d : UserDevice)
    → m.buffer ≡ encode_urb_complete x tail
    → FitsUrbComplete x
    → urb_complete_size - header_size ≤ m.payload_length
    → remote_device x.device_id ctx.devices ≡ some d
    → user_urb_complete ctx m
      ≡ complete_user_urb ctx d.device_id x.urb_id x.status (passed_on x tail) x.actual_length
unfolding user_urb_complete complete_on
user_urb_complete-encode_urb_complete ctx m x tail d b f l r =
    rw (b, decode_urb_complete-encode_urb_complete x tail f, le→ltb m.payload_length 20 l, r) refl

-- The device that a client does not know by the id, or that is not there.
pub IsOtherDevice : ℕ → UserDevice → Type 0
IsOtherDevice remote d = (d.active && d.remote_device_id == remote) ≡ false

remote_device-first :
    (remote : ℕ) (before after : List UserDevice) (d : UserDevice)
    → All (IsOtherDevice remote) before
    → d.active ≡ true
    → d.remote_device_id ≡ remote
    → remote_device remote (before ++ d ∷ after) ≡ some d
unfolding remote_device IsOtherDevice
remote_device-first remote [] after d a p q = rw (p, q, ==_refl remote) refl
remote_device-first remote (e ∷ es) after d a p q =
    rw a.0 (remote_device-first remote es after d a.1 p q)

take_urb-first :
    (id : ℕ) (before after : List UserUrb) (u : UserUrb)
    → All (λ (v : UserUrb). v.urb_id ≢ id) before
    → u.urb_id ≡ id
    → take_urb id (before ++ u ∷ after) ≡ some (u, before ++ after)
unfolding take_urb
take_urb-first id [] after u a p = ground (arith, p)
take_urb-first id (v ∷ vs) after u a p = ground (arith, a.0, take_urb-first id vs after u a.1 p)

-- A request to read, completed with the first bytes of the data.
finished_takes :
    (u : UserUrb) (status len : ℕ) (tail b : List ℕ)
    → u.direction ≡ Direction.inward
    → u.transfer_buffer ≡ some b
    → u.transfer_buffer_length ≡ length b
    → 0 < len
    → len ≤ length b
    → len ≤ length tail
    → finished u status (some tail) len
      ≡ some (record u {
        status = status;
        actual_length = len;
        completed = true;
        transfer_buffer = some (take len tail ++ drop len b);
      })
unfolding finished received_into copy_memory
finished_takes u status len tail b inw tb tl pos fit there =
    rw (inw, tb, tl, lt→ltb 0 len pos, le→leb len (length b) fit, le→leb len (length tail) there)
      refl

-- A completion message that is long enough and whose fields fit the packed layout, for a pending
-- request to read whose buffer has its announced length, whichever client sent it and whichever
-- client owns the device: it completes the first request with its id of the first active device
-- that is attached under its device id, and that its own id finds. The length in the message is
-- above 0, at most that of the buffer, and at most what the receive buffer has behind the message.
-- The request gets the status and the length of the message and, over the front of its buffer, that
-- many bytes from behind the message, whatever the length of the payload. Exactly this request
-- leaves the device, which counts one completed and the bytes read; all other devices are as
-- before, and no answer is sent.
pub completion_reaches :
    (malloc : ℕ → Bool) (ctx : UserContext) (slot : ℕ) (c : UserClient) (m : Incoming)
    (x : UrbComplete) (tail : List ℕ) (before after : List UserDevice) (d : UserDevice)
    (front back : List UserUrb) (u : UserUrb) (b : List ℕ)
    → m.header.command ≡ Command.urb_complete
    → m.buffer ≡ encode_urb_complete x tail
    → FitsUrbComplete x
    → urb_complete_size - header_size ≤ m.payload_length
    → ctx.devices ≡ before ++ d ∷ after
    → All (IsOtherDevice x.device_id) before
    → d.active ≡ true
    → d.remote_device_id ≡ x.device_id
    → get_device ctx d.device_id ≡ some d
    → d.pending_urbs ≡ front ++ u ∷ back
    → All (λ (v : UserUrb). v.urb_id ≢ x.urb_id) front
    → u.urb_id ≡ x.urb_id
    → u.direction ≡ Direction.inward
    → u.transfer_buffer ≡ some b
    → u.transfer_buffer_length ≡ length b
    → 0 < x.actual_length
    → x.actual_length ≤ length b
    → x.actual_length ≤ length tail
    → (ctx' : UserContext) × (user_urb_complete ctx m
        ≡ some (
          some (record u {
            status = x.status;
            actual_length = x.actual_length;
            completed = true;
            transfer_buffer = some (take x.actual_length tail ++ drop x.actual_length b);
          }),
          ctx',
        ))
      × (process_user_message malloc ctx slot c m ≡ some (ctx', []))
      × ((j : ℕ)
          → get_device ctx' j ≡ (
              if d.device_id == j
              then some (record d {
                bytes_in = add64 d.bytes_in x.actual_length;
                urbs_completed = add64 d.urbs_completed 1;
                pending_urbs = front ++ back;
                pending_urb_count = dec32 d.pending_urb_count;
              })
              else get_device ctx j))
unfolding process_user_message user_urb_complete
completion_reaches malloc ctx slot c m x tail before after d front back u b k bs f l es o act rem g
      us fr id inw tb tl pos fit there =
    let done : UserUrb = record u {
      status = x.status;
      actual_length = x.actual_length;
      completed = true;
      transfer_buffer = some (take x.actual_length tail ++ drop x.actual_length b);
    } in
    let found : remote_device x.device_id ctx.devices ≡ some d =
      rw es (remote_device-first x.device_id before after d o act rem) in
    let taken : take_urb x.urb_id d.pending_urbs ≡ some (u, front ++ back) =
      rw us (take_urb-first x.urb_id front back u fr id) in
    let whole : finished u x.status (passed_on x tail) x.actual_length ≡ some done =
      rw (lt→ltb 0 x.actual_length pos)
        (finished_takes u x.status x.actual_length tail b inw tb tl pos fit there) in
    let (ctx', e, got) =
      complete_pending ctx d.device_id x.urb_id x.status x.actual_length (passed_on x tail) d u done
        (front ++ back) g taken whole in
    let result : user_urb_complete ctx m ≡ some (some done, ctx') =
      user_urb_complete-encode_urb_complete ctx m x tail d bs f l found ∙ e in
    (
      ctx',
      result,
      rw (k, result) refl,
      λ j. elim (Bool-cases (d.device_id == j)) [
        | inl q ↦ let same = ==→eq d.device_id j q in got j ∙ rw (q, sym same, g, inw) refl
        | inr q ↦ got j ∙ rw q refl
      ],
    )
