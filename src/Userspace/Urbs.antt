-- ===== src/Userspace/Urbs.antt =====
-- userspace/vusb_userspace.c: the requests that a device has pending. `none` is an access outside a
-- buffer. The last part of an operation's result is the context.
pub mod Completing
use usb_over_ip.Common.{
  ℕ, ◌+◌, ◌%◌, ◌^◌, List, [], ◌∷◌, Bool, true, false, ◌&&◌, Option, none, some, ◌==◌, ltb, leb,
  if◌then◌else◌, ◌>>=◌,
}
use usb_over_ip.Protocol.Direction
use usb_over_ip.Protocol.Status
use usb_over_ip.Driver.Table.{inc32, dec32, add64, copy_memory}
use usb_over_ip.Userspace.{UserUrb, UserDevice, UserContext}
use usb_over_ip.Userspace.Devices.{get_device, change_device}

-- The request as it is put on the list.
abbrev pub submitted : UserUrb → ℕ → ℕ → UserUrb
submitted u id now = record u { urb_id = id; submit_time = now; completed = false }

abbrev pub push_urb : UserUrb → ℕ → UserDevice → UserDevice
push_urb u now d =
    let id = inc32 d.next_urb_id in
    record d {
      next_urb_id = id;
      pending_urbs = submitted u id now ∷ d.pending_urbs;
      pending_urb_count = inc32 d.pending_urb_count;
      urbs_submitted = add64 d.urbs_submitted 1;
    }

unfoldable pub submit_found : UserContext → ℕ → UserUrb → ℕ → Option UserDevice → Bool × UserContext
submit_found ctx id u now none = (false, ctx)
submit_found ctx id u now (some d) = (
  true,
  record (change_device (push_urb u now) ctx id) {
    total_urbs_processed = add64 ctx.total_urbs_processed 1;
  },
)

-- At a time, for the device with the id.
unfoldable pub submit_urb : UserContext → ℕ → UserUrb → ℕ → Bool × UserContext
submit_urb ctx id u now = submit_found ctx id u now (get_device ctx id)

-- The first request with the id, and the others.
unfoldable pub take_urb : ℕ → List UserUrb → Option (UserUrb × List UserUrb)
take_urb id [] = none
take_urb id (u ∷ us) =
    let rest = take_urb id us in
    if u.urb_id == id
    then some (u, us)
    else (rest >>= λ (r : UserUrb × List UserUrb). some (r.0, u ∷ r.1))

-- The data over the front of the request's buffer, where they fit the announced length.
unfoldable pub received_into : ℕ → Option (List ℕ) → Option (List ℕ) → ℕ → Option (Option (List ℕ))
received_into size none bytes len = some none
received_into size (some b) none len = some (some b)
received_into size (some b) (some bs) len =
    if ltb 0 len && leb len size
    then (copy_memory b bs len >>= λ (c : List ℕ). some (some c))
    else some (some b)

-- The request with its result.
unfoldable pub finished : UserUrb → ℕ → Option (List ℕ) → ℕ → Option UserUrb
finished u status bytes len = do
  b ←
      if u.direction == Direction.inward
      then received_into u.transfer_buffer_length u.transfer_buffer bytes len
      else some u.transfer_buffer
  some (record u { status = status; actual_length = len; completed = true; transfer_buffer = b })

abbrev pub drop_urb : UserUrb → List UserUrb → ℕ → UserDevice → UserDevice
drop_urb u rest len d =
    let inward = u.direction == Direction.inward in
    record d {
      bytes_in = if inward then add64 d.bytes_in len else d.bytes_in;
      bytes_out = if inward then d.bytes_out else add64 d.bytes_out len;
      urbs_completed = add64 d.urbs_completed 1;
      pending_urbs = rest;
      pending_urb_count = dec32 d.pending_urb_count;
    }

unfoldable pub complete_taken :
    UserContext
    → ℕ
    → ℕ
    → Option (List ℕ)
    → ℕ
    → Option (UserUrb × List UserUrb)
    → Option (Option UserUrb × UserContext)
complete_taken ctx id status bytes len none = some (none, ctx)
complete_taken ctx id status bytes len (some (u, rest)) = do
  done ← finished u status bytes len
  some (
    some done,
    record (change_device (drop_urb u rest len) ctx id) {
      total_bytes_transferred = add64 ctx.total_bytes_transferred len;
    },
  )

unfoldable pub complete_found :
    UserContext
    → ℕ
    → ℕ
    → ℕ
    → Option (List ℕ)
    → ℕ
    → Option UserDevice
    → Option (Option UserUrb × UserContext)
complete_found ctx id urb status bytes len none = some (none, ctx)
complete_found ctx id urb status bytes len (some d) =
    complete_taken ctx id status bytes len (take_urb urb d.pending_urbs)

-- The request that the callback gets, or `none` for the code's error.
unfoldable pub complete_user_urb :
    UserContext → ℕ → ℕ → ℕ → Option (List ℕ) → ℕ → Option (Option UserUrb × UserContext)
complete_user_urb ctx id urb status bytes len =
    complete_found ctx id urb status bytes len (get_device ctx id)

unfoldable pub cancel_user_urb : UserContext → ℕ → ℕ → Option (Option UserUrb × UserContext)
cancel_user_urb ctx id urb = complete_user_urb ctx id urb Status.canceled none 0
