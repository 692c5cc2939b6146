-- ===== src/Userspace/Urbs/Completing.antt =====
-- userspace/vusb_userspace.c: a request from its submission to its completion.
use usb_over_ip.Common.{
  ℕ, ◌^◌, ◌≤◌, ◌<◌, ◌≡◌, refl, ◌∙◌, List, ◌++◌, true, Option, some, ◌==◌, if◌then◌else◌, length,
  drop, arith, lt→ltb, le→leb, ==_refl, take_all, Bool-cases, inl, inr, ==→eq,
}
use mathlib.Core.Option
use mathlib.Core.Path.{subst, subst⁻¹}
use usb_over_ip.Protocol.Direction
use usb_over_ip.Driver.Table.{copy_memory, inc32, add64}
use usb_over_ip.Userspace.{UserUrb, UserDevice, UserContext}
use usb_over_ip.Userspace.Devices.{get_device, change_device}
use usb_over_ip.Userspace.Devices.Mapping.{get_device-change_device}
use usb_over_ip.Userspace.Urbs.{
  submit_urb, submit_found, submitted, push_urb, take_urb, drop_urb, received_into, finished,
  complete_user_urb, complete_found, complete_taken,
}

-- Where a device has a request with the id, its completion hands the request out, takes it from the
-- device, and leaves all other devices.
pub complete_pending :
    (ctx : UserContext) (id urb status len : ℕ) (bytes : Option (List ℕ)) (d : UserDevice)
    (u done : UserUrb) (rest : List UserUrb)
    → get_device ctx id ≡ some d
    → take_urb urb d.pending_urbs ≡ some (u, rest)
    → finished u status bytes len ≡ some done
    → (ctx' : UserContext) × (complete_user_urb ctx id urb status bytes len
        ≡ some (some done, ctx'))
      × ((j : ℕ)
          → get_device ctx' j ≡ (
              if id == j
              then Option.map (drop_urb u rest len) (get_device ctx j)
              else get_device ctx j))
unfolding complete_user_urb complete_found complete_taken get_device
complete_pending ctx id urb status len bytes d u done rest g t f = (
  record (change_device (drop_urb u rest len) ctx id) {
    total_bytes_transferred = add64 ctx.total_bytes_transferred len;
  },
  rw (g, complete_found, t, complete_taken, f) refl,
  λ j.
      get_device-change_device (drop_urb u rest len) ctx id j
        (record { keeps_active = λ e. refl; keeps_device_id = λ e. refl }),
)

-- A submission changes the device alone.
submit_urb-get_device :
    (ctx : UserContext) (id now j : ℕ) (d : UserDevice) (u : UserUrb)
    → get_device ctx id ≡ some d
    → get_device (submit_urb ctx id u now).1 j
      ≡ (if id == j then Option.map (push_urb u now) (get_device ctx j) else get_device ctx j)
unfolding submit_urb submit_found get_device
submit_urb-get_device ctx id now j d u g =
    subst⁻¹
      (λ o.
        get_device (submit_found ctx id u now o).1 j
        ≡ (if id == j then Option.map (push_urb u now) (get_device ctx j) else get_device ctx j))
      g
      (get_device-change_device (push_urb u now) ctx id j
        (record { keeps_active = λ e. refl; keeps_device_id = λ e. refl }))

-- A request to read, completed with bytes that fit its buffer.
finished_copies :
    (u : UserUrb) (status : ℕ) (bytes b : List ℕ)
    → u.direction ≡ Direction.inward
    → u.transfer_buffer ≡ some b
    → u.transfer_buffer_length ≡ length b
    → 0 < length bytes
    → length bytes ≤ length b
    → finished u status (some bytes) (length bytes)
      ≡ some (record u {
        status = status;
        actual_length = length bytes;
        completed = true;
        transfer_buffer = some (bytes ++ drop (length bytes) b);
      })
unfolding finished received_into copy_memory
finished_copies u status bytes b inw tb tl pos fit =
    rw
      (
        inw,
        tb,
        tl,
        lt→ltb 0 (length bytes) pos,
        le→leb (length bytes) (length b) fit,
        le→leb (length bytes) (length bytes) (omega arith),
        take_all (length bytes) bytes (omega arith),
      )
      refl

-- A submitted request to read from a device, completed with as many bytes as its buffer has or fewer:
-- the completion hands out the request with its id, the status, the length and the bytes over the
-- front of its buffer. The device has pending what it had before the submission, and as many; its
-- count of bytes read grows by the length. All other devices are as before.
pub complete_user_urb-submit_urb :
    (ctx : UserContext) (id now status : ℕ) (bytes b : List ℕ) (d : UserDevice) (u : UserUrb)
    → get_device ctx id ≡ some d
    → u.direction ≡ Direction.inward
    → u.transfer_buffer ≡ some b
    → u.transfer_buffer_length ≡ length b
    → 0 < length bytes
    → length bytes ≤ length b
    → d.pending_urb_count < 2 ^ 32
    → (ctx' : UserContext) × (e : UserDevice) × (complete_user_urb
          (submit_urb ctx id u now).1
          id
          (inc32 d.next_urb_id)
          status
          (some bytes)
          (length bytes)
        ≡ some (
          some (record u {
            urb_id = inc32 d.next_urb_id;
            submit_time = now;
            status = status;
            actual_length = length bytes;
            completed = true;
            transfer_buffer = some (bytes ++ drop (length bytes) b);
          }),
          ctx',
        ))
      × (e.pending_urbs ≡ d.pending_urbs)
      × (e.pending_urb_count ≡ d.pending_urb_count)
      × (e.bytes_in ≡ add64 d.bytes_in (length bytes))
      × ((j : ℕ) → get_device ctx' j ≡ (if id == j then some e else get_device ctx j))
unfolding take_urb
complete_user_urb-submit_urb ctx id now status bytes b d u g inw tb tl pos fit cnt =
    let id' = inc32 d.next_urb_id in
    let mid = (submit_urb ctx id u now).1 in
    let v = submitted u id' now in
    let here : get_device mid id ≡ some (push_urb u now d) =
      submit_urb-get_device ctx id now id d u g ∙ rw (==_refl id, g) refl in
    let taken : take_urb id' (push_urb u now d).pending_urbs ≡ some (v, d.pending_urbs) =
      rw (==_refl id') refl in
    let whole = finished_copies v status bytes b inw tb tl pos fit in
    let (ctx', done, found) =
      complete_pending mid id id' status (length bytes) (some bytes) (push_urb u now d) v _
        d.pending_urbs here taken whole in
    (
      ctx',
      drop_urb v d.pending_urbs (length bytes) (push_urb u now d),
      done,
      refl,
      omega arith,
      rw inw refl,
      λ j. elim (Bool-cases (id == j)) [
        | inl q ↦
            let same = ==→eq id j q in
            subst
              (λ k. get_device ctx' k ≡ (
                if id == k
                then some (drop_urb v d.pending_urbs (length bytes) (push_urb u now d))
                else get_device ctx k))
              same (found id ∙ rw (==_refl id, here) refl)
        | inr q ↦ found j ∙ rw q (submit_urb-get_device ctx id now j d u g ∙ rw q refl)
      ],
    )
