-- ===== src/Driver/Urb/Parsing.antt =====
-- Entries made of request blocks: their ids, their directions, and the descriptor request that the
-- driver answers by itself.
use mathlib.Core.Path.{subst}
use usb_over_ip.Common.{
  ℕ, ◌+◌, ◌^◌, ◌≤◌, ◌<◌, ◌≡◌, refl, ◌∙◌, List, [], ◌∷◌, ◌++◌, Option, none, some, length, take,
  drop, arith, true, min, leb, if◌then◌else◌, Bool-cases, inl, inr,
}
use usb_over_ip.Driver.{NtStatus, VirtualDevice, UrbEntry, DeviceContext}
use usb_over_ip.Driver.Table.{inc32, find_device}
use usb_over_ip.Driver.Queue.Completing.{copy_memory_lem}
use usb_over_ip.Driver.Urb.{Urb, TransferFields, urb_parse, blank_entry, urb_create}
use usb_over_ip.Driver.Urb.Buffers.{urb_get_buffer, cached_descriptor, process_standard_request}

-- Parsing keeps the ids, the owner's request and the time of submission, on every kind of request,
-- and the direction of an entry that was IN or OUT stays IN or OUT.
pub urb_parse_frame :
    (mask : ℕ) (e : UrbEntry) (u : Urb)
    → e.direction < 2
    → ((urb_parse mask e u).urb_id ≡ e.urb_id)
      × ((urb_parse mask e u).sequence_number ≡ e.sequence_number)
      × ((urb_parse mask e u).device_id ≡ e.device_id)
      × ((urb_parse mask e u).request ≡ e.request)
      × ((urb_parse mask e u).submit_time ≡ e.submit_time)
      × ((urb_parse mask e u).direction < 2)
unfolding urb_parse
urb_parse_frame mask e (Urb.control_transfer t setup) h = ground arith
urb_parse_frame mask e (Urb.control_transfer_ex t setup timeout) h = ground arith
urb_parse_frame mask e (Urb.bulk_or_interrupt_transfer t handle) h = ground arith
urb_parse_frame mask e (Urb.isoch_transfer t handle) h = ground arith
urb_parse_frame mask e (Urb.get_descriptor t ty index language) h = ground arith
urb_parse_frame mask e (Urb.select_configuration v) h = ground arith
urb_parse_frame mask e (Urb.select_interface a n) h = ground arith
urb_parse_frame mask e (Urb.class_or_vendor t r q v i) h = ground arith
urb_parse_frame mask e Urb.pipe_request h = ground arith
urb_parse_frame mask e (Urb.unknown f) h = ground arith

-- The entries made one after the other of a list of requests to one device.
pub create_each : ℕ → DeviceContext → ℕ → ℕ → List Urb → List UrbEntry × DeviceContext
create_each mask ctx device now [] = ([], ctx)
create_each mask ctx device now (u ∷ us) =
    let (s, o, ctx') = urb_create true mask ctx device u none now in
    let rest = create_each mask ctx' device now us in
    elim o [ none ↦ rest | some e ↦ (e ∷ rest.0, rest.1) ]

abbrev pub Counts : ℕ → List UrbEntry → Type 0
Counts n [] = Unit {0}
Counts n (e ∷ es) = (e.urb_id ≡ n + 1) × Counts (n + 1) es

blank_id :
    (mask a b device now : ℕ) (u : Urb)
    → (urb_parse mask (blank_entry a b device none now) u).urb_id ≡ a
unfolding blank_entry
blank_id mask a b device now u =
    (urb_parse_frame mask (blank_entry a b device none now) u (omega arith)).0

-- Entries made one after the other carry consecutive ids, from the one after the context's counter
-- on, as long as the 32-bit counter does not wrap; so no two of them have the same id.
pub create_each-Counts :
    (mask : ℕ) (ctx : DeviceContext) (device now : ℕ) (us : List Urb)
    → ctx.next_urb_id + length us < 2 ^ 32
    → Counts ctx.next_urb_id (create_each mask ctx device now us).0
      × ((create_each mask ctx device now us).1.next_urb_id ≡ ctx.next_urb_id + length us)
      × (length (create_each mask ctx device now us).0 ≡ length us)
unfolding create_each urb_create
create_each-Counts mask ctx device now [] h = (tt, omega arith, refl)
create_each-Counts mask ctx device now (u ∷ us) h =
    let id = inc32 ctx.next_urb_id in
    let sequence = inc32 ctx.next_sequence in
    let next : DeviceContext = record ctx { next_urb_id = id; next_sequence = sequence } in
    let q : id ≡ ctx.next_urb_id + 1 = omega arith in
    let rest = create_each-Counts mask next device now us (omega arith) in
    (
      (
        blank_id mask id sequence device now u ∙ q,
        subst (λ (n : ℕ). Counts n (create_each mask next device now us).0) q rest.0,
      ),
      omega arith,
      omega arith,
    )

-- A request block for the device descriptor, for a device with some descriptors cached, whose buffer
-- holds the announced length, once parsed: if that length is at least 18, or that of the cache where
-- the cache is shorter, the driver alone answers it, with so many bytes of the cache at the front
-- of the buffer; for a shorter length it does not handle the request.
pub descriptor_served :
    (map_mdl : ℕ → Option (List ℕ)) (mask : ℕ) (ctx : DeviceContext) (e : UrbEntry)
    (t : TransferFields) (d : VirtualDevice) (ds b : List ℕ) (language : ℕ)
    → find_device ctx e.device_id ≡ some d
    → d.descriptors ≡ some ds
    → d.descriptor_length ≡ length ds
    → 0 < length ds
    → t.buffer ≡ some b
    → t.buffer_length ≤ length b
    → process_standard_request map_mdl ctx (urb_parse mask e (Urb.get_descriptor t 1 0 language))
      ≡ some (
        NtStatus.success,
        if leb (min 18 (length ds)) t.buffer_length
            then some (take (min 18 (length ds)) ds ++ drop (min 18 (length ds)) b)
            else none,
      )
unfolding process_standard_request cached_descriptor urb_parse urb_get_buffer
descriptor_served map_mdl mask ctx e t d ds b language f hd hl p hb l =
    elim (Bool-cases (leb (min 18 (length ds)) t.buffer_length)) [
      | inl q ↦
          ground (arith, copy_memory_lem b ds (min 18 (length ds)) (ground arith) (omega arith), q)
      | inr q ↦ ground (arith, q)
    ]
