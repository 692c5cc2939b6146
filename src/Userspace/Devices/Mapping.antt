-- ===== src/Userspace/Devices/Mapping.antt =====
-- userspace/vusb_userspace.c: what the creation and the destruction of a device do to the map from
-- ids to devices.
use usb_over_ip.Common.{
  ℕ, suc, ◌^◌, ◌≤◌, ◌<◌, ◌≡◌, refl, sym, ap, ◌∙◌, ==→eq, List, [], true, Option, none, some, ◌==◌,
  if◌then◌else◌, length, arith, Option-cases, Bool-cases, inl, inr, is_some, append-nil, leb, ltb,
  take, replicate, drop_all, length-replicate, le→leb,
}
use mathlib.Core.Option
use usb_over_ip.Protocol.{DeviceInfo}
use usb_over_ip.Driver.Table.{copy_memory, inc32}
use usb_over_ip.Userspace.{UserDevice, UserContext, UserEndpoint, EpState, DevState}
use usb_over_ip.Userspace.Devices.{
  fill_slot, first_device, change_first, cleaned, create_user_device, kept_descriptors, created,
  fresh_device, get_device, destroy_user_device, with_devices, change_device, create_free,
  has_free_slot,
}
use usb_over_ip.Userspace.Devices.Table.{
  IsSound, has_free_slot-fill_slot, first_device-some, StillDistinct, first_device_above,
  first_device-fill_slot, fill_slot-HasDistinctIds, first_device-cleaned, first_device-change_first,
  KeepsId, change_first-HasDistinctIds,
}

-- The descriptors that a device keeps, and their length.
abbrev pub kept_of : ℕ → List ℕ → Option (List ℕ) × ℕ
kept_of len tail = if ltb 0 len then (some (take len tail), len) else (none, 0)

kept_descriptors-kept_of :
    (tail : List ℕ) (len : ℕ)
    → len ≤ length tail
    → kept_descriptors true (some tail) len ≡ some (kept_of len tail)
unfolding kept_descriptors copy_memory
kept_descriptors-kept_of tail len l =
    let fits : leb len (length (replicate {A = ℕ} len 0)) ≡ true =
      le→leb len (length (replicate {A = ℕ} len 0))
        (omega (arith, length-replicate {A = ℕ} len 0)) in
    rw
      (
        fits,
        le→leb len (length tail) l,
        drop_all {A = ℕ} len (replicate len 0) (omega (arith, length-replicate {A = ℕ} len 0)),
        append-nil (take len tail),
      )
      (elim (Bool-cases (ltb 0 len)) [ inl q ↦ rw q refl | inr q ↦ rw q refl ])

-- An endpoint that was never used.
abbrev pub no_endpoint : UserEndpoint
no_endpoint = record {
  state = EpState.disabled;
  buffer = none;
  buffer_size = 0;
  data_length = 0;
  data_offset = 0;
}

-- An attached device of the user-mode server that was just created: its id, the information and the
-- descriptors given, no owner, no client's id, nothing configured, pending or counted.
abbrev pub created_device : DeviceInfo → List ℕ → ℕ → ℕ → UserDevice
created_device info tail len id = record {
  active = true;
  device_id = id;
  remote_device_id = 0;
  state = DevState.attached;
  device_info = record info { device_id = id };
  descriptors = if ltb 0 len then some (take len tail) else none;
  descriptor_length = if ltb 0 len then len else 0;
  configuration = 0;
  address = 0;
  endpoints = replicate 32 no_endpoint;
  pending_urbs = [];
  pending_urb_count = 0;
  next_urb_id = 0;
  owner_client = none;
  bytes_in = 0;
  bytes_out = 0;
  urbs_submitted = 0;
  urbs_completed = 0;
}

fresh_device-kept_of :
    (info : DeviceInfo) (tail : List ℕ) (len id : ℕ)
    → fresh_device info (kept_of len tail) id ≡ created_device info tail len id
unfolding fresh_device
fresh_device-kept_of info tail len id = elim (Bool-cases (ltb 0 len)) [
  | inl q ↦ rw q refl
  | inr q ↦ rw q refl
]

-- The creation of a device, with a free slot, descriptors of at least the announced length and memory
-- for them, succeeds: the device gets the next id, which no other device has, and is found by it,
-- attached, with the information given and that many bytes of the descriptors, with no owner, nothing
-- configured, pending or counted; all others are found as before, the ids stay distinct, and
-- the clients stay. The counter of ids is below its width, and before that the ids are distinct.
pub create_user_device-get_device :
    (ctx : UserContext) (info : DeviceInfo) (tail : List ℕ) (len : ℕ)
    → IsSound ctx
    → suc ctx.next_device_id < 2 ^ 32
    → has_free_slot ctx.devices ≡ true
    → len ≤ length tail
    → (ctx' : UserContext) × (create_user_device true ctx info (some tail) len
        ≡ some (true, suc ctx.next_device_id, ctx'))
      × (get_device ctx (suc ctx.next_device_id) ≡ none)
      × ((j : ℕ)
          → get_device ctx' j ≡ (
              if suc ctx.next_device_id == j
              then some (created_device info tail len (suc ctx.next_device_id))
              else get_device ctx j))
      × IsSound ctx'
      × (ctx'.clients ≡ ctx.clients)
unfolding create_user_device create_free created get_device fresh_device
create_user_device-get_device ctx info tail len s w free l =
    let id = suc ctx.next_device_id in
    let new : inc32 ctx.next_device_id ≡ id = omega arith in
    let fresh = fresh_device info (kept_of len tail) id in
    elim (Option-cases (fill_slot fresh ctx.devices)) [
      | inl q ↦ absurd (ground (arith, free, has_free_slot-fill_slot fresh ctx.devices, q))
      | inr (es, q) ↦
          let absent = first_device_above ctx.next_device_id ctx.devices id s (omega arith) in
          (
            record ctx { devices = es; next_device_id = id },
            rw (new, free, kept_descriptors-kept_of tail len l, q) refl,
            absent,
            (λ j.
                first_device-fill_slot fresh ctx.devices es j q refl absent
                ∙ ap (λ d. if id == j then some d else first_device j ctx.devices)
                    (fresh_device-kept_of info tail len id)),
            fill_slot-HasDistinctIds ctx.next_device_id fresh ctx.devices es s (omega arith) refl q,
            refl,
          )
    ]

-- The destruction of a device, if there is one with the id: it is found no more, all others are
-- found as before, and the ids stay distinct. The code tells whether there was one.
pub destroy_user_device-get_device :
    (ctx : UserContext) (id : ℕ)
    → IsSound ctx
    → ((destroy_user_device ctx id).0 ≡ is_some (get_device ctx id))
      × ((j : ℕ)
          → get_device (destroy_user_device ctx id).1 j
            ≡ (if id == j then none else get_device ctx j))
      × IsSound (destroy_user_device ctx id).1
unfolding destroy_user_device get_device with_devices StillDistinct
destroy_user_device-get_device ctx id s =
    elim (Option-cases (change_first cleaned id ctx.devices)) [
      | inl q ↦
          let absent : first_device id ctx.devices ≡ none =
            ground (arith, first_device-some cleaned id ctx.devices, q) in
          rw (q, absent)
            (
              refl,
              (λ j. elim (Bool-cases (id == j)) [
                | inl e ↦ rw (e, sym (==→eq id j e), absent) refl
                | inr e ↦ rw e refl
              ]),
              s,
            )
      | inr (es, q) ↦ rw q (
        ground (arith, first_device-some cleaned id ctx.devices, q),
        (λ j. first_device-cleaned ctx.next_device_id id ctx.devices es j s q),
        (change_first-HasDistinctIds cleaned ctx.next_device_id id ctx.devices es
            (λ d a. absurd (ground (arith, a))) (λ d. refl) s q).0,
      )
    ]

get_device-with_devices :
    (f : UserDevice → UserDevice) (ctx : UserContext) (id j : ℕ) (o : Option (List UserDevice))
    → KeepsId f
    → change_first f id ctx.devices ≡ o
    → get_device (with_devices ctx o).1 j
      ≡ (if id == j then Option.map f (get_device ctx j) else get_device ctx j)
unfolding get_device with_devices
get_device-with_devices f ctx id j none k q =
    let absent : first_device id ctx.devices ≡ none =
      ground (arith, first_device-some f id ctx.devices, q) in
    elim (Bool-cases (id == j)) [
      | inl e ↦ rw (e, sym (==→eq id j e), absent) refl
      | inr e ↦ rw e refl
    ]
get_device-with_devices f ctx id j (some es) k q =
    first_device-change_first f id ctx.devices es j k q

-- A write through the pointer to a device, which keeps its id.
pub get_device-change_device :
    (f : UserDevice → UserDevice) (ctx : UserContext) (id j : ℕ)
    → KeepsId f
    → get_device (change_device f ctx id) j
      ≡ (if id == j then Option.map f (get_device ctx j) else get_device ctx j)
unfolding change_device
get_device-change_device f ctx id j k = get_device-with_devices f ctx id j _ k refl

with_devices-clients :
    (ctx : UserContext) (o : Option (List UserDevice))
    → (with_devices ctx o).1.clients ≡ ctx.clients
unfolding with_devices
with_devices-clients ctx none = refl
with_devices-clients ctx (some es) = refl

pub change_device-clients :
    (f : UserDevice → UserDevice) (ctx : UserContext) (id : ℕ)
    → (change_device f ctx id).clients ≡ ctx.clients
unfolding change_device
change_device-clients f ctx id = with_devices-clients ctx (change_first f id ctx.devices)
