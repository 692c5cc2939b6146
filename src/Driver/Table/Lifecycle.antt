-- ===== src/Driver/Table/Lifecycle.antt =====
-- Plugging in, finding and unplugging devices.
use usb_over_ip.Common.{
  drop_all, ℕ, zero, suc, ◌+◌, ◌≤◌, ◌<◌, ◌≡◌, ◌≢◌, sym, ap, ◌∙◌, List, Option, none, some,
  get_elem?, set, length, length-replicate, arith, true, Option-cases, inl, inr, get_elem?-lt, take,
  le→leb, lt→ltb, set-set, set_same, get_elem?-set_self, get_elem?-set_ne, get_elem?-some,
  if◌then◌else◌, ◌==◌, replicate, Bool-cases,
}
use mathlib.Core.List.{append-nil}
use usb_over_ip.Protocol.{DeviceInfo}
use usb_over_ip.Driver.{NtStatus, VirtualDevice, DeviceContext}
use usb_over_ip.Driver.Table.{
  free_slot, new_device, add_device, find_device, destroy_virtual_device, create_virtual_device,
  copy_descriptors, Copied, inc32,
}
use usb_over_ip.Driver.Table.Slots.{
  free_slot-get_elem?, free_slot-lt, free_slot_full, free_slot_first,
}
use usb_over_ip.Driver.Table.Invariant.{IsSound}

pub copy_descriptors_lem :
    (ds : List ℕ) (len : ℕ)
    → 0 < len
    → len ≤ length ds
    → copy_descriptors true (some ds) len ≡ some (Copied.copied (some (take len ds)) len)
unfolding copy_descriptors
copy_descriptors_lem ds len p h = rw (
  lt→ltb 0 len p,
  le→leb len (length (replicate len (zero))) (omega (arith, length-replicate len zero)),
  le→leb len (length ds) h,
  drop_all len (replicate len zero) (omega (arith, length-replicate len zero)),
  append-nil,
)

-- A free slot while the count is below the limit.
free_below :
    (ctx : DeviceContext)
    → IsSound ctx
    → ctx.device_count < 16
    → (i : ℕ) × (free_slot ctx.devices ≡ some i)
free_below ctx v h = elim (Option-cases (free_slot ctx.devices)) [
  | inl e ↦ absurd (omega (arith, free_slot_full ctx.devices e))
  | inr (i, e) ↦ (i, e)
]

-- The context after the device is put in the slot.
abbrev pub plugged : DeviceContext → DeviceInfo → List ℕ → ℕ → ℕ → DeviceContext
plugged ctx info ds len slot = record ctx {
  devices = set ctx.devices slot (some (new_device info (some (take len ds)) len slot));
  device_count = inc32 ctx.device_count;
}

create_lem :
    (ctx : DeviceContext) (info : DeviceInfo) (ds : List ℕ) (len i : ℕ)
    → IsSound ctx
    → ctx.device_count < 16
    → 0 < len
    → len ≤ length ds
    → free_slot ctx.devices ≡ some i
    → create_virtual_device true true ctx info (some ds) len
      ≡ some (NtStatus.success, i + 1, plugged ctx info ds len i)
unfolding create_virtual_device add_device
create_lem ctx info ds len i v c p h e = rw (copy_descriptors_lem ds len p h) (ground arith)

pub find_device-set :
    (ctx : DeviceContext) (i n id : ℕ) (o : Option VirtualDevice)
    → i < length ctx.devices
    → length ctx.devices ≡ 16
    → find_device (record ctx { devices = set ctx.devices i o; device_count = n }) id
      ≡ (if id == i + 1 then o else find_device ctx id)
unfolding find_device
find_device-set ctx i n zero o h l = ground arith
find_device-set ctx i n (suc id) o h l = elim (Bool-cases (suc id == i + 1)) [
  | inl e ↦
      let q : i ≡ id = ground arith in rw (q) (ground (arith, get_elem?-set_self ctx.devices id o))
  | inr e ↦ ground (arith, get_elem?-set_ne ctx.devices i id o)
]

pub find_device-slot :
    (ctx : DeviceContext) (i : ℕ) (o : Option VirtualDevice)
    → length ctx.devices ≡ 16
    → get_elem? ctx.devices i ≡ some o
    → find_device ctx (i + 1) ≡ o
unfolding find_device
find_device-slot ctx i o l e = ground (arith, get_elem?-lt ctx.devices i e)

find_device-suc :
    (ctx : DeviceContext) (i : ℕ) (o : Option VirtualDevice)
    → length ctx.devices ≡ 16
    → get_elem? ctx.devices i ≡ some o
    → find_device ctx (suc i) ≡ o
unfolding find_device
find_device-suc ctx i o l e = ground (arith, get_elem?-lt ctx.devices i e)

abbrev pub Plugs : DeviceContext → DeviceInfo → List ℕ → ℕ → ℕ → DeviceContext → Type 0
Plugs ctx info ds len slot ctx' =
    (create_virtual_device true true ctx info (some ds) len
      ≡ some (NtStatus.success, slot + 1, ctx'))
    × (find_device ctx (slot + 1) ≡ none)
    × (find_device ctx' (slot + 1) ≡ some (new_device info (some (take len ds)) len slot))
    × ((id : ℕ) → id ≢ slot + 1 → find_device ctx' id ≡ find_device ctx id)
    × ((id : ℕ) → 0 < id → id ≤ slot → find_device ctx id ≢ none)
    × (ctx'.device_count ≡ ctx.device_count + 1)

taken_below :
    (ctx : DeviceContext) (i : ℕ)
    → IsSound ctx
    → free_slot ctx.devices ≡ some i
    → (id : ℕ) → 0 < id
    → id ≤ i
    → find_device ctx id ≢ none
taken_below ctx i v e zero p h q = absurd (omega arith)
taken_below ctx i v e (suc j) p h q =
    let bound = get_elem?-lt ctx.devices i (free_slot-get_elem? ctx.devices i e) in
    let (o, g) = get_elem?-some ctx.devices j (omega arith) in
    let r = find_device-suc ctx j o v.size g in
    free_slot_first ctx.devices i j e h (g ∙ ap some (sym r ∙ q))

-- While fewer than 16 devices are plugged in and the descriptors are at hand, creating a device
-- succeeds: it takes the lowest free id, which then finds the new device with a copy of the
-- descriptors, all other ids find what they found, and the count grows by one.
pub create-Plugs :
    (ctx : DeviceContext) (info : DeviceInfo) (ds : List ℕ) (len : ℕ)
    → IsSound ctx
    → ctx.device_count < 16
    → 0 < len
    → len ≤ length ds
    → (slot : ℕ) × (ctx' : DeviceContext) × Plugs ctx info ds len slot ctx'
create-Plugs ctx info ds len v c p h =
    let (i, e) = free_below ctx v c in
    let g = free_slot-get_elem? ctx.devices i e in
    let found = find_device-set ctx i (inc32 ctx.device_count) in
    let device = some (new_device info (some (take len ds)) len i) in
    let bound = get_elem?-lt ctx.devices i g in
    (
      i,
      plugged ctx info ds len i,
      (
        create_lem ctx info ds len i v c p h e,
        find_device-slot ctx i none v.size g,
        found (i + 1) device bound v.size ∙ (ground arith),
        (λ id n. found id device bound v.size ∙ (ground arith)),
        taken_below ctx i v e,
        omega arith,
      ),
    )

-- With all 16 slots taken, creating a device is refused and changes nothing.
pub create_full :
    (ctx : DeviceContext) (info : DeviceInfo) (ds : List ℕ) (len : ℕ)
    → IsSound ctx
    → ctx.device_count ≡ 16
    → 0 < len
    → len ≤ length ds
    → create_virtual_device true true ctx info (some ds) len
      ≡ some (NtStatus.too_many_nodes, 0, ctx)
unfolding create_virtual_device add_device
create_full ctx info ds len v c p h = rw (copy_descriptors_lem ds len p h) (ground arith)

restored :
    (ctx : DeviceContext) (i : ℕ) (d : VirtualDevice)
    → IsSound ctx
    → free_slot ctx.devices ≡ some i
    → destroy_virtual_device
        (record ctx { devices = set ctx.devices i (some d); device_count = inc32 ctx.device_count })
        (i + 1)
      ≡ (NtStatus.success, ctx)
unfolding destroy_virtual_device
restored ctx i d v e =
    let g = free_slot-get_elem? ctx.devices i e in
    ground (
      arith,
      get_elem?-lt ctx.devices i g,
      free_slot-lt ctx.devices i e,
      get_elem?-set_self ctx.devices i (some d),
      set-set ctx.devices i (some d) none,
      set_same ctx.devices i none g,
    )

-- Destroying the device just created, by the id that its creation returned, succeeds and gives back
-- the very context that there was before.
pub destroy-create :
    (ctx ctx' : DeviceContext) (info : DeviceInfo) (ds : List ℕ) (len id : ℕ)
    → IsSound ctx
    → 0 < len
    → len ≤ length ds
    → create_virtual_device true true ctx info (some ds) len ≡ some (NtStatus.success, id, ctx')
    → destroy_virtual_device ctx' id ≡ (NtStatus.success, ctx)
unfolding create_virtual_device add_device
destroy-create ctx ctx' info ds len id v p h e = elim (Option-cases (free_slot ctx.devices)) [
  | inl q ↦ ground (arith, copy_descriptors_lem ds len p h)
  | inr (i, q) ↦ ground (
    arith,
    copy_descriptors_lem ds len p h,
    restored ctx i (new_device info (some (take len ds)) len i) v q,
  )
]
