-- ===== src/Driver/Table/Removal.antt =====
-- Unplugging one device and all of them.
use usb_over_ip.Common.{
  ℕ, zero, suc, ◌+◌, ◌-◌, ◌<◌, ◌≡◌, refl, ap, ◌∙◌, List, [], ◌∷◌, Option, none, some, get_elem?,
  set, length, arith, true, false, Option-cases, inl, inr, get_elem?-lt, if◌then◌else◌, ◌==◌, ltb,
  Bool-cases, ==→eq, ltb→lt,
}
use usb_over_ip.Driver.{NtStatus, VirtualDevice, DeviceContext}
use usb_over_ip.Driver.Table.{
  find_device, destroy_virtual_device, cleanup_from, cleanup_all_devices, bad_id, join, dec32,
}
use usb_over_ip.Driver.Table.Slots.{count_some}
use usb_over_ip.Driver.Table.Invariant.{
  IsSound, destroy_virtual_device-IsSound, cleanup_from-IsSound,
}
use usb_over_ip.Driver.Table.Lifecycle.{find_device-set}

-- What the code returns by where the id leads, and what changes.
pub destroy_virtual_device_lem :
    (ctx : DeviceContext) (id : ℕ)
    → destroy_virtual_device ctx id ≡ (
        if bad_id id then (NtStatus.invalid_parameter, ctx) else elim (find_device ctx id) [
          | none ↦ (NtStatus.device_not_connected, ctx)
          | some d ↦ (
            NtStatus.success,
            record ctx {
              devices = set ctx.devices (id - 1) none;
              device_count = dec32 ctx.device_count;
            },
          )
        ])
unfolding destroy_virtual_device find_device
destroy_virtual_device_lem ctx id = ground arith

find_device-bad : (ctx : DeviceContext) (id : ℕ) → bad_id id ≡ true → find_device ctx id ≡ none
unfolding find_device
find_device-bad ctx id h = rw h

find_device-good :
    (ctx : DeviceContext) (id : ℕ)
    → bad_id id ≡ false
    → find_device ctx id ≡ join (get_elem? ctx.devices (id - 1))
unfolding find_device
find_device-good ctx id h = rw h

find_device-same :
    (ctx : DeviceContext) (i id : ℕ)
    → find_device ctx i ≡ none
    → find_device ctx id ≡ (if id == i then none else find_device ctx id)
find_device-same ctx i id h = elim (Bool-cases (id == i)) [
  | inl e ↦ let q : id ≡ i = ==→eq id i e in rw (e, q) h
  | inr e ↦ rw e
]

-- After an unplug the id finds nothing, whatever it found before, and every other id finds what it
-- found.
pub find_device-destroy :
    (ctx : DeviceContext) (i id : ℕ)
    → IsSound ctx
    → find_device (destroy_virtual_device ctx i).1 id
      ≡ (if id == i then none else find_device ctx id)
unfolding destroy_virtual_device
find_device-destroy ctx i id v = elim (Bool-cases (bad_id i)) [
  | inl b ↦ rw (b, destroy_virtual_device) (find_device-same ctx i id (find_device-bad ctx i b))
  | inr b ↦ elim (Option-cases (get_elem? ctx.devices (i - 1))) [
    | inl e ↦
        rw (b, e, destroy_virtual_device)
          (find_device-same ctx i id (find_device-good ctx i b ∙ ap join e))
    | inr (none, e) ↦
        rw (b, e, destroy_virtual_device)
          (find_device-same ctx i id (find_device-good ctx i b ∙ ap join e))
    | inr (some d, e) ↦
        let q : i ≡ i - 1 + 1 = ground arith in
        rw (b, e, destroy_virtual_device)
          (find_device-set ctx (i - 1) (dec32 ctx.device_count) id none
              (get_elem?-lt ctx.devices (i - 1) e) v.size
            ∙ rw (← q))
  ]
]

find_device-cleanup :
    (n i : ℕ) (ctx : DeviceContext)
    → IsSound ctx
    → ((id : ℕ) → id < i → find_device ctx id ≡ none)
    → (id : ℕ) → id < i + n
    → find_device (cleanup_from n i ctx) id ≡ none
unfolding cleanup_from
find_device-cleanup zero i ctx v h id l = h id (omega arith)
find_device-cleanup (suc n) i ctx v h id l =
    find_device-cleanup n (i + 1) (destroy_virtual_device ctx i).1
      (destroy_virtual_device-IsSound ctx i v)
      (λ j m. ground (arith, find_device-destroy ctx i j v, h j)) id (omega arith)

find_device_zero : (ctx : DeviceContext) (id : ℕ) → id < 1 → find_device ctx id ≡ none
unfolding find_device
find_device_zero ctx id h = ground arith

find_device_high : (ctx : DeviceContext) (id : ℕ) → 16 < id → find_device ctx id ≡ none
unfolding find_device
find_device_high ctx id h = ground arith

none_left :
    (ds : List (Option VirtualDevice))
    → ((i : ℕ) → i < length ds → join (get_elem? ds i) ≡ none)
    → count_some ds ≡ 0
none_left [] h = refl
none_left (none ∷ ds) h = none_left ds (λ i l. h (suc i) (omega arith))
none_left (some d ∷ ds) h = cc (h 0 (omega arith))

join-find_device :
    (ctx : DeviceContext) (i : ℕ)
    → i < 16
    → find_device ctx (suc i) ≡ none
    → join (get_elem? ctx.devices i) ≡ none
unfolding find_device
join-find_device ctx i l h = ground arith

-- From a sound context the clean-up of the driver's device leaves no virtual device: every id finds
-- nothing, and the count is 0.
pub cleanup_all_devices_empties :
    (ctx : DeviceContext)
    → IsSound ctx
    → ((id : ℕ) → find_device (cleanup_all_devices ctx) id ≡ none)
      × ((cleanup_all_devices ctx).device_count ≡ 0)
unfolding cleanup_all_devices
cleanup_all_devices_empties ctx v = (gone, after.counted ∙ none_left _ empty)
  where
    after : IsSound (cleanup_from 16 1 ctx)
    after = cleanup_from-IsSound 16 1 ctx v

    gone : (id : ℕ) → find_device (cleanup_from 16 1 ctx) id ≡ none
    gone id = elim (Bool-cases (ltb 16 id)) [
      | inl h ↦ find_device_high _ id (ltb→lt 16 id h)
      | inr h ↦ find_device-cleanup 16 1 ctx v (find_device_zero ctx) id (ground arith)
    ]

    empty :
        (i : ℕ)
        → i < length (cleanup_from 16 1 ctx).devices
        → join (get_elem? (cleanup_from 16 1 ctx).devices i) ≡ none
    empty i l = join-find_device _ i (omega (arith, after.size)) (gone (suc i))
