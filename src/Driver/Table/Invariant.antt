-- ===== src/Driver/Table/Invariant.antt =====
-- The well-formedness of the table of devices and of the queue's counter.
use usb_over_ip.Common.{
  ℕ, zero, suc, ◌+◌, ◌-◌, ◌%◌, ◌^◌, ◌≡◌, List, Option, none, some, get_elem?, length, length-set,
  arith, Bool, true, false, Option-cases, inl, inr, get_elem?-lt, ◌>>=◌,
}
use usb_over_ip.Protocol.{DeviceInfo}
use usb_over_ip.Ioctl.{Statistics}
use usb_over_ip.Driver.{NtStatus, DeviceContext}
use usb_over_ip.Driver.Table.{
  free_slot, new_device, add_device, destroy_virtual_device, cleanup_from, init_context,
  create_virtual_device, copy_descriptors, Copied, or_no_memory,
}
use usb_over_ip.Driver.Table.Slots.{
  count_some, count_some-le-length, free_slot-get_elem?, free_slot-lt, count_some-set-some,
  count_some-set-none, IsNumbered, IsNumbered-set,
}

-- Sixteen slots, the device of slot i under the number i + 1, and the counters right.
pub record IsSound (ctx : DeviceContext) : Type 0 where
  pub size : length ctx.devices ≡ 16
  pub limit : ctx.max_devices ≡ 16
  pub counted : ctx.device_count ≡ count_some ctx.devices
  pub numbered : IsNumbered ctx.devices 0
  pub queued : ctx.pending_urb_count ≡ length ctx.pending_urb_list % 2 ^ 32

pub init_context-IsSound : IsSound init_context
unfolding init_context
init_context-IsSound = ground arith

pub add_device-IsSound :
    (ctx : DeviceContext) (info : DeviceInfo) (ds : Option (List ℕ)) (len : ℕ)
    → IsSound ctx
    → IsSound (add_device ctx info ds len).2
unfolding add_device new_device
add_device-IsSound ctx info ds len v = elim (Option-cases (free_slot ctx.devices)) [
  | inl e ↦ ground arith
  | inr (i, e) ↦ ground (
    arith,
    free_slot-get_elem? ctx.devices i,
    free_slot-lt ctx.devices i,
    length-set ctx.devices i (some (new_device info ds len i)),
    count_some-set-some ctx.devices i (new_device info ds len i),
    IsNumbered-set ctx.devices i 0 (i + 1) (some (new_device info ds len i)),
  )
]

pub create_virtual_device-IsSound :
    (a b : Bool) (ctx : DeviceContext) (info : DeviceInfo) (ds : Option (List ℕ)) (len : ℕ)
    {s : NtStatus} {id : ℕ} {ctx' : DeviceContext}
    → IsSound ctx
    → create_virtual_device a b ctx info ds len ≡ some (s, id, ctx')
    → IsSound ctx'
unfolding create_virtual_device
create_virtual_device-IsSound false b ctx info ds len v e = ground arith
create_virtual_device-IsSound true b ctx info ds len {s} {id} {ctx'} v e =
    go (copy_descriptors b ds len) e
  where
    go :
        (c : Option Copied)
        → (c >>= λ (c : Copied). some (or_no_memory ctx (add_device ctx info) c))
          ≡ some (s, id, ctx')
        → IsSound ctx'
    go none e = cc
    go (some Copied.no_memory) e = ground arith
    go (some (Copied.copied d n)) e = ground (arith, add_device-IsSound ctx info d n v)

pub destroy_virtual_device-IsSound :
    (ctx : DeviceContext) (id : ℕ) → IsSound ctx → IsSound (destroy_virtual_device ctx id).1
unfolding destroy_virtual_device
destroy_virtual_device-IsSound ctx id v = elim (Option-cases (get_elem? ctx.devices (id - 1))) [
  | inl e ↦ ground arith
  | inr (none, e) ↦ ground arith
  | inr (some d, e) ↦ ground (
    arith,
    get_elem?-lt ctx.devices (id - 1) e,
    count_some-le-length ctx.devices,
    count_some-set-none ctx.devices (id - 1) e,
    length-set ctx.devices (id - 1) none,
    IsNumbered-set ctx.devices (id - 1) 0 (id - 1 + 1) none,
  )
]

pub cleanup_from-IsSound :
    (n i : ℕ) (ctx : DeviceContext) → IsSound ctx → IsSound (cleanup_from n i ctx)
unfolding cleanup_from
cleanup_from-IsSound zero i ctx v = v
cleanup_from-IsSound (suc n) i ctx v =
    cleanup_from-IsSound n (i + 1) _ (destroy_virtual_device-IsSound ctx i v)

-- The statistics do not matter.
pub statistics-IsSound :
    (ctx : DeviceContext) (t : Statistics) → IsSound ctx → IsSound (record ctx { statistics = t })
statistics-IsSound ctx t v = record {
  size = v.size;
  limit = v.limit;
  counted = v.counted;
  numbered = v.numbered;
  queued = v.queued;
}
