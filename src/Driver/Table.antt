-- ===== src/Driver/Table.antt =====
-- driver/vusb_device.c, first half: the table of virtual devices.
pub mod Slots
pub mod Invariant
pub mod Lifecycle
pub mod Removal
use usb_over_ip.Common.{
  ℕ, zero, suc, ◌+◌, ◌-◌, ◌^◌, ◌%◌, List, [], ◌∷◌, Bool, true, false, ◌||◌, ◌&&◌, Option, none,
  some, ◌==◌, ltb, leb, if◌then◌else◌, get_elem?, set, replicate, length, take, drop, ◌++◌, ◌>>=◌,
}
use usb_over_ip.Protocol.{DeviceInfo}
use usb_over_ip.Protocol
use usb_over_ip.Ioctl.State
use usb_over_ip.Ioctl.{Statistics}
use usb_over_ip.Driver.{NtStatus, VirtualDevice, DeviceContext}

-- ULONG increments and decrements.
abbrev pub inc32 : ℕ → ℕ
inc32 n = (n + 1) % 2 ^ 32

abbrev pub dec32 : ℕ → ℕ
dec32 n = (n + 2 ^ 32 - 1) % 2 ^ 32

abbrev pub add32 : ℕ → ℕ → ℕ
add32 a b = (a + b) % 2 ^ 32

abbrev pub add64 : ℕ → ℕ → ℕ
add64 a b = (a + b) % 2 ^ 64

-- RtlCopyMemory and memcpy of `n` bytes over the front of `dst`; `none` is an access outside.
unfoldable pub copy_memory : List ℕ → List ℕ → ℕ → Option (List ℕ)
copy_memory dst src n =
    if leb n (length dst) && leb n (length src) then some (take n src ++ drop n dst) else none

-- The loop over the slots: the first that is null.
unfoldable pub free_slot {ℓ} : {A : Type ℓ} → List (Option A) → Option ℕ
free_slot [] = none
free_slot (none ∷ ds) = some 0
free_slot (some d ∷ ds) = elim (free_slot ds) [ none ↦ none | some i ↦ some (suc i) ]

-- The copied descriptors of a new device and their length, or a failed allocation.
pub data Copied : Type 0 where
  no_memory : Copied
  copied : Option (List ℕ) → ℕ → Copied

unfoldable pub copy_descriptors : Bool → Option (List ℕ) → ℕ → Option Copied
unfolding copy_memory
copy_descriptors allocated none len = some (Copied.copied none 0)
copy_descriptors allocated (some ds) len =
    if ltb 0 len
    then if allocated
      then (copy_memory (replicate len 0) ds len >>= λ (d : List ℕ).
          some (Copied.copied (some d) len))
      else some Copied.no_memory
    else some (Copied.copied none 0)

unfoldable pub new_device : DeviceInfo → Option (List ℕ) → ℕ → ℕ → VirtualDevice
new_device info descriptors len slot = record {
  device_id = slot + 1;
  port_number = slot + 1;
  state = State.attached;
  device_info = info;
  descriptors = descriptors;
  descriptor_length = len;
  current_configuration = 0;
  current_interface = 0;
  current_alternate_setting = 0;
  bytes_in = 0;
  bytes_out = 0;
  urbs_completed = 0;
  urbs_error = 0;
}

-- The part under the lock, and the id that the caller reads.
unfoldable pub add_device :
    DeviceContext → DeviceInfo → Option (List ℕ) → ℕ → NtStatus × ℕ × DeviceContext
unfolding free_slot new_device
add_device ctx info descriptors len =
    if leb ctx.max_devices ctx.device_count
    then (NtStatus.too_many_nodes, 0, ctx)
    else elim (free_slot ctx.devices) [
      | none ↦ (NtStatus.too_many_nodes, 0, ctx)
      | some slot ↦ (
        NtStatus.success,
        slot + 1,
        record ctx {
          devices = set ctx.devices slot (some (new_device info descriptors len slot));
          device_count = inc32 ctx.device_count;
        },
      )
    ]

abbrev pub or_no_memory :
    DeviceContext
    → (Option (List ℕ) → ℕ → NtStatus × ℕ × DeviceContext)
    → Copied
    → NtStatus × ℕ × DeviceContext
or_no_memory ctx k Copied.no_memory = (NtStatus.insufficient_resources, 0, ctx)
or_no_memory ctx k (Copied.copied descriptors len) = k descriptors len

-- The first two arguments say whether the two pool allocations succeed.
unfoldable pub create_virtual_device :
    Bool
    → Bool
    → DeviceContext
    → DeviceInfo
    → Option (List ℕ)
    → ℕ
    → Option (NtStatus × ℕ × DeviceContext)
unfolding copy_descriptors add_device
create_virtual_device false allocated ctx info descriptors len =
    some (NtStatus.insufficient_resources, 0, ctx)
create_virtual_device true allocated ctx info descriptors len =
    copy_descriptors allocated descriptors len >>= λ (c : Copied).
    some (or_no_memory ctx (add_device ctx info) c)

abbrev pub join {ℓ} : {A : Type ℓ} → Option (Option A) → Option A
join none = none
join (some o) = o

abbrev pub bad_id : ℕ → Bool
bad_id id = id == 0 || ltb Protocol.max_devices id

unfoldable pub find_device : DeviceContext → ℕ → Option VirtualDevice
find_device ctx id = if bad_id id then none else join (get_elem? ctx.devices (id - 1))

unfoldable pub destroy_virtual_device : DeviceContext → ℕ → NtStatus × DeviceContext
destroy_virtual_device ctx id =
    if bad_id id
    then (NtStatus.invalid_parameter, ctx)
    else elim (join (get_elem? ctx.devices (id - 1))) [
      | none ↦ (NtStatus.device_not_connected, ctx)
      | some d ↦ (
        NtStatus.success,
        record ctx {
          devices = set ctx.devices (id - 1) none;
          device_count = dec32 ctx.device_count;
        },
      )
    ]

-- The ids from `i` on, `n` of them.
unfoldable pub cleanup_from : ℕ → ℕ → DeviceContext → DeviceContext
cleanup_from zero i ctx = ctx
cleanup_from (suc n) i ctx = cleanup_from n (i + 1) (destroy_virtual_device ctx i).1

unfoldable pub cleanup_all_devices : DeviceContext → DeviceContext
cleanup_all_devices ctx = cleanup_from Protocol.max_devices 1 ctx

-- The context as the device is added (VusbEvtDeviceAdd).
unfoldable pub init_context : DeviceContext
init_context = record {
  parked = [];
  max_devices = Protocol.max_devices;
  device_count = 0;
  devices = replicate Protocol.max_devices none;
  next_urb_id = 0;
  next_sequence = 0;
  pending_urb_list = [];
  pending_urb_count = 0;
  statistics = record {
    total_urbs_submitted = 0;
    total_urbs_completed = 0;
    total_urbs_canceled = 0;
    total_bytes_in = 0;
    total_bytes_out = 0;
    total_errors = 0;
    active_devices = 0;
    pending_urbs = 0;
  };
}
