-- ===== src/Userspace/Devices.antt =====
-- userspace/vusb_userspace.c: the array of devices, and the counters and lists that are read off it.
-- `none` is an access outside a buffer.
pub mod Table
pub mod Mapping
use usb_over_ip.Common.{
  ℕ, zero, suc, ◌+◌, ◌%◌, ◌^◌, List, [], ◌∷◌, Bool, true, false, ◌&&◌, ◌||◌, not, Option, none,
  some, ◌==◌, ltb, if◌then◌else◌, ◌>>=◌, replicate, map,
}
use usb_over_ip.Protocol.{DeviceInfo}
use usb_over_ip.Ioctl.{Statistics}
use usb_over_ip.Driver.Table.{inc32, add32, add64, copy_memory}
use usb_over_ip.Userspace.{
  EpState, UserEndpoint, DevState, UserUrb, UserDevice, UserContext, user_max_endpoints,
}

abbrev pub zero_endpoint : UserEndpoint
zero_endpoint = record {
  state = EpState.disabled;
  buffer = none;
  buffer_size = 0;
  data_length = 0;
  data_offset = 0;
}

-- The copy of the descriptors and their length: nothing is kept where the allocation fails.
unfoldable pub kept_descriptors : Bool → Option (List ℕ) → ℕ → Option (Option (List ℕ) × ℕ)
kept_descriptors allocated none len = some (none, 0)
kept_descriptors allocated (some ds) len =
    if ltb 0 len && allocated
    then (copy_memory (replicate len 0) ds len >>= λ (d : List ℕ). some (some d, len))
    else some (none, 0)

-- The zeroed slot with what the creation fills in.
unfoldable pub fresh_device : DeviceInfo → Option (List ℕ) × ℕ → ℕ → UserDevice
fresh_device info kept id = record {
  active = true;
  device_id = id;
  remote_device_id = 0;
  state = DevState.attached;
  device_info = record info { device_id = id };
  descriptors = kept.0;
  descriptor_length = kept.1;
  configuration = 0;
  address = 0;
  endpoints = replicate user_max_endpoints zero_endpoint;
  pending_urbs = [];
  pending_urb_count = 0;
  next_urb_id = 0;
  owner_client = none;
  bytes_in = 0;
  bytes_out = 0;
  urbs_submitted = 0;
  urbs_completed = 0;
}

-- The first inactive slot becomes the device.
unfoldable pub fill_slot : UserDevice → List UserDevice → Option (List UserDevice)
fill_slot n [] = none
fill_slot n (d ∷ ds) =
    let rest = fill_slot n ds in
    if d.active then (rest >>= λ (r : List UserDevice). some (d ∷ r)) else some (n ∷ ds)

-- The end of a creation: `none` as the array is no slot.
unfoldable pub created : UserContext → ℕ → Option (List UserDevice) → Bool × ℕ × UserContext
created ctx id none = (false, 0, ctx)
created ctx id (some ds) = (true, id, record ctx { devices = ds; next_device_id = id })

-- The creation, from whether there is a free slot.
unfoldable pub create_free :
    Bool
    → UserContext
    → DeviceInfo
    → Option (List ℕ)
    → ℕ
    → ℕ
    → Bool
    → Option (Bool × ℕ × UserContext)
create_free allocated ctx info descriptors len id false = some (false, 0, ctx)
create_free allocated ctx info descriptors len id true = do
  kept ← kept_descriptors allocated descriptors len
  some (created ctx id (fill_slot (fresh_device info kept id) ctx.devices))

unfoldable pub has_free_slot : List UserDevice → Bool
has_free_slot [] = false
has_free_slot (d ∷ ds) = not d.active || has_free_slot ds

unfoldable pub create_user_device :
    Bool → UserContext → DeviceInfo → Option (List ℕ) → ℕ → Option (Bool × ℕ × UserContext)
create_user_device allocated ctx info descriptors len =
    create_free allocated ctx info descriptors len (inc32 ctx.next_device_id)
      (has_free_slot ctx.devices)

abbrev pub without_buffer : UserEndpoint → UserEndpoint
without_buffer e = record e { buffer = none }

-- The slot of a device that is cleaned up: it keeps its ids.
abbrev pub cleaned : UserDevice → UserDevice
cleaned d = record d {
  active = false;
  descriptors = none;
  endpoints = map without_buffer d.endpoints;
  pending_urbs = [];
  pending_urb_count = 0;
}

-- The first active device with the id, changed.
unfoldable pub change_first :
    (UserDevice → UserDevice) → ℕ → List UserDevice → Option (List UserDevice)
change_first f id [] = none
change_first f id (d ∷ ds) =
    let rest = change_first f id ds in
    if d.active && d.device_id == id
    then some (f d ∷ ds)
    else (rest >>= λ (r : List UserDevice). some (d ∷ r))

-- The context with the devices, and whether there are any.
unfoldable pub with_devices : UserContext → Option (List UserDevice) → Bool × UserContext
with_devices ctx none = (false, ctx)
with_devices ctx (some ds) = (true, record ctx { devices = ds })

unfoldable pub destroy_user_device : UserContext → ℕ → Bool × UserContext
destroy_user_device ctx id = with_devices ctx (change_first cleaned id ctx.devices)

unfoldable pub first_device : ℕ → List UserDevice → Option UserDevice
first_device id [] = none
first_device id (d ∷ ds) =
    let rest = first_device id ds in if d.active && d.device_id == id then some d else rest

unfoldable pub get_device : UserContext → ℕ → Option UserDevice
get_device ctx id = first_device id ctx.devices

-- A write through the pointer that `get_device` returned.
unfoldable pub change_device : (UserDevice → UserDevice) → UserContext → ℕ → UserContext
change_device f ctx id = (with_devices ctx (change_first f id ctx.devices)).1

abbrev pub count_device : Statistics → UserDevice → Statistics
count_device s d = record s {
  active_devices = add32 s.active_devices 1;
  total_urbs_submitted = add64 s.total_urbs_submitted d.urbs_submitted;
  total_urbs_completed = add64 s.total_urbs_completed d.urbs_completed;
  total_bytes_in = add64 s.total_bytes_in d.bytes_in;
  total_bytes_out = add64 s.total_bytes_out d.bytes_out;
  pending_urbs = add32 s.pending_urbs d.pending_urb_count;
}

unfoldable pub count_devices : Statistics → List UserDevice → Statistics
count_devices s [] = s
count_devices s (d ∷ ds) = count_devices (if d.active then count_device s d else s) ds

unfoldable pub get_stats : UserContext → Statistics
get_stats ctx =
    count_devices
      (record {
        total_urbs_submitted = 0;
        total_urbs_completed = 0;
        total_urbs_canceled = 0;
        total_bytes_in = 0;
        total_bytes_out = 0;
        total_errors = 0;
        active_devices = 0;
        pending_urbs = 0;
      })
      ctx.devices

-- The information of at most that many active devices.
unfoldable pub list_infos : ℕ → List UserDevice → List DeviceInfo
list_infos zero ds = []
list_infos (suc n) [] = []
list_infos (suc n) (d ∷ ds) = elim d.active [
  | true ↦ d.device_info ∷ list_infos n ds
  | false ↦ list_infos (suc n) ds
]

unfoldable pub list_devices_of : UserContext → ℕ → List DeviceInfo
list_devices_of ctx n = list_infos n ctx.devices
