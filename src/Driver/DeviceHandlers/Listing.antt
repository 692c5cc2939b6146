-- ===== src/Driver/DeviceHandlers/Listing.antt =====
-- The device list that the driver answers.
use usb_over_ip.Common.{
  ℕ, zero, suc, ◌+◌, ◌≤◌, ◌≡◌, refl, sym, ap, ◌∙◌, List, [], ◌∷◌, Option, none, some, arith,
  if◌then◌else◌, ◌==◌, length, get_elem?,
}
use mathlib.Core.Option
use usb_over_ip.Ioctl.{DeviceEntry, device_list_size}
use usb_over_ip.Driver.{VirtualDevice, DeviceContext}
use usb_over_ip.Driver.Table.{find_device, join}
use usb_over_ip.Driver.Table.Slots.{count_some, IsNumbered}
use usb_over_ip.Driver.Table.Invariant.{IsSound}
use usb_over_ip.Driver.Request.{Framework, Retrieved, Output, answer}
use usb_over_ip.Driver.DeviceHandlers.{list_devices, handle_get_device_list}

-- The entry under an id, in a list of entries.
pub entry_of : ℕ → List DeviceEntry → Option DeviceEntry
entry_of id [] = none
entry_of id (e ∷ es) = if e.device_id == id then some e else entry_of id es

abbrev pub shown : VirtualDevice → DeviceEntry
shown d = record {
  device_id = d.device_id;
  port_number = d.port_number;
  state = d.state;
  device_info = d.device_info;
}

length-list_devices : (ds : List (Option VirtualDevice)) → length (list_devices ds) ≡ count_some ds
unfolding list_devices
length-list_devices [] = refl
length-list_devices (none ∷ ds) = length-list_devices ds
length-list_devices (some d ∷ ds) = ap suc (length-list_devices ds)

entry_of-low :
    (ds : List (Option VirtualDevice)) (k id : ℕ)
    → IsNumbered ds k
    → id ≤ k
    → entry_of id (list_devices ds) ≡ none
unfolding entry_of list_devices
entry_of-low [] k id n h = refl
entry_of-low (none ∷ ds) k id n h = entry_of-low ds (k + 1) id n (omega arith)
entry_of-low (some d ∷ ds) k id n h = ground (arith, entry_of-low ds (k + 1) id n.2)

entry_of-list_devices :
    (ds : List (Option VirtualDevice)) (k i id : ℕ)
    → id ≡ k + i + 1
    → IsNumbered ds k
    → entry_of id (list_devices ds) ≡ Option.map shown (join (get_elem? ds i))
unfolding entry_of list_devices
entry_of-list_devices [] k i id e n = refl
entry_of-list_devices (none ∷ ds) k zero id e n = entry_of-low ds (k + 1) id n (omega arith)
entry_of-list_devices (some d ∷ ds) k zero id e n = ground arith
entry_of-list_devices (none ∷ ds) k (suc i) id e n =
    entry_of-list_devices ds (k + 1) i id (omega arith) n
entry_of-list_devices (some d ∷ ds) k (suc i) id e n =
    ground (arith, entry_of-list_devices ds (k + 1) i id (omega arith) n.2)

past_end : (ds : List (Option VirtualDevice)) (i : ℕ) → length ds ≤ i → get_elem? ds i ≡ none
past_end [] i h = refl
past_end (d ∷ ds) zero h = absurd (omega arith)
past_end (d ∷ ds) (suc i) h = past_end ds i (omega arith)

entry_of-find_device :
    (ctx : DeviceContext) (id : ℕ)
    → IsSound ctx
    → entry_of id (list_devices ctx.devices) ≡ Option.map shown (find_device ctx id)
unfolding find_device
entry_of-find_device ctx zero v = entry_of-low ctx.devices 0 0 v.numbered (omega arith)
entry_of-find_device ctx (suc id) v =
    entry_of-list_devices ctx.devices 0 id (suc id) (omega arith) v.numbered
    ∙ ground (arith, past_end ctx.devices id)

-- The list that the driver answers has as many entries as there are devices, which is the count it
-- states, and for every id it shows the device that the id finds, or nothing if the id finds none.
pub device_list_shows :
    (f : Framework) (ctx : DeviceContext) (req n : ℕ) (b : List ℕ)
    → IsSound ctx
    → device_list_size ≤ n
    → f.retrieve_output req device_list_size ≡ Retrieved.retrieved b
    → (entries : List DeviceEntry) × (handle_get_device_list f ctx req n
        ≡ some (
            answer device_list_size
              (Output.device_list (record { device_count = ctx.device_count; devices = entries }))
              ctx))
      × (length entries ≡ ctx.device_count)
      × ((id : ℕ) → entry_of id entries ≡ Option.map shown (find_device ctx id))
unfolding handle_get_device_list
device_list_shows f ctx req n b v h e =
    let l : length (list_devices ctx.devices) ≡ ctx.device_count =
      length-list_devices ctx.devices ∙ sym v.counted in
    (list_devices ctx.devices, ground (arith, e, l), l, λ id. entry_of-find_device ctx id v)
