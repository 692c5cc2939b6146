-- ===== src/Server/Devices/Simulated.antt =====
-- The simulated devices: plugging one in and out again.
use usb_over_ip.Common.{
  ℕ, ◌≡◌, ◌≢◌, List, [], ◌∷◌, none, some, true, false, Option-cases, Bool-cases, inl, inr, arith,
  if◌then◌else◌, All,
}
use usb_over_ip.Protocol.{DeviceInfo}
use usb_over_ip.Driver.Table.{inc32}
use usb_over_ip.Server.{SimDevice, ServerContext, Platform}
use usb_over_ip.Server.Devices.{
  plug_sim, unplug_sim, plugin_simulated, plugin_device, unplug_device,
}

-- No active device has the id.
abbrev pub IsFree : ℕ → List SimDevice → Type 0
IsFree id ds = All (λ (d : SimDevice). d.active ≡ true → d.device_id ≢ id) ds

-- The active devices, which are what the simulation shows.
abbrev pub shown_devices : List SimDevice → List SimDevice
shown_devices [] = []
shown_devices (d ∷ ds) = if d.active then d ∷ shown_devices ds else shown_devices ds

unplug-plug_sim :
    (ds es : List SimDevice) (id : ℕ) (info : DeviceInfo)
    → IsFree id ds
    → plug_sim ds id info ≡ some es
    → (fs : List SimDevice) × (unplug_sim es id ≡ some fs) × (shown_devices fs ≡ shown_devices ds)
unfolding plug_sim unplug_sim
unplug-plug_sim [] es id info f h = cc
unplug-plug_sim (d ∷ ds) es id info f h = elim (Bool-cases d.active) [
  | inl a ↦ elim (Option-cases (plug_sim ds id info)) [
    | inl q ↦ absurd (ground arith)
    | inr (r, q) ↦
        let (fs, u, s) = unplug-plug_sim ds r id info f.1 q in
        let other : d.device_id ≢ id = f.0 a in (d ∷ fs, ground arith, ground arith)
  ]
  | inr a ↦ (
    record { active = false; device_id = id; device_info = record info { device_id = id } } ∷ ds,
    ground arith,
    ground arith,
  )
]

-- In the simulation, with the next id in use by no active device: a device that is plugged in and
-- out again under the id that was returned is gone, and the other active devices are what they were.
pub unplug-plugin_device :
    {D : Type 0} (sys : Platform D) (ctx : ServerContext D) (info : DeviceInfo)
    (descriptors : List ℕ) (len id : ℕ) (ctx' : ServerContext D)
    → ctx.driver ≡ none
    → IsFree (inc32 ctx.next_sim_device_id) ctx.sim_devices
    → plugin_device sys ctx info descriptors len ≡ some (true, id, ctx')
    → ((unplug_device sys ctx' id).0 ≡ true)
      × (shown_devices (unplug_device sys ctx' id).1.sim_devices ≡ shown_devices ctx.sim_devices)
unfolding plugin_device plugin_simulated unplug_device
unplug-plugin_device sys ctx info descriptors len id ctx' o f h =
    elim (Option-cases (plug_sim ctx.sim_devices (inc32 ctx.next_sim_device_id) info)) [
      | inl q ↦ absurd (ground arith)
      | inr (es, q) ↦
          let (fs, u, s) =
            unplug-plug_sim ctx.sim_devices es (inc32 ctx.next_sim_device_id) info f q in
          (ground arith, ground arith)
    ]
