-- ===== src/Server/Devices.antt =====
-- server/vusb_server.c: plugging and unplugging, by the driver or in the simulation.
pub mod Simulated
use usb_over_ip.Common.{
  ℕ, zero, suc, ◌+◌, ◌<◌, List, [], ◌∷◌, Bool, true, false, ◌&&◌, Option, none, some, ◌==◌, leb,
  if◌then◌else◌, ◌>>=◌, length, take, not, set, get_elem?,
}
use usb_over_ip.Common.Codec.{uint}
use usb_over_ip.Protocol.{DeviceInfo}
use usb_over_ip.Protocol.Status
use usb_over_ip.Ioctl.{IoctlCode, PluginRequest, PluginResponse, plugin_request_size}
use usb_over_ip.Ioctl.Layout.{encode_plugin_request}
use usb_over_ip.Common.Codec.{to_le}
use usb_over_ip.Driver.Table.{inc32}
use usb_over_ip.Server.{SimDevice, ServerContext, Platform, control}

-- The loop over the simulated devices for a free slot, which it fills.
unfoldable pub plug_sim : List SimDevice → ℕ → DeviceInfo → Option (List SimDevice)
plug_sim [] id info = none
plug_sim (d ∷ ds) id info =
    let rest = plug_sim ds id info in
    if d.active
    then (rest >>= λ (r : List SimDevice). some (d ∷ r))
    else some (
        record { active = true; device_id = id; device_info = record info { device_id = id } } ∷ ds)

-- The loop for the first active device with the id, which it marks as inactive.
unfoldable pub unplug_sim : List SimDevice → ℕ → Option (List SimDevice)
unplug_sim [] id = none
unplug_sim (d ∷ ds) id =
    let rest = unplug_sim ds id in
    if d.active && d.device_id == id
    then some (record d { active = false } ∷ ds)
    else (rest >>= λ (r : List SimDevice). some (d ∷ r))

-- The answer of the driver to the plug-in request, which succeeded: the result and the id.
unfoldable pub plugin_result : List ℕ → Option (Bool × ℕ)
plugin_result output = do
  (status, rest) ← uint 4 output
  (id, _) ← uint 4 rest
  some (if status == Status.success then (true, id) else (false, 0))

module _ {D : Type 0} where
  unfoldable pub plugin_simulated : ServerContext D → DeviceInfo → Bool × ℕ × ServerContext D
  plugin_simulated ctx info =
      let id = inc32 ctx.next_sim_device_id in
      elim (plug_sim ctx.sim_devices id info) [
        | none ↦ (false, 0, ctx)
        | some ds ↦ (true, id, record ctx { sim_devices = ds; next_sim_device_id = id })
      ]

module _ {D : Type 0} (sys : Platform D) where
  unfoldable pub plugin_in_driver :
      ServerContext D → DeviceInfo → List ℕ → ℕ → Option (Bool × ℕ × ServerContext D)
  plugin_in_driver ctx info descriptors len =
      if not (sys.malloc (plugin_request_size + len))
      then some (false, 0, ctx)
      else if leb len (length descriptors)
      then (let r = control sys ctx IoctlCode.plugin_device (
            encode_plugin_request (record { device_info = info; descriptor_length = len })
              (take len descriptors)) in
          elim r.0 [
            | none ↦ some (false, 0, r.1)
            | some output ↦ plugin_result output >>= λ (p : Bool × ℕ). some (p.0, p.1, r.1)
          ])
      else none

  -- Whether it succeeded, and the id. `descriptors` are all the bytes from their address on.
  unfoldable pub plugin_device :
      ServerContext D → DeviceInfo → List ℕ → ℕ → Option (Bool × ℕ × ServerContext D)
  plugin_device ctx info descriptors len = elim ctx.driver [
    | none ↦ some (plugin_simulated ctx info)
    | some _ ↦ plugin_in_driver ctx info descriptors len
  ]

  unfoldable pub unplug_device : ServerContext D → ℕ → Bool × ServerContext D
  unplug_device ctx id = elim ctx.driver [
    | none ↦ elim (unplug_sim ctx.sim_devices id) [
      | none ↦ (false, ctx)
      | some ds ↦ (true, record ctx { sim_devices = ds })
    ]
    | some _ ↦ (true, (control sys ctx IoctlCode.unplug_device (to_le 4 id)).1)
  ]
