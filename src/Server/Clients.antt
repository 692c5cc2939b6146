-- ===== src/Server/Clients.antt =====
-- server/vusb_server.c: the array of client connections.
pub mod Lifecycle
pub mod Owning
use usb_over_ip.Common.{
  ℕ, zero, suc, ◌+◌, ◌-◌, List, [], ◌∷◌, Bool, true, false, ◌&&◌, ◌||◌, Option, none, some, ◌==◌,
  if◌then◌else◌, length, replicate, set, get_elem?,
}
use usb_over_ip.Protocol
use usb_over_ip.Driver.Table.{inc32, free_slot, join}
use usb_over_ip.Server.{ClientDevice, ClientConnection, ServerContext, Platform}
use usb_over_ip.Server.Devices.{unplug_device}

-- The zeroed connection with its socket and session.
abbrev pub new_client : ℕ → ℕ → ClientConnection
new_client socket session = record {
  socket = socket;
  session_id = session;
  connected = true;
  devices =
      replicate Protocol.max_devices (record { active = false; device_id = 0; remote_id = 0 });
}

-- Whether the connection has an active device with the id.
unfoldable pub owns : List ClientDevice → ℕ → Bool
owns [] id = false
owns (d ∷ ds) id = (d.active && d.device_id == id) || owns ds id

-- The loop over the connections, from a slot on.
unfoldable pub find_from : List (Option ClientConnection) → ℕ → ℕ → Option ℕ
find_from [] slot id = none
find_from (none ∷ cs) slot id = find_from cs (slot + 1) id
find_from (some c ∷ cs) slot id =
    let rest = find_from cs (slot + 1) id in
    if c.connected && owns c.devices id then some slot else rest

module _ {D : Type 0} where
  -- The slot of the new connection; `none` is a full server or a failed allocation.
  unfoldable pub accept_client : Bool → ServerContext D → ℕ → Option ℕ × ServerContext D
  accept_client allocated ctx socket = elim (free_slot ctx.clients) [
    | none ↦ (none, ctx)
    | some i ↦
        if allocated
        then (let session = inc32 ctx.next_session_id in
            (
              some i,
              record ctx {
                next_session_id = session;
                clients = set ctx.clients i (some (new_client socket session));
                client_count = ctx.client_count + 1;
              },
            ))
        else (none, ctx)
  ]

  unfoldable pub find_client_for_device : ServerContext D → ℕ → Option ℕ
  find_client_for_device ctx id = find_from ctx.clients 0 id

module _ {D : Type 0} (sys : Platform D) where
  unfoldable pub unplug_all : List ClientDevice → ServerContext D → ServerContext D
  unplug_all [] ctx = ctx
  unplug_all (d ∷ ds) ctx =
      unplug_all ds (if d.active then (unplug_device sys ctx d.device_id).1 else ctx)

  unfoldable pub disconnect_client : ServerContext D → ℕ → ServerContext D
  disconnect_client ctx slot = elim (join (get_elem? ctx.clients slot)) [
    | none ↦ ctx
    | some c ↦
        unplug_all c.devices
          (record ctx { clients = set ctx.clients slot none; client_count = ctx.client_count - 1 })
  ]
