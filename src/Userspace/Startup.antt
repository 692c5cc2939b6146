-- ===== src/Userspace/Startup.antt =====
-- userspace/vusb_userspace.c: the start and the end of the server, beside its sockets and its traffic
-- capture.
use usb_over_ip.Common.{
  ℕ, zero, suc, ◌≡◌, refl, List, [], ◌∷◌, true, false, Option, none, some, if◌then◌else◌, replicate,
  arith, Bool-cases, inl, inr,
}
use usb_over_ip.Protocol.{DeviceInfo}
use usb_over_ip.Userspace.{
  DevState, UserDevice, UserClient, UserContext, user_max_devices, user_max_clients,
}
use usb_over_ip.Userspace.Devices.{fresh_device, cleaned, get_device, first_device, has_free_slot}
use usb_over_ip.Userspace.Devices.Table.{IsSound, HasDistinctIds}

abbrev zero_info : DeviceInfo
zero_info = record {
  device_id = 0;
  vendor_id = 0;
  product_id = 0;
  device_class = 0;
  device_sub_class = 0;
  device_protocol = 0;
  speed = 0;
  num_configurations = 0;
  num_interfaces = 0;
  reserved = 0;
  manufacturer = replicate 64 0;
  product = replicate 64 0;
  serial_number = replicate 64 0;
}

-- A zeroed slot. The memory has no endpoint locks and events yet, which the model does not count.
unfoldable pub zero_device : UserDevice
unfolding fresh_device
zero_device = record (fresh_device zero_info (none, 0) 0) {
  active = false;
  state = DevState.detached;
}

unfoldable pub init_user_context : UserContext
init_user_context = record {
  running = false;
  clients = replicate user_max_clients none;
  client_count = 0;
  next_session_id = 0;
  devices = replicate user_max_devices zero_device;
  next_device_id = 0;
  total_urbs_processed = 0;
  total_bytes_transferred = 0;
}

abbrev pub stop_user_server : UserContext → UserContext
stop_user_server ctx = record ctx { running = false }

unfoldable pub clean_active : List UserDevice → List UserDevice
clean_active [] = []
clean_active (d ∷ ds) = (if d.active then cleaned d else d) ∷ clean_active ds

unfoldable pub cleanup_user_server : UserContext → UserContext
cleanup_user_server ctx = record (stop_user_server ctx) { devices = clean_active ctx.devices }

-- The clients that the callback of a listing sees, in the order of their slots.
unfoldable pub list_clients : List (Option UserClient) → List UserClient
list_clients [] = []
list_clients (none ∷ cs) = list_clients cs
list_clients (some c ∷ cs) = c ∷ list_clients cs

zeroed-HasDistinctIds : (n k : ℕ) → HasDistinctIds k (replicate n zero_device)
unfolding HasDistinctIds zero_device
zeroed-HasDistinctIds zero k = tt
zeroed-HasDistinctIds (suc n) k = ((λ a. absurd (ground (arith, a))), zeroed-HasDistinctIds n k)

-- The initialized server is sound and has a free slot.
pub init_user_context-IsSound :
    IsSound init_user_context × (has_free_slot init_user_context.devices ≡ true)
unfolding init_user_context has_free_slot zero_device
init_user_context-IsSound = (zeroed-HasDistinctIds 16 0, refl)

clean_active_lem : (ds : List UserDevice) (id : ℕ) → first_device id (clean_active ds) ≡ none
unfolding first_device clean_active
clean_active_lem [] id = refl
clean_active_lem (d ∷ ds) id = elim (Bool-cases d.active) [
  | inl q ↦ rw q (clean_active_lem ds id)
  | inr q ↦ rw q (clean_active_lem ds id)
]

-- After the cleanup of the server no device is found under any id.
pub cleanup_user_server_empties :
    (ctx : UserContext) (id : ℕ) → get_device (cleanup_user_server ctx) id ≡ none
unfolding get_device cleanup_user_server
cleanup_user_server_empties ctx id = clean_active_lem ctx.devices id
