-- ===== src/Tests/Userspace.antt =====
-- The user-mode server at concrete inputs. Slot 0 of its clients owns device 1, with one request
-- pending; slot 1 owns none.
use usb_over_ip.Common.{
  ℕ, ◌≡◌, refl, List, [], ◌∷◌, Bool, true, false, none, some, ◌==◌, if◌then◌else◌, arith, replicate,
  length, is_some,
}
use usb_over_ip.Protocol.{UrbComplete, init_header}
use usb_over_ip.Protocol.Layout.Urbs.{encode_urb_complete}
use usb_over_ip.Common.Codec.{uint, bytes, from_le, to_le}
use usb_over_ip.Server.Messages.{message}
use usb_over_ip.Userspace.{EpState, UserEndpoint, UserUrb, UserDevice, DevState, UserContext}
use usb_over_ip.Userspace.Devices.{
  get_device, first_device, create_user_device, destroy_user_device, has_free_slot, zero_endpoint,
}
use usb_over_ip.Userspace.Devices.Table.{IsSound, HasDistinctIds}
use usb_over_ip.Userspace.Devices.Mapping.{
  create_user_device-get_device, destroy_user_device-get_device, created_device,
}
use usb_over_ip.Userspace.Urbs.{submit_urb, complete_user_urb}
use usb_over_ip.Userspace.Urbs.Completing.{complete_user_urb-submit_urb}
use usb_over_ip.Userspace.Requests.{get_descriptor}
use usb_over_ip.Userspace.Requests.Descriptors.{
  Block, encode_blocks, encode_block, nth_of_kind, cut_block, get_descriptor-nth_of_kind,
}
use usb_over_ip.Userspace.Endpoints.Reading.{IsBuffered, unread, read_pieces, read_pieces-unread}
use usb_over_ip.Userspace.Messages.{
  Incoming, process_user_message, user_urb_complete, user_client, owned_by, user_detach,
}
use usb_over_ip.Userspace.Messages.Owning.{process_user_message_spares}
use usb_over_ip.Userspace.Messages.Foreign.{completion_reaches}
use usb_over_ip.Userspace.Messages.Ending.{end_client-get_device, member}
use usb_over_ip.Userspace.Messages.Session.{new_user_client, end_client}
use usb_over_ip.Tests.Samples.{mouse, descriptors, no_setup}

abbrev device : ℕ → UserDevice
device id = record {
  active = true;
  device_id = id;
  remote_device_id = 3;
  state = DevState.attached;
  device_info = mouse;
  descriptors = some descriptors;
  descriptor_length = 18;
  configuration = 0;
  address = 0;
  endpoints = replicate 32 zero_endpoint;
  pending_urbs = [];
  pending_urb_count = 0;
  next_urb_id = 0;
  owner_client = some 0;
  bytes_in = 0;
  bytes_out = 0;
  urbs_submitted = 0;
  urbs_completed = 0;
}

abbrev read_four : UserUrb
read_four = record {
  urb_id = 1;
  sequence = 0;
  endpoint_address = 0x81;
  transfer_type = 2;
  direction = 1;
  transfer_flags = 0;
  transfer_buffer_length = 4;
  interval = 0;
  setup_packet = no_setup;
  transfer_buffer = some (0 ∷ 0 ∷ 0 ∷ 0 ∷ []);
  actual_length = 0;
  status = 0;
  completed = false;
  submit_time = 5;
}

abbrev reading : UserDevice
reading = record (device 1) {
  pending_urbs = read_four ∷ [];
  pending_urb_count = 1;
  next_urb_id = 1;
}

abbrev pub user_server : UserContext
user_server = record {
  running = true;
  clients =
      some (record (new_user_client 1) { device_ids = 1 ∷ [] }) ∷ some (new_user_client 2) ∷ [];
  client_count = 2;
  next_session_id = 2;
  devices = reading ∷ record (device 0) { active = false } ∷ [];
  next_device_id = 1;
  total_urbs_processed = 1;
  total_bytes_transferred = 0;
}

abbrev pub allocates : ℕ → Bool
allocates n = true

pub user_server-IsSound : IsSound user_server
unfolding HasDistinctIds first_device
user_server-IsSound = ((λ a. (omega arith, refl)), ((λ a. absurd (ground (arith, a))), tt))

abbrev message_of : ℕ → List ℕ → Incoming
message_of command payload = record {
  header = init_header command (length payload) 7;
  buffer = payload;
  payload_length = length payload;
}

create_user_device-get_device_example :
    (ctx' : UserContext) × (create_user_device true user_server mouse (some descriptors) 18
      ≡ some (true, 2, ctx'))
    × (get_device user_server 2 ≡ none)
    × ((j : ℕ)
        → get_device ctx' j ≡ (
            if 2 == j
            then some (created_device mouse descriptors 18 2)
            else get_device user_server j))
    × IsSound ctx'
    × (ctx'.clients ≡ user_server.clients)
unfolding has_free_slot
create_user_device-get_device_example =
    create_user_device-get_device user_server mouse descriptors 18 user_server-IsSound (omega arith)
      refl (omega arith)

destroy_user_device-get_device_example :
    ((destroy_user_device user_server 1).0 ≡ is_some (get_device user_server 1))
    × ((j : ℕ)
        → get_device (destroy_user_device user_server 1).1 j
          ≡ (if 1 == j then none else get_device user_server j))
    × IsSound (destroy_user_device user_server 1).1
destroy_user_device-get_device_example =
    destroy_user_device-get_device user_server 1 user_server-IsSound

complete_user_urb-submit_urb_example :
    (ctx' : UserContext) × (e : UserDevice) × (complete_user_urb
        (submit_urb user_server 1 read_four 9).1
        1
        2
        0
        (some (7 ∷ 8 ∷ []))
        2
      ≡ some (
        some (record read_four {
          urb_id = 2;
          submit_time = 9;
          status = 0;
          actual_length = 2;
          completed = true;
          transfer_buffer = some (7 ∷ 8 ∷ 0 ∷ 0 ∷ []);
        }),
        ctx',
      ))
    × (e.pending_urbs ≡ read_four ∷ [])
    × (e.pending_urb_count ≡ 1)
    × (e.bytes_in ≡ 2)
    × ((j : ℕ) → get_device ctx' j ≡ (if 1 == j then some e else get_device user_server j))
unfolding get_device first_device
complete_user_urb-submit_urb_example =
    complete_user_urb-submit_urb user_server 1 9 0 (7 ∷ 8 ∷ []) (0 ∷ 0 ∷ 0 ∷ 0 ∷ []) reading
      read_four refl refl refl refl (omega arith) (omega arith) (omega arith)

-- An interface with two endpoints.
abbrev blocks : List Block
blocks =
    record { kind = 4; body = 0 ∷ 0 ∷ 2 ∷ 0xFF ∷ 0 ∷ 0 ∷ 0 ∷ [] }
    ∷ record { kind = 5; body = 0x81 ∷ 2 ∷ 64 ∷ 0 ∷ 0 ∷ [] }
    ∷ record { kind = 5; body = 0x02 ∷ 2 ∷ 64 ∷ 0 ∷ 0 ∷ [] }
    ∷ []

abbrev described : UserDevice
described = record (device 1) { descriptors = some (encode_blocks blocks); descriptor_length = 23 }

get_descriptor-nth_of_kind_example :
    get_descriptor described 0x0501 4 ≡ some (cut_block 4 (nth_of_kind 5 1 blocks))
unfolding encode_blocks encode_block
get_descriptor-nth_of_kind_example =
    get_descriptor-nth_of_kind described blocks 0x0501 4 refl refl (omega arith)

second_endpoint : get_descriptor described 0x0501 4 ≡ some (some (7 ∷ 5 ∷ 0x02 ∷ 2 ∷ []))
unfolding nth_of_kind encode_block
second_endpoint = get_descriptor-nth_of_kind_example

abbrev half_read : UserEndpoint
half_read = record {
  state = EpState.enabled;
  buffer = some (1 ∷ 2 ∷ 3 ∷ 4 ∷ 5 ∷ 0 ∷ []);
  buffer_size = 6;
  data_length = 5;
  data_offset = 1;
}

half_read-IsBuffered : IsBuffered half_read
half_read-IsBuffered = record {
  memory = 1 ∷ 2 ∷ 3 ∷ 4 ∷ 5 ∷ 0 ∷ [];
  has_memory = refl;
  offset_le = omega arith;
  length_le = omega arith;
  length_lt = omega arith;
}

read_pieces-unread_example :
    (g : UserEndpoint) × (read_pieces half_read (2 ∷ 1 ∷ []) ≡ some (2 ∷ 3 ∷ 4 ∷ [], g))
    × (unread g ≡ 5 ∷ [])
    × IsBuffered g
unfolding unread
read_pieces-unread_example = read_pieces-unread (2 ∷ 1 ∷ []) half_read half_read-IsBuffered

-- Slot 1 asks to detach the device of slot 0.
abbrev detach_other : Incoming
detach_other = message_of 0x11 (1 ∷ 0 ∷ 0 ∷ 0 ∷ [])

process_user_message_spares_example :
    IsSound user_server × (get_device user_server 1 ≡ some reading)
unfolding process_user_message user_detach owned_by get_device first_device init_header uint bytes
    from_le
process_user_message_spares_example =
    process_user_message_spares allocates user_server user_server 1 (new_user_client 2) detach_other
      (message 0xFE [] 7 ∷ []) 1 reading user_server-IsSound (omega arith) (λ e. ground (arith, e))
      refl refl refl

abbrev two_bytes : UrbComplete
two_bytes = record { device_id = 3; urb_id = 1; status = 0; actual_length = 2; error_count = 0 }

-- Slot 1 completes the request of the device of slot 0.
completion_reaches_example :
    (ctx' : UserContext) × (user_urb_complete user_server
        (message_of 0x21 (encode_urb_complete two_bytes (8 ∷ 9 ∷ [])))
      ≡ some (
        some (record read_four {
          actual_length = 2;
          completed = true;
          transfer_buffer = some (8 ∷ 9 ∷ 0 ∷ 0 ∷ []);
        }),
        ctx',
      ))
    × (process_user_message allocates user_server 1
          (new_user_client 2)
          (message_of 0x21 (encode_urb_complete two_bytes (8 ∷ 9 ∷ [])))
        ≡ some (ctx', []))
    × ((j : ℕ)
        → get_device ctx' j ≡ (
            if 1 == j
            then some (record reading {
              bytes_in = 2;
              urbs_completed = 1;
              pending_urbs = [];
              pending_urb_count = 0;
            })
            else get_device user_server j))
unfolding init_header get_device first_device encode_urb_complete to_le
completion_reaches_example =
    completion_reaches allocates user_server 1 (new_user_client 2)
      (message_of 0x21 (encode_urb_complete two_bytes (8 ∷ 9 ∷ []))) two_bytes (8 ∷ 9 ∷ []) []
      (record (device 0) { active = false } ∷ []) reading [] [] read_four (0 ∷ 0 ∷ 0 ∷ 0 ∷ []) refl
      refl
      (record {
        device_id_fits = omega arith;
        urb_id_fits = omega arith;
        status_fits = omega arith;
        actual_length_fits = omega arith;
        error_count_fits = omega arith;
      })
      (omega arith) refl tt refl refl refl refl tt refl refl refl refl (omega arith) (omega arith)
      (omega arith)

end_client-get_device_example :
    ((k : ℕ)
      → user_client (end_client user_server 0) k
        ≡ (if 0 == k then none else user_client user_server k))
    × ((j : ℕ)
        → get_device (end_client user_server 0) j
          ≡ (if member j (1 ∷ []) then none else get_device user_server j))
end_client-get_device_example =
    end_client-get_device user_server 0 (record (new_user_client 1) { device_ids = 1 ∷ [] }) refl
