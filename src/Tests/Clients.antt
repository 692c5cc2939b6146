-- ===== src/Tests/Clients.antt =====
-- The clients at concrete inputs: one that the user-mode server of the other tests serves in slot 1,
-- and one with a captured device whose pipes echo a byte.
use usb_over_ip.Common.{
  ℕ, ◌≡◌, ◌≢◌, refl, List, [], ◌∷◌, ◌++◌, true, ◌||◌, Option, none, some, ◌==◌, if◌then◌else◌,
  arith, replicate, take,
}
use usb_over_ip.Protocol.{UrbSubmit}
use usb_over_ip.Protocol.Layout.{FitsDeviceInfo}
use usb_over_ip.Protocol.Layout.Urbs.{encode_urb_submit, FitsUrbSubmit}
use usb_over_ip.Userspace.Devices.{get_device, has_free_slot}
use usb_over_ip.Userspace.Devices.Mapping.{created_device}
use usb_over_ip.Userspace.Messages.Session.{new_user_client}
use usb_over_ip.Client.{Network, ClientContext}
use usb_over_ip.Client.Requests.{attach_device}
use usb_over_ip.Client.Serving.{UserServer, Serves, serve, IsServed}
use usb_over_ip.Client.EndToEnd.{attach_device_serves}
use usb_over_ip.Client.Capture.{
  WinUsb, Piped, CapturedDevice, find_captured, put_captured, bulk_on, counted,
}
use usb_over_ip.Client.Capture.Configuration.{build_descriptor_buffer, read_whole, total_length}
use usb_over_ip.Client.Capture.Descriptors.{build_descriptor_buffer_lem}
use usb_over_ip.Common.Codec.{uint, from_le}
use usb_over_ip.Client.Capture.{EndpointInfo, InterfaceInfo}
use usb_over_ip.Client.Capture.Configuration.{read_config_descriptor}
use usb_over_ip.Client.Capture.Walking.{
  other, endpoint, encode_parts, encode_part, endpoints_of, IsOther,
}
use usb_over_ip.Client.Capture.Placing.{
  Setting, IsSetting, IsTable, HasEndpoints, placed, encode_settings, encode_setting,
  read_config_descriptor-placed,
}
use usb_over_ip.Userspace.Requests.Descriptors.{encode_block}
use usb_over_ip.Client.Urbs.{
  Processed, process_urb, process_found, process_device, process_opened, transfer, completion_of,
  response_length,
}
use usb_over_ip.Client.Urbs.Completions.{process_urb_answers}
use usb_over_ip.Client.Receiving.{
  ClientContextEx, handle_submit, submit_read, receive_thread, ReceiveOutcome,
}
use usb_over_ip.Client.Receiving.Misreading.{IsShifted, shifted_end, handle_submit_misreads}
use usb_over_ip.Client.Receiving.Finishing.{receive_thread_finishes}
use usb_over_ip.Tests.Samples.{mouse, descriptors, no_setup}
use usb_over_ip.Tests.Userspace.{user_server, user_server-IsSound, allocates}

abbrev network : Network UserServer
network = record {
  connects = true;
  answer = serve allocates 1;
  malloc = allocates;
  name_field = replicate 64 0;
  manufacturer_field = replicate 64 0;
  product_field = λ vid pid. replicate 64 0;
  serial_field = λ id. replicate 64 0;
}

abbrev client : ClientContext UserServer
client = record {
  socket_open = true;
  connected = true;
  session_id = 2;
  sequence = 4;
  next_device_id = 0;
  unread = [];
  peer = record { context = user_server; buffer = 1 ∷ 1 ∷ 1 ∷ [] };
}

client-IsServed : IsServed allocates 1 network client (new_user_client 2)
unfolding Serves
client-IsServed = record {
  serves = λ s bs. refl;
  nothing_unread = refl;
  is_connected = refl;
  in_slot = refl;
  stays = refl;
  is_running = refl;
}

mouse-FitsDeviceInfo : FitsDeviceInfo mouse
mouse-FitsDeviceInfo = record {
  device_id_fits = omega arith;
  vendor_id_fits = omega arith;
  product_id_fits = omega arith;
  device_class_fits = omega arith;
  device_sub_class_fits = omega arith;
  device_protocol_fits = omega arith;
  speed_fits = omega arith;
  num_configurations_fits = omega arith;
  num_interfaces_fits = omega arith;
  reserved_fits = omega arith;
  manufacturer_fits = refl;
  product_fits = refl;
  serial_number_fits = refl;
}

attach_device_serves_example :
    (ctx' : ClientContext UserServer) × (attach_device network mouse descriptors 18 client
      ≡ some (some 2, ctx'))
    × (ctx'.unread ≡ [])
    × ((j : ℕ)
        → get_device ctx'.peer.context j ≡ (
            if 2 == j
            then some (record (created_device mouse descriptors 18 2) {
              owner_client = some 1;
              remote_device_id = 3;
            })
            else get_device user_server j))
unfolding has_free_slot
attach_device_serves_example =
    attach_device_serves allocates 1 network client (new_user_client 2) mouse descriptors
      client-IsServed refl refl user_server-IsSound (omega arith) refl mouse-FitsDeviceInfo
      (omega arith) (omega arith) (omega arith)

abbrev echoed : List ℕ → ℕ → Piped
echoed buffer n = record { ok = true; error = 0; transferred = n; buffer = buffer }

-- The configuration of a mouse: one interface, with a HID descriptor and one endpoint.
abbrev mouse_header : List ℕ
mouse_header = 9 ∷ 2 ∷ 34 ∷ 0 ∷ 1 ∷ 1 ∷ 0 ∷ 160 ∷ 50 ∷ []

abbrev mouse_endpoint : EndpointInfo
mouse_endpoint = record { address = 0x81; attributes = 3; max_packet_size = 8; interval = 10 }

abbrev mouse_interface : Setting
mouse_interface = record {
  number = 0;
  alternate = 0;
  count = 1;
  class = 3;
  sub_class = 1;
  protocol = 2;
  text = 0;
  parts =
      other (record { kind = 0x21; body = 17 ∷ 1 ∷ 0 ∷ 1 ∷ 34 ∷ 52 ∷ 0 ∷ [] })
      ∷ endpoint mouse_endpoint
      ∷ [];
}

abbrev configuration : List ℕ
configuration =
    mouse_header
    ++ (9 ∷ 4 ∷ 0 ∷ 0 ∷ 1 ∷ 3 ∷ 1 ∷ 2 ∷ 0 ∷ 9 ∷ 0x21 ∷ 17 ∷ 1 ∷ 0 ∷ 1 ∷ 34 ∷ 52 ∷ 0 ∷ 7 ∷ 5 ∷ 0x81
        ∷ 3 ∷ 8 ∷ 0 ∷ 10 ∷ [])

abbrev no_interface : InterfaceInfo
no_interface = record {
  interface_number = 0;
  alternate_setting = 0;
  interface_class = 0;
  interface_sub_class = 0;
  interface_protocol = 0;
  num_endpoints = 0;
  endpoints =
      replicate 32 (record { address = 0; attributes = 0; max_packet_size = 0; interval = 0 });
}

abbrev usb : WinUsb
usb = record {
  opens = λ id. true;
  get_descriptor = λ t n. some (take n configuration);
  control_transfer = λ s buffer n. echoed buffer n;
  read_pipe = λ e buffer n. echoed (77 ∷ []) 1;
  write_pipe = λ e buffer n. echoed buffer n;
}

abbrev captured : CapturedDevice
captured = record {
  local_id = 6;
  remote_id = 0;
  active = true;
  opened = true;
  device_info = mouse;
  device_descriptor = descriptors;
  num_interfaces = 0;
  interfaces = replicate 8 no_interface;
  descriptors = descriptors ++ replicate 4078 0;
  descriptor_length = 18;
  bytes_in = 0;
  bytes_out = 0;
  transfers_completed = 0;
  transfer_errors = 0;
}

build_descriptor_buffer_lem_example :
    build_descriptor_buffer usb captured
    ≡ some (record captured {
      descriptors = descriptors ++ (configuration ++ replicate 4044 0);
      descriptor_length = 52;
    })
unfolding read_whole total_length uint from_le
build_descriptor_buffer_lem_example =
    build_descriptor_buffer_lem usb captured 34 1 configuration refl refl refl refl

mouse_interface-IsSetting : IsSetting mouse_interface
unfolding IsSetting endpoints_of IsOther
mouse_interface-IsSetting = (omega arith, omega arith, (refl, (tt, tt)))

captured-IsTable : IsTable captured.interfaces
unfolding IsTable HasEndpoints
captured-IsTable = (refl, (refl, (refl, (refl, (refl, (refl, (refl, (refl, (refl, tt)))))))))

read_config_descriptor-placed_example :
    read_config_descriptor usb (λ n. true) captured
    ≡ some (
      true,
      record captured {
        num_interfaces = 1;
        device_info = record captured.device_info { num_interfaces = 1 };
        interfaces = placed (mouse_interface ∷ []) captured.interfaces;
      },
    )
unfolding read_whole total_length uint from_le encode_settings encode_setting encode_parts
    encode_part encode_block endpoints_of
read_config_descriptor-placed_example =
    read_config_descriptor-placed usb (λ n. true) captured 1 mouse_header (mouse_interface ∷ [])
      refl refl refl (mouse_interface-IsSetting, tt) captured-IsTable

-- Two bytes to the device.
abbrev write_two : UrbSubmit
write_two = record {
  device_id = 6;
  urb_id = 9;
  endpoint_address = 2;
  transfer_type = 2;
  direction = 0;
  reserved = 0;
  transfer_flags = 0;
  transfer_buffer_length = 2;
  interval = 0;
  setup_packet = no_setup;
}

abbrev memory : ℕ → Option (List ℕ)
memory n = some (replicate n 0)

abbrev two_written : Processed
two_written = record {
  succeeded = true;
  devices = record captured { bytes_out = 2; transfers_completed = 1 } ∷ [];
  completion = record { device_id = 6; urb_id = 9; status = 0; actual_length = 0; bytes = none };
}

process_urb_answers_example :
    (two_written.completion.device_id ≡ write_two.device_id)
    × (two_written.completion.urb_id ≡ write_two.urb_id)
    × ((two_written.completion.status == 0) ≡ two_written.succeeded)
    × ((write_two.direction == 1 || two_written.completion.actual_length == 0) ≡ true)
unfolding process_urb process_found find_captured process_device process_opened transfer bulk_on
    counted completion_of response_length put_captured
process_urb_answers_example =
    process_urb_answers usb memory (captured ∷ []) write_two (some (5 ∷ 6 ∷ [])) 2 two_written refl

-- The request that the client reads in the place of `write_two`: it is for the device whose id is the
-- length 2, with the URB id 0 and an empty setup packet for its transfer.
abbrev misread : UrbSubmit
misread = record {
  device_id = 2;
  urb_id = 0;
  endpoint_address = 0;
  transfer_type = 0;
  direction = 0;
  reserved = 0;
  transfer_flags = 0;
  transfer_buffer_length = 2;
  interval = 0;
  setup_packet = no_setup;
}

write_two-IsShifted : IsShifted write_two misread
write_two-IsShifted = record {
  device_id_from = refl;
  urb_id_from = refl;
  endpoint_from = refl;
  type_from = refl;
  value_from = refl;
  flags_from = refl;
  w_index_fits = omega arith;
  direction_fits = omega arith;
}

misread-FitsUrbSubmit : FitsUrbSubmit misread
misread-FitsUrbSubmit = record {
  device_id_fits = omega arith;
  urb_id_fits = omega arith;
  endpoint_address_fits = omega arith;
  transfer_type_fits = omega arith;
  direction_fits = omega arith;
  reserved_fits = omega arith;
  transfer_flags_fits = omega arith;
  transfer_buffer_length_fits = omega arith;
  interval_fits = omega arith;
  setup_packet_fits = record {
    bm_request_type_fits = omega arith;
    b_request_fits = omega arith;
    w_value_fits = omega arith;
    w_index_fits = omega arith;
    w_length_fits = omega arith;
  };
}

abbrev capturing : ClientContextEx
capturing = record { running = true; connected = true; sequence = 0; captured = captured ∷ [] }

handle_submit_misreads_example :
    handle_submit usb memory capturing (encode_urb_submit write_two (shifted_end misread [])) 48
    ≡ submit_read usb memory capturing misread (shifted_end misread [])
handle_submit_misreads_example =
    handle_submit_misreads usb memory capturing write_two misread [] 48 write_two-IsShifted
      misread-FitsUrbSubmit (omega arith)

receive_thread_finishes_example :
    receive_thread usb memory capturing (1 ∷ 2 ∷ 3 ∷ []) ≢ ReceiveOutcome.unfinished
receive_thread_finishes_example = receive_thread_finishes usb memory capturing (1 ∷ 2 ∷ 3 ∷ [])
