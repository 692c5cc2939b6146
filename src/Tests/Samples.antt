-- ===== src/Tests/Samples.antt =====
-- The data that the tests share.
use usb_over_ip.Common.{
  ℕ, zero, suc, ◌+◌, List, [], ◌∷◌, Option, none, some, replicate, length, ltb, if◌then◌else◌, true,
}
use usb_over_ip.Protocol.{DeviceInfo, SetupPacket}
use usb_over_ip.Ioctl.{PluginRequest, UrbCompletion}
use usb_over_ip.Driver.{NtStatus, UrbEntry, DeviceContext, VirtualDevice}
use usb_over_ip.Driver.Request.{Framework, Retrieved}

abbrev pub mouse : DeviceInfo
mouse = record {
  device_id = 3;
  vendor_id = 0x046d;
  product_id = 0xc077;
  device_class = 0;
  device_sub_class = 0;
  device_protocol = 0;
  speed = 1;
  num_configurations = 1;
  num_interfaces = 1;
  reserved = 0;
  manufacturer = replicate 64 b'm';
  product = replicate 64 b'p';
  serial_number = replicate 64 0;
}

abbrev pub descriptors : List ℕ
descriptors =
    18 ∷ 1 ∷ 0 ∷ 2 ∷ 0 ∷ 0 ∷ 0 ∷ 8 ∷ 0x6d ∷ 4 ∷ 0x77 ∷ 0xc0 ∷ 0 ∷ 0x72 ∷ 1 ∷ 2 ∷ 0 ∷ 1 ∷ []

abbrev pub no_setup : SetupPacket
no_setup = record { bm_request_type = 0; b_request = 0; w_value = 0; w_index = 0; w_length = 0 }

-- An entry of one OUT transfer of three bytes, under a given id.
abbrev pub out_entry : ℕ → UrbEntry
out_entry id = record {
  urb_id = id;
  sequence_number = id;
  device_id = 1;
  request = some 40;
  endpoint_address = 2;
  transfer_type = 2;
  direction = 0;
  transfer_flags = 0;
  transfer_buffer_length = 3;
  transfer_buffer = some (7 ∷ 8 ∷ 9 ∷ []);
  transfer_buffer_mdl = none;
  setup_packet = no_setup;
  submit_time = 0;
  timeout = 5000;
}

abbrev pub in_entry : ℕ → UrbEntry
in_entry id = record (out_entry id) { direction = 1; transfer_flags = 1 }

abbrev device_in : ℕ → VirtualDevice
device_in slot = record {
  device_id = slot + 1;
  port_number = slot + 1;
  state = 1;
  device_info = mouse;
  descriptors = some descriptors;
  descriptor_length = 18;
  current_configuration = 0;
  current_interface = 0;
  current_alternate_setting = 0;
  bytes_in = 0;
  bytes_out = 0;
  urbs_completed = 0;
  urbs_error = 0;
}

abbrev devices_from : ℕ → ℕ → List (Option VirtualDevice)
devices_from zero k = []
devices_from (suc n) k = some (device_in k) ∷ devices_from n (k + 1)

abbrev pub empty_context : DeviceContext
empty_context = record {
  parked = [];
  max_devices = 16;
  device_count = 0;
  devices = replicate 16 none;
  next_urb_id = 0;
  next_sequence = 0;
  pending_urb_list = [];
  pending_urb_count = 0;
  statistics = record {
    total_urbs_submitted = 0;
    total_urbs_completed = 0;
    total_urbs_canceled = 0;
    total_bytes_in = 0;
    total_bytes_out = 0;
    total_errors = 0;
    active_devices = 0;
    pending_urbs = 0;
  };
}

abbrev pub full_context : DeviceContext
full_context = record empty_context { device_count = 16; devices = devices_from 16 0 }

-- Device 1 is plugged in, and two requests wait for it.
abbrev pub busy_context : DeviceContext
busy_context = record empty_context {
  device_count = 1;
  devices = some (device_in 0) ∷ replicate 15 none;
  next_urb_id = 2;
  pending_urb_list = out_entry 1 ∷ in_entry 2 ∷ [];
  pending_urb_count = 2;
}

abbrev pub request : PluginRequest
request = record { device_info = mouse; descriptor_length = 18 }

abbrev pub hand_out : List ℕ → ℕ → Retrieved
hand_out buffer size =
    if ltb (length buffer) size
    then Retrieved.refused NtStatus.buffer_too_small
    else Retrieved.retrieved buffer

-- A framework that hands out given buffers.
abbrev pub framework : List ℕ → List ℕ → Framework
framework input output = record {
  retrieve_input = λ r n. hand_out input n;
  retrieve_output = λ r n. hand_out output n;
  input_mdl = λ r. none;
  output_mdl = λ r. some (some output);
  forward_to_pending_queue = λ r. NtStatus.success;
  device_allocated = true;
  descriptors_allocated = true;
}

abbrev pub completion_of : ℕ → UrbCompletion
completion_of id = record {
  device_id = 1;
  urb_id = id;
  sequence_number = 0;
  status = 0;
  actual_length = 2;
}
