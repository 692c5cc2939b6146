-- ===== src/Driver/Urb.antt =====
-- driver/vusb_urb.c, first half: the entries made of the USB stack's request blocks.
-- `Urb` holds, for each function code that the parser tells apart, the fields that it reads;
-- the eight bytes of a setup packet are read as the structure. The mask for the direction and the
-- mapping of a memory descriptor list belong to the WDK, and are parameters.
pub mod Buffers
pub mod Parsing
pub mod Response
use Prim.Native.Nat.{bit_and, bit_or}
use usb_over_ip.Common.{
  ℕ, ◌+◌, ◌*◌, ◌/◌, ◌%◌, ◌^◌, ◌-◌, List, [], ◌∷◌, ◌++◌, Bool, true, false, ◌&&◌, Option, none, some,
  ◌==◌, ltb, leb, if◌then◌else◌, ◌>>=◌, min, drop, not,
}
use usb_over_ip.Protocol.{SetupPacket}
use usb_over_ip.Protocol.Transfer
use usb_over_ip.Protocol.Direction
use usb_over_ip.Ioctl.{PendingUrb, pending_urb_size}
use usb_over_ip.Ioctl.Layout.{encode_pending_urb}
use usb_over_ip.Driver.{NtStatus, nt_success, VirtualDevice, UrbEntry, DeviceContext}
use usb_over_ip.Driver.Table.{inc32, copy_memory, find_device}
use usb_over_ip.Driver.Queue.{Effect, Completion, ending}

-- The transfer fields that most request blocks share.
pub record TransferFields : Type 0 where
  pub flags : ℕ
  pub buffer_length : ℕ
  pub buffer : Option (List ℕ)
  pub mdl : Option ℕ

pub data Urb : Type 0 where
  control_transfer : TransferFields → SetupPacket → Urb
  control_transfer_ex : TransferFields → SetupPacket → ℕ → Urb
  bulk_or_interrupt_transfer isoch_transfer : TransferFields → ℕ → Urb
  get_descriptor : TransferFields → ℕ → ℕ → ℕ → Urb
  select_configuration : Option ℕ → Urb
  select_interface : ℕ → ℕ → Urb
  class_or_vendor : TransferFields → ℕ → ℕ → ℕ → ℕ → Urb
  pipe_request : Urb
  unknown : ℕ → Urb

abbrev pub with_transfer : UrbEntry → TransferFields → UrbEntry
with_transfer e t = record e {
  transfer_flags = t.flags;
  transfer_buffer_length = t.buffer_length;
  transfer_buffer = t.buffer;
  transfer_buffer_mdl = t.mdl;
}

abbrev pub direction_of : ℕ → ℕ → ℕ
direction_of direction_in flags =
    if bit_and flags direction_in == 0 then Direction.out else Direction.inward

abbrev pub pipe_endpoint : ℕ → ℕ
pipe_endpoint handle = if handle == 0 then 0 else bit_and handle 0xFF

unfoldable pub urb_parse : ℕ → UrbEntry → Urb → UrbEntry
urb_parse direction_in e (Urb.control_transfer t setup) = record (with_transfer e t) {
  transfer_type = Transfer.control;
  endpoint_address = 0;
  setup_packet = setup;
  direction = direction_of direction_in t.flags;
}
urb_parse direction_in e (Urb.control_transfer_ex t setup timeout) = record (with_transfer e t) {
  transfer_type = Transfer.control;
  endpoint_address = 0;
  timeout = timeout;
  setup_packet = setup;
  direction = direction_of direction_in t.flags;
}
urb_parse direction_in e (Urb.bulk_or_interrupt_transfer t handle) = record (with_transfer e t) {
  endpoint_address = pipe_endpoint handle;
  transfer_type = Transfer.bulk;
  direction = direction_of direction_in t.flags;
}
urb_parse direction_in e (Urb.isoch_transfer t handle) = record (with_transfer e t) {
  transfer_type = Transfer.isochronous;
  endpoint_address = pipe_endpoint handle;
  direction = direction_of direction_in t.flags;
}
urb_parse direction_in e (Urb.get_descriptor t descriptor_type index language) =
    record (with_transfer e t) {
      transfer_type = Transfer.control;
      direction = Direction.inward;
      transfer_flags = direction_in;
      setup_packet = record {
        bm_request_type = 0x80;
        b_request = 0x06;
        w_value = bit_or (descriptor_type * 2 ^ 8) index;
        w_index = language;
        w_length = t.buffer_length % 2 ^ 16;
      };
    }
urb_parse direction_in e (Urb.select_configuration value) = record e {
  transfer_type = Transfer.control;
  direction = Direction.out;
  setup_packet = record {
    bm_request_type = 0x00;
    b_request = 0x09;
    w_value = elim value [ none ↦ 0 | some v ↦ v ];
    w_index = 0;
    w_length = 0;
  };
}
urb_parse direction_in e (Urb.select_interface alternate number) = record e {
  transfer_type = Transfer.control;
  direction = Direction.out;
  setup_packet = record {
    bm_request_type = 0x01;
    b_request = 0x0B;
    w_value = alternate;
    w_index = number;
    w_length = 0;
  };
}
urb_parse direction_in e (Urb.class_or_vendor t reserved_bits request value index) =
    record (with_transfer e t) {
      transfer_type = Transfer.control;
      direction = direction_of direction_in t.flags;
      setup_packet = record {
        bm_request_type = reserved_bits;
        b_request = request;
        w_value = value;
        w_index = index;
        w_length = t.buffer_length % 2 ^ 16;
      };
    }
urb_parse direction_in e Urb.pipe_request = record e {
  transfer_type = Transfer.control;
  transfer_buffer_length = 0;
}
urb_parse direction_in e (Urb.unknown f) = e

-- The zeroed entry with the ids, the time and the default timeout.
unfoldable pub blank_entry : ℕ → ℕ → ℕ → Option ℕ → ℕ → UrbEntry
blank_entry urb_id sequence device_id request now = record {
  urb_id = urb_id;
  sequence_number = sequence;
  device_id = device_id;
  request = request;
  endpoint_address = 0;
  transfer_type = 0;
  direction = 0;
  transfer_flags = 0;
  transfer_buffer_length = 0;
  transfer_buffer = none;
  transfer_buffer_mdl = none;
  setup_packet = record {
    bm_request_type = 0;
    b_request = 0;
    w_value = 0;
    w_index = 0;
    w_length = 0;
  };
  submit_time = now;
  timeout = 5000;
}

-- The first argument says whether the pool allocation succeeds.
unfoldable pub urb_create :
    Bool → ℕ → DeviceContext → ℕ → Urb → Option ℕ → ℕ → NtStatus × Option UrbEntry × DeviceContext
urb_create false direction_in ctx device_id urb request now =
    (NtStatus.insufficient_resources, none, ctx)
urb_create true direction_in ctx device_id urb request now =
    let id = inc32 ctx.next_urb_id in
    let sequence = inc32 ctx.next_sequence in
    (
      NtStatus.success,
      some (urb_parse direction_in (blank_entry id sequence device_id request now) urb),
      record ctx { next_urb_id = id; next_sequence = sequence },
    )

abbrev pub pending_of : UrbEntry → PendingUrb
pending_of e = record {
  device_id = e.device_id;
  urb_id = e.urb_id;
  sequence_number = e.sequence_number;
  endpoint_address = e.endpoint_address;
  transfer_type = e.transfer_type;
  direction = e.direction;
  reserved = 0;
  transfer_flags = e.transfer_flags;
  transfer_buffer_length = e.transfer_buffer_length;
  interval = 0;
  setup_packet = e.setup_packet;
}
