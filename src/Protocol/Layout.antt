-- ===== src/Protocol/Layout.antt =====
-- The packed layouts of protocol/vusb_protocol.h as bytes, and the casts that read them back.
-- An encoder takes the bytes that follow the structure.
pub mod Urbs
pub mod Wire
use usb_over_ip.Common.{ℕ, ◌^◌, ◌<◌, ◌≡◌, List, ◌++◌, some, ◌>>=◌, length}
use usb_over_ip.Common.Codec.{to_le, Decoder, bytes, uint, bytes-append, uint-to_le}
use usb_over_ip.Protocol.{Header, SetupPacket, DeviceInfo, UrbSubmit, UrbComplete}

unfoldable pub encode_header : Header → List ℕ → List ℕ
encode_header x rest =
    to_le 4 x.magic
    ++ (to_le 2 x.version
        ++ (to_le 2 x.command ++ (to_le 4 x.payload_length ++ (to_le 4 x.sequence ++ rest))))

unfoldable pub decode_header : Decoder Header
decode_header bs = do
  (f0, b1) ← uint 4 bs
  (f1, b2) ← uint 2 b1
  (f2, b3) ← uint 2 b2
  (f3, b4) ← uint 4 b3
  (f4, b5) ← uint 4 b4
  some (record { magic = f0; version = f1; command = f2; payload_length = f3; sequence = f4 }, b5)

-- Every field fits its width.
pub record FitsHeader (x : Header) : Type 0 where
  pub magic_fits : x.magic < 256 ^ 4
  pub version_fits : x.version < 256 ^ 2
  pub command_fits : x.command < 256 ^ 2
  pub payload_length_fits : x.payload_length < 256 ^ 4
  pub sequence_fits : x.sequence < 256 ^ 4

-- A header whose fields fit their widths, written and read again, is the same header, with the bytes
-- behind it.
pub decode_header-encode_header :
    (x : Header) (rest : List ℕ)
    → FitsHeader x
    → decode_header (encode_header x rest) ≡ some (x, rest)
unfolding decode_header encode_header
decode_header-encode_header x rest fits = rw (
  uint-to_le 4 x.magic _ fits.magic_fits,
  uint-to_le 2 x.version _ fits.version_fits,
  uint-to_le 2 x.command _ fits.command_fits,
  uint-to_le 4 x.payload_length _ fits.payload_length_fits,
  uint-to_le 4 x.sequence _ fits.sequence_fits,
)

unfoldable pub encode_setup_packet : SetupPacket → List ℕ → List ℕ
encode_setup_packet x rest =
    to_le 1 x.bm_request_type
    ++ (to_le 1 x.b_request
        ++ (to_le 2 x.w_value ++ (to_le 2 x.w_index ++ (to_le 2 x.w_length ++ rest))))

unfoldable pub decode_setup_packet : Decoder SetupPacket
decode_setup_packet bs = do
  (f0, b1) ← uint 1 bs
  (f1, b2) ← uint 1 b1
  (f2, b3) ← uint 2 b2
  (f3, b4) ← uint 2 b3
  (f4, b5) ← uint 2 b4
  some (
    record { bm_request_type = f0; b_request = f1; w_value = f2; w_index = f3; w_length = f4 },
    b5,
  )

-- Every field fits its width.
pub record FitsSetupPacket (x : SetupPacket) : Type 0 where
  pub bm_request_type_fits : x.bm_request_type < 256 ^ 1
  pub b_request_fits : x.b_request < 256 ^ 1
  pub w_value_fits : x.w_value < 256 ^ 2
  pub w_index_fits : x.w_index < 256 ^ 2
  pub w_length_fits : x.w_length < 256 ^ 2

pub decode_setup_packet-encode_setup_packet :
    (x : SetupPacket) (rest : List ℕ)
    → FitsSetupPacket x
    → decode_setup_packet (encode_setup_packet x rest) ≡ some (x, rest)
unfolding decode_setup_packet encode_setup_packet
decode_setup_packet-encode_setup_packet x rest fits = rw (
  uint-to_le 1 x.bm_request_type _ fits.bm_request_type_fits,
  uint-to_le 1 x.b_request _ fits.b_request_fits,
  uint-to_le 2 x.w_value _ fits.w_value_fits,
  uint-to_le 2 x.w_index _ fits.w_index_fits,
  uint-to_le 2 x.w_length _ fits.w_length_fits,
)

unfoldable pub encode_device_info : DeviceInfo → List ℕ → List ℕ
encode_device_info x rest =
    to_le 4 x.device_id
    ++ (to_le 2 x.vendor_id
        ++ (to_le 2 x.product_id
            ++ (to_le 1 x.device_class
                ++ (to_le 1 x.device_sub_class
                    ++ (to_le 1 x.device_protocol
                        ++ (to_le 1 x.speed
                            ++ (to_le 1 x.num_configurations
                                ++ (to_le 1 x.num_interfaces
                                    ++ (to_le 2 x.reserved
                                        ++ (x.manufacturer
                                            ++ (x.product ++ (x.serial_number ++ rest))))))))))))

unfoldable pub decode_device_info : Decoder DeviceInfo
decode_device_info bs = do
  (f0, b1) ← uint 4 bs
  (f1, b2) ← uint 2 b1
  (f2, b3) ← uint 2 b2
  (f3, b4) ← uint 1 b3
  (f4, b5) ← uint 1 b4
  (f5, b6) ← uint 1 b5
  (f6, b7) ← uint 1 b6
  (f7, b8) ← uint 1 b7
  (f8, b9) ← uint 1 b8
  (f9, b10) ← uint 2 b9
  (f10, b11) ← bytes 64 b10
  (f11, b12) ← bytes 64 b11
  (f12, b13) ← bytes 64 b12
  some (
    record {
      device_id = f0;
      vendor_id = f1;
      product_id = f2;
      device_class = f3;
      device_sub_class = f4;
      device_protocol = f5;
      speed = f6;
      num_configurations = f7;
      num_interfaces = f8;
      reserved = f9;
      manufacturer = f10;
      product = f11;
      serial_number = f12;
    },
    b13,
  )

-- Every field fits its width.
pub record FitsDeviceInfo (x : DeviceInfo) : Type 0 where
  pub device_id_fits : x.device_id < 256 ^ 4
  pub vendor_id_fits : x.vendor_id < 256 ^ 2
  pub product_id_fits : x.product_id < 256 ^ 2
  pub device_class_fits : x.device_class < 256 ^ 1
  pub device_sub_class_fits : x.device_sub_class < 256 ^ 1
  pub device_protocol_fits : x.device_protocol < 256 ^ 1
  pub speed_fits : x.speed < 256 ^ 1
  pub num_configurations_fits : x.num_configurations < 256 ^ 1
  pub num_interfaces_fits : x.num_interfaces < 256 ^ 1
  pub reserved_fits : x.reserved < 256 ^ 2
  pub manufacturer_fits : length x.manufacturer ≡ 64
  pub product_fits : length x.product ≡ 64
  pub serial_number_fits : length x.serial_number ≡ 64

pub decode_device_info-encode_device_info :
    (x : DeviceInfo) (rest : List ℕ)
    → FitsDeviceInfo x
    → decode_device_info (encode_device_info x rest) ≡ some (x, rest)
unfolding decode_device_info encode_device_info
decode_device_info-encode_device_info x rest fits = rw (
  uint-to_le 4 x.device_id _ fits.device_id_fits,
  uint-to_le 2 x.vendor_id _ fits.vendor_id_fits,
  uint-to_le 2 x.product_id _ fits.product_id_fits,
  uint-to_le 1 x.device_class _ fits.device_class_fits,
  uint-to_le 1 x.device_sub_class _ fits.device_sub_class_fits,
  uint-to_le 1 x.device_protocol _ fits.device_protocol_fits,
  uint-to_le 1 x.speed _ fits.speed_fits,
  uint-to_le 1 x.num_configurations _ fits.num_configurations_fits,
  uint-to_le 1 x.num_interfaces _ fits.num_interfaces_fits,
  uint-to_le 2 x.reserved _ fits.reserved_fits,
  bytes-append 64 x.manufacturer _ fits.manufacturer_fits,
  bytes-append 64 x.product _ fits.product_fits,
  bytes-append 64 x.serial_number _ fits.serial_number_fits,
)
