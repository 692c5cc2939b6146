-- ===== src/Ioctl/Layout.antt =====
-- The packed layouts of protocol/vusb_ioctl.h as bytes, and the casts that read them back.
use usb_over_ip.Common.{ℕ, ◌^◌, ◌<◌, ◌≡◌, List, ◌++◌, some, ◌>>=◌}
use usb_over_ip.Common.Codec.{to_le, Decoder, uint, uint-to_le}
use usb_over_ip.Protocol.Layout.{
  encode_setup_packet, decode_setup_packet, FitsSetupPacket,
  decode_setup_packet-encode_setup_packet, encode_device_info, decode_device_info, FitsDeviceInfo,
  decode_device_info-encode_device_info,
}
use usb_over_ip.Ioctl.{PendingUrb, UrbCompletion, PluginRequest, PluginResponse, UrbCancelRequest}

unfoldable pub encode_pending_urb : PendingUrb → List ℕ → List ℕ
encode_pending_urb x rest =
    to_le 4 x.device_id
    ++ (to_le 4 x.urb_id
        ++ (to_le 4 x.sequence_number
            ++ (to_le 1 x.endpoint_address
                ++ (to_le 1 x.transfer_type
                    ++ (to_le 1 x.direction
                        ++ (to_le 1 x.reserved
                            ++ (to_le 4 x.transfer_flags
                                ++ (to_le 4 x.transfer_buffer_length
                                    ++ (to_le 4 x.interval
                                        ++ (encode_setup_packet x.setup_packet rest))))))))))

unfoldable pub decode_pending_urb : Decoder PendingUrb
decode_pending_urb bs = do
  (f0, b1) ← uint 4 bs
  (f1, b2) ← uint 4 b1
  (f2, b3) ← uint 4 b2
  (f3, b4) ← uint 1 b3
  (f4, b5) ← uint 1 b4
  (f5, b6) ← uint 1 b5
  (f6, b7) ← uint 1 b6
  (f7, b8) ← uint 4 b7
  (f8, b9) ← uint 4 b8
  (f9, b10) ← uint 4 b9
  (f10, b11) ← decode_setup_packet b10
  some (
    record {
      device_id = f0;
      urb_id = f1;
      sequence_number = f2;
      endpoint_address = f3;
      transfer_type = f4;
      direction = f5;
      reserved = f6;
      transfer_flags = f7;
      transfer_buffer_length = f8;
      interval = f9;
      setup_packet = f10;
    },
    b11,
  )

-- Every field fits its width.
pub record FitsPendingUrb (x : PendingUrb) : Type 0 where
  pub device_id_fits : x.device_id < 256 ^ 4
  pub urb_id_fits : x.urb_id < 256 ^ 4
  pub sequence_number_fits : x.sequence_number < 256 ^ 4
  pub endpoint_address_fits : x.endpoint_address < 256 ^ 1
  pub transfer_type_fits : x.transfer_type < 256 ^ 1
  pub direction_fits : x.direction < 256 ^ 1
  pub reserved_fits : x.reserved < 256 ^ 1
  pub transfer_flags_fits : x.transfer_flags < 256 ^ 4
  pub transfer_buffer_length_fits : x.transfer_buffer_length < 256 ^ 4
  pub interval_fits : x.interval < 256 ^ 4
  pub setup_packet_fits : FitsSetupPacket x.setup_packet

pub decode_pending_urb-encode_pending_urb :
    (x : PendingUrb) (rest : List ℕ)
    → FitsPendingUrb x
    → decode_pending_urb (encode_pending_urb x rest) ≡ some (x, rest)
unfolding decode_pending_urb encode_pending_urb
decode_pending_urb-encode_pending_urb x rest fits = rw (
  uint-to_le 4 x.device_id _ fits.device_id_fits,
  uint-to_le 4 x.urb_id _ fits.urb_id_fits,
  uint-to_le 4 x.sequence_number _ fits.sequence_number_fits,
  uint-to_le 1 x.endpoint_address _ fits.endpoint_address_fits,
  uint-to_le 1 x.transfer_type _ fits.transfer_type_fits,
  uint-to_le 1 x.direction _ fits.direction_fits,
  uint-to_le 1 x.reserved _ fits.reserved_fits,
  uint-to_le 4 x.transfer_flags _ fits.transfer_flags_fits,
  uint-to_le 4 x.transfer_buffer_length _ fits.transfer_buffer_length_fits,
  uint-to_le 4 x.interval _ fits.interval_fits,
  decode_setup_packet-encode_setup_packet x.setup_packet _ fits.setup_packet_fits,
)

unfoldable pub encode_urb_completion : UrbCompletion → List ℕ → List ℕ
encode_urb_completion x rest =
    to_le 4 x.device_id
    ++ (to_le 4 x.urb_id
        ++ (to_le 4 x.sequence_number ++ (to_le 4 x.status ++ (to_le 4 x.actual_length ++ rest))))

unfoldable pub decode_urb_completion : Decoder UrbCompletion
decode_urb_completion bs = do
  (f0, b1) ← uint 4 bs
  (f1, b2) ← uint 4 b1
  (f2, b3) ← uint 4 b2
  (f3, b4) ← uint 4 b3
  (f4, b5) ← uint 4 b4
  some (
    record { device_id = f0; urb_id = f1; sequence_number = f2; status = f3; actual_length = f4 },
    b5,
  )

-- Every field fits its width.
pub record FitsUrbCompletion (x : UrbCompletion) : Type 0 where
  pub device_id_fits : x.device_id < 256 ^ 4
  pub urb_id_fits : x.urb_id < 256 ^ 4
  pub sequence_number_fits : x.sequence_number < 256 ^ 4
  pub status_fits : x.status < 256 ^ 4
  pub actual_length_fits : x.actual_length < 256 ^ 4

pub decode_urb_completion-encode_urb_completion :
    (x : UrbCompletion) (rest : List ℕ)
    → FitsUrbCompletion x
    → decode_urb_completion (encode_urb_completion x rest) ≡ some (x, rest)
unfolding decode_urb_completion encode_urb_completion
decode_urb_completion-encode_urb_completion x rest fits = rw (
  uint-to_le 4 x.device_id _ fits.device_id_fits,
  uint-to_le 4 x.urb_id _ fits.urb_id_fits,
  uint-to_le 4 x.sequence_number _ fits.sequence_number_fits,
  uint-to_le 4 x.status _ fits.status_fits,
  uint-to_le 4 x.actual_length _ fits.actual_length_fits,
)

unfoldable pub encode_plugin_request : PluginRequest → List ℕ → List ℕ
encode_plugin_request x rest =
    encode_device_info x.device_info (to_le 4 x.descriptor_length ++ rest)

unfoldable pub decode_plugin_request : Decoder PluginRequest
decode_plugin_request bs = do
  (f0, b1) ← decode_device_info bs
  (f1, b2) ← uint 4 b1
  some (record { device_info = f0; descriptor_length = f1 }, b2)

-- Every field fits its width.
pub record FitsPluginRequest (x : PluginRequest) : Type 0 where
  pub device_info_fits : FitsDeviceInfo x.device_info
  pub descriptor_length_fits : x.descriptor_length < 256 ^ 4

-- A plug-in request whose fields fit their widths, written and read again, is the same request, with
-- the bytes of the descriptors behind it.
pub decode_plugin_request-encode_plugin_request :
    (x : PluginRequest) (rest : List ℕ)
    → FitsPluginRequest x
    → decode_plugin_request (encode_plugin_request x rest) ≡ some (x, rest)
unfolding decode_plugin_request encode_plugin_request
decode_plugin_request-encode_plugin_request x rest fits = rw (
  decode_device_info-encode_device_info x.device_info _ fits.device_info_fits,
  uint-to_le 4 x.descriptor_length _ fits.descriptor_length_fits,
)

unfoldable pub encode_urb_cancel_request : UrbCancelRequest → List ℕ → List ℕ
encode_urb_cancel_request x rest = to_le 4 x.device_id ++ (to_le 4 x.urb_id ++ rest)

unfoldable pub decode_urb_cancel_request : Decoder UrbCancelRequest
decode_urb_cancel_request bs = do
  (f0, b1) ← uint 4 bs
  (f1, b2) ← uint 4 b1
  some (record { device_id = f0; urb_id = f1 }, b2)

-- Every field fits its width.
pub record FitsUrbCancelRequest (x : UrbCancelRequest) : Type 0 where
  pub device_id_fits : x.device_id < 256 ^ 4
  pub urb_id_fits : x.urb_id < 256 ^ 4

pub decode_urb_cancel_request-encode_urb_cancel_request :
    (x : UrbCancelRequest) (rest : List ℕ)
    → FitsUrbCancelRequest x
    → decode_urb_cancel_request (encode_urb_cancel_request x rest) ≡ some (x, rest)
unfolding decode_urb_cancel_request encode_urb_cancel_request
decode_urb_cancel_request-encode_urb_cancel_request x rest fits =
    rw (uint-to_le 4 x.device_id _ fits.device_id_fits, uint-to_le 4 x.urb_id _ fits.urb_id_fits)

unfoldable pub encode_plugin_response : PluginResponse → List ℕ
encode_plugin_response x = to_le 4 x.status ++ (to_le 4 x.device_id ++ to_le 4 x.port_number)
