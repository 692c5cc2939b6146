-- ===== src/Protocol/Layout/Urbs.antt =====
-- The layout of the messages about URBs, behind their headers.
use usb_over_ip.Common.{ℕ, ◌^◌, ◌<◌, ◌≡◌, List, ◌++◌, some, ◌>>=◌}
use usb_over_ip.Common.Codec.{to_le, Decoder, uint, uint-to_le}
use usb_over_ip.Protocol.{UrbSubmit, UrbComplete}
use usb_over_ip.Protocol.Layout.{
  FitsSetupPacket, encode_setup_packet, decode_setup_packet,
  decode_setup_packet-encode_setup_packet,
}

unfoldable pub encode_urb_submit : UrbSubmit → List ℕ → List ℕ
encode_urb_submit x rest =
    to_le 4 x.device_id
    ++ (to_le 4 x.urb_id
        ++ (to_le 1 x.endpoint_address
            ++ (to_le 1 x.transfer_type
                ++ (to_le 1 x.direction
                    ++ (to_le 1 x.reserved
                        ++ (to_le 4 x.transfer_flags
                            ++ (to_le 4 x.transfer_buffer_length
                                ++ (to_le 4 x.interval
                                    ++ (encode_setup_packet x.setup_packet rest)))))))))

unfoldable pub decode_urb_submit : Decoder UrbSubmit
decode_urb_submit bs = do
  (f0, b1) ← uint 4 bs
  (f1, b2) ← uint 4 b1
  (f2, b3) ← uint 1 b2
  (f3, b4) ← uint 1 b3
  (f4, b5) ← uint 1 b4
  (f5, b6) ← uint 1 b5
  (f6, b7) ← uint 4 b6
  (f7, b8) ← uint 4 b7
  (f8, b9) ← uint 4 b8
  (f9, b10) ← decode_setup_packet b9
  some (
    record {
      device_id = f0;
      urb_id = f1;
      endpoint_address = f2;
      transfer_type = f3;
      direction = f4;
      reserved = f5;
      transfer_flags = f6;
      transfer_buffer_length = f7;
      interval = f8;
      setup_packet = f9;
    },
    b10,
  )

-- Every field fits its width.
pub record FitsUrbSubmit (x : UrbSubmit) : Type 0 where
  pub device_id_fits : x.device_id < 256 ^ 4
  pub urb_id_fits : x.urb_id < 256 ^ 4
  pub endpoint_address_fits : x.endpoint_address < 256 ^ 1
  pub transfer_type_fits : x.transfer_type < 256 ^ 1
  pub direction_fits : x.direction < 256 ^ 1
  pub reserved_fits : x.reserved < 256 ^ 1
  pub transfer_flags_fits : x.transfer_flags < 256 ^ 4
  pub transfer_buffer_length_fits : x.transfer_buffer_length < 256 ^ 4
  pub interval_fits : x.interval < 256 ^ 4
  pub setup_packet_fits : FitsSetupPacket x.setup_packet

pub decode_urb_submit-encode_urb_submit :
    (x : UrbSubmit) (rest : List ℕ)
    → FitsUrbSubmit x
    → decode_urb_submit (encode_urb_submit x rest) ≡ some (x, rest)
unfolding decode_urb_submit encode_urb_submit
decode_urb_submit-encode_urb_submit x rest fits = rw (
  uint-to_le 4 x.device_id _ fits.device_id_fits,
  uint-to_le 4 x.urb_id _ fits.urb_id_fits,
  uint-to_le 1 x.endpoint_address _ fits.endpoint_address_fits,
  uint-to_le 1 x.transfer_type _ fits.transfer_type_fits,
  uint-to_le 1 x.direction _ fits.direction_fits,
  uint-to_le 1 x.reserved _ fits.reserved_fits,
  uint-to_le 4 x.transfer_flags _ fits.transfer_flags_fits,
  uint-to_le 4 x.transfer_buffer_length _ fits.transfer_buffer_length_fits,
  uint-to_le 4 x.interval _ fits.interval_fits,
  decode_setup_packet-encode_setup_packet x.setup_packet _ fits.setup_packet_fits,
)

unfoldable pub encode_urb_complete : UrbComplete → List ℕ → List ℕ
encode_urb_complete x rest =
    to_le 4 x.device_id
    ++ (to_le 4 x.urb_id
        ++ (to_le 4 x.status ++ (to_le 4 x.actual_length ++ (to_le 4 x.error_count ++ rest))))

unfoldable pub decode_urb_complete : Decoder UrbComplete
decode_urb_complete bs = do
  (f0, b1) ← uint 4 bs
  (f1, b2) ← uint 4 b1
  (f2, b3) ← uint 4 b2
  (f3, b4) ← uint 4 b3
  (f4, b5) ← uint 4 b4
  some (
    record { device_id = f0; urb_id = f1; status = f2; actual_length = f3; error_count = f4 },
    b5,
  )

-- Every field fits its width.
pub record FitsUrbComplete (x : UrbComplete) : Type 0 where
  pub device_id_fits : x.device_id < 256 ^ 4
  pub urb_id_fits : x.urb_id < 256 ^ 4
  pub status_fits : x.status < 256 ^ 4
  pub actual_length_fits : x.actual_length < 256 ^ 4
  pub error_count_fits : x.error_count < 256 ^ 4

pub decode_urb_complete-encode_urb_complete :
    (x : UrbComplete) (rest : List ℕ)
    → FitsUrbComplete x
    → decode_urb_complete (encode_urb_complete x rest) ≡ some (x, rest)
unfolding decode_urb_complete encode_urb_complete
decode_urb_complete-encode_urb_complete x rest fits = rw (
  uint-to_le 4 x.device_id _ fits.device_id_fits,
  uint-to_le 4 x.urb_id _ fits.urb_id_fits,
  uint-to_le 4 x.status _ fits.status_fits,
  uint-to_le 4 x.actual_length _ fits.actual_length_fits,
  uint-to_le 4 x.error_count _ fits.error_count_fits,
)
