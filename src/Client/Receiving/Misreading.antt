-- ===== src/Client/Receiving/Misreading.antt =====
-- client/vusb_client_enhanced.c: what the client makes of a request for a transfer.
use usb_over_ip.Common.{
  ℕ, ◌+◌, ◌-◌, ◌*◌, ◌/◌, ◌%◌, ◌≤◌, ◌<◌, ◌≡◌, refl, ap, List, ◌++◌, Option, drop, arith, le→ltb,
}
use usb_over_ip.Common.Codec.{to_le}
use usb_over_ip.Protocol.{UrbSubmit, header_size, urb_submit_size}
use usb_over_ip.Protocol.Layout.{encode_setup_packet}
use usb_over_ip.Protocol.Layout.Urbs.{
  encode_urb_submit, FitsUrbSubmit, decode_urb_submit-encode_urb_submit,
}
use usb_over_ip.Client.Capture.{WinUsb}
use usb_over_ip.Client.Receiving.{ClientContextEx, handle_submit, submit_read}

-- The fields of y up to its flags are those of x from its length on.
pub record IsShifted (x y : UrbSubmit) : Type 0 where
  pub device_id_from : y.device_id ≡ x.transfer_buffer_length
  pub urb_id_from : y.urb_id ≡ x.interval
  pub endpoint_from : y.endpoint_address ≡ x.setup_packet.bm_request_type
  pub type_from : y.transfer_type ≡ x.setup_packet.b_request
  pub value_from : x.setup_packet.w_value ≡ y.direction + 256 * y.reserved
  pub flags_from : y.transfer_flags ≡ x.setup_packet.w_index + 65536 * x.setup_packet.w_length
  pub w_index_fits : x.setup_packet.w_index < 65536
  pub direction_fits : y.direction < 256

-- The bytes behind a request that the shifted one ends with.
abbrev pub shifted_end : UrbSubmit → List ℕ → List ℕ
shifted_end y rest =
    to_le 4 y.transfer_buffer_length
    ++ (to_le 4 y.interval ++ encode_setup_packet y.setup_packet rest)

shifted :
    (x y : UrbSubmit) (rest : List ℕ)
    → IsShifted x y
    → drop header_size (encode_urb_submit x (shifted_end y rest)) ≡ encode_urb_submit y rest
unfolding encode_urb_submit encode_setup_packet to_le
shifted x y rest s =
    let v0 : x.setup_packet.w_value % 256 ≡ y.direction % 256 = omega (arith, s.value_from) in
    let v1 : x.setup_packet.w_value / 256 % 256 ≡ y.reserved % 256 =
      omega (arith, s.value_from, s.direction_fits) in
    let f0 : y.transfer_flags % 256 ≡ x.setup_packet.w_index % 256 = omega (arith, s.flags_from) in
    let f1 : y.transfer_flags / 256 % 256 ≡ x.setup_packet.w_index / 256 % 256 =
      omega (arith, s.flags_from) in
    let f2 : y.transfer_flags / 256 / 256 % 256 ≡ x.setup_packet.w_length % 256 =
      omega (arith, s.flags_from, s.w_index_fits) in
    let f3 : y.transfer_flags / 256 / 256 / 256 % 256 ≡ x.setup_packet.w_length / 256 % 256 =
      omega (arith, s.flags_from, s.w_index_fits) in
    rw (s.device_id_from, s.urb_id_from, s.endpoint_from, s.type_from, v0, v1, f0, f1, f2, f3) refl

behind :
    (x : UrbSubmit) (tail : List ℕ)
    → drop (urb_submit_size - header_size) (encode_urb_submit x tail) ≡ tail
unfolding encode_urb_submit encode_setup_packet to_le
behind x tail = refl

-- The client misreads a request for a transfer. For a message about a request x, whose data begin
-- with the last fields of y, it processes y: the device is the one whose id is x's buffer length, the
-- URB id is x's interval, and the endpoint, the transfer type and the direction are the first bytes
-- of x's setup packet. The data that it passes on start at the last fields of y.
pub handle_submit_misreads :
    (usb : WinUsb) (malloc : ℕ → Option (List ℕ)) (ctx : ClientContextEx) (x y : UrbSubmit)
    (rest : List ℕ) (n : ℕ)
    → IsShifted x y
    → FitsUrbSubmit y
    → urb_submit_size - header_size ≤ n
    → handle_submit usb malloc ctx (encode_urb_submit x (shifted_end y rest)) n
      ≡ submit_read usb malloc ctx y (shifted_end y rest)
unfolding handle_submit
handle_submit_misreads usb malloc ctx x y rest n s f l =
    rw (le→ltb n 32 l, shifted x y rest s, decode_urb_submit-encode_urb_submit y rest f)
      (ap (submit_read usb malloc ctx y) (behind x (shifted_end y rest)))
