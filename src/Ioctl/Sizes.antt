-- ===== src/Ioctl/Sizes.antt =====
-- The sizes (`sizeof`) of the packed structures are the lengths of their bytes.
use usb_over_ip.Common.{ℕ, ◌+◌, ◌≡◌, List, ◌++◌, length, length-append, arith}
use usb_over_ip.Common.Codec.{to_le, length-to_le}
use usb_over_ip.Protocol.{
  Header, DeviceInfo, SetupPacket, UrbSubmit, UrbComplete, header_size, device_info_size,
  urb_submit_size, urb_complete_size,
}
use usb_over_ip.Protocol.Layout.{
  encode_header, encode_setup_packet, encode_device_info, FitsDeviceInfo,
}
use usb_over_ip.Protocol.Layout.Urbs.{encode_urb_submit, encode_urb_complete}
use usb_over_ip.Ioctl.{
  PluginRequest, PendingUrb, UrbCompletion, plugin_request_size, pending_urb_size,
  urb_completion_size,
}
use usb_over_ip.Ioctl.Layout.{
  encode_plugin_request, encode_pending_urb, encode_urb_completion, FitsPluginRequest,
}

ruleset sizes = (length-append, length-to_le)

pub length-encode_header :
    (x : Header) (rest : List ℕ) → length (encode_header x rest) ≡ header_size + length rest
unfolding encode_header
length-encode_header x rest = simp sizes (omega arith)

pub length-encode_setup_packet :
    (x : SetupPacket) (rest : List ℕ) → length (encode_setup_packet x rest) ≡ 8 + length rest
unfolding encode_setup_packet
length-encode_setup_packet x rest = simp sizes (omega arith)

pub length-encode_device_info :
    (x : DeviceInfo) (rest : List ℕ)
    → FitsDeviceInfo x
    → length (encode_device_info x rest) ≡ device_info_size + length rest
unfolding encode_device_info
length-encode_device_info x rest f =
    simp sizes (omega (arith, f.manufacturer_fits, f.product_fits, f.serial_number_fits))

pub length-encode_urb_submit :
    (x : UrbSubmit) (rest : List ℕ)
    → length (encode_urb_submit x rest) + header_size ≡ urb_submit_size + length rest
unfolding encode_urb_submit
length-encode_urb_submit x rest = simp (sizes, length-encode_setup_packet) (omega arith)

pub length-encode_urb_complete :
    (x : UrbComplete) (rest : List ℕ)
    → length (encode_urb_complete x rest) + header_size ≡ urb_complete_size + length rest
unfolding encode_urb_complete
length-encode_urb_complete x rest = simp sizes (omega arith)

pub length-encode_plugin_request :
    (x : PluginRequest) (rest : List ℕ)
    → FitsPluginRequest x
    → length (encode_plugin_request x rest) ≡ plugin_request_size + length rest
unfolding encode_plugin_request
length-encode_plugin_request x rest f = omega (
  arith,
  length-encode_device_info x.device_info (to_le 4 x.descriptor_length ++ rest) f.device_info_fits,
  length-append (to_le 4 x.descriptor_length) rest,
  length-to_le 4 x.descriptor_length,
)

pub length-encode_pending_urb :
    (x : PendingUrb) (rest : List ℕ)
    → length (encode_pending_urb x rest) ≡ pending_urb_size + length rest
unfolding encode_pending_urb
length-encode_pending_urb x rest = simp (sizes, length-encode_setup_packet) (omega arith)

pub length-encode_urb_completion :
    (x : UrbCompletion) (rest : List ℕ)
    → length (encode_urb_completion x rest) ≡ urb_completion_size + length rest
unfolding encode_urb_completion
length-encode_urb_completion x rest = simp sizes (omega arith)
