-- ===== src/Server/Messages/Completing.antt =====
-- What the server makes of a client's completion message.
use usb_over_ip.Common.{ℕ, ◌+◌, ◌≤◌, ◌≡◌, refl, List, ◌++◌, some, true, length, take, drop, arith}
use usb_over_ip.Common.Codec.{to_le}
use usb_over_ip.Protocol.{Header, UrbComplete, header_size, urb_complete_size}
use usb_over_ip.Protocol.Layout.Urbs.{
  encode_urb_complete, FitsUrbComplete, decode_urb_complete-encode_urb_complete,
}
use usb_over_ip.Ioctl.{IoctlCode, urb_completion_size}
use usb_over_ip.Ioctl.Layout.{encode_urb_completion}
use usb_over_ip.Server.{ServerContext, Platform, control}
use usb_over_ip.Server.Messages.{complete_in_driver, handle_urb_complete}

-- The bytes from the last field on, read as a structure that starts at its header.
shifted :
    (x y : UrbComplete) (rest : List ℕ)
    → y.device_id ≡ x.error_count
    → drop header_size (
        encode_urb_complete x (
          to_le 4 y.urb_id
          ++ (to_le 4 y.status ++ (to_le 4 y.actual_length ++ (to_le 4 y.error_count ++ rest)))))
      ≡ encode_urb_complete y rest
unfolding encode_urb_complete to_le
shifted x y rest e = rw e refl

-- The completion of a client is misread. For a message whose error count is that of the structure
-- y's device id and whose data begin with y's other fields, the driver's completion gets the ids,
-- the status and the length of y: the device id is the client's error count, and the URB id, the
-- status and the length are the first twelve bytes of the data of the transfer. The data that are
-- passed on start behind sixteen bytes of the client's data. It needs an open driver, memory for the
-- request, and y's length of bytes in the buffer.
pub urb_complete_misreads :
    {D : Type 0} (sys : Platform D) (ctx : ServerContext D) (d : D) (h : Header) (x y : UrbComplete)
    (rest : List ℕ) (n : ℕ)
    → ctx.driver ≡ some d
    → sys.malloc (urb_completion_size + y.actual_length) ≡ true
    → FitsUrbComplete y
    → y.device_id ≡ x.error_count
    → y.actual_length ≤ length rest
    → urb_complete_size ≤ n + header_size
    → handle_urb_complete sys ctx h
        (encode_urb_complete x (
          to_le 4 y.urb_id
          ++ (to_le 4 y.status ++ (to_le 4 y.actual_length ++ (to_le 4 y.error_count ++ rest)))))
        n
      ≡ some
          (control sys ctx IoctlCode.complete_urb (
            encode_urb_completion
              (record {
                device_id = x.error_count;
                urb_id = y.urb_id;
                sequence_number = h.sequence;
                status = y.status;
                actual_length = y.actual_length;
              })
              (take y.actual_length rest))).1
unfolding handle_urb_complete complete_in_driver
urb_complete_misreads sys ctx d h x y rest n o m f e l k =
    ground (arith, shifted x y rest e, decode_urb_complete-encode_urb_complete y rest f)
