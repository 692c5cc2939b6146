-- ===== src/Server/Messages/Attaching.antt =====
-- What reaches the driver of a client's attach message.
use usb_over_ip.Common.{
  ℕ, ◌+◌, ◌≤◌, ◌<◌, ◌≡◌, List, ◌++◌, none, some, true, length, take, arith, ◌>>=◌,
}
use usb_over_ip.Common.Codec.{to_le, uint-to_le}
use usb_over_ip.Protocol.{Header, device_info_size}
use usb_over_ip.Protocol.Layout.{decode_device_info-encode_device_info}
use usb_over_ip.Ioctl.{IoctlCode, PluginRequest, plugin_request_size}
use usb_over_ip.Ioctl.Layout.{encode_plugin_request, FitsPluginRequest}
use usb_over_ip.Server.{ServerContext, Platform, control}
use usb_over_ip.Server.Devices.{plugin_device, plugin_in_driver, plugin_result}
use usb_over_ip.Server.Messages.{handle_device_attach, attached_reply}

attach_decodes :
    {D : Type 0} (sys : Platform D) (ctx : ServerContext D) (slot : ℕ) (h : Header)
    (r : PluginRequest) (tail : List ℕ) (n : ℕ)
    → FitsPluginRequest r
    → device_info_size + 4 ≤ n
    → handle_device_attach sys ctx slot h (encode_plugin_request r tail) n ≡ (
        plugin_device sys ctx r.device_info tail r.descriptor_length >>= λ p.
        some (attached_reply slot h.sequence r.device_info.device_id p))
unfolding handle_device_attach encode_plugin_request
attach_decodes sys ctx slot h r tail n f l = ground (
  arith,
  decode_device_info-encode_device_info r.device_info (to_le 4 r.descriptor_length ++ tail)
      f.device_info_fits,
  uint-to_le 4 r.descriptor_length tail f.descriptor_length_fits,
)

-- An attach message is turned into the driver's plug-in request with the same device and the
-- announced count of bytes from the receive buffer: where the driver answers success with an id, the
-- client gets that id and the device is tracked for it. The length of the payload plays no part
-- beyond its first 212 bytes, so bytes that an earlier message left in the buffer are passed on as
-- descriptors if more are announced than were sent.
pub attach_forwards :
    {D : Type 0} (sys : Platform D) (ctx : ServerContext D) (slot : ℕ) (h : Header)
    (r : PluginRequest) (tail output : List ℕ) (n id : ℕ) (d d' : D)
    → FitsPluginRequest r
    → device_info_size + 4 ≤ n
    → ctx.driver ≡ some d
    → sys.malloc (plugin_request_size + r.descriptor_length) ≡ true
    → r.descriptor_length ≤ length tail
    → sys.device_io_control d IoctlCode.plugin_device
        (encode_plugin_request r (take r.descriptor_length tail))
      ≡ (some output, d')
    → plugin_result output ≡ some (true, id)
    → handle_device_attach sys ctx slot h (encode_plugin_request r tail) n
      ≡ some (
          attached_reply slot h.sequence r.device_info.device_id
            (true, id, record ctx { driver = some d' }))
unfolding plugin_device plugin_in_driver control
attach_forwards sys ctx slot h r tail output n id d d' f l o m k c p =
    ground (arith, attach_decodes sys ctx slot h r tail n f l, o, m, c, p)

-- With an open driver and memory for the plug-in request, an attach message whose fields fit the
-- packed layout, whose payload is long enough for its fixed part, and that announces more
-- descriptors than the receive buffer has bytes behind that part, makes the server read outside the
-- buffer.
pub attach_overreads :
    {D : Type 0} (sys : Platform D) (ctx : ServerContext D) (slot : ℕ) (h : Header)
    (r : PluginRequest) (tail : List ℕ) (n : ℕ) (d : D)
    → FitsPluginRequest r
    → device_info_size + 4 ≤ n
    → ctx.driver ≡ some d
    → sys.malloc (plugin_request_size + r.descriptor_length) ≡ true
    → length tail < r.descriptor_length
    → handle_device_attach sys ctx slot h (encode_plugin_request r tail) n ≡ none
unfolding plugin_device plugin_in_driver
attach_overreads sys ctx slot h r tail n d f l o m k =
    ground (arith, attach_decodes sys ctx slot h r tail n f l, o, m)
