-- ===== src/Driver/DeviceHandlers/Plugging.antt =====
-- Plugging a device in by a control request, from the bytes of the request on.
use mathlib.Core.Path.{subst}
use usb_over_ip.Common.{
  ℕ, ◌+◌, ◌≤◌, ◌<◌, ◌≡◌, ◌≢◌, refl, sym, ◌∙◌, List, none, some, arith, Bool, true, false, length,
  take_all, length-replicate, zero,
}
use usb_over_ip.Protocol.Status
use usb_over_ip.Ioctl.{PluginRequest, plugin_request_size, plugin_response_size}
use usb_over_ip.Ioctl.Layout.{
  encode_plugin_request, FitsPluginRequest, decode_plugin_request-encode_plugin_request,
}
use usb_over_ip.Ioctl.Sizes.{length-encode_plugin_request}
use usb_over_ip.Ioctl.Reading.{Reads-plugin_request}
use usb_over_ip.Driver.{NtStatus, nt_success, DeviceContext, VirtualDevice}
use usb_over_ip.Protocol.{DeviceInfo}
use usb_over_ip.Ioctl.State
use usb_over_ip.Driver.Table.{
  create_virtual_device, find_device, new_device, copy_descriptors, copy_memory,
}
use usb_over_ip.Driver.Table.Invariant.{IsSound}
use usb_over_ip.Driver.Table.Lifecycle.{create-Plugs, create_full}
use usb_over_ip.Driver.Request.{Framework, Retrieved, Output, Reply, answer, IsDocumented}
use usb_over_ip.Driver.DeviceHandlers.{respond_plugin, plugin_with, handle_plugin_device}

abbrev pub response : ℕ → DeviceContext → Reply
response id ctx =
    answer plugin_response_size
      (Output.plugin (record { status = Status.success; device_id = id; port_number = id })) ctx

-- The framework hands out the bytes of the request and a buffer for the response.
abbrev pub Delivers : Framework → ℕ → List ℕ → List ℕ → Type 0
Delivers f req bytes out =
    (f.retrieve_input req plugin_request_size ≡ Retrieved.retrieved bytes)
    × (f.retrieve_output req plugin_response_size ≡ Retrieved.retrieved out)

-- The virtual device of a plugged-in slot: its number, the information and the descriptors of the
-- request, and nothing configured or counted yet.
abbrev pub plugged : DeviceInfo → List ℕ → ℕ → VirtualDevice
plugged info ds slot = record {
  device_id = slot + 1;
  port_number = slot + 1;
  state = State.attached;
  device_info = info;
  descriptors = some ds;
  descriptor_length = length ds;
  current_configuration = 0;
  current_interface = 0;
  current_alternate_setting = 0;
  bytes_in = 0;
  bytes_out = 0;
  urbs_completed = 0;
  urbs_error = 0;
}

plugin_with_lem :
    (f : Framework) (ctx : DeviceContext) (req : ℕ) (r : PluginRequest) (ds out : List ℕ)
    (s : NtStatus) (id : ℕ) (ctx' : DeviceContext)
    → FitsPluginRequest r
    → r.descriptor_length ≡ length ds
    → Delivers f req (encode_plugin_request r ds) out
    → create_virtual_device f.device_allocated f.descriptors_allocated ctx r.device_info
        (some ds)
        r.descriptor_length
      ≡ some (s, id, ctx')
    → plugin_with f ctx req (encode_plugin_request r ds) ≡ some (response id ctx')
unfolding plugin_with respond_plugin nt_success
plugin_with_lem f ctx req r ds out s id ctx' fits l d c =
    rw (decode_plugin_request-encode_plugin_request r ds fits)
      (ground (arith, d.0, d.1, c, length-encode_plugin_request r ds fits))

handle_lem :
    (f : Framework) (ctx : DeviceContext) (req n m : ℕ) (r : PluginRequest) (ds out : List ℕ)
    (s : NtStatus) (id : ℕ) (ctx' : DeviceContext)
    → FitsPluginRequest r
    → r.descriptor_length ≡ length ds
    → Delivers f req (encode_plugin_request r ds) out
    → plugin_request_size ≤ n
    → plugin_response_size ≤ m
    → create_virtual_device f.device_allocated f.descriptors_allocated ctx r.device_info
        (some ds)
        r.descriptor_length
      ≡ some (s, id, ctx')
    → handle_plugin_device f ctx req n m ≡ some (response id ctx')
unfolding handle_plugin_device
handle_lem f ctx req n m r ds out s id ctx' fits l d hn hm c =
    ground (arith, d.0, plugin_with_lem f ctx req r ds out s id ctx' fits l d c)

-- While the context is sound, fewer than 16 devices are plugged in, and both pool allocations
-- succeed, the bytes of a plug-in request with some descriptors, whose fields fit the packed layout
-- and which the framework hands out with a buffer for the response, make the driver answer success
-- with an id that found nothing before, and under which there is now an attached device with the
-- information and exactly the descriptors of the request, nothing configured and its counters 0;
-- all other ids find what they found.
pub plugin_creates :
    (f : Framework) (ctx : DeviceContext) (req n m : ℕ) (r : PluginRequest) (ds out : List ℕ)
    → IsSound ctx
    → ctx.device_count < 16
    → FitsPluginRequest r
    → r.descriptor_length ≡ length ds
    → 0 < length ds
    → Delivers f req (encode_plugin_request r ds) out
    → f.device_allocated ≡ true
    → f.descriptors_allocated ≡ true
    → plugin_request_size ≤ n
    → plugin_response_size ≤ m
    → (slot : ℕ) × (ctx' : DeviceContext) × (handle_plugin_device f ctx req n m
        ≡ some (response (slot + 1) ctx'))
      × (find_device ctx (slot + 1) ≡ none)
      × (find_device ctx' (slot + 1) ≡ some (plugged r.device_info ds slot))
      × ((id : ℕ) → id ≢ slot + 1 → find_device ctx' id ≡ find_device ctx id)
plugin_creates f ctx req n m r ds out v c fits l p d da pa hn hm =
    let (slot, ctx', made) = create-Plugs ctx r.device_info ds (length ds) v c p (omega arith) in
    (
      slot,
      ctx',
      handle_lem f ctx req n m r ds out NtStatus.success (slot + 1) ctx' fits l d hn hm (
          rw (da, pa)
            (subst
              (λ (k : ℕ).
                create_virtual_device true true ctx r.device_info (some ds) k
                ≡ some (NtStatus.success, slot + 1, ctx'))
              (sym l) made.0)),
      made.1,
      made.2 ∙ rw (take_all (length ds) ds (omega arith)) (unfold new_device in refl),
      made.3,
    )

-- With all slots taken no device is created, whichever allocations succeed.
create_refused :
    (a b : Bool) (ctx : DeviceContext) (r : PluginRequest) (ds : List ℕ)
    → IsSound ctx
    → ctx.device_count ≡ 16
    → 0 < r.descriptor_length
    → r.descriptor_length ≤ length ds
    → (s : NtStatus) × (create_virtual_device a b ctx r.device_info (some ds) r.descriptor_length
        ≡ some (s, 0, ctx))
unfolding create_virtual_device copy_descriptors
create_refused false b ctx r ds v c p l = (NtStatus.insufficient_resources, refl)
create_refused true false ctx r ds v c p l = (NtStatus.insufficient_resources, ground arith)
create_refused true true ctx r ds v c p l =
    (NtStatus.too_many_nodes, create_full ctx r.device_info ds r.descriptor_length v c p l)

-- With all 16 slots taken the driver creates no device and keeps its context, but the response
-- still says VUSB_STATUS_SUCCESS, with the device id 0: the status of the creation is overwritten.
pub plugin_misreports :
    (f : Framework) (ctx : DeviceContext) (req n m : ℕ) (r : PluginRequest) (ds out : List ℕ)
    → IsSound ctx
    → ctx.device_count ≡ 16
    → FitsPluginRequest r
    → r.descriptor_length ≡ length ds
    → 0 < length ds
    → Delivers f req (encode_plugin_request r ds) out
    → plugin_request_size ≤ n
    → plugin_response_size ≤ m
    → handle_plugin_device f ctx req n m ≡ some (response 0 ctx)
plugin_misreports f ctx req n m r ds out v c fits l p d hn hm =
    let (s, refused) =
      create_refused f.device_allocated f.descriptors_allocated ctx r ds v c (omega arith)
        (omega arith) in
    handle_lem f ctx req n m r ds out s 0 ctx fits l d hn hm refused

create_total :
    (a b : Bool) (ctx : DeviceContext) (r : PluginRequest) (ds : List ℕ)
    → r.descriptor_length ≤ length ds
    → create_virtual_device a b ctx r.device_info (some ds) r.descriptor_length ≢ none
unfolding create_virtual_device copy_descriptors copy_memory
create_total false b ctx r ds h = λ e. cc
create_total true b ctx r ds h = ground (arith, length-replicate r.descriptor_length (zero))

plugin_with_total :
    (f : Framework) (ctx : DeviceContext) (req : ℕ) (bytes : List ℕ)
    → plugin_request_size ≤ length bytes
    → plugin_with f ctx req bytes ≢ none
unfolding plugin_with respond_plugin
plugin_with_total f ctx req bytes h =
    let (r, tail, q, m) = Reads-plugin_request bytes h in
    rw q (ground (arith, create_total f.device_allocated f.descriptors_allocated ctx r tail))

-- Where the framework behaves as documented, no plug-in request makes the driver leave a buffer,
-- whatever its bytes are and whatever length of descriptors it claims.
pub handle_plugin_device_total :
    (f : Framework) (ctx : DeviceContext) (req n m : ℕ)
    → IsDocumented f req n m
    → handle_plugin_device f ctx req n m ≢ none
unfolding handle_plugin_device
handle_plugin_device_total f ctx req n m doc = go (f.retrieve_input req plugin_request_size) refl
  where
    go :
        (b : Retrieved)
        → f.retrieve_input req plugin_request_size ≡ b
        → handle_plugin_device f ctx req n m ≢ none
    go (Retrieved.refused s) e = ground arith
    go (Retrieved.retrieved b) e =
        ground (arith, plugin_with_total f ctx req b, doc.input_length_lem plugin_request_size b e)
