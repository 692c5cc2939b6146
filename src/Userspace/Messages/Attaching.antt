-- ===== src/Userspace/Messages/Attaching.antt =====
-- userspace/vusb_userspace.c: what an attach message creates (HandleDeviceAttach).
use mathlib.Core.Path.{subst⁻¹}
use usb_over_ip.Common.{
  ℕ, suc, ◌+◌, ◌^◌, ◌≤◌, ◌<◌, ◌≡◌, ◌∙◌, refl, ap, List, [], ◌∷◌, ◌++◌, Bool, true, some, ◌==◌,
  if◌then◌else◌, ◌>>=◌, length, le→ltb, lt→ltb, ==_refl, ==→eq, sym, Bool-cases, inl, inr,
  get_elem?-set_self,
}
use usb_over_ip.Common.Codec.{to_le, uint-to_le}
use usb_over_ip.Protocol.{device_info_size}
use usb_over_ip.Protocol.Status
use usb_over_ip.Protocol.Layout.{decode_device_info-encode_device_info}
use usb_over_ip.Ioctl.{PluginRequest}
use usb_over_ip.Ioctl.Layout.{encode_plugin_request, FitsPluginRequest}
use usb_over_ip.Driver.Table.{join}
use usb_over_ip.Userspace.{UserClient, UserContext, UserDevice}
use usb_over_ip.Userspace.Devices.{create_user_device, get_device, has_free_slot}
use usb_over_ip.Userspace.Devices.Table.{IsSound}
use usb_over_ip.Userspace.Devices.Mapping.{
  create_user_device-get_device, get_device-change_device, change_device-clients, created_device,
}
use usb_over_ip.Userspace.Messages.{
  Incoming, user_client, user_attach, attach_created, attach_response, own_device,
}

user_attach-encode_plugin_request :
    (malloc : ℕ → Bool) (ctx : UserContext) (slot : ℕ) (c : UserClient) (m : Incoming)
    (r : PluginRequest) (tail : List ℕ)
    → m.buffer ≡ encode_plugin_request r tail
    → FitsPluginRequest r
    → device_info_size + 4 ≤ m.payload_length
    → user_attach malloc ctx slot c m ≡ (
        create_user_device
          (malloc r.descriptor_length)
          ctx
          r.device_info
          (some tail)
          r.descriptor_length
        >>= λ p. some (attach_created slot c r.device_info.device_id m.header.sequence p))
unfolding user_attach encode_plugin_request
user_attach-encode_plugin_request malloc ctx slot c m r tail b f l =
    rw
      (
        b,
        le→ltb m.payload_length 212 l,
        decode_device_info-encode_device_info r.device_info (to_le 4 r.descriptor_length ++ tail)
            f.device_info_fits,
        uint-to_le 4 r.descriptor_length tail f.descriptor_length_fits,
      )
      refl

-- What owning a device that is there changes.
owned :
    (ctx : UserContext) (slot id remote : ℕ) (c : UserClient) (d : UserDevice)
    → get_device ctx id ≡ some d
    → length c.device_ids < 16
    → slot < length ctx.clients
    → ((j : ℕ)
        → get_device (own_device ctx slot c id remote) j ≡ (
            if id == j
            then some (record d { owner_client = some slot; remote_device_id = remote })
            else get_device ctx j))
      × (user_client (own_device ctx slot c id remote) slot
          ≡ some (record c { device_ids = c.device_ids ++ (id ∷ []) }))
unfolding own_device get_device
owned ctx slot id remote c d g l s =
    let f : UserDevice → UserDevice =
      λ e. record e { owner_client = some slot; remote_device_id = remote } in
    let found = λ (j : ℕ).
      get_device-change_device f ctx id j
        (record { keeps_active = λ e. refl; keeps_device_id = λ e. refl }) in
    (
      (λ j. elim (Bool-cases (id == j)) [
        | inl q ↦ found j ∙ rw (q, sym (==→eq id j q), g) refl
        | inr q ↦ found j ∙ rw q refl
      ]),
      rw (lt→ltb (length c.device_ids) 16 l, change_device-clients f ctx id)
          (ap join (get_elem?-set_self ctx.clients slot _ s)),
    )

-- An attach message with enough bytes behind it, for which there is a free slot and memory, creates
-- a device under the next id, which the answer has. The device is found by it, with the information
-- and the descriptors of the message, the client as its owner and the client's id for it. The client
-- tracks it behind the devices that it has, less than 16; all other devices are as before.
pub user_attach_creates :
    (malloc : ℕ → Bool) (ctx : UserContext) (slot : ℕ) (c : UserClient) (m : Incoming)
    (r : PluginRequest) (tail : List ℕ)
    → IsSound ctx
    → suc ctx.next_device_id < 2 ^ 32
    → has_free_slot ctx.devices ≡ true
    → m.buffer ≡ encode_plugin_request r tail
    → FitsPluginRequest r
    → device_info_size + 4 ≤ m.payload_length
    → malloc r.descriptor_length ≡ true
    → r.descriptor_length ≤ length tail
    → length c.device_ids < 16
    → slot < length ctx.clients
    → (ctx' : UserContext) × (user_attach malloc ctx slot c m
        ≡ some (ctx', attach_response Status.success (suc ctx.next_device_id) m.header.sequence))
      × ((j : ℕ)
          → get_device ctx' j ≡ (
              if suc ctx.next_device_id == j
              then some
                  (record (created_device r.device_info tail r.descriptor_length
                    (suc ctx.next_device_id)) {
                      owner_client = some slot;
                      remote_device_id = r.device_info.device_id;
                    })
              else get_device ctx j))
      × (user_client ctx' slot
          ≡ some (record c { device_ids = c.device_ids ++ (suc ctx.next_device_id ∷ []) }))
unfolding attach_created
user_attach_creates malloc ctx slot c m r tail s w free b f l a k t n =
    let id = suc ctx.next_device_id in
    let (mid, made, absent, found, sound, clients) =
      create_user_device-get_device ctx r.device_info tail r.descriptor_length s w free k in
    let fresh = created_device r.device_info tail r.descriptor_length id in
    let here : get_device mid id ≡ some fresh = found id ∙ rw (==_refl id) refl in
    let (own, tracked) =
      owned mid slot id r.device_info.device_id c fresh here t
        (subst⁻¹ (λ cs. slot < length cs) clients n) in
    (
      own_device mid slot c id r.device_info.device_id,
      user_attach-encode_plugin_request malloc ctx slot c m r tail b f l ∙ rw (a, made) refl,
      (λ j. elim (Bool-cases (id == j)) [
        | inl q ↦ own j ∙ rw q refl
        | inr q ↦ own j ∙ rw q (found j ∙ rw q refl)
      ]),
      tracked,
    )
