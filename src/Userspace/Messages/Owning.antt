-- ===== src/Userspace/Messages/Owning.antt =====
-- userspace/vusb_userspace.c: what the messages of one client leave of the devices of others.
use usb_over_ip.Common.{
  ℕ, suc, ◌+◌, ◌^◌, ◌<◌, ◌≡◌, ◌≢◌, refl, ap, ◌∙◌, List, Bool, true, false, Option, none, some, ◌==◌,
  if◌then◌else◌, ◌>>=◌, arith, Bool-cases, inl, inr, ==→eq, ltb,
}
use usb_over_ip.Common.Codec.{uint}
use mathlib.Core.Path.{subst}
use usb_over_ip.Protocol.Command
use usb_over_ip.Protocol.{DeviceInfo, device_info_size}
use usb_over_ip.Protocol.Layout.{decode_device_info}
use usb_over_ip.Driver.Table.{inc32}
use usb_over_ip.Userspace.{UserDevice, UserClient, UserContext}
use usb_over_ip.Userspace.Devices.{
  get_device, destroy_user_device, change_device, with_devices, change_first, fill_slot, created,
  create_free, has_free_slot, create_user_device, fresh_device, kept_descriptors,
}
use usb_over_ip.Userspace.Devices.Table.{
  IsSound, KeepsId, first_device_above, first_device-fill_slot, fill_slot-HasDistinctIds,
  first_device-change_first, change_first-KeepsId,
}
use usb_over_ip.Userspace.Devices.Mapping.{destroy_user_device-get_device}
use usb_over_ip.Userspace.Messages.{
  Incoming, with_client, process_user_message, user_detach, owned_by, own_device, attach_created,
  user_connect, user_attach, introduce,
}

-- A step keeps the server sound and, of the devices that the client in the slot does not own, what
-- is found.
pub record Spares (slot : ℕ) (ctx ctx' : UserContext) : Type 0 where
  pub stays_sound : IsSound ctx'
  pub spares :
      (j : ℕ) (d : UserDevice)
      → get_device ctx j ≡ some d
      → owned_by slot (some d) ≡ false
      → get_device ctx' j ≡ some d

same_devices :
    (slot : ℕ) (ctx ctx' : UserContext)
    → IsSound ctx
    → ctx'.devices ≡ ctx.devices
    → ctx'.next_device_id ≡ ctx.next_device_id
    → Spares slot ctx ctx'
unfolding get_device
same_devices slot ctx ctx' s p q = record { stays_sound = rw (p, q) s; spares = λ j d g o. rw p g }

-- A detach message of a client takes the device away if the client owns it, and changes no device
-- that the client does not own.
destroy_user_device-Spares :
    (ctx : UserContext) (slot id : ℕ) (c : UserClient)
    → IsSound ctx
    → owned_by slot (get_device ctx id) ≡ true
    → Spares slot ctx (with_client (destroy_user_device ctx id).1 slot c)
unfolding destroy_user_device get_device
destroy_user_device-Spares ctx slot id c s o =
    let (p, q, r) = destroy_user_device-get_device ctx id s in
    record {
      stays_sound = r;
      spares = λ j d g n. elim (Bool-cases (id == j)) [
        | inl e ↦ absurd (ground (arith, o, n, g, ap (λ i. get_device ctx i) (==→eq id j e)))
        | inr e ↦ q j ∙ rw e g
      ];
    }

-- What an attach message adds to the devices, from the change of the new device.
fill_slot-Spares :
    (ctx : UserContext) (n : UserDevice) (es : List UserDevice) (slot : ℕ) (c : UserClient)
    (f : UserDevice → UserDevice) (o : Option (List UserDevice))
    → IsSound ctx
    → n.active ≡ true
    → ctx.next_device_id < n.device_id
    → fill_slot n ctx.devices ≡ some es
    → KeepsId f
    → change_first f n.device_id es ≡ o
    → Spares slot ctx (
        with_client
          (with_devices (record ctx { devices = es; next_device_id = n.device_id }) o).1
          slot
          c)
unfolding get_device with_devices
fill_slot-Spares ctx n es slot c f none s a l q k p =
    let absent = first_device_above ctx.next_device_id ctx.devices n.device_id s l in
    record {
      stays_sound = fill_slot-HasDistinctIds ctx.next_device_id n ctx.devices es s l a q;
      spares = λ j d g o.
          ground (arith, first_device-fill_slot n ctx.devices es j q a absent, g, absent);
    }
fill_slot-Spares ctx n es slot c f (some fs) s a l q k p =
    let absent = first_device_above ctx.next_device_id ctx.devices n.device_id s l in
    let sound = fill_slot-HasDistinctIds ctx.next_device_id n ctx.devices es s l a q in
    record {
      stays_sound = change_first-KeepsId f n.device_id n.device_id es fs k sound p;
      spares = λ j d g o. ground (
        arith,
        first_device-fill_slot n ctx.devices es j q a absent,
        g,
        absent,
        first_device-change_first f n.device_id es fs j k p,
      );
    }

-- An attach message, whatever comes of it.
attach_created-Spares :
    (ctx : UserContext) (n : UserDevice) (slot remote sequence : ℕ) (c : UserClient)
    (o : Option (List UserDevice))
    → IsSound ctx
    → n.active ≡ true
    → ctx.next_device_id < n.device_id
    → fill_slot n ctx.devices ≡ o
    → Spares slot ctx (attach_created slot c remote sequence (created ctx n.device_id o)).0
unfolding attach_created created own_device change_device
attach_created-Spares ctx n slot remote sequence c none s a l q =
    same_devices slot ctx ctx s refl refl
attach_created-Spares ctx n slot remote sequence c (some es) s a l q =
    fill_slot-Spares ctx n es slot _ _ _ s a l q
      (record { keeps_active = λ d. refl; keeps_device_id = λ d. refl }) refl

-- The context that a handler returns, if it returns one, is a spared one.
Results : ℕ → UserContext → Option (UserContext × List (List ℕ)) → Type 0
Results slot ctx none = Unit
Results slot ctx (some p) = Spares slot ctx p.0

Results-some :
    (slot : ℕ) (ctx ctx' : UserContext) (answers : List (List ℕ))
    → Spares slot ctx ctx'
    → Results slot ctx (some (ctx', answers))
unfolding Results
Results-some slot ctx ctx' answers h = h

Results->>= :
    {A : Type 0} (slot : ℕ) (ctx : UserContext) (o : Option A)
    (f : A → Option (UserContext × List (List ℕ)))
    → ((a : A) → o ≡ some a → Results slot ctx (f a))
    → Results slot ctx (o >>= f)
unfolding Results
Results->>= slot ctx none f h = tt
Results->>= slot ctx (some a) f h = h a refl

Results-if :
    (slot : ℕ) (ctx : UserContext) (b : Bool) (x y : Option (UserContext × List (List ℕ)))
    → (b ≡ true → Results slot ctx x)
    → (b ≡ false → Results slot ctx y)
    → Results slot ctx (if b then x else y)
Results-if slot ctx true x y h k = h refl
Results-if slot ctx false x y h k = k refl

user_connect-Results :
    (ctx : UserContext) (slot : ℕ) (c : UserClient) (m : Incoming)
    → IsSound ctx
    → Results slot ctx (user_connect ctx slot c m)
unfolding user_connect Results
user_connect-Results ctx slot c m s =
    Results->>= slot ctx (introduce c m) _ λ n e. same_devices slot ctx _ s refl refl

user_detach-Results :
    (ctx : UserContext) (slot : ℕ) (c : UserClient) (m : Incoming)
    → IsSound ctx
    → Results slot ctx (user_detach ctx slot c m)
unfolding user_detach Results
user_detach-Results ctx slot c m s = Results->>= slot ctx (uint 4 m.buffer) _ λ (id, rest) e.
    elim (Bool-cases (owned_by slot (get_device ctx id))) [
      | inl q ↦ rw q (destroy_user_device-Spares ctx slot id _ s q)
      | inr q ↦ rw q (same_devices slot ctx ctx s refl refl)
    ]

kept_Results :
    (ctx : UserContext) (slot : ℕ) (c : UserClient) (info : DeviceInfo) (sequence : ℕ)
    (k : Option (Option (List ℕ) × ℕ))
    → IsSound ctx
    → suc ctx.next_device_id < 2 ^ 32
    → Results slot ctx (
        k
        >>= (λ (kept : Option (List ℕ) × ℕ). some (
            created ctx
              (inc32 ctx.next_device_id)
              (fill_slot (fresh_device info kept (inc32 ctx.next_device_id)) ctx.devices)))
        >>= λ (r : Bool × ℕ × UserContext). some (attach_created slot c info.device_id sequence r))
unfolding Results fresh_device
kept_Results ctx slot c info sequence none s w = tt
kept_Results ctx slot c info sequence (some kept) s w =
    attach_created-Spares ctx (fresh_device info kept (inc32 ctx.next_device_id)) slot
      info.device_id sequence c _ s refl (omega arith) refl

created_Results :
    (malloc : ℕ → Bool) (ctx : UserContext) (slot : ℕ) (c : UserClient) (m : Incoming)
    (info : DeviceInfo) (tail : List ℕ) (len : ℕ) (free : Bool)
    → IsSound ctx
    → suc ctx.next_device_id < 2 ^ 32
    → Results slot ctx (
        create_free (malloc len) ctx info (some tail) len (inc32 ctx.next_device_id) free
        >>= λ (r : Bool × ℕ × UserContext).
            some (attach_created slot c info.device_id m.header.sequence r))
unfolding create_free attach_created Results
created_Results malloc ctx slot c m info tail len false s w = same_devices slot ctx ctx s refl refl
created_Results malloc ctx slot c m info tail len true s w =
    kept_Results ctx slot c info m.header.sequence (kept_descriptors (malloc len) (some tail) len) s
      w

user_attach-Results :
    (malloc : ℕ → Bool) (ctx : UserContext) (slot : ℕ) (c : UserClient) (m : Incoming)
    → IsSound ctx
    → suc ctx.next_device_id < 2 ^ 32
    → Results slot ctx (user_attach malloc ctx slot c m)
unfolding user_attach create_user_device
user_attach-Results malloc ctx slot c m s w =
    Results-if slot ctx (ltb m.payload_length (device_info_size + 4)) _ _
      (λ q. Results-some slot ctx ctx _ (same_devices slot ctx ctx s refl refl))
      λ q. Results->>= slot ctx (decode_device_info m.buffer) _ λ (info, b) e.
        Results->>= slot ctx (uint 4 b) _ λ (len, tail) e'.
          created_Results malloc ctx slot c m info tail len (has_free_slot ctx.devices) s w

spared :
    (slot : ℕ) (ctx ctx' : UserContext) (answers : List (List ℕ))
    → Results slot ctx (some (ctx', answers))
    → Spares slot ctx ctx'
unfolding Results
spared slot ctx ctx' answers h = h

message-Spares :
    (malloc : ℕ → Bool) (ctx ctx' : UserContext) (slot : ℕ) (c : UserClient) (m : Incoming)
    (answers : List (List ℕ))
    → IsSound ctx
    → suc ctx.next_device_id < 2 ^ 32
    → m.header.command ≢ Command.urb_complete
    → process_user_message malloc ctx slot c m ≡ some (ctx', answers)
    → Spares slot ctx ctx'
unfolding process_user_message
message-Spares malloc ctx ctx' slot c m answers s w n e = spared slot ctx ctx' answers (
    subst (Results slot ctx) e (
      let k = m.header.command in
      Results-if slot ctx (k == Command.connect) _ _ (λ q. user_connect-Results ctx slot c m s)
        λ q.
          Results-if slot ctx (k == Command.disconnect) _ _
            (λ q. Results-some slot ctx _ _ (same_devices slot ctx _ s refl refl))
            λ q.
              Results-if slot ctx (k == Command.ping) _ _
                (λ q. Results-some slot ctx ctx _ (same_devices slot ctx ctx s refl refl))
                λ q.
                  Results-if slot ctx (k == Command.device_attach) _ _
                    (λ q. user_attach-Results malloc ctx slot c m s w)
                    λ q.
                      Results-if slot ctx (k == Command.device_detach) _ _
                        (λ q. user_detach-Results ctx slot c m s)
                        λ q.
                          Results-if slot ctx (k == Command.urb_complete) _ _
                            (λ q. absurd (n (==→eq m.header.command Command.urb_complete q)))
                            λ q.
                              Results-if slot ctx (k == Command.device_list) _ _
                                (λ q.
                                  Results-some slot ctx ctx _
                                    (same_devices slot ctx ctx s refl refl))
                                λ q.
                                  Results-some slot ctx ctx _
                                    (same_devices slot ctx ctx s refl refl)))

-- A message of a client other than a completion, if its handler returns, keeps the ids of the devices
-- distinct and changes no device that the client does not own: each is found as before. The counter
-- of ids is below its width.
pub process_user_message_spares :
    (malloc : ℕ → Bool) (ctx ctx' : UserContext) (slot : ℕ) (c : UserClient) (m : Incoming)
    (answers : List (List ℕ)) (j : ℕ) (d : UserDevice)
    → IsSound ctx
    → suc ctx.next_device_id < 2 ^ 32
    → m.header.command ≢ Command.urb_complete
    → process_user_message malloc ctx slot c m ≡ some (ctx', answers)
    → get_device ctx j ≡ some d
    → owned_by slot (some d) ≡ false
    → IsSound ctx' × (get_device ctx' j ≡ some d)
process_user_message_spares malloc ctx ctx' slot c m answers j d s w n e g o =
    let step = message-Spares malloc ctx ctx' slot c m answers s w n e in
    (step.stays_sound, step.spares j d g o)
