-- ===== src/Userspace/Messages/Ending.antt =====
-- userspace/vusb_userspace.c: the end of a client's thread, and the acceptance of a connection.
use usb_over_ip.Common.{
  ℕ, ◌≡◌, ◌<◌, refl, sym, ap, List, [], ◌∷◌, Bool, true, false, ◌&&◌, ◌||◌, Option, none, some,
  ◌==◌, if◌then◌else◌, arith, get_elem?, length, set-set, set_same, get_elem?-set_self,
  get_elem?-set_ne, ==→eq, Option-cases, Bool-cases, inl, inr, get_elem?-lt,
}
use usb_over_ip.Driver.Table.{join, free_slot, inc32}
use usb_over_ip.Driver.Table.Slots.{free_slot-get_elem?}
use usb_over_ip.Userspace.{UserDevice, UserClient, UserContext}
use usb_over_ip.Userspace.Devices.{get_device, first_device}
use usb_over_ip.Userspace.Messages.{user_client}
use usb_over_ip.Userspace.Messages.Session.{
  clean_id, clean_ids, end_client, accept_user, admit_client, new_user_client,
}

unfoldable pub member : ℕ → List ℕ → Bool
member id [] = false
member id (x ∷ xs) = x == id || member id xs

first_device-clean_id :
    (id : ℕ) (ds : List UserDevice) (j : ℕ)
    → first_device j (clean_id id ds) ≡ (if id == j then none else first_device j ds)
unfolding first_device clean_id
first_device-clean_id id [] j = ground arith
first_device-clean_id id (d ∷ ds) j = elim (Bool-cases (d.active && d.device_id == id)) [
  | inl q ↦ ground (arith, q, first_device-clean_id id ds j)
  | inr q ↦ ground (arith, q, first_device-clean_id id ds j)
]

first_device-clean_ids :
    (ids : List ℕ) (ds : List UserDevice) (j : ℕ)
    → first_device j (clean_ids ids ds) ≡ (if member j ids then none else first_device j ds)
unfolding clean_ids member
first_device-clean_ids [] ds j = refl
first_device-clean_ids (id ∷ ids) ds j =
    ground (arith, first_device-clean_ids ids (clean_id id ds) j, first_device-clean_id id ds j)

slot_exists :
    (cs : List (Option UserClient)) (slot : ℕ) {c : UserClient}
    → join (get_elem? cs slot) ≡ some c
    → slot < length cs
slot_exists cs slot e = elim (Option-cases (get_elem? cs slot)) [
  | inl q ↦ absurd (ground (arith, e, q))
  | inr (o, q) ↦ get_elem?-lt cs slot q
]

-- When the thread of a client ends, its slot is free, and the other clients stay. The devices that
-- the client tracks are found no more, and all others are found as before.
pub end_client-get_device :
    (ctx : UserContext) (slot : ℕ) (c : UserClient)
    → user_client ctx slot ≡ some c
    → ((k : ℕ)
        → user_client (end_client ctx slot) k ≡ (if slot == k then none else user_client ctx k))
      × ((j : ℕ)
          → get_device (end_client ctx slot) j
            ≡ (if member j c.device_ids then none else get_device ctx j))
unfolding end_client get_device
end_client-get_device ctx slot c e =
    let there : slot < length ctx.clients = slot_exists ctx.clients slot e in
    (
      (λ k. elim (Bool-cases (slot == k)) [
        | inl q ↦
            rw (e, q, end_client, sym (==→eq slot k q))
              (ap join (get_elem?-set_self ctx.clients slot none there))
        | inr q ↦
            rw (e, q, end_client)
              (ap join (get_elem?-set_ne ctx.clients slot k none (λ p. ground (arith, p, q))))
      ]),
      (λ j. rw (e, end_client) (first_device-clean_ids c.device_ids ctx.devices j)),
    )

-- A connection that is refused leaves the clients and their count as they were, for whichever reason
-- it is refused.
pub accept_user_refuses :
    (allocated started : Bool) (ctx ctx' : UserContext)
    → accept_user allocated started ctx ≡ (none, ctx')
    → (ctx'.clients ≡ ctx.clients) × (ctx'.client_count ≡ ctx.client_count)
unfolding accept_user admit_client
accept_user_refuses false started ctx ctx' e = ground arith
accept_user_refuses true started ctx ctx' e = elim (Option-cases (free_slot ctx.clients)) [
  | inl q ↦ ground (arith, q)
  | inr (i, q) ↦ ground (
    arith,
    q,
    set-set ctx.clients i (some (new_user_client (inc32 ctx.next_session_id))) none,
    set_same ctx.clients i none,
    free_slot-get_elem? ctx.clients i q,
  )
]
