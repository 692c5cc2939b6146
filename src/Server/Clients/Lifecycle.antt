-- ===== src/Server/Clients/Lifecycle.antt =====
-- A connection from its acceptance to its end.
use usb_over_ip.Common.{
  ℕ, ◌<◌, ◌≡◌, ◌≢◌, none, some, true, Option-cases, inl, inr, length, set-set, set_same,
  get_elem?-set_self, get_elem?-lt, arith,
}
use usb_over_ip.Driver.Table.{inc32, free_slot}
use usb_over_ip.Driver.Table.Slots.{free_slot-get_elem?, count_some, free_slot_full}
use usb_over_ip.Server.{ServerContext, Platform}
use usb_over_ip.Server.Clients.{new_client, accept_client, unplug_all, disconnect_client}

-- A connection that is accepted and ends before it attached a device leaves the server as it was,
-- except for the counter of sessions.
pub disconnect-accept :
    {D : Type 0} (sys : Platform D) (ctx ctx' : ServerContext D) (socket slot : ℕ)
    → accept_client true ctx socket ≡ (some slot, ctx')
    → disconnect_client sys ctx' slot ≡ record ctx { next_session_id = inc32 ctx.next_session_id }
unfolding accept_client disconnect_client unplug_all
disconnect-accept sys ctx ctx' socket slot h = elim (Option-cases (free_slot ctx.clients)) [
  | inl q ↦ absurd (ground arith)
  | inr (i, q) ↦ ground (
    arith,
    free_slot-get_elem? ctx.clients i q,
    get_elem?-set_self ctx.clients i (some (new_client socket (inc32 ctx.next_session_id)))
        (get_elem?-lt ctx.clients i (free_slot-get_elem? ctx.clients i q)),
    set-set ctx.clients i (some (new_client socket (inc32 ctx.next_session_id))) none,
    set_same ctx.clients i none (free_slot-get_elem? ctx.clients i q),
  )
]

-- With memory at hand, a connection is refused exactly if all slots are taken.
pub accept_client_refuses :
    {D : Type 0} (ctx : ServerContext D) (socket : ℕ)
    → ((accept_client true ctx socket).0 ≡ none → count_some ctx.clients ≡ length ctx.clients)
      × (count_some ctx.clients < length ctx.clients → (accept_client true ctx socket).0 ≢ none)
unfolding accept_client
accept_client_refuses ctx socket = elim (Option-cases (free_slot ctx.clients)) [
  | inl q ↦
      (λ h. free_slot_full ctx.clients q, λ h. absurd (omega (arith, free_slot_full ctx.clients q)))
  | inr (i, q) ↦ (λ h. absurd (ground arith), λ h. rw (q, accept_client) (λ e. cc))
]
