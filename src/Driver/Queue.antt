-- ===== src/Driver/Queue.antt =====
-- driver/vusb_device.c, second half: the queue of pending requests, their completion and cancelling.
pub mod Order
pub mod Completing
use usb_over_ip.Common.{
  ℕ, ◌+◌, ◌^◌, ◌-◌, List, [], ◌∷◌, ◌++◌, Bool, true, false, ◌&&◌, Option, none, some, ◌==◌, ltb,
  leb, if◌then◌else◌, set, is_some, ◌>>=◌, min,
}
use usb_over_ip.Protocol.Direction
use usb_over_ip.Ioctl.{Statistics}
use usb_over_ip.Driver.{NtStatus, nt_success, VirtualDevice, UrbEntry, DeviceContext}
use usb_over_ip.Driver.Table.{inc32, dec32, add64, copy_memory, find_device}

abbrev pub inc64 : ℕ → ℕ
inc64 n = add64 n 1

unfoldable pub queue_urb : DeviceContext → UrbEntry → DeviceContext
queue_urb ctx e = record ctx {
  pending_urb_list = ctx.pending_urb_list ++ e ∷ [];
  pending_urb_count = inc32 ctx.pending_urb_count;
  statistics = record (ctx.statistics) {
    total_urbs_submitted = inc64 ctx.statistics.total_urbs_submitted;
  };
}

abbrev pub with_urbs : DeviceContext → List UrbEntry → DeviceContext
with_urbs ctx urbs = record ctx {
  pending_urb_list = urbs;
  pending_urb_count = dec32 ctx.pending_urb_count;
}

unfoldable pub dequeue_urb : DeviceContext → Option UrbEntry × DeviceContext
dequeue_urb ctx = elim ctx.pending_urb_list [
  | [] ↦ (none, ctx)
  | e ∷ rest ↦ (some e, with_urbs ctx rest)
]

-- The first entry with the id, and the list without it.
unfoldable pub take_urb : ℕ → List UrbEntry → Option (UrbEntry × List UrbEntry)
take_urb id [] = none
take_urb id (e ∷ es) =
    let rest = take_urb id es in
    if e.urb_id == id
    then some (e, es)
    else rest >>= λ (p : UrbEntry × List UrbEntry). some (p.0, e ∷ p.1)

unfoldable pub find_urb : DeviceContext → ℕ → Option UrbEntry × DeviceContext
find_urb ctx id = elim (take_urb id ctx.pending_urb_list) [
  | none ↦ (none, ctx)
  | some (e, rest) ↦ (some e, with_urbs ctx rest)
]

-- What a completion does outside the context: it ends the request of the caller, and frees pool.
pub data Effect : Type 0 where
  complete_request : ℕ → NtStatus → ℕ → Effect
  free_buffer free_entry : Effect

pub record Completion : Type 0 where
  pub buffer : Option (List ℕ)
  pub effects : List Effect

unfoldable pub count_completion : Statistics → NtStatus → ℕ → ℕ → Statistics
count_completion s status direction actual =
    if nt_success status
    then (if direction == Direction.inward
        then record s {
          total_urbs_completed = inc64 s.total_urbs_completed;
          total_bytes_in = add64 s.total_bytes_in actual;
        }
        else record s {
          total_urbs_completed = inc64 s.total_urbs_completed;
          total_bytes_out = add64 s.total_bytes_out actual;
        })
    else record s { total_errors = inc64 s.total_errors }

unfoldable pub count_on_device : VirtualDevice → NtStatus → ℕ → ℕ → VirtualDevice
count_on_device d status direction actual =
    if nt_success status
    then (if direction == Direction.inward
        then record d {
          urbs_completed = inc32 d.urbs_completed;
          bytes_in = add64 d.bytes_in actual;
        }
        else record d {
          urbs_completed = inc32 d.urbs_completed;
          bytes_out = add64 d.bytes_out actual;
        })
    else record d { urbs_error = inc32 d.urbs_error }

-- A write through the pointer that the table holds.
unfoldable pub update_device : DeviceContext → ℕ → (VirtualDevice → VirtualDevice) → DeviceContext
update_device ctx id f = elim (find_device ctx id) [
  | none ↦ ctx
  | some d ↦ record ctx { devices = set ctx.devices (id - 1) (some (f d)) }
]

unfoldable pub copy_in : Option (List ℕ) → Option (List ℕ) → ℕ → ℕ → Option (Option (List ℕ))
unfolding copy_memory
copy_in none buffer len actual = some buffer
copy_in (some src) none len actual = some none
copy_in (some src) (some dst) len actual =
    if ltb 0 actual
    then (copy_memory dst src (min actual len) >>= λ (b : List ℕ). some (some b))
    else some (some dst)

abbrev pub ending : UrbEntry → NtStatus → ℕ → List Effect
ending e status actual = elim e.request [
  | none ↦ []
  | some r ↦ Effect.complete_request r status actual ∷ []
]

abbrev pub freeing : UrbEntry → List Effect
freeing e =
    if is_some e.transfer_buffer && e.direction == Direction.out
    then Effect.free_buffer ∷ Effect.free_entry ∷ []
    else Effect.free_entry ∷ []

unfoldable pub complete_urb :
    DeviceContext → UrbEntry → NtStatus → ℕ → Option (List ℕ) → Option (DeviceContext × Completion)
complete_urb ctx e status actual src = do
  let counted : DeviceContext = record ctx {
    statistics = count_completion ctx.statistics status e.direction actual;
  }
  buffer ← copy_in src e.transfer_buffer e.transfer_buffer_length actual
  some (
    update_device counted e.device_id (λ d. count_on_device d status e.direction actual),
    record { buffer = buffer; effects = ending e status actual ++ freeing e },
  )

-- The end of a cancel call on what the search gave; no completion means that nothing was found.
unfoldable pub cancel_found :
    Option UrbEntry → DeviceContext → Option (DeviceContext × Option Completion)
cancel_found none ctx = some (ctx, none)
cancel_found (some e) ctx =
    complete_urb
      (record ctx {
        statistics = record (ctx.statistics) {
          total_urbs_canceled = inc64 ctx.statistics.total_urbs_canceled;
        };
      })
      e NtStatus.cancelled 0 none
    >>= λ (p : DeviceContext × Completion). some (p.0, some p.1)

unfoldable pub cancel_urb : DeviceContext → ℕ → Option (DeviceContext × Option Completion)
cancel_urb ctx id = cancel_found (find_urb ctx id).0 (find_urb ctx id).1
