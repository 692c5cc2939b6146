-- ===== src/Driver/Queue/Completing.antt =====
-- What completing and cancelling a request do: data, counters, effects.
use usb_over_ip.Common.{
  ℕ, ◌-◌, ◌≤◌, ◌<◌, ◌≡◌, ◌≢◌, refl, ap, ◌∙◌, List, ◌++◌, Option, none, some, min, length, arith,
  Option-cases, inl, inr, if◌then◌else◌, Bool-cases, get_elem?, length-set, ◌⊎◌, take, drop, le→leb,
  All,
}
use usb_over_ip.Ioctl.{Statistics}
use usb_over_ip.Driver.{NtStatus, nt_success, VirtualDevice, UrbEntry, DeviceContext}
use usb_over_ip.Driver.Table.{find_device, copy_memory, bad_id}
use usb_over_ip.Driver.Table.Slots.{count_some-set_same, IsNumbered-set, IsNumbered-get_elem?}
use usb_over_ip.Driver.Table.Invariant.{IsSound, statistics-IsSound}
use usb_over_ip.Driver.Queue.{
  Completion, count_completion, count_on_device, update_device, copy_in, ending, freeing,
  complete_urb, cancel_urb, cancel_found, with_urbs, inc64,
}
use usb_over_ip.Driver.Queue.Order.{Takes, find_urb-Takes}

pub find_device-get_elem? :
    (ctx : DeviceContext) (id : ℕ) (d : VirtualDevice)
    → find_device ctx id ≡ some d
    → (get_elem? ctx.devices (id - 1) ≡ some (some d)) × (0 < id)
unfolding find_device
find_device-get_elem? ctx id d e = elim (Bool-cases (bad_id id)) [
  | inl b ↦ absurd (ground arith)
  | inr b ↦ elim (Option-cases (get_elem? ctx.devices (id - 1))) [
    | inl q ↦ absurd (ground arith)
    | inr (o, q) ↦ (ground arith, ground arith)
  ]
]

pub update_device-IsSound :
    (ctx : DeviceContext) (id : ℕ) (f : VirtualDevice → VirtualDevice)
    → ((d : VirtualDevice) → (f d).device_id ≡ d.device_id)
    → ((d : VirtualDevice) → (f d).port_number ≡ d.port_number)
    → IsSound ctx
    → IsSound (update_device ctx id f)
unfolding update_device
update_device-IsSound ctx id f hid hport v = elim (Option-cases (find_device ctx id)) [
  | inl e ↦ rw (e, update_device) v
  | inr (d, e) ↦
      let (g, p) = find_device-get_elem? ctx id d e in
      rw (e, update_device)
        (ground (
          arith,
          hid d,
          hport d,
          length-set ctx.devices (id - 1) (some (f d)),
          count_some-set_same ctx.devices (id - 1) (f d) g,
          IsNumbered-get_elem? ctx.devices (id - 1) 0 id d (omega arith) v.numbered g,
          IsNumbered-set ctx.devices (id - 1) 0 id (some (f d)),
        ))
]

same_id :
    (d : VirtualDevice) (s : NtStatus) (dir n : ℕ)
    → (count_on_device d s dir n).device_id ≡ d.device_id
unfolding count_on_device
same_id d s dir n = ground arith

same_port :
    (d : VirtualDevice) (s : NtStatus) (dir n : ℕ)
    → (count_on_device d s dir n).port_number ≡ d.port_number
unfolding count_on_device
same_port d s dir n = ground arith

pub complete_urb-IsSound :
    (ctx : DeviceContext) (e : UrbEntry) (s : NtStatus) (actual : ℕ) (src : Option (List ℕ))
    {ctx' : DeviceContext} {c : Completion}
    → IsSound ctx
    → complete_urb ctx e s actual src ≡ some (ctx', c)
    → IsSound ctx'
unfolding complete_urb
complete_urb-IsSound ctx e s actual src v h =
    elim (Option-cases (copy_in src e.transfer_buffer e.transfer_buffer_length actual)) [
      | inl q ↦ absurd (ground arith)
      | inr (b, q) ↦ ground (arith, sound)
    ]
  where
    counted : DeviceContext
    counted = record ctx { statistics = count_completion ctx.statistics s e.direction actual }

    sound :
        IsSound (update_device counted e.device_id (λ d. count_on_device d s e.direction actual))
    sound =
        update_device-IsSound counted e.device_id _ (λ d. same_id d s e.direction actual)
          (λ d. same_port d s e.direction actual) (statistics-IsSound ctx _ v)

pub copy_memory_lem :
    (dst src : List ℕ) (n : ℕ)
    → n ≤ length dst
    → n ≤ length src
    → copy_memory dst src n ≡ some (take n src ++ drop n dst)
unfolding copy_memory
copy_memory_lem dst src n h k = rw (le→leb n (length dst) h, le→leb n (length src) k)

copy_in_lem :
    (src dst : List ℕ) (len actual : ℕ)
    → 0 < actual
    → len ≤ length dst
    → actual ≤ length src
    → copy_in (some src) (some dst) len actual
      ≡ some (some (take (min actual len) src ++ drop (min actual len) dst))
unfolding copy_in
copy_in_lem src dst len actual p h k =
    ground (arith, copy_memory_lem dst src (min actual len) (omega arith) (omega arith))

update_device_frame :
    (ctx : DeviceContext) (id : ℕ) (f : VirtualDevice → VirtualDevice)
    → ((update_device ctx id f).pending_urb_list ≡ ctx.pending_urb_list)
      × ((update_device ctx id f).device_count ≡ ctx.device_count)
      × ((update_device ctx id f).statistics ≡ ctx.statistics)
      × ((update_device ctx id f).parked ≡ ctx.parked)
unfolding update_device
update_device_frame ctx id f = ground arith

abbrev pub copied_over : List ℕ → List ℕ → ℕ → List ℕ
copied_over src dst n = take n src ++ drop n dst

-- For an entry whose transfer buffer holds at least `transfer_buffer_length` bytes, completing with
-- at least the announced bytes of data never reads or writes outside a buffer. The buffer gets the
-- first min(actual, transfer_buffer_length) bytes and keeps the others; the caller's request ends
-- with the given status and the announced length; exactly one of the counters of completed requests
-- and of errors grows, by the status; the queue and the count of devices stay.
pub complete_urb_copies :
    (ctx : DeviceContext) (e : UrbEntry) (s : NtStatus) (actual : ℕ) (src dst : List ℕ)
    → e.transfer_buffer ≡ some dst
    → e.transfer_buffer_length ≤ length dst
    → 0 < actual
    → actual ≤ length src
    → (ctx' : DeviceContext) × (complete_urb ctx e s actual (some src)
        ≡ some (
          ctx',
          record {
            buffer = some (copied_over src dst (min actual e.transfer_buffer_length));
            effects = ending e s actual ++ freeing e;
          },
        ))
      × (ctx'.pending_urb_list ≡ ctx.pending_urb_list)
      × (ctx'.device_count ≡ ctx.device_count)
      × (ctx'.statistics.total_urbs_completed ≡ (
          if nt_success s
          then inc64 ctx.statistics.total_urbs_completed
          else ctx.statistics.total_urbs_completed))
      × (ctx'.statistics.total_errors ≡ (
          if nt_success s then ctx.statistics.total_errors else inc64 ctx.statistics.total_errors))
unfolding complete_urb
complete_urb_copies ctx e s actual src dst b h p k =
    let counted : DeviceContext = record ctx {
      statistics = count_completion ctx.statistics s e.direction actual;
    } in
    let f : VirtualDevice → VirtualDevice = λ d. count_on_device d s e.direction actual in
    let frame = update_device_frame counted e.device_id f in
    (
      update_device counted e.device_id f,
      rw (b, copy_in_lem src dst e.transfer_buffer_length actual p h k),
      frame.0,
      frame.1,
      ap (λ (t : Statistics). t.total_urbs_completed) frame.2
          ∙ (unfold count_completion in (ground arith)),
      ap (λ (t : Statistics). t.total_errors) frame.2 ∙ (unfold count_completion in (ground arith)),
    )

-- Cancelling an id takes out the first pending entry with it and completes that entry as cancelled
-- with no bytes, its buffer untouched; it counts one cancelled request and one error, no completed
-- one. With no such entry the context stays and nothing happens. It never faults.
pub cancel_urb-Takes :
    (ctx : DeviceContext) (id : ℕ)
    → ((cancel_urb ctx id ≡ some (ctx, none))
        × All (λ (e : UrbEntry). e.urb_id ≢ id) ctx.pending_urb_list)
      ⊎ ((e : UrbEntry) × (rest : List UrbEntry) × (ctx' : DeviceContext) × Takes id
            ctx.pending_urb_list e rest
          × (cancel_urb ctx id
              ≡ some (
                ctx',
                some (record {
                  buffer = e.transfer_buffer;
                  effects = ending e NtStatus.cancelled 0 ++ freeing e;
                }),
              ))
          × (ctx'.pending_urb_list ≡ rest)
          × (ctx'.statistics ≡ record (ctx.statistics) {
            total_urbs_canceled = inc64 ctx.statistics.total_urbs_canceled;
            total_errors = inc64 ctx.statistics.total_errors;
          }))
unfolding cancel_urb
cancel_urb-Takes ctx id = elim (find_urb-Takes ctx id) [
  | inl (q, w) ↦ inl (rw q (unfold cancel_found in refl), w)
  | inr (e, rest, q, t) ↦
      let mid : DeviceContext = record (with_urbs ctx rest) {
        statistics = record (ctx.statistics) {
          total_urbs_canceled = inc64 ctx.statistics.total_urbs_canceled;
          total_errors = inc64 ctx.statistics.total_errors;
        };
      } in
      let f : VirtualDevice → VirtualDevice =
        λ d. count_on_device d NtStatus.cancelled e.direction 0 in
      let frame = update_device_frame mid e.device_id f in
      inr (
        e,
        rest,
        update_device mid e.device_id f,
        t,
        rw q (unfold cancel_found complete_urb copy_in count_completion nt_success in refl),
        frame.0,
        frame.2,
      )
]
