-- ===== src/Client/Urbs/Completions.antt =====
-- client/vusb_client_urb.c: the completion of each transfer.
use usb_over_ip.Common.{
  ℕ, ◌≡◌, ◌≢◌, refl, List, Bool, true, false, ◌||◌, Option, none, some, ◌==◌, if◌then◌else◌, ◌>>=◌,
  arith,
}
use mathlib.Core.Path.{subst}
use mathlib.Core.Option.{some-injective}
use usb_over_ip.Protocol.{UrbSubmit}
use usb_over_ip.Protocol.Status
use usb_over_ip.Protocol.Direction
use usb_over_ip.Client.Capture.{WinUsb, CapturedDevice, Transferred, find_captured, put_captured}
use usb_over_ip.Client.Urbs.{
  Processed, process_urb, process_found, process_device, process_opened, transfer, completion_of,
  response_length, failed,
}

-- What a completion says of a request.
pub record Answers (u : UrbSubmit) (p : Processed) : Type 0 where
  pub same_device : p.completion.device_id ≡ u.device_id
  pub same_urb : p.completion.urb_id ≡ u.urb_id
  pub same_result : (p.completion.status == Status.success) ≡ p.succeeded
  pub nothing_out : (u.direction == Direction.inward || p.completion.actual_length == 0) ≡ true

-- What is processed, if anything is, answers the request.
unfoldable pub Answered : UrbSubmit → Option Processed → Type 0
Answered u none = Unit
Answered u (some p) = Answers u p

-- A completion without data, of a failure.
failed-Answers :
    (ds : List CapturedDevice) (u : UrbSubmit) (status : ℕ)
    → status ≢ Status.success
    → Answers u (record { succeeded = false; devices = ds; completion = failed u status })
failed-Answers ds u status n = record {
  same_device = refl;
  same_urb = refl;
  same_result = ground (arith, n);
  nothing_out = ground arith;
}

completion_of-Answers :
    (ds : List CapturedDevice) (u : UrbSubmit) (response : Option (List ℕ)) (t : Transferred)
    → Answers u
        (record { succeeded = t.succeeded; devices = ds; completion = completion_of u response t })
unfolding completion_of response_length
completion_of-Answers ds u response t = record {
  same_device = refl;
  same_urb = refl;
  same_result = ground arith;
  nothing_out = ground arith;
}

transferred-Answered :
    (u : UrbSubmit) (ds : List CapturedDevice) (response : Option (List ℕ)) (o : Option Transferred)
    → Answered u (
        o >>= λ (t : Transferred). some (record {
          succeeded = t.succeeded;
          devices = put_captured t.device u.device_id ds;
          completion = completion_of u response t;
        }))
unfolding Answered
transferred-Answered u ds response none = tt
transferred-Answered u ds response (some t) =
    completion_of-Answers (put_captured t.device u.device_id ds) u response t

read-Answered :
    (usb : WinUsb) (ds : List CapturedDevice) (d : CapturedDevice) (u : UrbSubmit)
    (out : Option (List ℕ)) (len : ℕ) (reads : Bool) (memory : Option (List ℕ))
    → Answered u (
        if reads
        then elim memory [
          | none ↦
              some
                (record { succeeded = false; devices = ds; completion = failed u Status.no_memory })
          | some b ↦ process_opened usb ds d u (some b) out len
        ]
        else process_opened usb ds d u none out len)
unfolding process_opened Answered
read-Answered usb ds d u out len false memory =
    transferred-Answered u ds none (transfer usb d u none out len)
read-Answered usb ds d u out len true none = failed-Answers ds u 8 (λ e. ground (arith, e))
read-Answered usb ds d u out len true (some b) =
    transferred-Answered u ds (some b) (transfer usb d u (some b) out len)

opened-Answered :
    (usb : WinUsb) (malloc : ℕ → Option (List ℕ)) (ds : List CapturedDevice)
    (o : Bool × CapturedDevice) (u : UrbSubmit) (out : Option (List ℕ)) (len : ℕ)
    → Answered u (process_device usb malloc ds o u out len)
unfolding process_device Answered
opened-Answered usb malloc ds (false, d) u out len = failed-Answers ds u 2 (λ e. ground (arith, e))
opened-Answered usb malloc ds (true, d) u out len =
    read-Answered usb (put_captured d u.device_id ds) d u out len _
      (malloc u.transfer_buffer_length)

found-Answered :
    (usb : WinUsb) (malloc : ℕ → Option (List ℕ)) (ds : List CapturedDevice)
    (o : Option CapturedDevice) (u : UrbSubmit) (out : Option (List ℕ)) (len : ℕ)
    → Answered u (process_found usb malloc ds o u out len)
unfolding process_found Answered
found-Answered usb malloc ds none u out len = failed-Answers ds u 6 (λ e. ground (arith, e))
found-Answered usb malloc ds (some d) u out len = opened-Answered usb malloc ds _ u out len

Answers-of :
    (u : UrbSubmit) (o : Option Processed) (p : Processed) → Answered u o → o ≡ some p → Answers u p
unfolding Answered
Answers-of u none p a e = absurd (ground (arith, e))
Answers-of u (some q) p a e = subst (Answers u) (some-injective q p e) a

-- Every request from the server, if its processing stays inside its buffers, gets one completion,
-- with its device and its URB id, which says success exactly where the transfer succeeded. Unless
-- the transfer is from the device, the completion announces no bytes, however many were transferred.
pub process_urb_answers :
    (usb : WinUsb) (malloc : ℕ → Option (List ℕ)) (ds : List CapturedDevice) (u : UrbSubmit)
    (out : Option (List ℕ)) (len : ℕ) (p : Processed)
    → process_urb usb malloc ds u out len ≡ some p
    → (p.completion.device_id ≡ u.device_id)
      × (p.completion.urb_id ≡ u.urb_id)
      × ((p.completion.status == Status.success) ≡ p.succeeded)
      × ((u.direction == Direction.inward || p.completion.actual_length == 0) ≡ true)
unfolding process_urb
process_urb_answers usb malloc ds u out len p e =
    let a =
      Answers-of u _ p (found-Answered usb malloc ds (find_captured u.device_id ds) u out len) e in
    (a.same_device, a.same_urb, a.same_result, a.nothing_out)
