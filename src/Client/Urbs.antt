-- ===== src/Client/Urbs.antt =====
-- client/vusb_client_urb.c: the transfer that the server asks for, on a captured device
-- (ClientUrbProcess). `none` is an access outside a buffer.
pub mod Completions
use usb_over_ip.Common.{
  ℕ, ◌+◌, List, [], ◌∷◌, Bool, true, false, ◌&&◌, ◌||◌, Option, none, some, ◌==◌, ltb, leb,
  if◌then◌else◌, ◌>>=◌, not,
}
use usb_over_ip.Protocol.{UrbSubmit}
use usb_over_ip.Protocol.Status
use usb_over_ip.Protocol.Direction
use usb_over_ip.Protocol.Transfer
use usb_over_ip.Client.Capture.{
  WinUsb, CapturedDevice, Transferred, find_captured, put_captured, open_device, control_on,
  bulk_on, refused_transfer,
}

-- A call of the SendCompletion callback.
pub record Completion : Type 0 where
  pub device_id : ℕ
  pub urb_id : ℕ
  pub status : ℕ
  pub actual_length : ℕ
  pub bytes : Option (List ℕ)

abbrev pub failed : UrbSubmit → ℕ → Completion
failed u status = record {
  device_id = u.device_id;
  urb_id = u.urb_id;
  status = status;
  actual_length = 0;
  bytes = none;
}

-- Whether the code returns 0, the devices, and the completion.
pub record Processed : Type 0 where
  pub succeeded : Bool
  pub devices : List CapturedDevice
  pub completion : Completion

-- A null pointer is an empty buffer.
abbrev pub memory_of : Option (List ℕ) → List ℕ
memory_of none = []
memory_of (some b) = b

-- The count of bytes that the completion announces, in the order of the code's assignments.
unfoldable pub response_length : UrbSubmit → Transferred → ℕ
response_length u t =
    if not (u.direction == Direction.inward)
    then 0
    else if u.transfer_type == Transfer.control
    then (if t.succeeded then t.actual_length else 0)
    else t.actual_length

-- The response buffer is the one that the transfer had, if there is one.
unfoldable pub completion_of : UrbSubmit → Option (List ℕ) → Transferred → Completion
completion_of u response t = record {
  device_id = u.device_id;
  urb_id = u.urb_id;
  status = if t.succeeded then Status.success else Status.error;
  actual_length = response_length u t;
  bytes = elim response [ none ↦ none | some b ↦ some t.buffer ];
}

module _ (usb : WinUsb) where
  -- The transfer, with the response buffer and the data of the request.
  unfoldable pub transfer :
      CapturedDevice → UrbSubmit → Option (List ℕ) → Option (List ℕ) → ℕ → Option Transferred
  transfer d u response out out_length =
      let inward = u.direction == Direction.inward in
      let buffer = if inward then memory_of response else memory_of out in
      let len = if inward then u.transfer_buffer_length else out_length in
      if u.transfer_type == Transfer.control
      then control_on usb d u.setup_packet buffer
          (if inward then len else elim out [ none ↦ 0 | some _ ↦ len ])
      else if u.transfer_type == Transfer.bulk
      then bulk_on usb d u.endpoint_address buffer len
      else if u.transfer_type == Transfer.interrupt
      then bulk_on usb d u.endpoint_address buffer len
      else some (refused_transfer d buffer)

  unfoldable pub process_opened :
      List CapturedDevice
      → CapturedDevice
      → UrbSubmit
      → Option (List ℕ)
      → Option (List ℕ)
      → ℕ
      → Option Processed
  process_opened ds d u response out out_length =
      transfer d u response out out_length >>= λ (t : Transferred). some (record {
        succeeded = t.succeeded;
        devices = put_captured t.device u.device_id ds;
        completion = completion_of u response t;
      })

  -- The response buffer, where the transfer reads; `malloc` gives memory of a size.
  unfoldable pub process_device :
      (ℕ → Option (List ℕ))
      → List CapturedDevice
      → Bool × CapturedDevice
      → UrbSubmit
      → Option (List ℕ)
      → ℕ
      → Option Processed
  process_device malloc ds (false, d) u out out_length =
      some (record { succeeded = false; devices = ds; completion = failed u Status.error })
  process_device malloc ds (true, d) u out out_length =
      let opened = put_captured d u.device_id ds in
      if u.direction == Direction.inward && ltb 0 u.transfer_buffer_length
      then elim (malloc u.transfer_buffer_length) [
        | none ↦
            some (record {
              succeeded = false;
              devices = opened;
              completion = failed u Status.no_memory;
            })
        | some b ↦ process_opened opened d u (some b) out out_length
      ]
      else process_opened opened d u none out out_length

  unfoldable pub process_found :
      (ℕ → Option (List ℕ))
      → List CapturedDevice
      → Option CapturedDevice
      → UrbSubmit
      → Option (List ℕ)
      → ℕ
      → Option Processed
  process_found malloc ds none u out out_length =
      some (record { succeeded = false; devices = ds; completion = failed u Status.no_device })
  process_found malloc ds (some d) u out out_length =
      process_device malloc ds (if d.opened then (true, d) else open_device usb d) u out out_length

  unfoldable pub process_urb :
      (ℕ → Option (List ℕ))
      → List CapturedDevice
      → UrbSubmit
      → Option (List ℕ)
      → ℕ
      → Option Processed
  process_urb malloc ds u out out_length =
      process_found malloc ds (find_captured u.device_id ds) u out out_length
