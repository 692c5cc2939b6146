-- ===== src/Driver/Urb/Buffers.antt =====
-- driver/vusb_urb.c, second half: the data of the entries, what user mode is given of them, and the
-- requests that the driver answers by itself.
use Prim.Native.Nat.{bit_and}
use usb_over_ip.Common.{
  ℕ, ◌/◌, ◌^◌, List, [], ◌∷◌, ◌++◌, Bool, ◌&&◌, Option, none, some, ◌==◌, ltb, leb, if◌then◌else◌,
  ◌>>=◌, min, drop,
}
use usb_over_ip.Protocol.{SetupPacket}
use usb_over_ip.Protocol.Transfer
use usb_over_ip.Protocol.Direction
use usb_over_ip.Ioctl.{pending_urb_size}
use usb_over_ip.Ioctl.Layout.{encode_pending_urb}
use usb_over_ip.Driver.{NtStatus, nt_success, VirtualDevice, UrbEntry, DeviceContext}
use usb_over_ip.Driver.Table.{copy_memory, find_device, add32}
use usb_over_ip.Driver.Queue.{Effect, Completion, ending}
use usb_over_ip.Driver.Urb.{pending_of}

module _ (map_mdl : ℕ → Option (List ℕ)) where
  unfoldable pub urb_get_buffer : UrbEntry → Option (List ℕ)
  urb_get_buffer e = elim e.transfer_buffer [
    | some b ↦ some b
    | none ↦ elim e.transfer_buffer_mdl [ none ↦ none | some m ↦ map_mdl m ]
  ]

  -- The status, the buffer of the entry and the data of the caller afterwards.
  unfoldable pub urb_copy_data :
      UrbEntry → List ℕ → ℕ → Bool → Option (NtStatus × Option (List ℕ) × List ℕ)
  urb_copy_data e bytes len to_urb = elim (urb_get_buffer e) [
    | none ↦ some (NtStatus.invalid_parameter, none, bytes)
    | some b ↦
        if to_urb
        then (copy_memory b bytes (min len e.transfer_buffer_length) >>= λ (b' : List ℕ).
            some (NtStatus.success, some b', bytes))
        else (copy_memory bytes b (min len e.transfer_buffer_length) >>= λ (d' : List ℕ).
            some (NtStatus.success, some b, d'))
  ]

-- The size that a response needs, a ULONG.
abbrev pub required_size : UrbEntry → ℕ
required_size e =
    if e.direction == Direction.out && ltb 0 e.transfer_buffer_length
    then add32 pending_urb_size e.transfer_buffer_length
    else pending_urb_size

module _ (map_mdl : ℕ → Option (List ℕ)) where
  -- What follows the header in the response: the OUT data over the bytes that stood there.
  unfoldable pub response_data : UrbEntry → List ℕ → Option (List ℕ)
  response_data e tail =
      if e.direction == Direction.out && ltb 0 e.transfer_buffer_length
      then elim (urb_get_buffer map_mdl e) [
        | none ↦ some tail
        | some b ↦ copy_memory tail b e.transfer_buffer_length
      ]
      else some tail

  -- The status, the actual size and the response buffer afterwards.
  unfoldable pub urb_build_pending_response : UrbEntry → List ℕ → ℕ → Option (NtStatus × ℕ × List ℕ)
  urb_build_pending_response e response size =
      if ltb size (required_size e)
      then some (NtStatus.buffer_too_small, required_size e, response)
      else (response_data e (drop pending_urb_size response) >>= λ (tail : List ℕ).
          some (NtStatus.success, required_size e, encode_pending_urb (pending_of e) tail))

  -- The buffer that IN data is copied to.
  unfoldable pub in_data : UrbEntry → NtStatus → ℕ → Option (List ℕ) → Option (Option (List ℕ))
  in_data e status actual none = some (urb_get_buffer map_mdl e)
  in_data e status actual (some src) =
      if nt_success status && (e.direction == Direction.inward && ltb 0 actual)
      then elim (urb_get_buffer map_mdl e) [
        | none ↦ some none
        | some b ↦ copy_memory b src (min actual e.transfer_buffer_length) >>= λ (b' : List ℕ).
            some (some b')
      ]
      else some (urb_get_buffer map_mdl e)

  unfoldable pub urb_complete : UrbEntry → NtStatus → ℕ → Option (List ℕ) → Option Completion
  urb_complete e status actual src = in_data e status actual src >>= λ (b : Option (List ℕ)).
      some (record { buffer = b; effects = ending e status actual ++ Effect.free_entry ∷ [] })

-- The function codes that a transfer type is given back as.
pub data UrbFunction : Type 0 where
  no_function control_function bulk_or_interrupt_function isoch_function : UrbFunction

unfoldable pub urb_get_function : UrbEntry → UrbFunction
urb_get_function e =
    if e.transfer_type == Transfer.control
    then UrbFunction.control_function
    else if e.transfer_type == Transfer.bulk
    then UrbFunction.bulk_or_interrupt_function
    else if e.transfer_type == Transfer.interrupt
    then UrbFunction.bulk_or_interrupt_function
    else if e.transfer_type == Transfer.isochronous
    then UrbFunction.isoch_function
    else UrbFunction.no_function

-- A GET_DESCRIPTOR for the device descriptor, index 0.
abbrev pub asks_device_descriptor : SetupPacket → Bool
asks_device_descriptor p =
    p.bm_request_type == 0x80
    && (p.b_request == 0x06
        && (bit_and (p.w_value / 2 ^ 8) 0xFF == 0x01 && bit_and p.w_value 0xFF == 0))

module _ (map_mdl : ℕ → Option (List ℕ)) where
  -- The cached descriptor written to the entry's buffer, if all tests pass.
  unfoldable pub cached_descriptor : VirtualDevice → UrbEntry → Option (Option (List ℕ))
  cached_descriptor d e = elim d.descriptors [
    | none ↦ some none
    | some ds ↦
        if ltb 0 d.descriptor_length
          && (asks_device_descriptor e.setup_packet
              && leb (min 18 d.descriptor_length) e.transfer_buffer_length)
        then elim (urb_get_buffer map_mdl e) [
          | none ↦ some none
          | some b ↦
              copy_memory b ds (min 18 d.descriptor_length) >>= λ (b' : List ℕ). some (some b')
        ]
        else some none
  ]

  -- The status, and the filled buffer if the request was handled.
  unfoldable pub process_standard_request :
      DeviceContext → UrbEntry → Option (NtStatus × Option (List ℕ))
  process_standard_request ctx e =
      if e.transfer_type == Transfer.control
      then elim (find_device ctx e.device_id) [
        | none ↦ some (NtStatus.device_not_connected, none)
        | some d ↦ cached_descriptor d e >>= λ (b : Option (List ℕ)). some (NtStatus.success, b)
      ]
      else some (NtStatus.success, none)
