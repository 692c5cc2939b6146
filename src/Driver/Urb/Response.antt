-- ===== src/Driver/Urb/Response.antt =====
-- The response that user mode gets for a pending request.
use usb_over_ip.Common.{
  ℕ, ◌+◌, ◌%◌, ◌^◌, ◌≤◌, ◌<◌, ◌≡◌, List, ◌++◌, Option, some, length, take, drop, arith, inl, inr,
  ◌==◌, ltb, length-drop, Bool-cases, Option-cases, ◌&&◌,
}
use usb_over_ip.Protocol.Direction
use usb_over_ip.Ioctl.{pending_urb_size, PendingUrb}
use usb_over_ip.Ioctl.Layout.{
  encode_pending_urb, decode_pending_urb, FitsPendingUrb, decode_pending_urb-encode_pending_urb,
}
use usb_over_ip.Driver.{NtStatus, UrbEntry}
use usb_over_ip.Driver.Queue.Completing.{copy_memory_lem}
use usb_over_ip.Driver.Urb.{pending_of}
use usb_over_ip.Driver.Urb.Buffers.{
  urb_get_buffer, required_size, response_data, urb_build_pending_response,
}

response_data-out :
    (map_mdl : ℕ → Option (List ℕ)) (e : UrbEntry) (b tail : List ℕ)
    → e.direction ≡ Direction.out
    → 0 < e.transfer_buffer_length
    → urb_get_buffer map_mdl e ≡ some b
    → e.transfer_buffer_length ≤ length b
    → e.transfer_buffer_length ≤ length tail
    → response_data map_mdl e tail
      ≡ some (take e.transfer_buffer_length b ++ drop e.transfer_buffer_length tail)
unfolding response_data
response_data-out map_mdl e b tail d p g l k =
    ground (arith, copy_memory_lem tail b e.transfer_buffer_length k l)

-- What user mode reads of an entry: its fields, and 0 where the driver has none.
abbrev pub announced : UrbEntry → PendingUrb
announced e = record {
  device_id = e.device_id;
  urb_id = e.urb_id;
  sequence_number = e.sequence_number;
  endpoint_address = e.endpoint_address;
  transfer_type = e.transfer_type;
  direction = e.direction;
  reserved = 0;
  transfer_flags = e.transfer_flags;
  transfer_buffer_length = e.transfer_buffer_length;
  interval = 0;
  setup_packet = e.setup_packet;
}

-- For an OUT request with data whose fields fit the packed layout and whose buffer, mapped or not,
-- holds the announced length, a response buffer of at least the size of the structure and the data,
-- which is below 4 GB, is filled so that the cast reads back each of the entry's fields, and 0 for
-- the interval, followed by exactly the entry's data and then the bytes that stood there before.
pub response_decodes :
    (map_mdl : ℕ → Option (List ℕ)) (e : UrbEntry) (b response : List ℕ)
    → FitsPendingUrb (announced e)
    → e.direction ≡ Direction.out
    → 0 < e.transfer_buffer_length
    → urb_get_buffer map_mdl e ≡ some b
    → e.transfer_buffer_length ≤ length b
    → pending_urb_size + e.transfer_buffer_length ≤ length response
    → pending_urb_size + e.transfer_buffer_length < 2 ^ 32
    → (out : List ℕ) × (urb_build_pending_response map_mdl e response (length response)
        ≡ some (NtStatus.success, pending_urb_size + e.transfer_buffer_length, out))
      × (decode_pending_urb out
          ≡ some (
            announced e,
            take e.transfer_buffer_length b
                ++ drop e.transfer_buffer_length (drop pending_urb_size response),
          ))
unfolding urb_build_pending_response
response_decodes map_mdl e b response fits d p g l k w =
    let n = e.transfer_buffer_length in
    let tail : List ℕ = take n b ++ drop n (drop pending_urb_size response) in
    let no_wrap : (pending_urb_size + n) % 2 ^ 32 ≡ pending_urb_size + n = omega arith in
    let room : n ≤ length (drop pending_urb_size response) =
      omega (arith, length-drop pending_urb_size response) in
    (
      encode_pending_urb (pending_of e) tail,
      ground (
        arith,
        response_data-out map_mdl e b (drop pending_urb_size response) d p g l room,
        no_wrap,
      ),
      decode_pending_urb-encode_pending_urb (pending_of e) tail fits,
    )

refused :
    (map_mdl : ℕ → Option (List ℕ)) (e : UrbEntry) (small : List ℕ) (size n : ℕ)
    → urb_build_pending_response map_mdl e small size ≡ some (NtStatus.buffer_too_small, n, small)
    → required_size e ≡ n
unfolding urb_build_pending_response
refused map_mdl e small size n h =
    elim (Option-cases (response_data map_mdl e (drop pending_urb_size small))) [
      | inl q ↦ ground arith
      | inr (tail, q) ↦ ground arith
    ]

response_data_cases :
    (map_mdl : ℕ → Option (List ℕ)) (e : UrbEntry) (b tail : List ℕ)
    → urb_get_buffer map_mdl e ≡ some b
    → e.transfer_buffer_length ≤ length b
    → pending_urb_size + e.transfer_buffer_length < 2 ^ 32
    → required_size e ≤ pending_urb_size + length tail
    → (tail' : List ℕ) × (response_data map_mdl e tail ≡ some tail')
unfolding response_data
response_data_cases map_mdl e b tail g l w k =
    let n = e.transfer_buffer_length in
    elim (Bool-cases (e.direction == Direction.out && ltb 0 n)) [
      | inl q ↦ (take n b ++ drop n tail, ground (arith, copy_memory_lem tail b n (ground arith) l))
      | inr q ↦ (tail, rw q)
    ]

-- The size that comes with a refusal is the one to come back with: a response buffer of exactly
-- that size is filled for the same entry, provided that the data of an OUT entry is at hand and the
-- size does not wrap.
pub response_retry :
    (map_mdl : ℕ → Option (List ℕ)) (e : UrbEntry) (b small response : List ℕ) (n : ℕ)
    → urb_get_buffer map_mdl e ≡ some b
    → e.transfer_buffer_length ≤ length b
    → pending_urb_size + e.transfer_buffer_length < 2 ^ 32
    → urb_build_pending_response map_mdl e small (length small)
      ≡ some (NtStatus.buffer_too_small, n, small)
    → length response ≡ n
    → (out : List ℕ) × (urb_build_pending_response map_mdl e response n
        ≡ some (NtStatus.success, n, out))
unfolding urb_build_pending_response
response_retry map_mdl e b small response n g l w h k =
    let len = e.transfer_buffer_length in
    let rest : List ℕ = drop pending_urb_size response in
    let r : required_size e ≡ n = refused map_mdl e small (length small) n h in
    let room : required_size e ≤ pending_urb_size + length rest =
      omega (arith, length-drop pending_urb_size response) in
    let (tail, q) = response_data_cases map_mdl e b rest g l w room in
    (encode_pending_urb (pending_of e) tail, ground (arith, q))
