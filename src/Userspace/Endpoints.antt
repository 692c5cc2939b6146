-- ===== src/Userspace/Endpoints.antt =====
-- userspace/vusb_userspace.c: the endpoint buffers of a device. The endpoint is the low four bits of
-- its address, so both directions of an endpoint number have one buffer. `none` is an access outside
-- a buffer.
pub mod Reading
use usb_over_ip.Common.{
  ℕ, zero, suc, ◌+◌, ◌-◌, ◌%◌, ◌^◌, List, [], ◌∷◌, Bool, true, false, ◌&&◌, ◌||◌, Option, none,
  some, ◌==◌, ltb, leb, if◌then◌else◌, ◌>>=◌, length, take, drop, set, get_elem?, min,
}
use usb_over_ip.Driver.Table.{add32, copy_memory}
use usb_over_ip.Userspace.{EpState, UserEndpoint, UserDevice, user_max_endpoints, urb_buffer_size}

abbrev pub sub32 : ℕ → ℕ → ℕ
sub32 a b = (a + 2 ^ 32 - b) % 2 ^ 32

abbrev pub endpoint_index : ℕ → ℕ
endpoint_index address = address % 16

-- The buffer of 65536 bytes that malloc gives, if it does, to an endpoint without one.
unfoldable pub with_buffer : Option (List ℕ) → UserEndpoint → UserEndpoint
with_buffer memory e = elim e.buffer [
  | some b ↦ e
  | none ↦ record e { buffer = memory; buffer_size = urb_buffer_size }
]

-- Whether the write is accepted, and the endpoint.
unfoldable pub write_buffer : UserEndpoint → List ℕ → ℕ → Option (Bool × UserEndpoint)
write_buffer e bytes len = elim e.buffer [
  | none ↦ some (false, e)
  | some b ↦
      if ltb e.buffer_size len
      then some (false, e)
      else (copy_memory b bytes len >>= λ (c : List ℕ).
          some (true, record e { buffer = some c; data_length = len; data_offset = 0 }))
]

unfoldable pub read_buffer : UserEndpoint → ℕ → Option (List ℕ × UserEndpoint)
read_buffer e max_length = elim e.buffer [
  | none ↦ some ([], e)
  | some b ↦
      let available = sub32 e.data_length e.data_offset in
      let to_read = if ltb available max_length then available else max_length in
      let offset = add32 e.data_offset to_read in
      if e.data_length == 0
      then some ([], e)
      else if leb (e.data_offset + to_read) (length b)
      then some (
        take to_read (drop e.data_offset b),
        if leb e.data_length offset
            then record e { data_length = 0; data_offset = 0 }
            else record e { data_offset = offset },
      )
      else none
]

-- The endpoint of an address; `none` is outside the array.
unfoldable pub endpoint_of : UserDevice → ℕ → Option UserEndpoint
endpoint_of d address = get_elem? d.endpoints (endpoint_index address)

abbrev pub put_endpoint : UserDevice → ℕ → UserEndpoint → UserDevice
put_endpoint d address e = record d { endpoints = set d.endpoints (endpoint_index address) e }

unfoldable pub ep_write : Option (List ℕ) → UserDevice → ℕ → List ℕ → ℕ → Option (Bool × UserDevice)
ep_write memory d address bytes len = do
  e ← endpoint_of d address
  (ok, f) ← write_buffer (with_buffer memory e) bytes len
  some (ok, put_endpoint d address f)

unfoldable pub ep_read : UserDevice → ℕ → ℕ → Option (List ℕ × UserDevice)
ep_read d address max_length = do
  e ← endpoint_of d address
  (bytes, f) ← read_buffer e max_length
  some (bytes, put_endpoint d address f)

unfoldable pub ep_stall : UserDevice → ℕ → Option UserDevice
ep_stall d address = do
  e ← endpoint_of d address
  some (put_endpoint d address (record e { state = EpState.stalled }))

unfoldable pub ep_unstall : UserDevice → ℕ → Option UserDevice
ep_unstall d address = do
  e ← endpoint_of d address
  some (put_endpoint d address (record e { state = EpState.enabled }))
