-- ===== src/Userspace/Requests.antt =====
-- userspace/vusb_userspace.c: the answers of a device to standard requests (HandleStandardRequest).
-- The caller's buffer is what the request writes to it, as long as the length that is returned; the
-- caller is taken to have the space for it.
pub mod Descriptors
use usb_over_ip.Common.{
  ℕ, zero, suc, ◌+◌, ◌-◌, ◌/◌, ◌%◌, ◌^◌, List, [], ◌∷◌, Bool, true, false, ◌&&◌, Option, none, some,
  ◌==◌, ltb, leb, if◌then◌else◌, ◌>>=◌, length, take, drop, get_elem?, not,
}
use usb_over_ip.Protocol.{SetupPacket}
use usb_over_ip.Driver.Table.{add32}
use usb_over_ip.Userspace.{DevState, UserDevice}

-- The gadget's callbacks, where they are set, on the device that they get a pointer to.
pub record GadgetOps : Type 0 where
  pub handle_set_configuration : Option (UserDevice → ℕ → UserDevice)
  pub handle_set_interface : Option (UserDevice → ℕ → ℕ → UserDevice)

-- The loop over the descriptors, on fuel: `faulted` is a read outside them, `located` has the offset
-- and the length of a descriptor.
pub data Search : Type 0 where
  unfinished missing faulted : Search
  located : ℕ → ℕ → Search

-- One turn, from the two bytes read and the later turns.
unfoldable pub search_turn : Option ℕ → Option ℕ → ℕ → ℕ → ℕ → (ℕ → ℕ → Search) → Search
search_turn (some len) (some t) kind index offset later =
    let rest = later (if t == kind then index - 1 else index) (add32 offset len) in
    if len == 0
    then Search.missing
    else if t == kind && index == 0
    then Search.located offset len
    else rest
search_turn _ _ kind index offset later = Search.faulted

unfoldable pub find_descriptor : ℕ → List ℕ → ℕ → ℕ → ℕ → ℕ → Search
find_descriptor zero ds size kind index offset = Search.unfinished
find_descriptor (suc n) ds size kind index offset =
    let turn =
      search_turn (get_elem? ds offset) (get_elem? ds (offset + 1)) kind index offset
        (find_descriptor n ds size kind) in
    if ltb offset size then turn else Search.missing

-- The copy of the descriptor, cut at the length that is asked for.
unfoldable pub copy_descriptor : List ℕ → ℕ → Search → Option (Option (List ℕ))
copy_descriptor ds w_length (Search.located offset len) =
    let n = if ltb w_length len then w_length else len in
    if leb (offset + n) (length ds) then some (some (take n (drop offset ds))) else none
copy_descriptor ds w_length Search.missing = some none
copy_descriptor ds w_length _ = none

-- A null pointer has no descriptors; the fuel is one more than their length.
unfoldable pub get_descriptor : UserDevice → ℕ → ℕ → Option (Option (List ℕ))
get_descriptor d w_value w_length = elim d.descriptors [
  | none ↦ some none
  | some ds ↦ copy_descriptor ds w_length (
      find_descriptor (suc d.descriptor_length) ds d.descriptor_length (w_value / 256 % 256)
        (w_value % 256) 0)
]

unfoldable pub set_configuration : GadgetOps → UserDevice → ℕ → UserDevice
set_configuration ops d config =
    let set = record d {
      configuration = config;
      state = if ltb 0 config then DevState.configured else d.state;
    } in
    elim ops.handle_set_configuration [ none ↦ set | some f ↦ f set config ]

unfoldable pub set_interface : GadgetOps → UserDevice → ℕ → ℕ → UserDevice
set_interface ops d interface alt = elim ops.handle_set_interface [
  | none ↦ d
  | some f ↦ f d interface alt
]

-- What is written to the buffer, or `none` for a request that is not handled, inside an option whose
-- `none` is an access outside the descriptors.
unfoldable pub handle_standard_request :
    GadgetOps → UserDevice → SetupPacket → Option (Option (List ℕ) × UserDevice)
handle_standard_request ops d s =
    if not (s.bm_request_type / 32 % 4 == 0)
    then some (none, d)
    else if s.b_request == 0x00
    then some (some (0 ∷ 0 ∷ []), d)
    else if s.b_request == 0x01
    then some (some [], d)
    else if s.b_request == 0x03
    then some (some [], d)
    else if s.b_request == 0x05
    then some (some [], record d { address = s.w_value % 128; state = DevState.addressed })
    else if s.b_request == 0x06
    then (get_descriptor d s.w_value s.w_length >>= λ (r : Option (List ℕ)). some (r, d))
    else if s.b_request == 0x08
    then some (some (d.configuration ∷ []), d)
    else if s.b_request == 0x09
    then some (some [], set_configuration ops d (s.w_value % 256))
    else if s.b_request == 0x0A
    then some (some (0 ∷ []), d)
    else if s.b_request == 0x0B
    then some (some [], set_interface ops d (s.w_index % 256) (s.w_value % 256))
    else some (none, d)
