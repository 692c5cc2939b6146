-- ===== src/Client/Capture/Configuration.antt =====
-- client/vusb_capture.c: the configuration descriptor of a captured device, read and put behind the
-- device descriptor. `none` is an access outside a buffer or to a byte that WinUSB did not give.
use usb_over_ip.Common.{
  ℕ, zero, suc, ◌+◌, ◌*◌, List, [], ◌∷◌, ◌++◌, Bool, true, false, ◌&&◌, Option, none, some, ◌==◌,
  ltb, leb, if◌then◌else◌, ◌>>=◌, take, drop, set, get_elem?,
}
use usb_over_ip.Common.Codec.{uint}
use usb_over_ip.Driver.Table.{copy_memory}
use usb_over_ip.Client.Capture.{WinUsb, CapturedDevice, InterfaceInfo}

-- The loop's variables: the interface that endpoints belong to, and the next endpoint's place.
pub record Walk : Type 0 where
  pub interfaces : List InterfaceInfo
  pub current_interface : Option ℕ
  pub current_endpoint : ℕ

abbrev max_interfaces : ℕ
max_interfaces = 8

abbrev max_interface_endpoints : ℕ
max_interface_endpoints = 32

-- What an interface descriptor sets in the array's entry.
unfoldable pub put_interface : Walk → ℕ → List ℕ → Option Walk
put_interface w number (alternate ∷ count ∷ class ∷ sub_class ∷ protocol ∷ rest) =
    get_elem? w.interfaces number >>= λ (i : InterfaceInfo). some (record {
      interfaces = set w.interfaces number (record i {
        interface_number = number;
        alternate_setting = alternate;
        interface_class = class;
        interface_sub_class = sub_class;
        interface_protocol = protocol;
        num_endpoints = count;
      });
      current_interface = some number;
      current_endpoint = 0;
    })
put_interface w number _ = none

unfoldable pub parse_interface : Walk → List ℕ → Option Walk
parse_interface w [] = none
parse_interface w (number ∷ rest) =
    if ltb number max_interfaces then put_interface w number rest else some w

unfoldable pub put_endpoint : Walk → ℕ → List ℕ → Option Walk
put_endpoint w number (address ∷ attributes ∷ low ∷ high ∷ interval ∷ rest) =
    get_elem? w.interfaces number >>= λ (i : InterfaceInfo). some (record w {
      interfaces = set w.interfaces number (record i {
        endpoints = set i.endpoints w.current_endpoint (record {
          address = address;
          attributes = attributes;
          max_packet_size = low + 256 * high;
          interval = interval;
        });
      });
      current_endpoint = suc w.current_endpoint;
    })
put_endpoint w number _ = none

unfoldable pub parse_endpoint : Walk → List ℕ → Option Walk
parse_endpoint w body = elim w.current_interface [
  | none ↦ some w
  | some number ↦
      if ltb w.current_endpoint max_interface_endpoints then put_endpoint w number body else some w
]

-- One descriptor, from what is behind its length and its type.
unfoldable pub parse_one : Walk → ℕ → ℕ → List ℕ → Option Walk
parse_one w len t body =
    if t == 4 && leb 9 len
    then parse_interface w body
    else if t == 5 && leb 7 len
    then parse_endpoint w body
    else some w

-- `faulted` is an access outside the bytes of the configuration, `unfinished` the loop out of fuel.
pub data Parsed : Type 0 where
  unfinished faulted : Parsed
  parsed : Walk → Parsed

unfoldable pub parse_later : Option Walk → (Walk → Parsed) → Parsed
parse_later none later = Parsed.faulted
parse_later (some w) later = later w

unfoldable pub parse_turn : List ℕ → Walk → (ℕ → Walk → Parsed) → Parsed
parse_turn (len ∷ t ∷ body) w later =
    let rest = parse_later (parse_one w len t body) (later len) in
    if len == 0 then Parsed.parsed w else rest
parse_turn _ w later = Parsed.faulted

unfoldable pub parse_loop : ℕ → List ℕ → ℕ → ℕ → Walk → Parsed
parse_loop zero config end offset w = Parsed.unfinished
parse_loop (suc n) config end offset w =
    let turn = parse_turn (drop offset config) w (λ len. parse_loop n config end (offset + len)) in
    if ltb offset end then turn else Parsed.parsed w

-- The total length that a configuration descriptor has.
unfoldable pub total_length : List ℕ → Option ℕ
total_length header = uint 2 (drop 2 header) >>= λ (p : ℕ × List ℕ). some p.0

unfoldable pub parsed_device : CapturedDevice → ℕ → Parsed → Option (Bool × CapturedDevice)
parsed_device d count (Parsed.parsed w) = some (
  true,
  record d {
    num_interfaces = count;
    device_info = record d.device_info { num_interfaces = count };
    interfaces = w.interfaces;
  },
)
parsed_device d count _ = none

-- The buffer of 4096 bytes with the configuration behind the first bytes, where it is read. The
-- configuration goes through a buffer of 4096 bytes.
unfoldable pub append_config : List ℕ → Option (ℕ × ℕ × List ℕ) → Option (List ℕ × ℕ)
append_config ds none = some (ds, 18)
append_config ds (some (total, count, config)) =
    if leb total 4096
    then (copy_memory (drop 18 ds) config total >>= λ (rest : List ℕ).
        some (take 18 ds ++ rest, 18 + total))
    else none

module _ (usb : WinUsb) where
  -- Both reads of the configuration: its header, and then all of it; none as one of them fails.
  unfoldable pub read_whole : Option (Option (ℕ × ℕ × List ℕ))
  read_whole = elim (usb.get_descriptor 2 9) [
    | none ↦ some none
    | some header ↦ do
      total ← total_length header
      count ← get_elem? header 4
      some (elim (usb.get_descriptor 2 total) [
        | none ↦ none
        | some config ↦ some (total, count, config)
      ])
  ]

  -- Whether the configuration was read, with memory for it, and the device.
  unfoldable pub read_config_descriptor :
      (ℕ → Bool) → CapturedDevice → Option (Bool × CapturedDevice)
  read_config_descriptor malloc d = read_whole >>= λ (o : Option (ℕ × ℕ × List ℕ)). elim o [
    | none ↦ some (false, d)
    | some (total, count, config) ↦
        if malloc total
        then parsed_device d count (
            parse_loop (suc total) config total 9 (record {
              interfaces = d.interfaces;
              current_interface = none;
              current_endpoint = 0;
            }))
        else some (false, d)
  ]

  unfoldable pub build_descriptor_buffer : CapturedDevice → Option CapturedDevice
  build_descriptor_buffer d = do
    ds ← copy_memory d.descriptors d.device_descriptor 18
    o ← read_whole
    (all, len) ← append_config ds o
    some (record d { descriptors = all; descriptor_length = len })
