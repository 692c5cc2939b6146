-- ===== src/Client/Capture/Placing.antt =====
-- client/vusb_capture.c: the reading of a configuration, against the table of interfaces that it
-- describes.
use usb_over_ip.Common.{
  ℕ, zero, suc, ◌+◌, ◌<◌, ◌≤◌, ◌≡◌, refl, List, [], ◌∷◌, ◌++◌, Bool, true, none, some, length, drop,
  set, get_elem?, arith, ap, All, lt→ltb, le→ltb, drop-append, sym, ◌∙◌, length-append,
}
use usb_over_ip.Common.{length-drop, length-set}
use usb_over_ip.Client.Capture.{InterfaceInfo, WinUsb, CapturedDevice}
use usb_over_ip.Client.Capture.Configuration.{
  Walk, parse_one, parse_loop, put_interface, parse_interface, read_whole, parsed_device,
  read_config_descriptor,
}
use usb_over_ip.Client.Capture.Walking.{
  Part, encode_parts, endpoints_of, IsOther, Ends, Behind, Behind-append, Ends-next, Ends-eq,
  within, Ends-parts,
}

-- An interface with what follows it.
pub record Setting : Type 0 where
  pub number : ℕ
  pub alternate : ℕ
  pub count : ℕ
  pub class : ℕ
  pub sub_class : ℕ
  pub protocol : ℕ
  pub text : ℕ
  pub parts : List Part

unfoldable pub encode_setting : Setting → List ℕ
encode_setting s =
    9
    ∷ 4
    ∷ s.number
    ∷ s.alternate
    ∷ s.count
    ∷ s.class
    ∷ s.sub_class
    ∷ s.protocol
    ∷ s.text
    ∷ encode_parts s.parts

unfoldable pub encode_settings : List Setting → List ℕ
encode_settings [] = []
encode_settings (s ∷ ss) = encode_setting s ++ encode_settings ss

abbrev opened : Setting → InterfaceInfo → InterfaceInfo
opened s i = record i {
  interface_number = s.number;
  alternate_setting = s.alternate;
  interface_class = s.class;
  interface_sub_class = s.sub_class;
  interface_protocol = s.protocol;
  num_endpoints = s.count;
}

-- The entry of an interface: its fields, and its endpoints in the first places.
unfoldable pub shown : Setting → InterfaceInfo → InterfaceInfo
shown s i =
    let es = endpoints_of s.parts in
    record (opened s i) { endpoints = es ++ drop (length es) i.endpoints }

unfoldable pub place : Setting → List InterfaceInfo → List InterfaceInfo
place s is = elim (get_elem? is s.number) [ none ↦ is | some i ↦ set is s.number (shown s i) ]

-- The array after all interfaces, each put at its number.
unfoldable pub placed : List Setting → List InterfaceInfo → List InterfaceInfo
placed [] is = is
placed (s ∷ ss) is = placed ss (place s is)

-- An interface that fits the arrays, with endpoint descriptors that are told from the others.
unfoldable pub IsSetting : Setting → Type 0
IsSetting s = (s.number < 8) × (length (endpoints_of s.parts) ≤ 32) × All IsOther s.parts

-- An entry's array of endpoints.
unfoldable pub HasEndpoints : InterfaceInfo → Type 0
HasEndpoints i = length i.endpoints ≡ 32

parse_one_setting :
    (w : Walk) (s : Setting) (i : InterfaceInfo) (rest : List ℕ)
    → s.number < 8
    → get_elem? w.interfaces s.number ≡ some i
    → parse_one w 9 4
        (s.number ∷ s.alternate ∷ s.count ∷ s.class ∷ s.sub_class ∷ s.protocol ∷ s.text ∷ rest)
      ≡ some (within w.interfaces s.number (opened s i) [] i.endpoints)
unfolding parse_one parse_interface put_interface within
parse_one_setting w s i rest h e = rw (lt→ltb s.number 8 h, e) refl

Ends-here :
    (config : List ℕ) (end offset : ℕ) (w : Walk)
    → Behind config end offset []
    → Ends config end offset w w
unfolding Ends Behind parse_loop
Ends-here config end offset w b zero l = absurd (omega arith)
Ends-here config end offset w (e, h) (suc n) l = rw (le→ltb offset end (omega arith)) refl

-- The array of a captured device: an entry for each of 8 numbers, each with 32 endpoints.
unfoldable pub IsTable : List InterfaceInfo → Type 0
IsTable is = (length is ≡ 8) × All HasEndpoints is

All-get_elem? :
    (is : List InterfaceInfo) (n : ℕ)
    → All HasEndpoints is
    → n < length is
    → (i : InterfaceInfo) × (get_elem? is n ≡ some i) × HasEndpoints i
All-get_elem? [] n a h = absurd (omega arith)
All-get_elem? (i ∷ is) zero a h = (i, refl, a.0)
All-get_elem? (i ∷ is) (suc n) a h = All-get_elem? is n a.1 (omega arith)

All-set :
    (is : List InterfaceInfo) (n : ℕ) (i : InterfaceInfo)
    → All HasEndpoints is
    → HasEndpoints i
    → All HasEndpoints (set is n i)
All-set [] n i a h = a
All-set (j ∷ is) zero i a h = (h, a.1)
All-set (j ∷ is) (suc n) i a h = (a.0, All-set is n i a.1 h)

shown-HasEndpoints :
    (s : Setting) (i : InterfaceInfo) → IsSetting s → HasEndpoints i → HasEndpoints (shown s i)
unfolding shown HasEndpoints IsSetting
shown-HasEndpoints s i h e =
    let es = endpoints_of s.parts in
    omega (
      arith,
      h.1,
      length-append es (drop (length es) i.endpoints),
      length-drop (length es) i.endpoints,
    )

number_in :
    (s : Setting) (is : List InterfaceInfo) → IsSetting s → length is ≡ 8 → s.number < length is
unfolding IsSetting
number_in s is h l = omega (arith, h.0)

IsTable-set :
    (s : Setting) (is : List InterfaceInfo) (i : InterfaceInfo)
    → IsSetting s
    → IsTable is
    → HasEndpoints i
    → IsTable (set is s.number (shown s i))
unfolding IsTable
IsTable-set s is i h t n = (
  omega (arith, t.0, length-set is s.number (shown s i)),
  All-set is s.number (shown s i) t.1 (shown-HasEndpoints s i h n),
)

place_found :
    (s : Setting) (is : List InterfaceInfo) (i : InterfaceInfo)
    → get_elem? is s.number ≡ some i
    → place s is ≡ set is s.number (shown s i)
unfolding place
place_found s is i e = rw (e, place) refl

-- The walk over one interface.
Ends-setting :
    (config : List ℕ) (end offset : ℕ) (s : Setting) (rest : List ℕ) (w : Walk) (i : InterfaceInfo)
    (v : Walk)
    → IsSetting s
    → length w.interfaces ≡ 8
    → HasEndpoints i
    → get_elem? w.interfaces s.number ≡ some i
    → Behind config end offset (encode_setting s ++ rest)
    → Ends config end
        (offset + length (encode_setting s))
        (within w.interfaces s.number
          (opened s i)
          (endpoints_of s.parts)
          (drop (length (endpoints_of s.parts)) i.endpoints))
        v
    → Ends config end offset w v
unfolding IsSetting HasEndpoints encode_setting
Ends-setting config end offset s rest w i v (h, l, a) n e found b later =
    let head =
      s.number ∷ s.alternate ∷ s.count ∷ s.class ∷ s.sub_class ∷ s.protocol ∷ s.text ∷ [] in
    Ends-next config end offset 8 4 _ w _ v b
      (parse_one_setting w s i (encode_parts s.parts ++ rest) h found)
      (Ends-parts config end (offset + 9) s.parts rest w.interfaces s.number (opened s i) []
        i.endpoints v (omega arith) (omega arith) (omega arith) a
        (Behind-append config end offset (9 ∷ 4 ∷ head) (encode_parts s.parts ++ rest) b)
        (Ends-eq config end (offset + length (encode_setting s)) _ _ _ v (omega arith) refl later))

Ends-settings :
    (config : List ℕ) (end offset : ℕ) (ss : List Setting) (w : Walk)
    → All IsSetting ss
    → IsTable w.interfaces
    → Behind config end offset (encode_settings ss)
    → (v : Walk) × (v.interfaces ≡ placed ss w.interfaces) × Ends config end offset w v
unfolding encode_settings placed place IsTable within shown
Ends-settings config end offset [] w a t b = (w, refl, Ends-here config end offset w b)
Ends-settings config end offset (s ∷ ss) w (h, hs) (l, all) b =
    let (i, found, n) = All-get_elem? w.interfaces s.number all (number_in s w.interfaces h l) in
    let es = endpoints_of s.parts in
    let next = within w.interfaces s.number (opened s i) es (drop (length es) i.endpoints) in
    let (v, e, ends) =
      Ends-settings config end (offset + length (encode_setting s)) ss next hs
        (IsTable-set s w.interfaces i h (l, all) n)
        (Behind-append config end offset (encode_setting s) (encode_settings ss) b) in
    (
      v,
      e ∙ sym (ap (placed ss) (place_found s w.interfaces i found)),
      Ends-setting config end offset s (encode_settings ss) w i v h l n found b ends,
    )

-- The reading of a configuration that is a header of 9 bytes and a list of interfaces, each with its
-- endpoints and descriptors of other kinds, numbers below 8 and at most 32 endpoints each, for a
-- device with 8 entries of 32 endpoints, succeeds if both reads do and there is memory: in the order
-- of the list, the entry of each interface's number gets the interface's fields, and its endpoints
-- in the first places.
pub read_config_descriptor-placed :
    (usb : WinUsb) (malloc : ℕ → Bool) (d : CapturedDevice) (count : ℕ) (header : List ℕ)
    (ss : List Setting)
    → length header ≡ 9
    → read_whole usb
      ≡ some (some (9 + length (encode_settings ss), count, header ++ encode_settings ss))
    → malloc (9 + length (encode_settings ss)) ≡ true
    → All IsSetting ss
    → IsTable d.interfaces
    → read_config_descriptor usb malloc d
      ≡ some (
        true,
        record d {
          num_interfaces = count;
          device_info = record d.device_info { num_interfaces = count };
          interfaces = placed ss d.interfaces;
        },
      )
unfolding read_config_descriptor parsed_device Behind Ends
read_config_descriptor-placed usb malloc d count header ss l r m a t =
    let total = 9 + length (encode_settings ss) in
    let start : Walk = record {
      interfaces = d.interfaces;
      current_interface = none;
      current_endpoint = 0;
    } in
    let (v, e, ends) =
      Ends-settings (header ++ encode_settings ss) total 9 ss start a t
        (drop-append 9 header (encode_settings ss) l, refl) in
    rw (r, m, ends (suc total) (omega arith), e) refl
