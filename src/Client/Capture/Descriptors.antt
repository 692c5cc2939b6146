-- ===== src/Client/Capture/Descriptors.antt =====
-- client/vusb_capture.c: the walk over a configuration ends, and the buffer of descriptors holds the
-- device descriptor and the configuration if they fit.
use usb_over_ip.Common.{
  ℕ, zero, suc, ◌+◌, ◌-◌, ◌<◌, ◌≡◌, ◌≢◌, refl, List, [], ◌∷◌, ◌++◌, true, Option, none, some, ◌==◌,
  ltb, leb, if◌then◌else◌, length, take, drop, arith, Bool-cases, inl, inr, ltb→lt, le→leb,
  take_all, take-append, drop-append, drop-drop, length-drop,
}
use usb_over_ip.Driver.Table.{copy_memory}
use usb_over_ip.Client.Capture.{WinUsb, CapturedDevice}
use usb_over_ip.Client.Capture.Configuration.{
  Walk, Parsed, parse_one, parse_later, parse_turn, parse_loop, read_whole, append_config,
  build_descriptor_buffer,
}

parse_later_finishes :
    (o : Option Walk) (later : Walk → Parsed)
    → ((w : Walk) → later w ≢ Parsed.unfinished)
    → parse_later o later ≢ Parsed.unfinished
unfolding parse_later
parse_later_finishes none later h = λ e. cc
parse_later_finishes (some w) later h = h w

-- One turn finishes if the turn after a descriptor of a length above 0 does.
parse_turn_finishes :
    (ds : List ℕ) (w : Walk) (later : ℕ → Walk → Parsed)
    → ((len : ℕ) (v : Walk) → 0 < len → later len v ≢ Parsed.unfinished)
    → parse_turn ds w later ≢ Parsed.unfinished
unfolding parse_turn
parse_turn_finishes [] w later h = λ e. cc
parse_turn_finishes (len ∷ []) w later h = λ e. cc
parse_turn_finishes (len ∷ t ∷ body) w later h = elim (Bool-cases (len == 0)) [
  | inl q ↦ rw q (λ e. cc)
  | inr q ↦
      rw q (parse_later_finishes (parse_one w len t body) (later len) (λ v. h len v (ground arith)))
]

-- With more fuel than there are bytes left, the walk over a configuration ends.
parse_loop_finishes :
    (n : ℕ) (config : List ℕ) (end offset : ℕ) (w : Walk)
    → end - offset < n
    → parse_loop n config end offset w ≢ Parsed.unfinished
unfolding parse_loop
parse_loop_finishes zero config end offset w l = absurd (omega arith)
parse_loop_finishes (suc n) config end offset w l = elim (Bool-cases (ltb offset end)) [
  | inl q ↦ rw q (
      parse_turn_finishes (drop offset config) w _ (λ len v positive.
        parse_loop_finishes n config end (offset + len) v
          (let inside : offset < end = ltb→lt offset end q in omega arith)))
  | inr q ↦ rw q (λ e. cc)
]

-- A whole source is copied if it fits.
copy_memory_whole :
    (dst src : List ℕ) (n : ℕ)
    → length src ≡ n
    → copy_memory dst src n ≡ (if leb n (length dst) then some (src ++ drop n dst) else none)
unfolding copy_memory
copy_memory_whole dst src n h =
    let all : take n src ≡ src = take_all n src (omega arith) in
    let enough : leb n (length src) ≡ true = le→leb n (length src) (omega arith) in
    elim (Bool-cases (leb n (length dst))) [ inl q ↦ rw (q, enough, all) refl | inr q ↦ rw q refl ]

-- The configuration behind a device descriptor.
append_config_lem :
    (ds old config : List ℕ) (total count : ℕ)
    → length ds ≡ 18
    → length old ≡ 4078
    → length config ≡ total
    → append_config (ds ++ old) (some (total, count, config))
      ≡ (if leb total 4078 then some (ds ++ (config ++ drop total old), 18 + total) else none)
unfolding append_config
append_config_lem ds old config total count h18 h4078 hc =
    let prefix : take 18 (ds ++ old) ≡ ds = take-append 18 ds old h18 in
    let behind : drop 18 (ds ++ old) ≡ old = drop-append 18 ds old h18 in
    let copied = copy_memory_whole old config total hc in
    elim (Bool-cases (leb total 4078)) [
      | inl q ↦
          let wide : leb total 4096 ≡ true = ground arith in
          rw (prefix, behind, copied, h4078, q, wide) refl
      | inr q ↦ elim (Bool-cases (leb total 4096)) [
        | inl p ↦ rw (prefix, behind, copied, h4078, q, p) refl
        | inr p ↦ rw (q, p) refl
      ]
    ]

-- The buffer of 4096 bytes, for a device descriptor of 18 bytes and a configuration of its announced
-- length that was read whole: where the configuration has at most 4078 bytes, the buffer starts with
-- the device descriptor and the configuration, keeps its other bytes, and the length is that of
-- both; a longer configuration is written outside a buffer.
pub build_descriptor_buffer_lem :
    (usb : WinUsb) (d : CapturedDevice) (total count : ℕ) (config : List ℕ)
    → length d.device_descriptor ≡ 18
    → length d.descriptors ≡ 4096
    → read_whole usb ≡ some (some (total, count, config))
    → length config ≡ total
    → build_descriptor_buffer usb d ≡ (
        if leb total 4078
        then some (record d {
          descriptors = d.device_descriptor ++ (config ++ drop (18 + total) d.descriptors);
          descriptor_length = 18 + total;
        })
        else none)
unfolding build_descriptor_buffer
build_descriptor_buffer_lem usb d total count config h18 h4096 r hc =
    let first = copy_memory_whole d.descriptors d.device_descriptor 18 h18 in
    let old : length (drop 18 d.descriptors) ≡ 4078 = omega (arith, length-drop 18 d.descriptors) in
    let appended =
      append_config_lem d.device_descriptor (drop 18 d.descriptors) config total count h18 old hc in
    elim (Bool-cases (leb total 4078)) [
      | inl q ↦ rw (first, h4096, r, appended, q, drop-drop total 18 d.descriptors) refl
      | inr q ↦ rw (first, h4096, r, appended, q) refl
    ]
