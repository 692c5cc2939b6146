-- ===== src/Client/Capture/Walking.antt =====
-- client/vusb_capture.c: the walk over a configuration, against a list of interfaces with their
-- endpoints.
use usb_over_ip.Common.{
  ℕ, zero, suc, ◌+◌, ◌-◌, ◌*◌, ◌/◌, ◌%◌, ◌<◌, ◌≤◌, ◌≡◌, refl, List, [], ◌∷◌, ◌++◌, true, false,
  ◌||◌, some, ◌==◌, ltb, length, drop, set, arith, ap, All, Bool-cases, inl, inr, lt→ltb,
  drop-append, drop-drop, sym, ◌∙◌, length-append, set-set, get_elem?-set_self, append_assoc,
}
use mathlib.Core.Path.{subst}
use usb_over_ip.Common.{append-nil}
use usb_over_ip.Client.Capture.{InterfaceInfo, EndpointInfo}
use usb_over_ip.Client.Capture.Configuration.{
  Walk, Parsed, parse_one, parse_later, parse_turn, parse_loop, put_endpoint, parse_endpoint,
}
use usb_over_ip.Userspace.Requests.Descriptors.{Block, encode_block}

-- What follows an interface descriptor: its endpoints, and descriptors of other kinds.
pub data Part : Type 0 where
  endpoint : EndpointInfo → Part
  other : Block → Part

unfoldable pub encode_part : Part → List ℕ
encode_part (endpoint e) =
    7
    ∷ 5
    ∷ e.address
    ∷ e.attributes
    ∷ e.max_packet_size % 256
    ∷ e.max_packet_size / 256
    ∷ e.interval
    ∷ []
encode_part (other b) = encode_block b

unfoldable pub encode_parts : List Part → List ℕ
encode_parts [] = []
encode_parts (p ∷ ps) = encode_part p ++ encode_parts ps

unfoldable pub endpoints_of : List Part → List EndpointInfo
endpoints_of [] = []
endpoints_of (endpoint e ∷ ps) = e ∷ endpoints_of ps
endpoints_of (other b ∷ ps) = endpoints_of ps

unfoldable pub IsOther : Part → Type 0
IsOther (endpoint e) = Unit
IsOther (other b) = (b.kind == 4 || b.kind == 5) ≡ false

-- The result of the walk from an offset, with more fuel than there are bytes left.
unfoldable pub Ends : List ℕ → ℕ → ℕ → Walk → Walk → Type 0
Ends config end offset w v =
    (n : ℕ) → end - offset < n → parse_loop n config end offset w ≡ Parsed.parsed v

-- The bytes behind an offset.
unfoldable pub Behind : List ℕ → ℕ → ℕ → List ℕ → Type 0
Behind config end offset bytes = (drop offset config ≡ bytes) × (offset + length bytes ≡ end)

pub Behind-append :
    (config : List ℕ) (end offset : ℕ) (xs ys : List ℕ)
    → Behind config end offset (xs ++ ys)
    → Behind config end (offset + length xs) ys
unfolding Behind
Behind-append config end offset xs ys (e, h) = (
  sym (drop-drop (length xs) offset config)
      ∙ (ap (drop (length xs)) e ∙ drop-append (length xs) xs ys refl),
  omega (arith, length-append xs ys),
)

-- The same walk, from an equal offset and equal variables.
pub Ends-eq :
    (config : List ℕ) (end o q : ℕ) (w u v : Walk)
    → o ≡ q
    → w ≡ u
    → Ends config end o w v
    → Ends config end q u v
Ends-eq config end o q w u v e f h =
    subst (λ x. Ends config end q x v) f (subst (λ x. Ends config end x w v) e h)

-- One turn, over a descriptor that is parsed.
pub Ends-next :
    (config : List ℕ) (end offset len t : ℕ) (body : List ℕ) (w u v : Walk)
    → Behind config end offset (suc len ∷ t ∷ body)
    → parse_one w (suc len) t body ≡ some u
    → Ends config end (offset + suc len) u v
    → Ends config end offset w v
unfolding Ends Behind parse_loop parse_turn parse_later
Ends-next config end offset len t body w u v (e, h) p later zero l = absurd (omega arith)
Ends-next config end offset len t body w u v (e, h) p later (suc n) l =
    let inside : ltb offset end ≡ true = lt→ltb offset end (omega arith) in
    let positive : (suc len == 0) ≡ false = ground arith in
    rw (inside, e, positive, p) (later n (omega arith))

parse_one_other :
    (w : Walk) (len kind : ℕ) (body : List ℕ)
    → (kind == 4 || kind == 5) ≡ false
    → parse_one w len kind body ≡ some w
unfolding parse_one
parse_one_other w len kind body h = elim (Bool-cases (kind == 4)) [
  | inl q ↦ ground (arith, h, q)
  | inr q ↦ elim (Bool-cases (kind == 5)) [
    | inl p ↦ ground (arith, h, q, p)
    | inr p ↦ rw (q, p) refl
  ]
]

-- A walk in the interface with a number, whose endpoints are known up to the next.
unfoldable pub within :
    List InterfaceInfo → ℕ → InterfaceInfo → List EndpointInfo → List EndpointInfo → Walk
within is number i pre old = record {
  interfaces = set is number (record i { endpoints = pre ++ old });
  current_interface = some number;
  current_endpoint = length pre;
}

set_next :
    (pre : List EndpointInfo) (e x : EndpointInfo) (old : List EndpointInfo)
    → set (pre ++ (x ∷ old)) (length pre) e ≡ (pre ++ (e ∷ [])) ++ old
set_next [] e x old = refl
set_next (y ∷ pre) e x old = ap (◌∷◌ y) (set_next pre e x old)

parse_one_endpoint :
    (is : List InterfaceInfo) (number : ℕ) (i : InterfaceInfo) (pre old : List EndpointInfo)
    (e x : EndpointInfo) (rest : List ℕ)
    → number < length is
    → length pre < 32
    → parse_one (within is number i pre (x ∷ old)) 7 5 (
        e.address
        ∷ e.attributes
        ∷ e.max_packet_size % 256
        ∷ e.max_packet_size / 256
        ∷ e.interval
        ∷ rest)
      ≡ some (within is number i (pre ++ (e ∷ [])) old)
unfolding parse_one parse_endpoint put_endpoint within
parse_one_endpoint is number i pre old e x rest h l =
    let found = get_elem?-set_self is number (record i { endpoints = pre ++ (x ∷ old) }) h in
    let inside : ltb (length pre) 32 ≡ true = lt→ltb (length pre) 32 l in
    let size : e.max_packet_size % 256 + 256 * (e.max_packet_size / 256) ≡ e.max_packet_size =
      omega arith in
    let next : length (pre ++ (e ∷ [])) ≡ suc (length pre) =
      omega (arith, length-append pre (e ∷ [])) in
    rw
      (
        inside,
        found,
        size,
        next,
        set_next pre e x old,
        set-set is number (record i { endpoints = pre ++ (x ∷ old) })
            (record i { endpoints = (pre ++ (e ∷ [])) ++ old }),
      )
      refl

-- The walk over the parts of an interface, from the end of the walk behind them.
pub Ends-parts :
    (config : List ℕ) (end offset : ℕ) (ps : List Part) (rest : List ℕ) (is : List InterfaceInfo)
    (number : ℕ) (i : InterfaceInfo) (pre old : List EndpointInfo) (v : Walk)
    → number < length is
    → length pre + length (endpoints_of ps) ≤ 32
    → length (endpoints_of ps) ≤ length old
    → All IsOther ps
    → Behind config end offset (encode_parts ps ++ rest)
    → Ends config end
        (offset + length (encode_parts ps))
        (within is number i (pre ++ endpoints_of ps) (drop (length (endpoints_of ps)) old))
        v
    → Ends config end offset (within is number i pre old) v
unfolding encode_parts encode_part encode_block endpoints_of IsOther
Ends-parts config end offset [] rest is number i pre old v h l m a b later =
    Ends-eq config end _ _ _ _ v (omega arith)
      (ap (λ es. within is number i es old) (append-nil pre)) later
Ends-parts config end offset (endpoint e ∷ ps) rest is number i pre [] v h l m a b later =
    absurd (omega arith)
Ends-parts config end offset (endpoint e ∷ ps) rest is number i pre (x ∷ old) v h l m a b later =
    let behind =
      Behind-append config end offset (encode_part (endpoint e)) (encode_parts ps ++ rest) b in
    let more : length (pre ++ (e ∷ [])) ≡ length pre + 1 =
      omega (arith, length-append pre (e ∷ [])) in
    let es = endpoints_of ps in
    let last =
      Ends-eq config end (offset + length (encode_parts (endpoint e ∷ ps)))
        (offset + 7 + length (encode_parts ps)) _ _ v (omega arith)
        (ap (λ xs. within is number i xs (drop (length es) old))
          (sym (append_assoc pre (e ∷ []) es)))
        later in
    Ends-next config end offset 6 5 _ _ _ v b
      (parse_one_endpoint is number i pre old e x (encode_parts ps ++ rest) h (omega arith))
      (Ends-parts config end (offset + 7) ps rest is number i (pre ++ (e ∷ [])) old v h
        (omega arith) (omega arith) a.1 behind last)
Ends-parts config end offset (other c ∷ ps) rest is number i pre old v h l m a b later =
    let whole : Behind config end offset (encode_block c ++ (encode_parts ps ++ rest)) =
      subst (Behind config end offset) (append_assoc (encode_block c) (encode_parts ps) rest) b in
    let last =
      Ends-eq config end (offset + length (encode_block c ++ encode_parts ps))
        (offset + length (encode_block c) + length (encode_parts ps)) _ _ v
        (omega (arith, length-append (encode_block c) (encode_parts ps))) refl later in
    Ends-next config end offset (suc (length c.body)) c.kind (c.body ++ (encode_parts ps ++ rest)) _
      _ v whole (parse_one_other (within is number i pre old) _ c.kind _ a.0)
      (Ends-parts config end (offset + length (encode_block c)) ps rest is number i pre old v h l m
        a.1 (Behind-append config end offset (encode_block c) (encode_parts ps ++ rest) whole) last)
