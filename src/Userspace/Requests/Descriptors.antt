-- ===== src/Userspace/Requests/Descriptors.antt =====
-- userspace/vusb_userspace.c: the search of a descriptor, against a list of descriptors.
use usb_over_ip.Common.{
  ℕ, zero, suc, ◌+◌, ◌-◌, ◌/◌, ◌%◌, ◌^◌, ◌≤◌, ◌<◌, ◌≡◌, ◌≢◌, refl, ap, List, [], ◌∷◌, ◌++◌, false,
  ◌&&◌, Option, none, some, ◌==◌, ltb, if◌then◌else◌, length, take, drop, get_elem?, All, arith,
  le→ltb, lt→ltb, ◌∙◌, length-append, take-append, drop-append, take_all, Bool-cases, append_assoc,
  sym, ltb→lt, inl, inr,
}
use mathlib.Core.Path.{subst}
use mathlib.Core.Option.{some-injective}
use usb_over_ip.Driver.Table.{add32}
use usb_over_ip.Userspace.{UserDevice}
use usb_over_ip.Userspace.Requests.{
  Search, search_turn, find_descriptor, copy_descriptor, get_descriptor,
}

-- A descriptor without its length.
pub record Block : Type 0 where
  pub kind : ℕ
  pub body : List ℕ

unfoldable pub encode_block : Block → List ℕ
encode_block b = suc (suc (length b.body)) ∷ b.kind ∷ b.body

unfoldable pub encode_blocks : List Block → List ℕ
encode_blocks [] = []
encode_blocks (b ∷ bs) = encode_block b ++ encode_blocks bs

-- The descriptor with that many others of its kind before it.
unfoldable pub nth_of_kind : ℕ → ℕ → List Block → Option Block
nth_of_kind kind index [] = none
nth_of_kind kind index (b ∷ bs) =
    if b.kind == kind
    then elim index [ zero ↦ some b | suc i ↦ nth_of_kind kind i bs ]
    else nth_of_kind kind index bs

abbrev pub cut_block : ℕ → Option Block → Option (List ℕ)
cut_block n none = none
cut_block n (some b) = some (take n (encode_block b))

-- Reads behind a prefix.
get_elem?-append :
    (ds xs ys : List ℕ) (offset i : ℕ)
    → ds ≡ xs ++ ys
    → offset ≡ length xs
    → get_elem? ds (offset + i) ≡ get_elem? ys i
get_elem?-append ds [] ys offset i e h = rw (e, h) (ap (get_elem? ys) (omega arith))
get_elem?-append ds (x ∷ xs) ys offset i e h =
    let shift : offset + i ≡ suc (length xs + i) = omega arith in
    rw (e, shift) (get_elem?-append (xs ++ ys) xs ys (length xs) i refl refl)

take-prefix : (n : ℕ) (xs ys : List ℕ) → n ≤ length xs → take n (xs ++ ys) ≡ take n xs
take-prefix zero xs ys h = refl
take-prefix (suc n) [] ys h = absurd (omega arith)
take-prefix (suc n) (x ∷ xs) ys h = ap (◌∷◌ x) (take-prefix n xs ys (omega arith))

-- A located descriptor is copied up to the length that is asked for.
copy_located :
    (ds pre rest : List ℕ) (b : Block) (offset w : ℕ)
    → ds ≡ pre ++ (encode_block b ++ rest)
    → offset ≡ length pre
    → copy_descriptor ds w (Search.located offset (suc (suc (length b.body))))
      ≡ some (some (take w (encode_block b)))
unfolding copy_descriptor encode_block
copy_located ds pre rest b offset w e h =
    let behind : drop offset ds ≡ encode_block b ++ rest =
      rw (e, h) (drop-append (length pre) pre (encode_block b ++ rest) refl) in
    let size : length ds ≡ offset + length (encode_block b) + length rest =
      rw (e, h)
        (omega (
          arith,
          length-append pre (encode_block b ++ rest),
          length-append (encode_block b) rest,
        )) in
    rw behind (
      ground (
        arith,
        size,
        take-prefix w (encode_block b) rest,
        take-append (length (encode_block b)) (encode_block b) rest refl,
        take_all w (encode_block b),
      ))

-- One turn of the search that reads a length and a type.
find_turn :
    (n : ℕ) (ds : List ℕ) (kind index offset len t : ℕ)
    → offset < length ds
    → get_elem? ds offset ≡ some (suc len)
    → get_elem? ds (offset + 1) ≡ some t
    → find_descriptor (suc n) ds (length ds) kind index offset ≡ (
        if t == kind && index == 0
        then Search.located offset (suc len)
        else find_descriptor n ds
            (length ds)
            kind
            (if t == kind then index - 1 else index)
            (add32 offset (suc len)))
unfolding find_descriptor search_turn
find_turn n ds kind index offset len t h p q = ground (arith, lt→ltb offset (length ds) h, p, q)

-- What a search from an offset finds among the descriptors that start there.
Finds : ℕ → List ℕ → List Block → ℕ → ℕ → ℕ → ℕ → Type 0
Finds n ds bs kind index offset w =
    copy_descriptor ds w (find_descriptor n ds (length ds) kind index offset)
    ≡ some (cut_block w (nth_of_kind kind index bs))

-- The choice that a turn makes between what it reads and the later turns.
chosen :
    (ds : List ℕ) (w : ℕ) (b : Block) (bs : List Block) (kind index : ℕ) (here : Search)
    (later : ℕ → Search)
    → copy_descriptor ds w here ≡ some (some (take w (encode_block b)))
    → ((i : ℕ) → copy_descriptor ds w (later i) ≡ some (cut_block w (nth_of_kind kind i bs)))
    → copy_descriptor ds w (
        if b.kind == kind && index == 0
        then here
        else later (if b.kind == kind then index - 1 else index))
      ≡ some (cut_block w (nth_of_kind kind index (b ∷ bs)))
unfolding nth_of_kind
chosen ds w b bs kind zero here later p q = elim (Bool-cases (b.kind == kind)) [
  | inl e ↦ rw e p
  | inr e ↦ rw e (q 0)
]
chosen ds w b bs kind (suc i) here later p q =
    let back : suc i - 1 ≡ i = omega arith in
    let different : (suc i == 0) ≡ false = ground arith in
    elim (Bool-cases (b.kind == kind)) [
      | inl e ↦ rw (e, different, back) (q i)
      | inr e ↦ rw e (q (suc i))
    ]

-- One descriptor more.
Finds-next :
    (n : ℕ) (ds pre : List ℕ) (b : Block) (bs : List Block) (kind index offset w : ℕ)
    → ds ≡ pre ++ (encode_block b ++ encode_blocks bs)
    → offset ≡ length pre
    → length ds < 2 ^ 32
    → ((i : ℕ) → Finds n ds bs kind i (offset + suc (suc (length b.body))) w)
    → Finds (suc n) ds (b ∷ bs) kind index offset w
unfolding Finds encode_block nth_of_kind
Finds-next n ds pre b bs kind index offset w e h l later =
    let size : length ds ≡ offset + suc (suc (length b.body)) + length (encode_blocks bs) =
      rw (e, h)
        (omega (
          arith,
          length-append pre (encode_block b ++ encode_blocks bs),
          length-append (encode_block b) (encode_blocks bs),
        )) in
    let here : get_elem? ds offset ≡ some (suc (suc (length b.body))) =
      subst (λ o. get_elem? ds o ≡ some (suc (suc (length b.body)))) (omega arith)
        (get_elem?-append ds pre (encode_block b ++ encode_blocks bs) offset 0 e h) in
    let moved : add32 offset (suc (suc (length b.body))) ≡ offset + suc (suc (length b.body)) =
      omega (arith, size) in
    let copied = copy_located ds pre (encode_blocks bs) b offset w e h in
    let next : get_elem? ds (offset + 1) ≡ some b.kind =
      get_elem?-append ds pre (encode_block b ++ encode_blocks bs) offset 1 e h in
    rw
      (
        find_turn n ds kind index offset (suc (length b.body)) b.kind (omega (arith, size)) here
            next,
        moved,
      )
      (chosen ds w b bs kind index _
        (λ i. find_descriptor n ds (length ds) kind i (offset + suc (suc (length b.body)))) copied
        later)

searched_nth :
    (n : ℕ) (ds pre : List ℕ) (bs : List Block) (kind index offset w : ℕ)
    → ds ≡ pre ++ encode_blocks bs
    → offset ≡ length pre
    → length ds < 2 ^ 32
    → length ds < n + offset
    → Finds n ds bs kind index offset w
unfolding Finds find_descriptor copy_descriptor encode_block encode_blocks nth_of_kind
searched_nth zero ds pre bs kind index offset w e h l k =
    absurd (omega (arith, ap length e, length-append pre (encode_blocks bs)))
searched_nth (suc n) ds pre [] kind index offset w e h l k =
    rw (le→ltb offset (length ds) (rw (e, h) (omega (arith, length-append pre [])))) refl
searched_nth (suc n) ds pre (b ∷ bs) kind index offset w e h l k =
    Finds-next n ds pre b bs kind index offset w e h l λ i.
      searched_nth n ds (pre ++ encode_block b) bs kind i (offset + suc (suc (length b.body))) w
        (e ∙ sym (append_assoc pre (encode_block b) (encode_blocks bs)))
        (omega (arith, length-append pre (encode_block b))) l (omega arith)

-- A device whose descriptors are a list of well-formed ones, less than 4 GB, answers a request for a
-- descriptor with the one of the requested type that has the requested index among those of that
-- type, cut at the length asked for, and refuses the request if there is none.
pub get_descriptor-nth_of_kind :
    (d : UserDevice) (bs : List Block) (w_value w_length : ℕ)
    → d.descriptors ≡ some (encode_blocks bs)
    → d.descriptor_length ≡ length (encode_blocks bs)
    → length (encode_blocks bs) < 2 ^ 32
    → get_descriptor d w_value w_length
      ≡ some (cut_block w_length (nth_of_kind (w_value / 256 % 256) (w_value % 256) bs))
unfolding get_descriptor Finds
get_descriptor-nth_of_kind d bs w_value w_length p q l =
    rw (p, q)
      (searched_nth (suc (length (encode_blocks bs))) (encode_blocks bs) [] bs (w_value / 256 % 256)
        (w_value % 256) 0 w_length refl refl l (omega arith))

get_elem?-All : (P : ℕ → Type 0) (xs : List ℕ) (i x : ℕ) → All P xs → get_elem? xs i ≡ some x → P x
get_elem?-All P [] i x a h = cc
get_elem?-All P (y ∷ ys) zero x a h = subst P (some-injective y x h) a.0
get_elem?-All P (y ∷ ys) (suc i) x a h = get_elem?-All P ys i x a.1 h

turn_finishes :
    (len t : Option ℕ) (kind index offset : ℕ) (later : ℕ → ℕ → Search)
    → ((i l : ℕ) → len ≡ some l → l ≢ 0 → later i (add32 offset l) ≢ Search.unfinished)
    → search_turn len t kind index offset later ≢ Search.unfinished
unfolding search_turn
turn_finishes none t kind index offset later h = λ e. cc
turn_finishes (some l) none kind index offset later h = λ e. cc
turn_finishes (some l) (some t) kind index offset later h = elim (Bool-cases (l == 0)) [
  | inl z ↦ rw z (λ e. cc)
  | inr z ↦ rw z (elim (Bool-cases (t == kind && index == 0)) [
    | inl q ↦ rw q (λ e. cc)
    | inr q ↦ rw q (h (if t == kind then index - 1 else index) l refl (λ e. ground arith))
  ])
]

-- The search for a descriptor ends on any bytes, of at most 4 GB less 256, with the fuel it is given,
-- one turn more than there are bytes from the offset on.
pub find_descriptor_finishes :
    (n : ℕ) (ds : List ℕ) (size kind index offset : ℕ)
    → All (λ b. b < 256) ds
    → size + 256 ≤ 2 ^ 32
    → size - offset < n
    → find_descriptor n ds size kind index offset ≢ Search.unfinished
unfolding find_descriptor
find_descriptor_finishes zero ds size kind index offset a h l = absurd (omega arith)
find_descriptor_finishes (suc n) ds size kind index offset a h l =
    elim (Bool-cases (ltb offset size)) [
      | inr q ↦ rw q (λ e. cc)
      | inl q ↦ rw q (
          turn_finishes (get_elem? ds offset) (get_elem? ds (offset + 1)) kind index offset
            (find_descriptor n ds size kind)
            λ i len e z.
              let small : len < 256 = get_elem?-All (λ b. b < 256) ds offset len a e in
              find_descriptor_finishes n ds size kind i (add32 offset len) a h
                (omega (arith, ltb→lt offset size q)))
    ]
