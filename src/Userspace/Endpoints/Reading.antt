-- ===== src/Userspace/Endpoints/Reading.antt =====
-- userspace/vusb_userspace.c: the buffer of an endpoint as the bytes that are still to be read.
use usb_over_ip.Common.{
  ℕ, ◌+◌, ◌-◌, ◌^◌, ◌≤◌, ◌<◌, ◌≡◌, refl, ap, sym, List, [], ◌∷◌, ◌++◌, true, Option, none, some,
  take_nil, drop_nil, take-take, drop-take, drop-drop, take-sum, ◌>>=◌, length, take, drop, arith,
  inl, inr, length-take, length-drop, take_all, take-append, ==→eq, ltb→lt, Bool-cases, ◌==◌, ltb,
  le→leb, le→ltb, length-append, drop_all,
}
use usb_over_ip.Driver.Table.{copy_memory}
use usb_over_ip.Userspace.{UserEndpoint}
use usb_over_ip.Userspace.Endpoints.{write_buffer, read_buffer}

-- The bytes of the buffer that are still to be read.
unfoldable pub unread : UserEndpoint → List ℕ
unread e = elim e.buffer [
  | none ↦ []
  | some b ↦ take (e.data_length - e.data_offset) (drop e.data_offset b)
]

-- The endpoint has a buffer, and its offsets are in it.
pub record IsBuffered (e : UserEndpoint) : Type 0 where
  pub memory : List ℕ
  pub has_memory : e.buffer ≡ some memory
  pub offset_le : e.data_offset ≤ e.data_length
  pub length_le : e.data_length ≤ length memory
  pub length_lt : e.data_length < 2 ^ 32

-- What a read of that many bytes does.
Takes : UserEndpoint → ℕ → Type 0
Takes e n =
    (f : UserEndpoint) × (read_buffer e n ≡ some (take n (unread e), f))
    × (unread f ≡ drop n (unread e))
    × IsBuffered f

Takes-none : (e : UserEndpoint) (n : ℕ) → IsBuffered e → e.data_length ≡ 0 → Takes e n
unfolding Takes read_buffer unread
Takes-none e n v z =
    let nothing : e.data_length - e.data_offset ≡ 0 = omega arith in
    let empty : unread e ≡ [] = rw (v.has_memory, nothing) refl in
    let read : read_buffer e n ≡ some ([], e) = rw (v.has_memory, z) refl in
    (e, rw (empty, take_nil n) read, rw (empty, drop_nil n) refl, v)

Takes-some :
    (e : UserEndpoint) (n : ℕ) → IsBuffered e → n < e.data_length - e.data_offset → Takes e n
unfolding Takes read_buffer unread
Takes-some e n v l =
    let rest = e.data_length - (e.data_offset + n) in
    (
      record e { data_offset = e.data_offset + n },
      rw
          (
            v.has_memory,
            take-take n (e.data_length - e.data_offset) (drop e.data_offset v.memory) (omega arith),
          )
          (ground (arith, v.length_le, v.length_lt, v.offset_le)),
      rw
          (
            v.has_memory,
            drop-take n (e.data_length - e.data_offset) (drop e.data_offset v.memory),
            drop-drop n e.data_offset v.memory,
          )
          (ap (λ k. take k (drop (e.data_offset + n) v.memory)) (omega arith)),
      record {
        memory = v.memory;
        has_memory = v.has_memory;
        offset_le = omega (arith, v.offset_le);
        length_le = v.length_le;
        length_lt = v.length_lt;
      },
    )

Takes-all :
    (e : UserEndpoint) (n : ℕ)
    → IsBuffered e
    → 0 < e.data_length
    → e.data_length - e.data_offset ≤ n
    → Takes e n
unfolding Takes read_buffer unread
Takes-all e n v z l =
    let size = e.data_length - e.data_offset in
    let all = unread e in
    let short : length all ≤ n =
      rw v.has_memory (omega (arith, length-take size (drop e.data_offset v.memory))) in
    let whole : take n all ≡ all = take_all n all short in
    let read : read_buffer e n ≡ some (all, record e { data_length = 0; data_offset = 0 }) =
      rw v.has_memory (ground (arith, v.length_le, v.length_lt, v.offset_le)) in
    (
      record e { data_length = 0; data_offset = 0 },
      rw whole read,
      rw v.has_memory (
          sym (
            drop_all n (take size (drop e.data_offset v.memory))
              (omega (arith, length-take size (drop e.data_offset v.memory))))),
      record {
        memory = v.memory;
        has_memory = v.has_memory;
        offset_le = omega arith;
        length_le = omega arith;
        length_lt = omega arith;
      },
    )

-- A read takes from the front of what is unread, as much as it asks for, and leaves the rest.
read_buffer-Takes : (e : UserEndpoint) (n : ℕ) → IsBuffered e → Takes e n
read_buffer-Takes e n v = elim (Bool-cases (e.data_length == 0)) [
  | inl z ↦ Takes-none e n v (==→eq e.data_length 0 z)
  | inr z ↦ elim (Bool-cases (ltb n (e.data_length - e.data_offset))) [
    | inl q ↦ Takes-some e n v (ltb→lt n _ q)
    | inr q ↦ Takes-all e n v (ground arith) (ground arith)
  ]
]

-- Reads of those sizes one after the other, and all the bytes that they give.
unfoldable pub read_pieces : UserEndpoint → List ℕ → Option (List ℕ × UserEndpoint)
read_pieces e [] = some ([], e)
read_pieces e (n ∷ ns) = do
  (bytes, f) ← read_buffer e n
  (more, g) ← read_pieces f ns
  some (bytes ++ more, g)

abbrev pub total : List ℕ → ℕ
total [] = 0
total (n ∷ ns) = n + total ns

-- Reads of an endpoint in pieces give together what one read of their total size gives: the unread
-- bytes from the front, each once and in order, and they leave the other bytes unread.
pub read_pieces-unread :
    (ns : List ℕ) (e : UserEndpoint)
    → IsBuffered e
    → (g : UserEndpoint) × (read_pieces e ns ≡ some (take (total ns) (unread e), g))
      × (unread g ≡ drop (total ns) (unread e))
      × IsBuffered g
unfolding read_pieces Takes
read_pieces-unread [] e v = (e, refl, refl, v)
read_pieces-unread (n ∷ ns) e v =
    let (f, r, u, w) = read_buffer-Takes e n v in
    let (g, s, t, x) = read_pieces-unread ns f w in
    (
      g,
      rw (r, s, u, take-sum n (total ns) (unread e)) refl,
      rw (t, u, drop-drop (total ns) n (unread e)) refl,
      x,
    )

-- An accepted write makes its bytes the unread ones, in place of those that are still unread. It is
-- accepted where the buffer has the endpoint's size, and that size the bytes.
pub write_buffer-unread :
    (e : UserEndpoint) (memory bytes : List ℕ)
    → e.buffer ≡ some memory
    → length memory ≡ e.buffer_size
    → e.buffer_size < 2 ^ 32
    → length bytes ≤ e.buffer_size
    → (f : UserEndpoint) × (write_buffer e bytes (length bytes) ≡ some (true, f))
      × (unread f ≡ bytes)
      × IsBuffered f
unfolding write_buffer copy_memory unread
write_buffer-unread e memory bytes m z l h =
    let size : length (bytes ++ drop (length bytes) memory) ≡ length memory = omega (
      arith,
      length-append bytes (drop (length bytes) memory),
      length-drop (length bytes) memory,
    ) in
    let whole : length bytes - 0 ≡ length bytes = omega arith in
    (
      record e {
        buffer = some (bytes ++ drop (length bytes) memory);
        data_length = length bytes;
        data_offset = 0;
      },
      rw
          (
            m,
            le→ltb e.buffer_size (length bytes) h,
            le→leb (length bytes) (length memory) (omega arith),
            le→leb (length bytes) (length bytes) (omega arith),
            take_all (length bytes) bytes (omega arith),
          )
          refl,
      rw whole (take-append (length bytes) bytes (drop (length bytes) memory) refl),
      record {
        memory = bytes ++ drop (length bytes) memory;
        has_memory = refl;
        offset_le = omega arith;
        length_le = omega (arith, size);
        length_lt = omega arith;
      },
    )
