-- ===== src/Driver/UrbHandlers/Safety.antt =====
-- The buffer accesses of the handler of completions.
use usb_over_ip.Common.{
  ℕ, ◌+◌, ◌≤◌, ◌≡◌, ◌≢◌, refl, List, [], ◌∷◌, Option, none, some, arith, Option-cases, inl, inr,
  if◌then◌else◌, ◌==◌, length, Bool-cases, All, min, is_some, ltb, ◌||◌, true, false,
}
use usb_over_ip.Protocol.Status
use usb_over_ip.Ioctl.{UrbCompletion, urb_completion_size}
use usb_over_ip.Ioctl.Reading.{Reads-urb_completion}
use usb_over_ip.Driver.{NtStatus, UrbEntry, DeviceContext}
use usb_over_ip.Driver.Queue.{find_urb, copy_in, complete_urb, take_urb}
use usb_over_ip.Driver.Queue.Completing.{copy_memory_lem}
use usb_over_ip.Driver.Request.{Framework, Retrieved, IsDocumented, maps}
use usb_over_ip.Driver.UrbHandlers.{
  complete_found, complete_with, handle_complete_urb, completion_data,
}

-- The transfer buffer, if there is one, holds the announced length.
abbrev pub IsSized : UrbEntry → Type 0
IsSized e = (b : List ℕ) → e.transfer_buffer ≡ some b → e.transfer_buffer_length ≤ length b

copy_in_total :
    (src dst : Option (List ℕ)) (len actual : ℕ)
    → ((b : List ℕ) → dst ≡ some b → len ≤ length b)
    → ((s : List ℕ) → src ≡ some s → actual ≤ length s)
    → copy_in src dst len actual ≢ none
unfolding copy_in
copy_in_total none dst len actual h k = λ e. cc
copy_in_total (some s) none len actual h k = λ e. cc
copy_in_total (some s) (some d) len actual h k = ground (
  arith,
  h d refl,
  k s refl,
  copy_memory_lem d s (min actual len) (omega (arith, h d refl)) (omega (arith, k s refl)),
)

complete_urb_total :
    (ctx : DeviceContext) (e : UrbEntry) (s : NtStatus) (actual : ℕ) (src : Option (List ℕ))
    → IsSized e
    → ((d : List ℕ) → src ≡ some d → actual ≤ length d)
    → complete_urb ctx e s actual src ≢ none
unfolding complete_urb
complete_urb_total ctx e s actual src h k =
    ground (arith, copy_in_total src e.transfer_buffer e.transfer_buffer_length actual h k)

take_urb-IsSized :
    (id : ℕ) (es : List UrbEntry) (e : UrbEntry) (rest : List UrbEntry)
    → All IsSized es
    → take_urb id es ≡ some (e, rest)
    → IsSized e
unfolding take_urb
take_urb-IsSized id [] e rest a h = cc
take_urb-IsSized id (x ∷ es) e rest a h = elim (Bool-cases (x.urb_id == id)) [
  | inl hit ↦ let q : x ≡ e = ground arith in rw (← q) (a.0)
  | inr miss ↦ elim (Option-cases (take_urb id es)) [
    | inl q ↦ absurd (ground arith)
    | inr ((y, ys), q) ↦
        let p : y ≡ e = ground arith in rw (← p) (take_urb-IsSized id es y ys a.1 q)
  ]
]

find_urb-IsSized :
    (ctx : DeviceContext) (id : ℕ) (e : UrbEntry)
    → All IsSized ctx.pending_urb_list
    → (find_urb ctx id).0 ≡ some e
    → IsSized e
unfolding find_urb
find_urb-IsSized ctx id e a h = elim (Option-cases (take_urb id ctx.pending_urb_list)) [
  | inl q ↦ absurd (ground arith)
  | inr ((x, rest), q) ↦
      let p : x ≡ e = ground arith in rw (← p) (take_urb-IsSized id ctx.pending_urb_list x rest a q)
]

complete_found_total :
    (o : Option UrbEntry) (ctx : DeviceContext) (c : UrbCompletion) (tail : List ℕ) (n : ℕ)
    → ((e : UrbEntry) → o ≡ some e → IsSized e)
    → length tail + urb_completion_size ≡ n
    → complete_found o ctx c tail n ≢ none
unfolding complete_found
complete_found_total none ctx c tail n a m = λ e. cc
complete_found_total (some e) ctx c tail n a m = ground (
  arith,
  complete_urb_total ctx e
      (if c.status == Status.success then NtStatus.success else NtStatus.unsuccessful)
      c.actual_length (completion_data c tail n) (a e refl) (λ d k. ground arith),
)

complete_with_total :
    (ctx : DeviceContext) (b : List ℕ) (n : ℕ)
    → All IsSized ctx.pending_urb_list
    → length b ≡ n
    → urb_completion_size ≤ n
    → complete_with ctx b n ≢ none
unfolding complete_with
complete_with_total ctx b n a l h =
    let (c, tail, q, m) = Reads-urb_completion b (omega arith) in
    rw q (
      complete_found_total (find_urb ctx c.urb_id).0 (find_urb ctx c.urb_id).1 c tail n
        (λ e. find_urb-IsSized ctx c.urb_id e a) (omega arith))

pub is_some_ne : {A : Type 0} (o : Option A) → o ≢ none → is_some o ≡ true
is_some_ne none h = absurd (h refl)
is_some_ne (some a) h = refl

-- Where the pending entries hold the lengths that they announce and the framework behaves as
-- documented, a completion request goes outside the memory exactly if it is long enough for the
-- structure and its direct buffer cannot be mapped, which the code does not test: with any mapped or
-- buffered input it never does, whatever length the completion claims and whatever bytes it consists
-- of.
pub handle_complete_urb_faults :
    (f : Framework) (ctx : DeviceContext) (req n m : ℕ)
    → IsDocumented f req n m
    → All IsSized ctx.pending_urb_list
    → is_some (handle_complete_urb f ctx req n)
      ≡ (ltb n urb_completion_size || maps (f.input_mdl req))
unfolding handle_complete_urb
handle_complete_urb_faults f ctx req n m doc a = elim (Bool-cases (ltb n urb_completion_size)) [
  | inl q ↦ rw (q, handle_complete_urb) refl
  | inr q ↦ go q (f.input_mdl req) (f.retrieve_input req urb_completion_size) refl refl
]
  where
    go :
        ltb n urb_completion_size ≡ false
        → (o : Option (Option (List ℕ))) (b : Retrieved) → f.input_mdl req ≡ o
        → f.retrieve_input req urb_completion_size ≡ b
        → is_some (handle_complete_urb f ctx req n)
          ≡ (ltb n urb_completion_size || maps (f.input_mdl req))
    go t (some none) b p q = ground (arith, t)
    go t (some (some c)) b p q =
        let fine = complete_with_total ctx c n a (doc.input_mdl_lem c p) (ground arith) in
        rw (t, p, handle_complete_urb) (is_some_ne (complete_with ctx c n) fine)
    go t none (Retrieved.refused s) p q = rw (t, p, q, handle_complete_urb) refl
    go t none (Retrieved.retrieved c) p q =
        let fine =
          complete_with_total ctx c n a (doc.input_length_lem urb_completion_size c q).1
            (ground arith) in
        rw (t, p, q, handle_complete_urb) (is_some_ne (complete_with ctx c n) fine)
