-- ===== src/Daemon/Access/Framing.antt =====
-- What a frame that is accepted says of the bytes that came in.
use kitt_assistant.Base.{
  All-append, refl, ◌≡◌, inl, inr, sym, ap, subst, ◌∙◌, Bool, true, false, not, Option, some, List,
  [], ◌∷◌, ◌++◌, reverse, ℕ, ◌≤◌, arith, Text, ltb, Result, ok, refuse_if, ok_or, length, All,
  codes, is_empty, Bool-cases, ok_or-eq-ok, >>=-eq-ok,
}
use mathlib.Core.List.{reverse-cons, reverse-reverse, reverse-append}
use kitt_assistant.Daemon.Access.{read_frame, pop_line_ends, is_line_end, starts_with_newline}

abbrev IsLineEnd : ℕ → Type 0
IsLineEnd b = is_line_end b ≡ true

-- No line end stands at the front.
abbrev pub IsClean : List ℕ → Type 0
IsClean [] = Unit
IsClean (b ∷ rest) = is_line_end b ≡ false

-- Line ends are popped from the front, and only they are.
pop_line_ends-Pops :
    (bs : List ℕ)
    → IsClean (pop_line_ends bs)
      × ((ends : List ℕ) × (bs ≡ ends ++ pop_line_ends bs) × All IsLineEnd ends)
unfolding pop_line_ends
pop_line_ends-Pops [] = (tt, ([], refl, tt))
pop_line_ends-Pops (b ∷ rest) = elim (Bool-cases (is_line_end b)) [
  | inl e ↦
      let (clean, (ends, split, all_ends)) = pop_line_ends-Pops rest in
      rw (e, pop_line_ends) (clean, (b ∷ ends, ap (λ l. b ∷ l) split, (e, all_ends)))
  | inr n ↦ rw (n, pop_line_ends) (n, ([], refl, tt))
]

ok_eq : (a b : List ℕ) → ◌≡◌ {A = Result Text (List ℕ)} (ok a) (ok b) → a ≡ b
ok_eq a b e = ground arith

All-reverse : (xs : List ℕ) → All IsLineEnd xs → All IsLineEnd (reverse xs)
All-reverse [] h = tt
All-reverse (x ∷ xs) (p, h) =
    subst (All IsLineEnd) (sym (reverse-cons x xs))
      (All-append IsLineEnd (reverse xs) (x ∷ []) (All-reverse xs h) (p, tt))

-- The frame is what came in without the line ends behind it, of which there is a newline.
abbrev pub IsFrame : ℕ → List ℕ → List ℕ → Type 0
IsFrame max_frame_bytes received frame =
    (length received ≤ max_frame_bytes)
    × (starts_with_newline (reverse received) ≡ true)
    × IsClean (reverse frame)
    × ((ends : List ℕ) × (received ≡ frame ++ ends) × All IsLineEnd ends)

popped-IsFrame :
    (max_frame_bytes : ℕ) (received : List ℕ)
    → length received ≤ max_frame_bytes
    → starts_with_newline (reverse received) ≡ true
    → IsFrame max_frame_bytes received (reverse (pop_line_ends (reverse received)))
popped-IsFrame max_frame_bytes received small ended =
    let popped = pop_line_ends (reverse received) in
    let (clean, (ends, split, all_ends)) = pop_line_ends-Pops (reverse received) in
    (
      small,
      ended,
      subst IsClean (sym (reverse-reverse popped)) clean,
      (
        reverse ends,
        sym (reverse-reverse received) ∙ ap reverse split ∙ reverse-append ends popped,
        All-reverse ends all_ends,
      ),
    )

-- A frame that is accepted came from a read of at most the largest size, which ends in a newline, and is what was
-- read without the newlines and carriage returns at its end, all of which are taken away.
pub read_frame-IsFrame :
    (max_frame_bytes : ℕ) (can_clone : Bool) (read_until : Option (List ℕ)) (frame : List ℕ)
    → read_frame max_frame_bytes can_clone read_until ≡ ok frame
    → (received : List ℕ) × (read_until ≡ some received) × IsFrame max_frame_bytes received frame
unfolding read_frame
read_frame-IsFrame max_frame_bytes can_clone read_until frame e =
    let (_, cloned, e₁) = >>=-eq-ok (refuse_if (not can_clone) (codes "stream_clone_failed")) _ e in
    let (received, there, e₂) = >>=-eq-ok (ok_or read_until (codes "frame_read_failed")) _ e₁ in
    let (_, small, e₃) =
      >>=-eq-ok (refuse_if (ltb max_frame_bytes (length received)) (codes "request_too_large")) _
        e₂ in
    let (_, full, e₄) = >>=-eq-ok (refuse_if (is_empty received) (codes "empty_request")) _ e₃ in
    let (_, ended, e₅) =
      >>=-eq-ok
        (refuse_if (not (starts_with_newline (reverse received))) (codes "frame_not_terminated")) _
        e₄ in
    (
      received,
      ok_or-eq-ok _ _ there,
      subst (IsFrame max_frame_bytes received) (ok_eq _ _ e₅)
          (popped-IsFrame max_frame_bytes received (ground arith) (ground arith)),
    )
