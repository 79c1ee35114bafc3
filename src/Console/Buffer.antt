-- ===== src/Console/Buffer.antt =====
-- The formatter and its buffer: every conversion appends its text, cut at the capacity.
use ulmk_boards.Base.{
  ℕ, zero, suc, ◌-◌, ◌^◌, ◌≤◌, ◌≡◌, refl, sym, ap, ◌∙◌, inl, inr, Bool, Option, List, [], ◌∷◌, ◌++◌,
  append-nil, append_assoc, arith, ltb, leb, ◌==◌, leb→gt, if◌then◌else◌, Bool-cases, length, take,
  take_all, length-take, length-append,
}
use ulmk_boards.Base.Word.{add32}
use ulmk_boards.Console.Digits.{
  push, emit_tmp, digits_10, digits_16, fmt_u32, fmt_i32, fmt_hex, fmt_str, text_of,
}

-- `f` appends `s`, as far as there is room.
abbrev pub Appends : (ℕ → List ℕ → List ℕ) → List ℕ → Type 0
Appends f s = (cap : ℕ) (out : List ℕ) → length out ≤ cap → f cap out ≡ take cap (out ++ s)

pub take_more : (cap : ℕ) (xs ys : List ℕ) → length xs ≡ cap → take cap (xs ++ ys) ≡ xs
take_more zero [] ys h = refl
take_more zero (x ∷ xs) ys h = absurd (omega arith)
take_more (suc cap) [] ys h = absurd (omega arith)
take_more (suc cap) (x ∷ xs) ys h = ap (λ t. x ∷ t) (take_more cap xs ys (omega arith))

pub take-append_take :
    (cap : ℕ) (xs ys : List ℕ) → take cap (take cap xs ++ ys) ≡ take cap (xs ++ ys)
take-append_take zero xs ys = refl
take-append_take (suc cap) [] ys = refl
take-append_take (suc cap) (x ∷ xs) ys = ap (λ t. x ∷ t) (take-append_take cap xs ys)

pub length-take_le : (cap : ℕ) (xs : List ℕ) → length (take cap xs) ≤ cap
length-take_le cap xs = omega (arith, length-take cap xs)

pub push-Appends : (c : ℕ) → Appends (λ cap. push cap c) (c ∷ [])
unfolding push
push-Appends c cap out h = elim (Bool-cases (ltb (length out) cap)) [
  | inl room ↦
      rw room (sym (take_all cap (out ++ c ∷ []) (ground (arith, length-append out (c ∷ [])))))
  | inr full ↦ rw full (sym (take_more cap out (c ∷ []) (ground arith)))
]

emit_tmp-Appends : (s : List ℕ) → Appends (λ cap. emit_tmp cap s) s
unfolding emit_tmp
emit_tmp-Appends [] cap out h = sym (ap (take cap) (append-nil out) ∙ take_all cap out h)
emit_tmp-Appends (c ∷ s) cap out h = elim (Bool-cases (leb cap (length out))) [
  | inl full ↦ rw full (sym (take_more cap out (c ∷ s) (ground arith)))
  | inr room ↦ rw room (
      emit_tmp-Appends s cap (out ++ c ∷ [])
        (omega (arith, length-append out (c ∷ []), leb→gt cap (length out) room))
      ∙ ap (take cap) (append_assoc out (c ∷ []) s))
]

-- One after the other.
pub Appends-then :
    (f g : ℕ → List ℕ → List ℕ) (s t : List ℕ)
    → Appends f s
    → Appends g t
    → Appends (λ cap out. g cap (f cap out)) (s ++ t)
Appends-then f g s t a b cap out h =
    ap (g cap) (a cap out h)
    ∙ b cap (take cap (out ++ s)) (length-take_le cap (out ++ s))
    ∙ take-append_take cap (out ++ s) t
    ∙ ap (take cap) (append_assoc out s t)

unfoldable pub u32_text : ℕ → List ℕ
u32_text v = if v == 0 then b'0' ∷ [] else digits_10 10 v []

unfoldable pub i32_text : ℕ → List ℕ
unfolding u32_text
i32_text p = if leb (2 ^ 31) p then b'-' ∷ u32_text (add32 (2 ^ 32 - 1 - p) 1) else u32_text p

unfoldable pub hex_text : Bool → ℕ → List ℕ
hex_text upper v = if v == 0 then b'0' ∷ [] else digits_16 upper 16 v []

pub fmt_u32-Appends : (v : ℕ) → Appends (λ cap. fmt_u32 cap v) (u32_text v)
unfolding fmt_u32 u32_text
fmt_u32-Appends v = elim (Bool-cases (v == 0)) [
  | inl none_left ↦ rw none_left (push-Appends b'0')
  | inr some_left ↦ rw some_left (emit_tmp-Appends (digits_10 10 v []))
]

pub fmt_i32-Appends : (p : ℕ) → Appends (λ cap. fmt_i32 cap p) (i32_text p)
unfolding fmt_i32 i32_text
fmt_i32-Appends p = elim (Bool-cases (leb (2 ^ 31) p)) [
  | inl negative ↦ rw negative (
      Appends-then (λ cap. push cap b'-') (λ cap. fmt_u32 cap (add32 (2 ^ 32 - 1 - p) 1))
        (b'-' ∷ []) _ (push-Appends b'-') (fmt_u32-Appends (add32 (2 ^ 32 - 1 - p) 1)))
  | inr positive ↦ rw positive (fmt_u32-Appends p)
]

pub fmt_hex-Appends :
    (upper : Bool) (v : ℕ) → Appends (λ cap. fmt_hex cap upper v) (hex_text upper v)
unfolding fmt_hex hex_text
fmt_hex-Appends upper v = elim (Bool-cases (v == 0)) [
  | inl none_left ↦ rw none_left (push-Appends b'0')
  | inr some_left ↦ rw some_left (emit_tmp-Appends (digits_16 upper 16 v []))
]

pub fmt_str-Appends : (s : Option (List ℕ)) → Appends (λ cap. fmt_str cap s) (text_of s)
unfolding fmt_str
fmt_str-Appends s = emit_tmp-Appends (text_of s)
