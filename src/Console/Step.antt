-- ===== src/Console/Step.antt =====
-- One round of the loop of `board_console_printf`: which format and arguments it leaves and which
-- text it appends do not depend on the buffer.
use ulmk_boards.Base.{
  ℕ, suc, ◌≤◌, ◌<◌, ◌≡◌, refl, subst, ap, inl, inr, true, false, ◌||◌, Option, none, some, List, [],
  ◌∷◌, ◌++◌, arith, leb, ◌==◌, if◌then◌else◌, Bool-cases, length, take,
}
use ulmk_boards.Base.Word.{u8}
use ulmk_boards.Console.Digits.{push, fmt_hex, text_of}
use ulmk_boards.Console.Printf.{
  Arg, word, text, Printed, undefined, skip_zeros, skip_width, skip_length, convert_word, convert,
  takes_word, print_from,
}
use ulmk_boards.Console.Buffer.{
  Appends, Appends-then, push-Appends, fmt_u32-Appends, fmt_i32-Appends, fmt_hex-Appends,
  fmt_str-Appends,
}

convert_word-Appends : (c v : ℕ) → (t : List ℕ) × Appends (λ cap. convert_word cap c v) t
unfolding convert_word
convert_word-Appends c v = elim (Bool-cases (c == b'c')) [
  | inl e ↦ rw e (_, push-Appends (u8 v))
  | inr n1 ↦ elim (Bool-cases (c == b'd' || c == b'i')) [
    | inl e ↦ rw (n1, e) (_, fmt_i32-Appends v)
    | inr n2 ↦ elim (Bool-cases (c == b'u')) [
      | inl e ↦ rw (n1, n2, e) (_, fmt_u32-Appends v)
      | inr n3 ↦ elim (Bool-cases (c == b'x')) [
        | inl e ↦ rw (n1, n2, n3, e) (_, fmt_hex-Appends false v)
        | inr n4 ↦ elim (Bool-cases (c == b'X')) [
          | inl e ↦ rw (n1, n2, n3, n4, e) (_, fmt_hex-Appends true v)
          | inr n5 ↦
              rw (n1, n2, n3, n4, n5)
                (
                  _,
                  Appends-then (λ cap out. push cap b'x' (push cap b'0' out))
                      (λ cap. fmt_hex cap false v) _ _
                      (Appends-then (λ cap. push cap b'0') (λ cap. push cap b'x') _ _
                        (push-Appends b'0') (push-Appends b'x'))
                      (fmt_hex-Appends false v),
                )
        ]
      ]
    ]
  ]
]

-- What a conversion leaves, with its text.
abbrev with_text : ℕ → List ℕ → Option (List Arg × List ℕ) → Option (List Arg × List ℕ)
with_text cap out none = none
with_text cap out (some (args, t)) = some (args, take cap (out ++ t))

record Converts (c : ℕ) (args : List Arg) : Type 0 where
  result : Option (List Arg × List ℕ)
  runs :
      (cap : ℕ) (out : List ℕ)
      → length out ≤ cap
      → convert cap c args out ≡ with_text cap out result

convert-Converts : (c : ℕ) (args : List Arg) → Converts c args
unfolding convert
convert-Converts c [] = elim (Bool-cases (takes_word c || c == b's')) [
  | inl missing ↦ record { result = none; runs = λ cap out h. rw missing refl }
  | inr plain ↦ record {
    result = some ([], (if c == b'%' then b'%' else b'?') ∷ []);
    runs = λ cap out h.
        rw plain
          (ap (λ o. some ([], o)) (push-Appends (if c == b'%' then b'%' else b'?') cap out h));
  }
]
convert-Converts c (word v ∷ args) = elim (Bool-cases (takes_word c)) [
  | inl takes ↦ record {
    result = some (args, (convert_word-Appends c v).0);
    runs =
        λ cap out h. rw takes (ap (λ o. some (args, o)) ((convert_word-Appends c v).1 cap out h));
  }
  | inr other ↦ elim (Bool-cases (c == b's')) [
    | inl wrong ↦ record { result = none; runs = λ cap out h. rw (other, wrong) refl }
    | inr plain ↦ record {
      result = some (word v ∷ args, (if c == b'%' then b'%' else b'?') ∷ []);
      runs = λ cap out h.
          rw (other, plain)
            (ap (λ o. some (word v ∷ args, o))
              (push-Appends (if c == b'%' then b'%' else b'?') cap out h));
    }
  ]
]
convert-Converts c (text s ∷ args) = elim (Bool-cases (takes_word c)) [
  | inl wrong ↦ record { result = none; runs = λ cap out h. rw wrong refl }
  | inr other ↦ elim (Bool-cases (c == b's')) [
    | inl takes ↦ record {
      result = some (args, text_of s);
      runs =
          λ cap out h. rw (other, takes) (ap (λ o. some (args, o)) (fmt_str-Appends s cap out h));
    }
    | inr plain ↦ record {
      result = some (text s ∷ args, (if c == b'%' then b'%' else b'?') ∷ []);
      runs = λ cap out h.
          rw (other, plain)
            (ap (λ o. some (text s ∷ args, o))
              (push-Appends (if c == b'%' then b'%' else b'?') cap out h));
    }
  ]
]

length-skip_zeros : (fmt : List ℕ) → length (skip_zeros fmt) ≤ length fmt
unfolding skip_zeros
length-skip_zeros [] = omega arith
length-skip_zeros (c ∷ fmt) = ground (arith, length-skip_zeros fmt)

length-skip_width : (fmt : List ℕ) → length (skip_width fmt) ≤ length fmt
unfolding skip_width
length-skip_width [] = omega arith
length-skip_width (c ∷ fmt) = ground (arith, length-skip_width fmt)

length-skip_length : (fmt : List ℕ) → length (skip_length fmt) ≤ length fmt
unfolding skip_length
length-skip_length [] = omega arith
length-skip_length (c ∷ fmt) = ground arith

-- What one round leaves: the rest of the format and of the arguments, and the text it appends.
abbrev pub Next : Type 0
Next = Option (List ℕ × List Arg × List ℕ)

abbrev pub continue_with : ℕ → ℕ → List ℕ → Next → Printed
continue_with fuel cap out none = undefined
continue_with fuel cap out (some (fmt, args, t)) =
    print_from fuel cap fmt args (take cap (out ++ t))

abbrev pub ShorterThan : ℕ → Next → Type 0
ShorterThan n none = Unit {0}
ShorterThan n (some (fmt, args, t)) = length fmt ≤ n

pub record Round (c : ℕ) (fmt : List ℕ) (args : List Arg) : Type 0 where
  pub next : Next
  pub shorter : ShorterThan (length fmt) next
  pub runs :
      (fuel cap : ℕ) (out : List ℕ)
      → length out < cap
      → print_from (suc fuel) cap (c ∷ fmt) args out ≡ continue_with fuel cap out next

abbrev after_convert : List ℕ → Option (List Arg × List ℕ) → Next
after_convert fmt none = none
after_convert fmt (some (args, t)) = some (fmt, args, t)

after_convert-continue :
    (fuel cap : ℕ) (out fmt : List ℕ) (r : Option (List Arg × List ℕ))
    → elim (with_text cap out r) as (λ x. Printed) [
      | none ↦ undefined
      | some (args, out') ↦ print_from fuel cap fmt args out'
    ]
      ≡ continue_with fuel cap out (after_convert fmt r)
after_convert-continue fuel cap out fmt none = refl
after_convert-continue fuel cap out fmt (some (args, t)) = refl

after_convert-shorter :
    (n : ℕ) (fmt : List ℕ) (r : Option (List Arg × List ℕ))
    → length fmt ≤ n
    → ShorterThan n (after_convert fmt r)
after_convert-shorter n fmt none h = tt
after_convert-shorter n fmt (some (args, t)) h = h

directive :
    (fmt fmt' : List ℕ) (args : List Arg)
    → skip_length (skip_width (skip_zeros fmt)) ≡ fmt'
    → length fmt' ≤ length fmt
    → Round b'%' fmt args
unfolding print_from
directive fmt [] args e le = record {
  next = none;
  shorter = tt;
  runs =
      λ fuel cap out h. let room : leb cap (length out) ≡ false = ground arith in rw (room, e) refl;
}
directive fmt (d ∷ fmt') args e le =
    let conv = convert-Converts d args in
    record {
      next = after_convert fmt' conv.result;
      shorter = after_convert-shorter (length fmt) fmt' conv.result (omega arith);
      runs = λ fuel cap out h.
          let room : leb cap (length out) ≡ false = ground arith in
          rw (room, e, conv.runs cap out (omega arith))
            (after_convert-continue fuel cap out fmt' conv.result);
    }

plain_char : (c : ℕ) (fmt : List ℕ) (args : List Arg) → (c == b'%') ≡ false → Round c fmt args
unfolding print_from
plain_char c fmt args plain = record {
  next = some (fmt, args, c ∷ []);
  shorter = omega arith;
  runs = λ fuel cap out h.
      let room : leb cap (length out) ≡ false = ground arith in
      rw (room, plain, push-Appends c cap out (omega arith)) refl;
}

pub next-Round : (c : ℕ) (fmt : List ℕ) (args : List Arg) → Round c fmt args
next-Round c fmt args = elim (Bool-cases (c == b'%')) [
  | inl percent ↦
      subst (λ k. Round k fmt args) {x = b'%'} (ground arith)
        (directive fmt (skip_length (skip_width (skip_zeros fmt))) args refl (
          omega (
            arith,
            length-skip_length (skip_width (skip_zeros fmt)),
            length-skip_width (skip_zeros fmt),
            length-skip_zeros fmt,
          )))
  | inr plain ↦ plain_char c fmt args plain
]
