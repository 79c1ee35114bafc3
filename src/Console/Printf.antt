-- ===== src/Console/Printf.antt =====
-- `board_console_printf` of witte_linum/board_console.c, up to the call of `console_write`.
use ulmk_boards.Base.{
  ℕ, zero, suc, Bool, true, false, ◌&&◌, ◌||◌, Option, none, some, List, [], ◌∷◌, leb, ◌==◌,
  if◌then◌else◌, length,
}
use ulmk_boards.Base.Word.{u8}
use ulmk_boards.Console.Digits.{push, fmt_u32, fmt_i32, fmt_hex, fmt_str}

abbrev pub console_fmt_buf : ℕ
console_fmt_buf = 160

-- What a caller passes after the format: a 32-bit word (also for `long`, `size_t` and a pointer,
-- which have 32 bits on this board), or a text.
pub data Arg : Type 0 where
  word : ℕ → Arg
  text : Option (List ℕ) → Arg

-- `undefined`: the code read past the end of the format or of the arguments, or an argument as
-- what it is not. `out_of_fuel` is the model's own.
pub data Printed : Type 0 where
  done : List ℕ → Printed
  undefined out_of_fuel : Printed

-- `while (*fmt == '0') fmt++`, and the loop after it.
unfoldable pub skip_zeros : List ℕ → List ℕ
skip_zeros [] = []
skip_zeros (c ∷ fmt) = if c == b'0' then skip_zeros fmt else c ∷ fmt

unfoldable pub skip_width : List ℕ → List ℕ
skip_width [] = []
skip_width (c ∷ fmt) = if leb b'1' c && leb c b'9' then skip_width fmt else c ∷ fmt

-- `l` or `z`; both leave the sizes as they are, since `long` has 32 bits.
unfoldable pub skip_length : List ℕ → List ℕ
skip_length [] = []
skip_length (c ∷ fmt) = if c == b'l' || c == b'z' then fmt else c ∷ fmt

-- A conversion that takes a word, or none.
unfoldable pub convert_word : ℕ → ℕ → ℕ → List ℕ → List ℕ
convert_word cap c v out =
    if c == b'c'
    then push cap (u8 v) out
    else if c == b'd' || c == b'i'
    then fmt_i32 cap v out
    else if c == b'u'
    then fmt_u32 cap v out
    else if c == b'x'
    then fmt_hex cap false v out
    else if c == b'X'
    then fmt_hex cap true v out
    else fmt_hex cap false v (push cap b'x' (push cap b'0' out))

abbrev pub takes_word : ℕ → Bool
takes_word c =
    (c == b'c' || c == b'd')
    || ((c == b'i' || c == b'u') || ((c == b'x' || c == b'X') || c == b'p'))

-- The switch: the arguments that are left and the buffer; `none` where an argument is missing or
-- of the other kind.
unfoldable pub convert : ℕ → ℕ → List Arg → List ℕ → Option (List Arg × List ℕ)
convert cap c [] out =
    if takes_word c || c == b's'
    then none
    else some ([], push cap (if c == b'%' then b'%' else b'?') out)
convert cap c (word v ∷ args) out =
    if takes_word c
    then some (args, convert_word cap c v out)
    else if c == b's'
    then none
    else some (word v ∷ args, push cap (if c == b'%' then b'%' else b'?') out)
convert cap c (text s ∷ args) out =
    if takes_word c
    then none
    else if c == b's'
    then some (args, fmt_str cap s out)
    else some (text s ∷ args, push cap (if c == b'%' then b'%' else b'?') out)

-- The loop with fuel. The format is its bytes before the null byte; a `%` that nothing follows
-- makes the code step over that byte.
unfoldable pub print_from : ℕ → ℕ → List ℕ → List Arg → List ℕ → Printed
print_from zero cap fmt args out = out_of_fuel
print_from (suc fuel) cap [] args out = done out
print_from (suc fuel) cap (c ∷ fmt) args out =
    if leb cap (length out) then done out else elim (c == b'%') [
      | false ↦ print_from fuel cap fmt args (push cap c out)
      | true ↦ elim (skip_length (skip_width (skip_zeros fmt))) [
        | [] ↦ undefined
        | d ∷ fmt' ↦ elim (convert cap d args out) [
          | none ↦ undefined
          | some (args', out') ↦ print_from fuel cap fmt' args' out'
        ]
      ]
    ]

-- What is handed to `console_write`.
unfoldable pub board_console_printf : List ℕ → List Arg → Printed
board_console_printf fmt args = print_from (suc (length fmt)) console_fmt_buf fmt args []
