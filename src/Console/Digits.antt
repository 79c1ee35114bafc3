-- ===== src/Console/Digits.antt =====
-- `fmt_u32`, `fmt_i32`, `fmt_hex` and `fmt_str` of witte_linum/board_console.c. The output buffer is
-- the list of the bytes written so far, so that `*pos` is its length; `cap` is its capacity.
use ulmk_boards.Base.{
  ℕ, zero, suc, ◌+◌, ◌-◌, ◌/◌, ◌%◌, ◌^◌, Bool, Option, none, some, List, [], ◌∷◌, ◌++◌, ltb, leb,
  ◌==◌, if◌then◌else◌, length,
}
use ulmk_boards.Base.Word.{add32}

-- `if (*pos < cap) out[(*pos)++] = c`
unfoldable pub push : ℕ → ℕ → List ℕ → List ℕ
push cap c out = if ltb (length out) cap then out ++ c ∷ [] else out

-- The loop `while (n > 0u)`, over `tmp` from its last byte down.
unfoldable pub emit_tmp : ℕ → List ℕ → List ℕ → List ℕ
emit_tmp cap [] out = out
emit_tmp cap (c ∷ tmp) out = if leb cap (length out) then out else emit_tmp cap tmp (out ++ c ∷ [])

-- The loop `while (v > 0u && n < sizeof(tmp))` with the room that is left in `tmp`, whose last byte
-- stands first.
unfoldable pub digits_10 : ℕ → ℕ → List ℕ → List ℕ
digits_10 zero v tmp = tmp
digits_10 (suc left) v tmp =
    let rest = digits_10 left (v / 10) ((b'0' + v % 10) ∷ tmp) in if ltb 0 v then rest else tmp

unfoldable pub fmt_u32 : ℕ → ℕ → List ℕ → List ℕ
fmt_u32 cap v out = if v == 0 then push cap b'0' out else emit_tmp cap (digits_10 10 v []) out

-- A signed value is its 32-bit pattern `p`: `-(v + 1)` is `2 ^ 32 - 1 - p` where `v` is negative.
unfoldable pub fmt_i32 : ℕ → ℕ → List ℕ → List ℕ
fmt_i32 cap p out =
    if leb (2 ^ 31) p
    then fmt_u32 cap (add32 (2 ^ 32 - 1 - p) 1) (push cap b'-' out)
    else fmt_u32 cap p out

-- "0123456789abcdef" and "0123456789ABCDEF"
unfoldable pub hex_digit : Bool → ℕ → ℕ
hex_digit upper d =
    if ltb d 10 then b'0' + d else if upper then b'A' + (d - 10) else b'a' + (d - 10)

unfoldable pub digits_16 : Bool → ℕ → ℕ → List ℕ → List ℕ
digits_16 upper zero v tmp = tmp
digits_16 upper (suc left) v tmp =
    let rest = digits_16 upper left (v / 2 ^ 4) (hex_digit upper (v % 2 ^ 4) ∷ tmp) in
    if ltb 0 v then rest else tmp

unfoldable pub fmt_hex : ℕ → Bool → ℕ → List ℕ → List ℕ
fmt_hex cap upper v out =
    if v == 0 then push cap b'0' out else emit_tmp cap (digits_16 upper 16 v []) out

abbrev pub null_text : List ℕ
null_text = b'(' ∷ b'n' ∷ b'u' ∷ b'l' ∷ b'l' ∷ b')' ∷ []

abbrev pub text_of : Option (List ℕ) → List ℕ
text_of none = null_text
text_of (some s) = s

-- A text is its bytes before the null byte; `none` is a null pointer.
unfoldable pub fmt_str : ℕ → Option (List ℕ) → List ℕ → List ℕ
fmt_str cap s out = emit_tmp cap (text_of s) out
