-- ===== src/Console/Tests.antt =====
-- Runs and instances for the console, on a channel that records the texts it gets.
use ulmk_boards.Base.{
  ℕ, ◌-◌, ◌^◌, ◌<◌, ◌≤◌, ◌⊎◌, ◌≡◌, refl, true, none, some, List, [], ◌∷◌, ◌++◌, arith, take,
}
use ulmk_boards.Console.Digits.{
  push, emit_tmp, digits_10, digits_16, hex_digit, fmt_u32, fmt_i32, fmt_hex, fmt_str,
}
use ulmk_boards.Console.Printf.{
  Arg, word, text, done, skip_zeros, skip_width, skip_length, convert_word, convert, print_from,
  board_console_printf,
}
use ulmk_boards.Console.Decimal.{IsDecimal, fmt_u32-IsDecimal, fmt_i32-IsDecimal}
use ulmk_boards.Console.Cut.{Ends, board_console_printf-Ends, board_console_printf-cut}
use ulmk_boards.Console.Server.{Rtt, Console}
use ulmk_boards.Console.Client.{board_console_puts, printf_out}
use ulmk_boards.Console.Written.{Written, deliver}
use ulmk_boards.Console.Deliver.{board_console_puts-Written, printf_out-Written}

abbrev recorder : Rtt
recorder = record {
  R = List ℕ;
  init = λ r. r;
  put_char = λ c r. r ++ c ∷ [];
  write_skip = λ bytes r. r ++ bytes;
  get_key = λ r. (none, r);
}

abbrev quiet : Console (List ℕ)
quiet = record { log = []; ready = true; rtt = []; second = 0 }

-- "n=%d!"
abbrev greeting : List ℕ
greeting = b'n' ∷ b'=' ∷ b'%' ∷ b'd' ∷ b'!' ∷ []

-- -12
abbrev minus_12 : List Arg
minus_12 = word 0xFFFFFFF4 ∷ []

abbrev greeted : List ℕ
greeted = b'n' ∷ b'=' ∷ b'-' ∷ b'1' ∷ b'2' ∷ b'!' ∷ []

greeting_run : board_console_printf greeting minus_12 ≡ done greeted
unfolding board_console_printf print_from push skip_zeros skip_width skip_length convert
    convert_word fmt_i32 fmt_u32 emit_tmp digits_10
greeting_run = refl

-- "%08lX"
hex_run :
    board_console_printf (b'%' ∷ b'0' ∷ b'8' ∷ b'l' ∷ b'X' ∷ []) (word 0xBEEF ∷ [])
    ≡ done (b'B' ∷ b'E' ∷ b'E' ∷ b'F' ∷ [])
unfolding board_console_printf print_from push skip_zeros skip_width skip_length convert
    convert_word fmt_hex emit_tmp digits_16 hex_digit
hex_run = refl

-- "%s"
null_run :
    board_console_printf (b'%' ∷ b's' ∷ []) (text none ∷ [])
    ≡ done (b'(' ∷ b'n' ∷ b'u' ∷ b'l' ∷ b'l' ∷ b')' ∷ [])
unfolding board_console_printf print_from push skip_zeros skip_width skip_length convert
    convert_word fmt_str emit_tmp
null_run = refl

fmt_u32-IsDecimal_example :
    (ds : List ℕ) × (fmt_u32 160 4096 (b'=' ∷ []) ≡ (b'=' ∷ []) ++ ds) × IsDecimal 4096 ds
fmt_u32-IsDecimal_example = fmt_u32-IsDecimal 160 4096 (b'=' ∷ []) (omega arith) (omega arith)

board_console_printf-Ends_example : Ends 160 (board_console_printf greeting minus_12)
board_console_printf-Ends_example = board_console_printf-Ends greeting minus_12

board_console_printf-cut_example : board_console_printf greeting minus_12 ≡ done (take 160 greeted)
unfolding print_from push skip_zeros skip_width skip_length convert convert_word fmt_i32 fmt_u32
    emit_tmp digits_10
board_console_printf-cut_example =
    board_console_printf-cut 200 greeting minus_12 greeted (omega arith) refl

board_console_puts-Written_example :
    (s' : Console (List ℕ)) × (board_console_puts 4 true (deliver recorder 4) (some greeted) quiet
      ≡ some s')
    × Written recorder 4 (take 256 greeted) quiet s'
board_console_puts-Written_example =
    board_console_puts-Written recorder 4 greeted quiet (omega arith) refl (omega arith)

printf_out-Written_example :
    (s' : Console (List ℕ)) × (printf_out 4 true (deliver recorder 4) greeting minus_12 quiet
      ≡ some s')
    × Written recorder 4 greeted quiet s'
printf_out-Written_example =
    printf_out-Written recorder 4 greeting minus_12 greeted quiet (omega arith) refl (omega arith)
      greeting_run

fmt_i32-IsDecimal_example :
    (ds : List ℕ) × ((0xFFFFFFF4 < 2 ^ 31)
        × (fmt_i32 160 0xFFFFFFF4 [] ≡ [] ++ ds)
        × IsDecimal 0xFFFFFFF4 ds
      ⊎ (2 ^ 31 ≤ 0xFFFFFFF4)
        × (fmt_i32 160 0xFFFFFFF4 [] ≡ [] ++ b'-' ∷ ds)
        × IsDecimal (2 ^ 32 - 0xFFFFFFF4) ds)
fmt_i32-IsDecimal_example = fmt_i32-IsDecimal 160 0xFFFFFFF4 [] (omega arith) (omega arith)
