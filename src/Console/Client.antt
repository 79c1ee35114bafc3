-- ===== src/Console/Client.antt =====
-- The calls of witte_linum/board_console.c. `call` stands for `ulmk_ep_call` on the console's
-- endpoint: its result, words 0 and 1 of the reply, and the other side's state. `chunk_max` is what
-- a message holds after its first word.
use ulmk_boards.Base.{
  ℕ, zero, suc, ◌-◌, Bool, not, ◌||◌, Option, none, some, List, ltb, ◌==◌, if◌then◌else◌, length,
  take, drop, min,
}
use ulmk_boards.Base.Word.{u8}
use ulmk_boards.Kernel.{Rc, is_ok}
use ulmk_boards.Console.Server.{Message, putc, write, getc, console_write_max}
use ulmk_boards.Console.Printf.{Arg, Printed, done, undefined, out_of_fuel}
use ulmk_boards.Console.Printf

module _ {S : Type 0} (chunk_max : ℕ) (ep_valid : Bool) (call : Message → S → Rc × Rc × ℕ × S) where
  -- The loop with fuel; `len` bytes are left from `buf` on.
  unfoldable pub write_from : ℕ → List ℕ → ℕ → S → Option S
  write_from zero buf len s = none
  write_from (suc fuel) buf len s =
      let n = (if ltb len chunk_max then len else chunk_max) in
      let (rc, reply, word, s') = call (write n (take n buf)) s in
      let rest = write_from fuel (drop n buf) (len - n) s' in if ltb 0 len then rest else some s

  -- `none` means that the loop did not end. The fuel is a round for every byte, and one to stop.
  unfoldable pub console_write : List ℕ → ℕ → S → Option S
  console_write buf len s =
      if len == 0 || not ep_valid
      then some s
      else let capped = (if ltb console_write_max len then console_write_max else len) in
        write_from (suc capped) buf capped s

  unfoldable pub board_console_putc : ℕ → S → S
  board_console_putc c s = let (rc, reply, word, s') = call (putc (u8 c)) s in s'

  -- A text is its bytes before the null byte; `none` is a null pointer.
  unfoldable pub board_console_puts : Option (List ℕ) → S → Option S
  board_console_puts none s = some s
  board_console_puts (some text) s = console_write text (min (length text) console_write_max) s

  unfoldable pub board_console_getc : S → Rc × Option ℕ × S
  board_console_getc s =
      if not ep_valid
      then (Rc.einval, none, s)
      else let (rc, reply, word, s') = call getc s in
        if not (is_ok rc)
        then (rc, none, s')
        else if not (is_ok reply)
        then (reply, none, s')
        else (Rc.ok, some (u8 word), s')

  -- `board_console_printf` with its last step; `none` also where the format is at fault.
  unfoldable pub printf_out : List ℕ → List Arg → S → Option S
  printf_out fmt args s = elim (Printf.board_console_printf fmt args) [
    | done text ↦ console_write text (length text) s
    | undefined ↦ none
    | out_of_fuel ↦ none
  ]
