-- ===== src/Console/Log.antt =====
-- The log of witte_linum/board_console.c: bytes are appended as far as it has room.
use ulmk_boards.Base.{
  ℕ, ◌≤◌, ◌≡◌, sym, ap, ◌∙◌, inl, inr, List, [], ◌∷◌, ◌++◌, append-nil, append_assoc, arith, leb,
  leb→gt, Bool-cases, length, take, take_all, length-append,
}
use ulmk_boards.Console.Buffer.{take_more, take-append_take, length-take_le}
use ulmk_boards.Console.Server.{console_log_putc, log_from}

console_log_putc-append :
    (c : ℕ) (log : List ℕ) → length log ≤ 2047 → console_log_putc c log ≡ take 2047 (log ++ c ∷ [])
unfolding console_log_putc
console_log_putc-append c log h = elim (Bool-cases (leb 2047 (length log))) [
  | inl full ↦ rw full (sym (take_more 2047 log (c ∷ []) (ground arith)))
  | inr room ↦ rw room (
      sym (
        take_all 2047 (log ++ c ∷ [])
          (omega (arith, length-append log (c ∷ []), leb→gt 2047 (length log) room))))
]

-- Bytes that are logged are appended, as far as the log has room.
pub log_from-append :
    (cs log : List ℕ) → length log ≤ 2047 → log_from cs log ≡ take 2047 (log ++ cs)
unfolding log_from
log_from-append [] log h = sym (ap (take 2047) (append-nil log) ∙ take_all 2047 log h)
log_from-append (c ∷ cs) log h =
    ap (log_from cs) (console_log_putc-append c log h)
    ∙ log_from-append cs (take 2047 (log ++ c ∷ [])) (length-take_le 2047 (log ++ c ∷ []))
    ∙ take-append_take 2047 (log ++ c ∷ []) cs
    ∙ ap (take 2047) (append_assoc log (c ∷ []) cs)

abbrev pub concat : List (List ℕ) → List ℕ
concat [] = []
concat (c ∷ cs) = c ++ concat cs
