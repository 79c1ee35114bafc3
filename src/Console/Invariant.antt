-- ===== src/Console/Invariant.antt =====
-- What every message leaves in order in the server of witte_linum/board_console.c.
use ulmk_boards.Base.{
  ℕ, ◌≤◌, ◌≡◌, refl, sym, subst, ap, append-nil, ◌∙◌, inl, inr, Option, none, some, List, [], ◌∷◌,
  ◌++◌, arith, ◌==◌, Bool-cases, min, length, take, take_all,
}
use ulmk_boards.Base.Word.{u8}
use ulmk_boards.Console.Buffer.{length-take_le}
use ulmk_boards.Console.Server.{
  Message, putc, write, getc, other, Rtt, Console, board_rtt_init, board_rtt_putc, board_rtt_write,
  board_rtt_getc, console_emit_byte, console_emit_buf, getc_reply, console_server, console_log_putc,
  log_from,
}
use ulmk_boards.Console.Log.{log_from-append}

log_nothing : (log : List ℕ) → length log ≤ 2047 → log ≡ take 2047 (log ++ [])
log_nothing log h = sym (ap (take 2047) (append-nil log) ∙ take_all 2047 log h)

-- The bytes that a message carries for the log. A getc and an unknown message carry none.
abbrev pub carried : ℕ → Message → List ℕ
carried chunk_max (putc b) = u8 b ∷ []
carried chunk_max (write n buf) = take (min (min n chunk_max) 256) buf
carried chunk_max getc = []
carried chunk_max other = []

module _ (t : Rtt) where
  open t use {R}

  board_rtt_init-log : (s : Console R) → (board_rtt_init t s).log ≡ s.log
  unfolding board_rtt_init
  board_rtt_init-log s = ground arith

  board_rtt_write-log : (bytes : List ℕ) (s : Console R) → (board_rtt_write t bytes s).log ≡ s.log
  unfolding board_rtt_write
  board_rtt_write-log bytes s = ground (arith, board_rtt_init-log s)

  console_emit_buf-log :
      (buf : List ℕ) (len : ℕ) (s : Console R)
      → length s.log ≤ 2047
      → (console_emit_buf t buf len s).log ≡ take 2047 (s.log ++ take (min len 256) buf)
  unfolding console_emit_buf
  console_emit_buf-log buf len s h = elim (Bool-cases (len == 0)) [
    | inl nothing ↦
        rw nothing
          (log_nothing s.log h ∙ ap (λ k. take 2047 (s.log ++ take k buf)) {x = 0} (ground arith))
    | inr something ↦ rw something (
        board_rtt_write-log (take (min len 256) buf)
          (record s { log = log_from (take (min len 256) buf) s.log })
        ∙ log_from-append (take (min len 256) buf) s.log h)
  ]

  getc_reply-log : (key : Option ℕ) (s : Console R) → (getc_reply t key s).2.log ≡ s.log
  getc_reply-log none s = refl
  getc_reply-log (some c) s = refl

  server_appends :
      (chunk_max : ℕ) (m : Message) (s : Console R)
      → length s.log ≤ 2047
      → (console_server t chunk_max m s).2.log ≡ take 2047 (s.log ++ carried chunk_max m)
  unfolding console_server
  server_appends chunk_max (putc b) s h =
      unfold console_emit_byte board_rtt_putc log_from in
      (board_rtt_init-log (record s { log = console_log_putc (u8 b) s.log })
        ∙ log_from-append (u8 b ∷ []) s.log h)
  server_appends chunk_max (write n buf) s h = console_emit_buf-log buf (min n chunk_max) s h
  server_appends chunk_max getc s h =
      getc_reply-log (board_rtt_getc t s).0 (board_rtt_getc t s).1
      ∙ unfold board_rtt_getc in board_rtt_init-log s ∙ log_nothing s.log h
  server_appends chunk_max other s h = log_nothing s.log h

  -- With at most 2047 bytes in the log, every message to the server appends to the log what it
  -- carries, cut at 2047 bytes, and nothing else is done to the log; it never holds more than 2047
  -- bytes.
  pub console_server-log :
      (chunk_max : ℕ) (m : Message) (s : Console R)
      → length s.log ≤ 2047
      → ((console_server t chunk_max m s).2.log ≡ take 2047 (s.log ++ carried chunk_max m))
        × (length (console_server t chunk_max m s).2.log ≤ 2047)
  console_server-log chunk_max m s h =
      let e = server_appends chunk_max m s h in
      (e, subst (λ l. length l ≤ 2047) (sym e) (length-take_le 2047 (s.log ++ carried chunk_max m)))
