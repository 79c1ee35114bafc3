-- ===== src/Console/Server.antt =====
-- The server of witte_linum/board_console.c, and witte_linum/board_rtt.c under it. SEGGER's RTT is
-- not part of the sources: its state and its four calls are a parameter.
use ulmk_boards.Base.{
  ℕ, ◌-◌, Bool, true, Option, none, some, List, [], ◌∷◌, ◌++◌, leb, ◌==◌, if◌then◌else◌, length,
  take, min,
}
use ulmk_boards.Base.Word.{u8}
use ulmk_boards.Kernel.{Rc}

abbrev pub console_log_size : ℕ
console_log_size = 2048

abbrev pub console_write_max : ℕ
console_write_max = 256

-- A message to the server: the byte of `CONSOLE_MSG_PUTC`, the count of `CONSOLE_MSG_WRITE` with the
-- memory of the words after it, and the other labels.
pub data Message : Type 0 where
  putc : ℕ → Message
  write : ℕ → List ℕ → Message
  getc other : Message

-- SEGGER_RTT_Init, SEGGER_RTT_PutCharSkipNoLock, SEGGER_RTT_WriteSkipNoLock and SEGGER_RTT_GetKey
-- on channel 0; `none` is a negative key.
pub record Rtt : Type 1 where
  pub R : Type 0
  pub init : R → R
  pub put_char : ℕ → R → R
  pub write_skip : List ℕ → R → R
  pub get_key : R → Option ℕ × R

-- `g_ulmk_console_log` up to `g_ulmk_console_log_len`, `g_rtt_ready`, the RTT's state, and word 1 of
-- the server's reply, which keeps its value between messages.
pub record Console (R : Type 0) : Type 0 where
  pub log : List ℕ
  pub ready : Bool
  pub rtt : R
  pub second : ℕ

unfoldable pub console_log_putc : ℕ → List ℕ → List ℕ
console_log_putc c log = if leb (console_log_size - 1) (length log) then log else log ++ c ∷ []

unfoldable pub log_from : List ℕ → List ℕ → List ℕ
log_from [] log = log
log_from (c ∷ cs) log = log_from cs (console_log_putc c log)

module _ (t : Rtt) where
  open t use {R, init, put_char, write_skip, get_key}

  unfoldable pub board_rtt_init : Console R → Console R
  board_rtt_init s = if s.ready then s else record s { ready = true; rtt = init s.rtt }

  unfoldable pub board_rtt_putc : ℕ → Console R → Console R
  board_rtt_putc c s = let s' = board_rtt_init s in record s' { rtt = put_char c s'.rtt }

  unfoldable pub board_rtt_write : List ℕ → Console R → Console R
  board_rtt_write bytes s =
      let s' = board_rtt_init s in
      if length bytes == 0 then s' else record s' { rtt = write_skip bytes s'.rtt }

  unfoldable pub board_rtt_getc : Console R → Option ℕ × Console R
  board_rtt_getc s =
      let s' = board_rtt_init s in
      let (key, rtt) = get_key s'.rtt in
      (elim key [ none ↦ none | some k ↦ some (u8 k) ], record s' { rtt = rtt })

  unfoldable pub console_emit_byte : ℕ → Console R → Console R
  console_emit_byte c s = board_rtt_putc c (record s { log = console_log_putc c s.log })

  -- The bytes from `buf` on, and how many of them.
  unfoldable pub console_emit_buf : List ℕ → ℕ → Console R → Console R
  console_emit_buf buf len s =
      if len == 0
      then s
      else let bytes = take (min len console_write_max) buf in
        board_rtt_write bytes (record s { log = log_from bytes s.log })

  -- The two branches of a `CONSOLE_MSG_GETC`, with `*out`.
  abbrev pub getc_reply : Option ℕ → Console R → Rc × ℕ × Console R
  getc_reply none s = (Rc.etimeout, 0, record s { second = 0 })
  getc_reply (some c) s = (Rc.ok, c, record s { second = c })

  -- A round of the server: the words 0 and 1 of its reply.
  unfoldable pub console_server : ℕ → Message → Console R → Rc × ℕ × Console R
  console_server chunk_max (putc b) s = (Rc.ok, s.second, console_emit_byte (u8 b) s)
  console_server chunk_max (write n buf) s =
      (Rc.ok, s.second, console_emit_buf buf (min n chunk_max) s)
  console_server chunk_max getc s = let (key, s') = board_rtt_getc s in getc_reply key s'
  console_server chunk_max other s = (Rc.einval, s.second, s)
