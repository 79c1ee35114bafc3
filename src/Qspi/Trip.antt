-- ===== src/Qspi/Trip.antt =====
-- The reads of witte_linum/drivers/qspi/src/client.c through the server.
use ulmk_boards.Base.{
  ℕ, zero, suc, ◌+◌, ◌-◌, ◌≤◌, ◌<◌, ◌≡◌, refl, ap, inl, inr, ◌⊎◌, Bool, true, false, not, ◌||◌,
  ◌&&◌, List, [], ◌∷◌, ◌++◌, if◌then◌else◌, length, arith, Bool-cases, ltb, leb, ◌==◌, bit_or,
}
use ulmk_boards.Base.Word.{u8}
use ulmk_boards.Kernel.{Rc, is_ok}
use ulmk_boards.Wire.Pack.{AllBytes}
use ulmk_boards.Qspi.Server.{
  QspiAct, wr, rd, irq_ack, sr, dr, dlr, ccr, fcr, Quad, wait_tc, qspi_abort, flevel, cmd_read_ccr,
  qspi_drain, do_read, do_cmd_read, do_cmd_write, flash_reset, word_bytes, qspi_server,
}
use ulmk_boards.Qspi.Client.{qspi_call, qspi_read, qspi_cmd_read}
use ulmk_boards.Qspi.Popped.{qspi_drain-popped, do_read-popped}
use ulmk_boards.Qspi.Reply.{deliver, outcome, read_reply-outcome}

word_bytes-bytes :
    (w i left : ℕ) → AllBytes (word_bytes w i left) × (length (word_bytes w i left) ≡ left)
unfolding word_bytes
word_bytes-bytes w i zero = (tt, refl)
word_bytes-bytes w i (suc left) =
    let (all, long) = word_bytes-bytes w (i + 1) left in ((omega arith, all), ap suc long)

-- Bytes, as many as asked for where the result is a success.
abbrev Whole : ℕ → Rc × List ℕ × List QspiAct → Type 0
Whole len r = AllBytes r.1 × (is_ok r.0 ≡ true → length r.1 ≡ len)

-- The number of the bytes of a read that succeeds.
counted :
    (len : ℕ) (rc : Rc) (bytes : List ℕ)
    → ((is_ok rc ≡ true) × (length bytes ≡ len)) ⊎ ((is_ok rc ≡ false) × (length bytes < len))
    → is_ok rc ≡ true
    → length bytes ≡ len
counted len rc bytes (inl (o, c)) h = c
counted len rc bytes (inr (o, c)) h = ground (arith, o, h)

-- The ways a command's answer ends.
reading :
    (bad empty short : Bool) (ret rc : Rc) (s s2 s3 s4 s5 : List QspiAct) (word bytes : List ℕ)
    (len : ℕ)
    → Whole len (Rc.ok, word, s4)
    → Whole len (rc, bytes, s5)
    → Whole len (
        if bad
        then (Rc.einval, [], s)
        else if not (is_ok ret)
        then (ret, [], s2)
        else if empty
        then (Rc.etimeout, [], s3)
        else if short
        then (Rc.ok, word, s4)
        else (rc, bytes, s5))
reading true empty short ret rc s s2 s3 s4 s5 word bytes len p q = (tt, λ h. ground (arith, h))
reading false empty short ret rc s s2 s3 s4 s5 word bytes len p q = elim (Bool-cases (is_ok ret)) [
  | inr e ↦ rw e (tt, λ h. ground (arith, e, h))
  | inl e ↦ rw e (answered empty short)
]
  where
    answered :
        (empty short : Bool)
        → Whole len (
            if empty
            then (Rc.etimeout, [], s3)
            else if short
            then (Rc.ok, word, s4)
            else (rc, bytes, s5))
    answered true short = (tt, λ h. ground (arith, h))
    answered false true = p
    answered false false = q

module _ (q : Quad) where
  do_cmd_read-Whole : (cmd len : ℕ) (s : List QspiAct) → Whole len (do_cmd_read q cmd len s)
  unfolding do_cmd_read
  do_cmd_read-Whole cmd len s =
      let s1 = (if cmd == 0x9F then (do_cmd_write q 0xAB 1 (flash_reset q s)).1 else s) in
      let command = wr dlr (len - 1) ∷ irq_ack ∷ wr ccr (cmd_read_ccr q cmd) ∷ [] in
      let w = wait_tc q (qspi_abort q s1 ++ command) in
      let s3 = w.1 ++ rd sr ∷ [] in
      let s4 = s3 ++ rd dr ∷ [] in
      let d = qspi_drain q len s3 in
      let (word, long) = word_bytes-bytes (q.val s4) 0 len in
      let (all, bytes, count) = qspi_drain-popped q len s3 in
      reading (len == 0 || ltb 16 len) (flevel q (q.val s3) == 0) (leb len 4) w.0 d.0 s w.1 s3
        (s4 ++ wr fcr (bit_or q.fcr_ctcf q.fcr_ctef) ∷ [])
        (d.2 ++ wr fcr (bit_or q.fcr_ctcf q.fcr_ctef) ∷ []) (word_bytes (q.val s4) 0 len) d.1 len
        (word, λ h. long) (bytes, counted len d.0 d.1 count)

  -- For a length from 1 to 16, whatever the hardware and the kernel answer, qspi_read through the
  -- server has the result of the server's operation and its acts, followed by reads of the status
  -- and of the control register; where it succeeds, the client gets the first twelve bytes of the
  -- operation, and from byte 12 on the bytes of the control register, which the server has put in
  -- their place.
  pub qspi_read-do_read :
      (old1 : ℕ) (old : List ℕ) (addr len : ℕ) (s : List QspiAct)
      → 1 ≤ len
      → len ≤ 16
      → qspi_read true (deliver q old1 old) addr true len s ≡ outcome q len (do_read q addr len s)
  unfolding qspi_read qspi_call qspi_server
  qspi_read-do_read old1 old addr len s some_bytes few =
      let guard : (len == 0 || ltb 16 len) ≡ false = ground (arith, some_bytes, few) in
      let in_range : (ltb 0 len && leb len 16) ≡ true = ground (arith, some_bytes, few) in
      let (all, bytes, count) = do_read-popped q addr len s some_bytes few in
      rw (guard, in_range)
        (read_reply-outcome q len old (do_read q addr len s) few bytes (counted len _ _ count))

  -- The same of qspi_cmd_read, for a command of one byte.
  pub qspi_cmd_read-do_cmd_read :
      (old1 : ℕ) (old : List ℕ) (cmd len : ℕ) (s : List QspiAct)
      → cmd < 256
      → 1 ≤ len
      → len ≤ 16
      → qspi_cmd_read true (deliver q old1 old) cmd true len s
        ≡ outcome q len (do_cmd_read q cmd len s)
  unfolding qspi_cmd_read qspi_call qspi_server
  qspi_cmd_read-do_cmd_read old1 old cmd len s small some_bytes few =
      let guard : (len == 0 || ltb 16 len) ≡ false = ground (arith, some_bytes, few) in
      let in_range : (ltb 0 len && leb len 16) ≡ true = ground (arith, some_bytes, few) in
      let same : u8 cmd ≡ cmd = omega arith in
      let (bytes, full) = do_cmd_read-Whole cmd len s in
      rw (guard, in_range, same)
        (read_reply-outcome q len old (do_cmd_read q cmd len s) few bytes full)
