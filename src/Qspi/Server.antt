-- ===== src/Qspi/Server.antt =====
-- witte_linum/drivers/qspi/src/server.c: reads from the flash, and the messages. What the server does
-- to the controller and asks of the kernel is a list of acts in order; what an act answers may depend
-- on all acts up to it, and is a parameter, as are the bits of the vendor's header.
use ulmk_boards.Base.{
  ℕ, zero, suc, ◌+◌, ◌-◌, ◌*◌, true, false, not, ◌||◌, ◌&&◌, List, [], ◌∷◌, ◌++◌, take, set, ◌==◌,
  ltb, leb, if◌then◌else◌, get_or, bit_and, bit_or,
}
use ulmk_boards.Base.Word.{u8, ◌<<◌, ◌>>>◌}
use ulmk_boards.Kernel.{Rc, is_ok, Msg}
use ulmk_boards.Wire.Pack.{or_bytes}

abbrev pub qspi_msg_cmd_read : ℕ
qspi_msg_cmd_read = 1

abbrev pub qspi_msg_read : ℕ
qspi_msg_read = 2

-- `dr8` is the data register read as one byte.
pub data QspiReg : Type 0 where
  cr sr fcr dlr ccr ar dr dr8 : QspiReg

pub data QspiAct : Type 0 where
  wr : QspiReg → ℕ → QspiAct
  rd : QspiReg → QspiAct
  irq_ack notif_wait : QspiAct

-- The bits and positions QUADSPI_CR_*, QUADSPI_SR_*, QUADSPI_FCR_* and QUADSPI_CCR_* of the vendor's
-- header, and what the last of the acts answers.
pub record Quad : Type 0 where
  pub cr_abort : ℕ
  pub sr_busy : ℕ
  pub sr_tcf : ℕ
  pub sr_tef : ℕ
  pub sr_ftf : ℕ
  pub sr_flevel_pos : ℕ
  pub fcr_ctcf : ℕ
  pub fcr_ctef : ℕ
  pub fcr_csmf : ℕ
  pub ccr_fmode_0 : ℕ
  pub ccr_fmode_pos : ℕ
  pub ccr_imode_pos : ℕ
  pub ccr_admode_pos : ℕ
  pub ccr_adsize_pos : ℕ
  pub ccr_dmode_pos : ℕ
  pub ccr_dcyc_pos : ℕ
  pub ccr_instruction_pos : ℕ
  pub val : List QspiAct → ℕ
  pub wait : List QspiAct → Rc

-- `(uint8_t)((w >> (i * 8)) & 0xFF)` from byte `i` on, `left` bytes.
unfoldable pub word_bytes : ℕ → ℕ → ℕ → List ℕ
word_bytes w i zero = []
word_bytes w i (suc left) = u8 (bit_and (w >>> (i * 8)) 0xFF) ∷ word_bytes w (i + 1) left

module _ (q : Quad) where
  unfoldable pub wait_tc : List QspiAct → Rc × List QspiAct
  wait_tc s =
      let s1 = s ++ irq_ack ∷ notif_wait ∷ [] in
      let ret = q.wait s1 in
      let s2 = s1 ++ irq_ack ∷ [] in
      let s3 = s2 ++ rd sr ∷ [] in
      if not (is_ok ret)
      then (ret, s2)
      else if bit_and (q.val s3) q.sr_tcf == 0
      then (Rc.etimeout, s3)
      else (Rc.ok, s3)

  -- The loop of `qspi_abort`: it ends when the controller is not busy, or with its guard.
  unfoldable pub idle : ℕ → List QspiAct → List QspiAct
  idle zero s = s ++ rd sr ∷ []
  idle (suc guard) s =
      let s1 = s ++ rd sr ∷ [] in
      elim (bit_and (q.val s1) q.sr_busy == 0) [ true ↦ s1 | false ↦ idle guard s1 ]

  unfoldable pub qspi_abort : List QspiAct → List QspiAct
  qspi_abort s =
      let s1 = s ++ rd cr ∷ [] in
      idle 100000 (s1 ++ wr cr (bit_or (q.val s1) q.cr_abort) ∷ [])
      ++ wr fcr (bit_or (bit_or q.fcr_ctcf q.fcr_ctef) q.fcr_csmf) ∷ []

  -- `(SR >> FLEVEL) & 0x3F` of a status.
  abbrev pub flevel : ℕ → ℕ
  flevel status = bit_and (status >>> q.sr_flevel_pos) 0x3F

  -- A round of the loop that waits for a byte; `more` is what follows when there is none yet.
  unfoldable pub level_round : (List QspiAct → Rc × List QspiAct) → List QspiAct → Rc × List QspiAct
  level_round more s =
      let s1 = s ++ rd sr ∷ [] in
      let s2 = s1 ++ rd sr ∷ [] in
      let s3 = s2 ++ rd sr ∷ [] in
      elim (bit_and (q.val s1) q.sr_ftf == 0) [
        | false ↦ (Rc.ok, s1)
        | true ↦ elim (flevel (q.val s2) == 0) [
          | false ↦ (Rc.ok, s2)
          | true ↦ elim (bit_and (q.val s3) q.sr_tef == 0) [
            | false ↦ (Rc.etimeout, s3 ++ wr fcr q.fcr_ctef ∷ [])
            | true ↦ more s3
          ]
        ]
      ]

  unfoldable pub wait_level : ℕ → List QspiAct → Rc × List QspiAct
  wait_level zero s = level_round (λ t. (Rc.etimeout, t)) s
  wait_level (suc guard) s = level_round (wait_level guard) s

  -- `left` bytes; those written before an error come with it.
  unfoldable pub qspi_drain : ℕ → List QspiAct → Rc × List ℕ × List QspiAct
  qspi_drain zero s = (Rc.ok, [], s)
  qspi_drain (suc left) s =
      let (rc, s1) = wait_level 1000000 s in
      let s2 = s1 ++ rd dr8 ∷ [] in
      let (rest, bytes, s3) = qspi_drain left s2 in
      if is_ok rc then (rest, u8 (q.val s2) ∷ bytes, s3) else (rc, [], s1)

  unfoldable pub do_cmd_write : ℕ → ℕ → List QspiAct → Rc × List QspiAct
  do_cmd_write cmd imode s =
      let ccr_value =
        bit_or (bit_or (0 << q.ccr_fmode_pos) (imode << q.ccr_imode_pos))
          (cmd << q.ccr_instruction_pos) in
      let (ret, s1) = wait_tc (qspi_abort s ++ wr dlr 0 ∷ irq_ack ∷ wr ccr ccr_value ∷ []) in
      (ret, qspi_abort s1)

  unfoldable pub flash_reset : List QspiAct → List QspiAct
  flash_reset s =
      let s1 = (do_cmd_write 0xFF 3 s).1 in
      let s2 = (do_cmd_write 0x66 1 s1).1 in (do_cmd_write 0x99 1 s2).1

  abbrev pub cmd_read_ccr : ℕ → ℕ
  cmd_read_ccr cmd =
      bit_or (bit_or (bit_or q.ccr_fmode_0 (1 << q.ccr_imode_pos)) (1 << q.ccr_dmode_pos))
        (cmd << q.ccr_instruction_pos)

  -- Into a buffer that is not null.
  unfoldable pub do_cmd_read : ℕ → ℕ → List QspiAct → Rc × List ℕ × List QspiAct
  do_cmd_read cmd len s =
      let s1 = (if cmd == 0x9F then (do_cmd_write 0xAB 1 (flash_reset s)).1 else s) in
      let (ret, s2) =
        wait_tc (qspi_abort s1 ++ wr dlr (len - 1) ∷ irq_ack ∷ wr ccr (cmd_read_ccr cmd) ∷ []) in
      let s3 = s2 ++ rd sr ∷ [] in
      let s4 = s3 ++ rd dr ∷ [] in
      let (rc, bytes, s5) = qspi_drain len s3 in
      let clear = wr fcr (bit_or q.fcr_ctcf q.fcr_ctef) ∷ [] in
      if len == 0 || ltb 16 len
      then (Rc.einval, [], s)
      else if not (is_ok ret)
      then (ret, [], s2)
      else if flevel (q.val s3) == 0
      then (Rc.etimeout, [], s3)
      else if leb len 4
      then (Rc.ok, word_bytes (q.val s4) 0 len, s4 ++ clear)
      else (rc, bytes, s5 ++ clear)

  -- Fast read 0x0B, 1-1-1, 8 dummy cycles, 24-bit address.
  abbrev pub fast_read_ccr : ℕ
  fast_read_ccr =
      let modes = bit_or (bit_or q.ccr_fmode_0 (1 << q.ccr_imode_pos)) (1 << q.ccr_admode_pos) in
      let sizes = bit_or (bit_or modes (2 << q.ccr_adsize_pos)) (1 << q.ccr_dmode_pos) in
      bit_or (bit_or sizes (8 << q.ccr_dcyc_pos)) (0x0B << q.ccr_instruction_pos)

  -- Into a buffer that is not null.
  unfoldable pub do_read : ℕ → ℕ → List QspiAct → Rc × List ℕ × List QspiAct
  do_read addr len s =
      let (ret, s1) =
        wait_tc (qspi_abort s ++ wr dlr (len - 1) ∷ wr ccr fast_read_ccr ∷ wr ar addr ∷ []) in
      if len == 0 || ltb 16 len
      then (Rc.einval, [], s)
      else if not (is_ok ret)
      then (ret, [], s1)
      else qspi_drain len s1

  -- Words 2 to 5 of the reply.
  unfoldable pub pack_reply : List ℕ → ℕ → List ℕ
  pack_reply bytes len = or_bytes 0 0 (take 16 (take len bytes)) (0 ∷ 0 ∷ 0 ∷ 0 ∷ [])

  -- What the server does after a read: `old` are words 2 to 5 as they were. The result is word 0,
  -- words 1 to 5, and the acts.
  unfoldable pub read_reply : ℕ → List ℕ → Rc × List ℕ × List QspiAct → Rc × List ℕ × List QspiAct
  read_reply len old (rc, bytes, s) =
      let words = (if is_ok rc then pack_reply bytes len else old) in
      let s1 = s ++ rd sr ∷ [] in
      let s2 = s1 ++ rd cr ∷ [] in (rc, q.val s1 ∷ set words 3 (q.val s2), s2)

  -- A round of the server, with words 1 to 5 of its reply as the round before left them.
  unfoldable pub qspi_server : ℕ → List ℕ → Msg → List QspiAct → Rc × List ℕ × List QspiAct
  qspi_server old1 old m s =
      let len = get_or m.words 1 0 in
      let in_range = ltb 0 len && leb len 16 in
      if m.label == qspi_msg_cmd_read && in_range
      then read_reply len old (do_cmd_read (u8 (get_or m.words 0 0)) len s)
      else if m.label == qspi_msg_read && in_range
      then read_reply len old (do_read (get_or m.words 0 0) len s)
      else (Rc.einval, old1 ∷ old, s)
