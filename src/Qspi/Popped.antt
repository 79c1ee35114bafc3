-- ===== src/Qspi/Popped.antt =====
-- The bytes that witte_linum/drivers/qspi/src/server.c takes out of the controller.
use ulmk_boards.Base.{
  ℕ, zero, suc, ◌<◌, ◌≤◌, ◌-◌, ◌≡◌, refl, ap, sym, ◌∙◌, inl, inr, ◌⊎◌, Bool, true, false, not, ◌||◌,
  List, [], ◌∷◌, ◌++◌, append-nil, append_assoc, length, arith, Bool-cases, bit_and, ◌==◌, ltb,
}
use ulmk_boards.Base.Word.{u8, ◌>>>◌}
use ulmk_boards.Kernel.{Rc, is_ok}
use ulmk_boards.Wire.Pack.{AllBytes}
use ulmk_boards.Qspi.Server.{
  QspiAct, wr, rd, irq_ack, notif_wait, cr, sr, fcr, dlr, ccr, ar, dr, dr8, Quad, fast_read_ccr,
  wait_tc, idle, qspi_abort, flevel, level_round, wait_level, qspi_drain, do_read,
}

abbrev pub pops : QspiAct → Bool
pops (rd dr8) = true
pops (rd dr) = true
pops _ = false

-- The bytes that an act takes out of the controller, of the value that its read gives: a read of a
-- byte takes one, a read of the whole data register four.
abbrev pub taken : QspiAct → ℕ → List ℕ
taken (rd dr8) v = u8 v ∷ []
taken (rd dr) v = u8 v ∷ u8 (v >>> 8) ∷ u8 (v >>> 16) ∷ u8 (v >>> 24) ∷ []
taken _ v = []

taken_none : (a : QspiAct) (v : ℕ) → pops a ≡ false → taken a v ≡ []
taken_none (wr r n) v h = refl
taken_none irq_ack v h = refl
taken_none notif_wait v h = refl
taken_none (rd cr) v h = refl
taken_none (rd sr) v h = refl
taken_none (rd fcr) v h = refl
taken_none (rd dlr) v h = refl
taken_none (rd ccr) v h = refl
taken_none (rd ar) v h = refl
taken_none (rd dr) v h = absurd (cc h)
taken_none (rd dr8) v h = absurd (cc h)

module _ (q : Quad) where
  -- The bytes that the acts after `before` read from the data register, in order.
  unfoldable pub popped_after : List QspiAct → List QspiAct → List ℕ
  popped_after before [] = []
  popped_after before (a ∷ acts) =
      let now = before ++ a ∷ [] in let rest = popped_after now acts in taken a (q.val now) ++ rest

  popped-append :
      (before xs ys : List QspiAct)
      → popped_after before (xs ++ ys) ≡ popped_after before xs ++ popped_after (before ++ xs) ys
  unfolding popped_after
  popped-append before [] ys = ap (λ t. popped_after t ys) (sym (append-nil before))
  popped-append before (a ∷ xs) ys =
      rw (popped-append (before ++ a ∷ []) xs ys, append_assoc, append_assoc) refl

  unfoldable pub popped : List QspiAct → List ℕ
  popped = popped_after []

  -- One more act.
  popped-more :
      (s : List QspiAct) (a : QspiAct)
      → popped (s ++ a ∷ []) ≡ popped s ++ taken a (q.val (s ++ a ∷ []))
  unfolding popped popped_after
  popped-more s a =
      popped-append [] s (a ∷ [])
      ∙ ap (λ t. popped s ++ t) (append-nil (taken a (q.val (s ++ a ∷ []))))

  -- Acts none of which reads a byte.
  AllQuiet : List QspiAct → Type 0
  AllQuiet [] = Unit {0}
  AllQuiet (a ∷ acts) = (pops a ≡ false) × AllQuiet acts

  popped-quiet : (s acts : List QspiAct) → AllQuiet acts → popped (s ++ acts) ≡ popped s
  unfolding AllQuiet
  popped-quiet s [] h = ap popped (append-nil s)
  popped-quiet s (a ∷ acts) h =
      ap popped (sym (append_assoc s (a ∷ []) acts))
      ∙ popped-quiet (s ++ a ∷ []) acts h.1
      ∙ popped-more s a
      ∙ ap (λ t. popped s ++ t) (taken_none a (q.val (s ++ a ∷ [])) h.0)
      ∙ append-nil (popped s)

  quiet_one : (s : List QspiAct) → popped (s ++ rd sr ∷ []) ≡ popped s
  unfolding AllQuiet
  quiet_one s = popped-quiet s (rd sr ∷ []) (refl, tt)

  idle-popped : (guard : ℕ) (s : List QspiAct) → popped (idle q guard s) ≡ popped s
  unfolding idle
  idle-popped zero s = quiet_one s
  idle-popped (suc guard) s =
      let s1 = s ++ rd sr ∷ [] in
      elim (Bool-cases (bit_and (q.val s1) q.sr_busy == 0)) [
        | inl e ↦ rw (e, idle) (quiet_one s)
        | inr e ↦ rw (e, idle) (idle-popped guard s1 ∙ quiet_one s)
      ]

  qspi_abort-popped : (s : List QspiAct) → popped (qspi_abort q s) ≡ popped s
  unfolding qspi_abort AllQuiet
  qspi_abort-popped s =
      let s1 = s ++ rd cr ∷ [] in
      popped-quiet _ (wr fcr _ ∷ []) (refl, tt)
      ∙ idle-popped 100000 _
      ∙ popped-quiet s1 (wr cr _ ∷ []) (refl, tt)
      ∙ popped-quiet s (rd cr ∷ []) (refl, tt)

  wait_tc-popped : (s : List QspiAct) → popped (wait_tc q s).1 ≡ popped s
  unfolding wait_tc AllQuiet
  wait_tc-popped s =
      let s1 = s ++ irq_ack ∷ notif_wait ∷ [] in
      let s2 = s1 ++ irq_ack ∷ [] in
      let waited : popped s2 ≡ popped s =
        popped-quiet s1 (irq_ack ∷ []) (refl, tt)
        ∙ popped-quiet s (irq_ack ∷ notif_wait ∷ []) (refl, (refl, tt)) in
      elim (Bool-cases (not (is_ok (q.wait s1)))) [
        | inl e ↦ rw e waited
        | inr e ↦ elim (Bool-cases (bit_and (q.val (s2 ++ rd sr ∷ [])) q.sr_tcf == 0)) [
          | inl z ↦ rw (e, z) (quiet_one s2 ∙ waited)
          | inr z ↦ rw (e, z) (quiet_one s2 ∙ waited)
        ]
      ]

  level_round-popped :
      (more : List QspiAct → Rc × List QspiAct) (s : List QspiAct)
      → ((t : List QspiAct) → popped (more t).1 ≡ popped t)
      → popped (level_round q more s).1 ≡ popped s
  unfolding level_round AllQuiet
  level_round-popped more s h =
      let s1 = s ++ rd sr ∷ [] in
      let s2 = s1 ++ rd sr ∷ [] in
      let s3 = s2 ++ rd sr ∷ [] in
      let three : popped s3 ≡ popped s = quiet_one s2 ∙ quiet_one s1 ∙ quiet_one s in
      elim (Bool-cases (bit_and (q.val s1) q.sr_ftf == 0)) [
        | inr a ↦ rw (a, level_round) (quiet_one s)
        | inl a ↦ elim (Bool-cases (flevel q (q.val s2) == 0)) [
          | inr b ↦ rw (a, b, level_round) (quiet_one s1 ∙ quiet_one s)
          | inl b ↦ elim (Bool-cases (bit_and (q.val s3) q.sr_tef == 0)) [
            | inr c ↦
                rw (a, b, c, level_round)
                  (popped-quiet s3 (wr fcr q.fcr_ctef ∷ []) (refl, tt) ∙ three)
            | inl c ↦ rw (a, b, c, level_round) (h s3 ∙ three)
          ]
        ]
      ]

  wait_level-popped : (guard : ℕ) (s : List QspiAct) → popped (wait_level q guard s).1 ≡ popped s
  unfolding wait_level
  wait_level-popped zero s = level_round-popped _ s (λ t. refl)
  wait_level-popped (suc guard) s = level_round-popped _ s (wait_level-popped guard)

  -- What draining `left` bytes from the acts `s` gives.
  abbrev pub Drained : ℕ → List QspiAct → Rc × List ℕ × List QspiAct → Type 0
  Drained left s r =
      (popped r.2 ≡ popped s ++ r.1)
      × AllBytes r.1
      × (((is_ok r.0 ≡ true) × (length r.1 ≡ left)) ⊎ ((is_ok r.0 ≡ false) × (length r.1 < left)))

  pub qspi_drain-popped : (left : ℕ) (s : List QspiAct) → Drained left s (qspi_drain q left s)
  unfolding qspi_drain
  qspi_drain-popped zero s = (sym (append-nil (popped s)), tt, inl (refl, refl))
  qspi_drain-popped (suc left) s =
      let w = wait_level q 1000000 s in
      let s2 = w.1 ++ rd dr8 ∷ [] in
      let r = qspi_drain q left s2 in
      let (all, bytes, count) = qspi_drain-popped left s2 in
      elim (Bool-cases (is_ok w.0)) [
        | inl e ↦ rw e (
          all
              ∙ ap (λ t. t ++ r.1) (popped-more w.1 (rd dr8))
              ∙ append_assoc (popped w.1) (u8 (q.val s2) ∷ []) r.1
              ∙ ap (λ t. t ++ u8 (q.val s2) ∷ r.1) (wait_level-popped 1000000 s),
          (omega arith, bytes),
          elim count [ inl (o, c) ↦ inl (o, ap suc c) | inr (o, c) ↦ inr (o, omega arith) ],
        )
        | inr e ↦
            rw e
              (wait_level-popped 1000000 s ∙ sym (append-nil (popped s)), tt, inr (e, omega arith))
      ]

  -- A read by do_read of a length from 1 to 16, whatever the hardware and the kernel answer: the
  -- bytes it gives are exactly those that its acts take out of the data register, one by a read of
  -- a byte and four by a read of the whole register, in order, so that none is lost; they are as
  -- many as asked for where it succeeds, and fewer where it fails.
  pub do_read-popped :
      (addr len : ℕ) (s : List QspiAct) → 1 ≤ len → len ≤ 16 → Drained len s (do_read q addr len s)
  unfolding do_read AllQuiet
  do_read-popped addr len s some_bytes few =
      let s0 = qspi_abort q s ++ wr dlr (len - 1) ∷ wr ccr (fast_read_ccr q) ∷ wr ar addr ∷ [] in
      let w = wait_tc q s0 in
      let guard : (len == 0 || ltb 16 len) ≡ false = ground (arith, some_bytes, few) in
      let begun : popped w.1 ≡ popped s =
        wait_tc-popped s0
        ∙ popped-quiet (qspi_abort q s) (wr dlr _ ∷ wr ccr _ ∷ wr ar addr ∷ [])
            (refl, (refl, (refl, tt)))
        ∙ qspi_abort-popped s in
      let (all, bytes, count) = qspi_drain-popped len w.1 in
      elim (Bool-cases (is_ok w.0)) [
        | inl e ↦ rw (guard, e) (all ∙ ap (λ t. t ++ (qspi_drain q len w.1).1) begun, bytes, count)
        | inr e ↦ rw (guard, e) (begun ∙ sym (append-nil (popped s)), tt, inr (e, some_bytes))
      ]
