-- ===== src/Asclin/Sent.antt =====
-- A text through both sides of tc275_lite/drivers/asclin: what the port is given to send.
use ulmk_boards.Base.{
  ℕ, zero, suc, ◌+◌, ◌≤◌, ◌<◌, ◌≡◌, refl, ap, sym, ◌∙◌, inl, inr, true, false, List, [], ◌∷◌, ◌++◌,
  if◌then◌else◌, ◌==◌, ltb, length, get_or, take, drop, take-drop-suc, append_assoc, append-nil,
  arith, Bool-cases, ◌⊎◌,
}
use native.Mathlib.Decide.{ℕ_discrete}
use ulmk_boards.Base.Word.{u8}
use ulmk_boards.Kernel.{Rc, is_ok, is_error, Msg}
use ulmk_boards.Wire.Pack.{AllBytes, AllBytes-take}
use ulmk_boards.Serial.{Port, Run, run, run-take, run-first}
use ulmk_boards.Asclin.Server.{
  IfxCall, get_tx_fifo_fill_level, clear_tx_fifo_fill_level_flag, enable_tx_fifo_fill_level_flag,
  write_tx_data, irq_ack_tx, notif_wait, asclin_notif_tx, Line, Asclin, wait_space, hw_tx,
  asclin_server,
}
use ulmk_boards.Asclin.Client.{asclin_call, asclin_tx_byte, tx_from, asclin_tx_buf}

-- The kernel hands a message to the server, which answers it with one round.
abbrev pub deliver : Line → ℕ → Msg → Asclin → Rc × Rc × ℕ × Asclin
deliver line fa_hz m a = let (rc, w1, a') = asclin_server line fa_hz m a in (Rc.ok, rc, w1, a')

abbrev bytes_of : IfxCall → List ℕ
bytes_of (write_tx_data b) = b ∷ []
bytes_of _ = []

-- The bytes that the calls transmit.
abbrev pub sent : List IfxCall → List ℕ
sent [] = []
sent (c ∷ cs) = bytes_of c ++ sent cs

sent-append : (xs ys : List IfxCall) → sent (xs ++ ys) ≡ sent xs ++ sent ys
sent-append [] ys = refl
sent-append (c ∷ xs) ys =
    ap (λ t. bytes_of c ++ t) (sent-append xs ys)
    ∙ sym (append_assoc (bytes_of c) (sent xs) (sent ys))

none-sent : (xs ys : List IfxCall) → sent ys ≡ [] → sent (xs ++ ys) ≡ sent xs
none-sent xs ys h = sent-append xs ys ∙ ap (λ t. sent xs ++ t) h ∙ append-nil (sent xs)

module _ (line : Line) where
  wait_space-sent : (a : Asclin) → sent (wait_space line a).1.calls ≡ sent a.calls
  unfolding wait_space
  wait_space-sent a =
      let first = get_tx_fifo_fill_level ∷ [] in
      let second =
        clear_tx_fifo_fill_level_flag
        ∷ irq_ack_tx
        ∷ enable_tx_fifo_fill_level_flag true
        ∷ notif_wait asclin_notif_tx
        ∷ [] in
      let third =
        enable_tx_fifo_fill_level_flag false ∷ clear_tx_fifo_fill_level_flag ∷ irq_ack_tx ∷ [] in
      let one = none-sent a.calls first refl in
      let two = none-sent (a.calls ++ first) second refl in
      let three = none-sent ((a.calls ++ first) ++ second) third refl in
      elim (Bool-cases (ltb (line.level (a.calls ++ first)) 16)) [
        | inl e ↦ rw (e, one)
        | inr e ↦ rw (e, three, two, one)
      ]

  -- The calls up to the end of the wait for room.
  abbrev pub room_wait : Asclin → List IfxCall
  room_wait a =
      (a.calls ++ get_tx_fifo_fill_level ∷ [])
      ++ clear_tx_fifo_fill_level_flag
        ∷ irq_ack_tx
        ∷ enable_tx_fifo_fill_level_flag true
        ∷ notif_wait asclin_notif_tx
        ∷ []

  hw_tx-error :
      (b : ℕ) (a : Asclin)
      → is_ok (hw_tx line b a).0 ≡ false
      → (hw_tx line b a).0 ≡ line.wait (room_wait a)
  unfolding hw_tx wait_space
  hw_tx-error b a h =
      elim (Bool-cases (ltb (line.level (a.calls ++ get_tx_fifo_fill_level ∷ [])) 16)) [
        | inl e ↦ absurd (ground (arith, e, h))
        | inr e ↦ elim (Bool-cases (is_ok (line.wait (room_wait a)))) [
          | inl f ↦ absurd (ground (arith, e, f, h))
          | inr f ↦ rw (e, f) refl
        ]
      ]

  hw_tx-done :
      (b : ℕ) (a : Asclin)
      → is_ok (hw_tx line b a).0 ≡ true
      → sent (hw_tx line b a).1.calls ≡ sent a.calls ++ b ∷ []
  unfolding hw_tx
  hw_tx-done b a h = elim (Bool-cases (is_ok (wait_space line a).0)) [
    | inl e ↦
        rw (e, sent-append (wait_space line a).1.calls (write_tx_data b ∷ []), wait_space-sent a)
    | inr e ↦ ground (arith, e, h)
  ]

  hw_tx-failed :
      (b : ℕ) (a : Asclin)
      → is_ok (hw_tx line b a).0 ≡ false
      → sent (hw_tx line b a).1.calls ≡ sent a.calls
  unfolding hw_tx
  hw_tx-failed b a h = elim (Bool-cases (is_ok (wait_space line a).0)) [
    | inl e ↦ ground (arith, e, h)
    | inr e ↦ rw (e, wait_space-sent a)
  ]

  asclin_tx_byte-hw_tx :
      (fa_hz b : ℕ) (a : Asclin)
      → b < 256
      → asclin_tx_byte true (deliver line fa_hz) b a ≡ hw_tx line b a
  unfolding asclin_tx_byte asclin_call asclin_server
  asclin_tx_byte-hw_tx fa_hz b a small = ap (λ k. hw_tx line k a) {x = u8 b} {y = b} (omega arith)

  abbrev port : ℕ → Port Asclin
  port fa_hz = record {
    tx = asclin_tx_byte true (deliver line fa_hz);
    sent = λ a. sent a.calls;
    tx_done = λ b a small h.
        let e = asclin_tx_byte-hw_tx fa_hz b a small in
        ap (λ r. sent r.1.calls) e ∙ hw_tx-done b a (sym (ap (λ r. is_ok r.0) e) ∙ h);
    tx_failed = λ b a small h.
        let e = asclin_tx_byte-hw_tx fa_hz b a small in
        ap (λ r. sent r.1.calls) e ∙ hw_tx-failed b a (sym (ap (λ r. is_ok r.0) e) ∙ h);
  }

  -- What a run from index `i` on makes of the result.
  abbrev answer : ℕ → ℕ → Run Asclin → Rc × Asclin
  answer i left r = (
    if is_ok r.rc
        then Rc.count (i + left)
        else if i + r.count == 0
        then r.rc
        else Rc.count (i + r.count),
    r.state,
  )

  tx_from-run :
      (fa_hz left i : ℕ) (buf : List ℕ) (a : Asclin)
      → i + left ≤ length buf
      → tx_from true (deliver line fa_hz) left i buf a
        ≡ answer i left (run (port fa_hz) (take left (drop i buf)) a)
  unfolding tx_from
  tx_from-run fa_hz zero i buf a h = ap (λ k. (Rc.count k, a)) {x = i} {y = i + 0} (omega arith)
  tx_from-run fa_hz (suc left) i buf a h =
      let (rc, a1) = asclin_tx_byte true (deliver line fa_hz) (get_or buf i 0) a in
      let rest = run (port fa_hz) (take left (drop (i + 1) buf)) a1 in
      let all : i + 1 + left ≡ i + suc left = omega arith in
      let part : i + 1 + rest.count ≡ i + suc rest.count = omega arith in
      let none : i + 0 ≡ i = omega arith in
      rw (take-drop-suc left i buf 0 (omega arith)) (elim (Bool-cases (is_ok rc)) [
        | inl e ↦ rw (e, tx_from-run fa_hz left (i + 1) buf a1 (omega arith), all, part)
        | inr e ↦ rw (e, none, e)
      ])

  -- A run that fails before a byte has gone gives what the kernel's wait for room answered.
  run-error :
      (fa_hz : ℕ) (bs : List ℕ) (a : Asclin)
      → AllBytes bs
      → is_ok (run (port fa_hz) bs a).rc ≡ false
      → (run (port fa_hz) bs a).count ≡ 0
      → (run (port fa_hz) bs a).rc ≡ line.wait (room_wait a)
  run-error fa_hz bs a bytes h none =
      let (b, (small, first)) = run-first (port fa_hz) bs a bytes h none in
      let same = first ∙ ap (λ r. r.0) (asclin_tx_byte-hw_tx fa_hz b a small) in
      same ∙ hw_tx-error b a (sym (ap is_ok same) ∙ h)

  -- Where the kernel's wait answers OK or an error, never a count, then whatever the hardware
  -- answers, asclin_tx_buf on the first len bytes of a buffer that has them, through the server,
  -- returns a count and has sent exactly that many bytes of the buffer, the first ones in order,
  -- or, where len is not 0, returns the error of the kernel's wait for room for the first byte and
  -- has sent nothing.
  pub asclin_tx_buf-sent :
      (fa_hz : ℕ) (buf : List ℕ) (len : ℕ) (a : Asclin)
      → len ≤ length buf
      → AllBytes buf
      → ((cs : List IfxCall) → (is_ok (line.wait cs) ≡ true) ⊎ (is_error (line.wait cs) ≡ true))
      → let r = asclin_tx_buf true (deliver line fa_hz) buf len a in
        ((k : ℕ) × ((k ≤ len)
            × ((r.0 ≡ Rc.count k) × (sent r.1.calls ≡ sent a.calls ++ take k buf))))
        ⊎ ((0 < len)
            × ((is_error r.0 ≡ true)
                × ((r.0 ≡ line.wait (room_wait a)) × (sent r.1.calls ≡ sent a.calls))))
  unfolding asclin_tx_buf
  asclin_tx_buf-sent fa_hz buf len a enough bytes waits =
      let r = run (port fa_hz) (take len buf) a in
      let e = tx_from-run fa_hz len 0 buf a (omega arith) in
      let (all, (went, less)) = run-take (port fa_hz) buf len a enough bytes in
      let calls = ap (λ t. sent t.1.calls) e ∙ all in
      let start : 0 + len ≡ len = omega arith in
      let some_went : 0 + r.count ≡ r.count = omega arith in
      let rc = ap (λ t. t.0) e in
      elim (Bool-cases (is_ok r.rc)) [
        | inl f ↦
            let result : (answer 0 len r).0 ≡ Rc.count len = rw (f, start) in
            inl (
              len,
              (omega arith, (rc ∙ result, calls ∙ ap (λ k. sent a.calls ++ take k buf) (went f))),
            )
        | inr f ↦ elim (ℕ_discrete r.count 0) [
          | yes zeros ↦
              let result : (answer 0 len r).0 ≡ r.rc = rw (f, zeros) in
              let error = run-error fa_hz (take len buf) a (AllBytes-take len buf bytes) f zeros in
              let bad : is_error (line.wait (room_wait a)) ≡ true = elim (waits (room_wait a)) [
                | inl o ↦ absurd (cc (sym (ap is_ok error) ∙ f, o))
                | inr o ↦ o
              ] in
              inr (
                omega (arith, less f),
                (
                  ap is_error (rc ∙ result ∙ error) ∙ bad,
                  (
                    rc ∙ result ∙ error,
                    calls ∙ ap (λ k. sent a.calls ++ take k buf) zeros ∙ append-nil (sent a.calls),
                  ),
                ),
              )
          | no part ↦
              let ne : (r.count == 0) ≡ false = ground (arith, part) in
              let result : (answer 0 len r).0 ≡ Rc.count r.count = rw (f, some_went, ne) in
              inl (r.count, (omega (arith, less f), (rc ∙ result, calls)))
        ]
      ]
