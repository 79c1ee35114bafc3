-- ===== src/Usart/Sent.antt =====
-- A text through both sides of witte_linum/drivers/uart: what the port is given to send.
use ulmk_boards.Base.{
  ℕ, zero, suc, ◌+◌, ◌≤◌, ◌<◌, ◌≡◌, refl, ap, sym, ◌∙◌, inl, inr, true, false, List, [], ◌∷◌, ◌++◌,
  length, get_or, take, drop, take-drop-suc, append_assoc, append-nil, arith, Bool-cases, some, ◌⊎◌,
}
use ulmk_boards.Base.Word.{u8}
use ulmk_boards.Kernel.{Rc, is_ok, Msg}
use ulmk_boards.Wire.Pack.{AllBytes}
use ulmk_boards.Serial.{Port, run, run-take}
use ulmk_boards.Usart.Server.{
  LlCall, is_active_txe, clear_tc, enable_txe, disable_txe, transmit, irq_ack, notif_wait, Line,
  Usart, wait_txe, hw_tx, uart_server,
}
use ulmk_boards.Usart.Client.{uart_call, uart_tx_byte, tx_from, uart_tx_buf}

-- The kernel hands a message to the server, which answers it with one round.
abbrev pub deliver : Line → ℕ → Msg → Usart → Rc × Rc × ℕ × Usart
deliver line pclk_hz m u = let (rc, w1, u') = uart_server line pclk_hz m u in (Rc.ok, rc, w1, u')

abbrev bytes_of : LlCall → List ℕ
bytes_of (transmit b) = b ∷ []
bytes_of _ = []

-- The bytes that the calls transmit.
abbrev pub sent : List LlCall → List ℕ
sent [] = []
sent (c ∷ cs) = bytes_of c ++ sent cs

sent-append : (xs ys : List LlCall) → sent (xs ++ ys) ≡ sent xs ++ sent ys
sent-append [] ys = refl
sent-append (c ∷ xs) ys =
    ap (λ t. bytes_of c ++ t) (sent-append xs ys)
    ∙ sym (append_assoc (bytes_of c) (sent xs) (sent ys))

module _ (line : Line) where
  wait_txe-sent : (u : Usart) → sent (wait_txe line u).1.calls ≡ sent u.calls
  unfolding wait_txe
  wait_txe-sent u =
      let u1 = u.calls ++ is_active_txe ∷ [] in
      let u2 = u1 ++ clear_tc ∷ irq_ack ∷ enable_txe ∷ notif_wait ∷ [] in
      let first : sent u1 ≡ sent u.calls =
        sent-append u.calls (is_active_txe ∷ []) ∙ append-nil (sent u.calls) in
      elim (Bool-cases (line.flag u1)) [
        | inl e ↦ rw (e, first)
        | inr e ↦ rw (
          e,
          sent-append u2 (disable_txe ∷ irq_ack ∷ []),
          append-nil (sent u2),
          sent-append u1 (clear_tc ∷ irq_ack ∷ enable_txe ∷ notif_wait ∷ []),
          append-nil (sent u1),
          first,
        )
      ]

  hw_tx-done :
      (b : ℕ) (u : Usart)
      → is_ok (hw_tx line b u).0 ≡ true
      → sent (hw_tx line b u).1.calls ≡ sent u.calls ++ b ∷ []
  unfolding hw_tx
  hw_tx-done b u h = elim (Bool-cases (is_ok (wait_txe line u).0)) [
    | inl e ↦ rw (e, sent-append (wait_txe line u).1.calls (transmit b ∷ []), wait_txe-sent u)
    | inr e ↦ ground (arith, e, h)
  ]

  hw_tx-failed :
      (b : ℕ) (u : Usart)
      → is_ok (hw_tx line b u).0 ≡ false
      → sent (hw_tx line b u).1.calls ≡ sent u.calls
  unfolding hw_tx
  hw_tx-failed b u h = elim (Bool-cases (is_ok (wait_txe line u).0)) [
    | inl e ↦ ground (arith, e, h)
    | inr e ↦ rw (e, wait_txe-sent u)
  ]

  uart_tx_byte-hw_tx :
      (pclk_hz b : ℕ) (u : Usart)
      → b < 256
      → uart_tx_byte true (deliver line pclk_hz) b u ≡ hw_tx line b u
  unfolding uart_tx_byte uart_call uart_server
  uart_tx_byte-hw_tx pclk_hz b u small = ap (λ k. hw_tx line k u) {x = u8 b} {y = b} (omega arith)

  abbrev port : ℕ → Port Usart
  port pclk_hz = record {
    tx = uart_tx_byte true (deliver line pclk_hz);
    sent = λ u. sent u.calls;
    tx_done = λ b u small h.
        let e = uart_tx_byte-hw_tx pclk_hz b u small in
        ap (λ r. sent r.1.calls) e ∙ hw_tx-done b u (sym (ap (λ r. is_ok r.0) e) ∙ h);
    tx_failed = λ b u small h.
        let e = uart_tx_byte-hw_tx pclk_hz b u small in
        ap (λ r. sent r.1.calls) e ∙ hw_tx-failed b u (sym (ap (λ r. is_ok r.0) e) ∙ h);
  }

  tx_from-run :
      (pclk_hz left i : ℕ) (buf : List ℕ) (u : Usart)
      → i + left ≤ length buf
      → tx_from true (deliver line pclk_hz) left i buf u ≡ (
        (run (port pclk_hz) (take left (drop i buf)) u).rc,
        (run (port pclk_hz) (take left (drop i buf)) u).state,
      )
  unfolding tx_from
  tx_from-run pclk_hz zero i buf u h = refl
  tx_from-run pclk_hz (suc left) i buf u h =
      let (rc, u1) = uart_tx_byte true (deliver line pclk_hz) (get_or buf i 0) u in
      rw (take-drop-suc left i buf 0 (omega arith)) (elim (Bool-cases (is_ok rc)) [
        | inl e ↦ rw (e, tx_from-run pclk_hz left (i + 1) buf u1 (omega arith))
        | inr e ↦ rw e
      ])

  -- Whatever the hardware and the kernel answer, uart_tx_buf on the first len bytes of a buffer
  -- that has them, through the server, reports success and has sent exactly these bytes in order,
  -- or reports an error and has sent fewer of them, again the first ones in order.
  pub uart_tx_buf-sent :
      (pclk_hz : ℕ) (buf : List ℕ) (len : ℕ) (u : Usart)
      → len ≤ length buf
      → AllBytes buf
      → let r = uart_tx_buf true (deliver line pclk_hz) (some buf) len u in
        ((is_ok r.0 ≡ true) × (sent r.1.calls ≡ sent u.calls ++ take len buf))
        ⊎ ((is_ok r.0 ≡ false)
            × ((k : ℕ) × ((k < len) × (sent r.1.calls ≡ sent u.calls ++ take k buf))))
  unfolding uart_tx_buf
  uart_tx_buf-sent pclk_hz buf len u enough bytes =
      let r = run (port pclk_hz) (take len buf) u in
      let e = tx_from-run pclk_hz len 0 buf u (omega arith) in
      let ok = ap (λ t. is_ok t.0) e in
      let (all, (went, less)) = run-take (port pclk_hz) buf len u enough bytes in
      elim (Bool-cases (is_ok r.rc)) [
        | inl f ↦ inl (
          ok ∙ f,
          ap (λ t. sent t.1.calls) e ∙ all ∙ ap (λ k. sent u.calls ++ take k buf) (went f),
        )
        | inr f ↦ inr (ok ∙ f, (r.count, (less f, ap (λ t. sent t.1.calls) e ∙ all)))
      ]
