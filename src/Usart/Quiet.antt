-- ===== src/Usart/Quiet.antt =====
-- The interrupts of the port while no request is served: witte_linum/drivers/uart/src/server.c
-- enables one only around a wait.
use ulmk_boards.Base.{
  ℕ, ◌≡◌, refl, ap, ◌∙◌, inl, inr, Bool, true, false, not, List, [], ◌∷◌, ◌++◌, ◌==◌, if◌then◌else◌,
  Bool-cases, get_or,
}
use ulmk_boards.Base.Word.{u8}
use ulmk_boards.Kernel.{Rc, is_ok, Msg}
use ulmk_boards.Usart.Server.{
  LlCall, is_active_txe, is_active_rxne, clear_tc, enable_txe, disable_txe, enable_rxne,
  disable_rxne, transmit, receive, set_baud_rate, irq_ack, notif_wait, Line, Usart, add_calls,
  wait_txe, wait_rxne, receive_byte, hw_tx, hw_rx, uart_server, uart_msg_tx_byte, uart_msg_rx_byte,
  uart_msg_rx_byte_nb, uart_msg_set_baud,
}

-- The enables of the two interrupts.
pub record Armed : Type 0 where
  pub txe : Bool
  pub rxne : Bool

abbrev pub off : Armed
off = record { txe = false; rxne = false }

abbrev arm : Armed → LlCall → Armed
arm s enable_txe = record s { txe = true }
arm s disable_txe = record s { txe = false }
arm s enable_rxne = record s { rxne = true }
arm s disable_rxne = record s { rxne = false }
arm s _ = s

-- After the calls.
abbrev pub armed : Armed → List LlCall → Armed
armed s [] = s
armed s (c ∷ cs) = armed (arm s c) cs

armed-append : (s : Armed) (xs ys : List LlCall) → armed s (xs ++ ys) ≡ armed (armed s xs) ys
armed-append s [] ys = refl
armed-append s (c ∷ xs) ys = armed-append (arm s c) xs ys

abbrev Quiet : Usart → Type 0
Quiet u = armed off u.calls ≡ off

-- Calls that leave both off.
add_calls-Quiet :
    (u : Usart) (cs : List LlCall) → armed off cs ≡ off → Quiet u → Quiet (add_calls u cs)
add_calls-Quiet u cs h q = armed-append off u.calls cs ∙ ap (λ s. armed s cs) q ∙ h

-- Calls that enable one for a wait, and calls that then disable it.
window-Quiet :
    (u : Usart) (cs ds : List LlCall)
    → armed (armed off cs) ds ≡ off
    → Quiet u
    → Quiet (add_calls (add_calls u cs) ds)
window-Quiet u cs ds h q =
    armed-append off (u.calls ++ cs) ds
    ∙ ap (λ s. armed s ds) (armed-append off u.calls cs ∙ ap (λ s. armed s cs) q)
    ∙ h

module _ (line : Line) where
  wait_txe-Quiet : (u : Usart) → Quiet u → Quiet (wait_txe line u).1
  unfolding wait_txe
  wait_txe-Quiet u q =
      let u1 = add_calls u (is_active_txe ∷ []) in
      let q1 : Quiet u1 = add_calls-Quiet u (is_active_txe ∷ []) refl q in
      elim (Bool-cases (line.flag u1.calls)) [
        | inl e ↦ rw (e, q1)
        | inr e ↦ rw (
          e,
          window-Quiet u1 (clear_tc ∷ irq_ack ∷ enable_txe ∷ notif_wait ∷ [])
              (disable_txe ∷ irq_ack ∷ []) refl q1,
        )
      ]

  wait_rxne-Quiet : (u : Usart) → Quiet u → Quiet (wait_rxne line u).1
  unfolding wait_rxne
  wait_rxne-Quiet u q =
      let u1 = add_calls u (is_active_rxne ∷ []) in
      let q1 : Quiet u1 = add_calls-Quiet u (is_active_rxne ∷ []) refl q in
      elim (Bool-cases (line.flag u1.calls)) [
        | inl e ↦ rw (e, q1)
        | inr e ↦ rw (
          e,
          window-Quiet u1 (irq_ack ∷ enable_rxne ∷ notif_wait ∷ []) (disable_rxne ∷ irq_ack ∷ [])
              refl q1,
        )
      ]

  if-Quiet :
      {A : Type 0} (state : A → Usart) (b : Bool) (x y : A)
      → Quiet (state x)
      → Quiet (state y)
      → Quiet (state (if b then x else y))
  if-Quiet state true x y p q = p
  if-Quiet state false x y p q = q

  hw_tx-Quiet : (byte : ℕ) (u : Usart) → Quiet u → Quiet (hw_tx line byte u).1
  unfolding hw_tx
  hw_tx-Quiet byte u q =
      let w = wait_txe-Quiet u q in
      if-Quiet (λ (r : Rc × Usart). r.1) (not (is_ok (wait_txe line u).0)) _ _ w
        (add_calls-Quiet (wait_txe line u).1 (transmit byte ∷ []) refl w)

  receive_byte-Quiet : (u : Usart) → Quiet u → Quiet (receive_byte line u).2
  unfolding receive_byte
  receive_byte-Quiet u q = add_calls-Quiet u (receive ∷ []) refl q

  hw_rx-Quiet : (blocking : Bool) (u : Usart) → Quiet u → Quiet (hw_rx line blocking u).2
  unfolding hw_rx
  hw_rx-Quiet blocking u q =
      let u1 = add_calls u (is_active_rxne ∷ []) in
      let u2 = (wait_rxne line u1).1 in
      let u3 = add_calls u2 (is_active_rxne ∷ []) in
      let q1 : Quiet u1 = add_calls-Quiet u (is_active_rxne ∷ []) refl q in
      let q2 : Quiet u2 = wait_rxne-Quiet u1 q1 in
      let q3 : Quiet u3 = add_calls-Quiet u2 (is_active_rxne ∷ []) refl q2 in
      let state : Rc × ℕ × Usart → Usart = λ r. r.2 in
      if-Quiet state (line.flag u1.calls) _ _ (receive_byte-Quiet u1 q1) (
        if-Quiet state (not blocking) _ _ q1 (
          if-Quiet state (not (is_ok (wait_rxne line u1).0)) _ _ q2
            (if-Quiet state (not (line.flag u3.calls)) _ _ q3 (receive_byte-Quiet u3 q3))))

  -- Whatever the message and whatever the hardware and the kernel answer, a round of the server
  -- that begins with the transmit and the receive interrupt disabled ends with both disabled.
  pub uart_server-quiet :
      (pclk_hz : ℕ) (m : Msg) (u : Usart)
      → armed off u.calls ≡ off
      → armed off (uart_server line pclk_hz m u).2.calls ≡ off
  unfolding uart_server
  uart_server-quiet pclk_hz m u q =
      let w0 = get_or m.words 0 0 in
      let state : Rc × ℕ × Usart → Usart = λ r. r.2 in
      if-Quiet state (m.label == uart_msg_tx_byte) _ _ (hw_tx-Quiet (u8 w0) u q) (
        if-Quiet state (m.label == uart_msg_rx_byte) _ _ (hw_rx-Quiet true u q) (
          if-Quiet state (m.label == uart_msg_rx_byte_nb) _ _ (hw_rx-Quiet false u q) (
            if-Quiet state (m.label == uart_msg_set_baud) _ _
              (add_calls-Quiet u (set_baud_rate pclk_hz w0 ∷ []) refl q) q)))
