-- ===== src/Usart/Server.antt =====
-- witte_linum/drivers/uart/src/server.c: sending and receiving a byte, and the messages. What the
-- server calls is a list of calls in order; what a call of the vendor's library or of the kernel
-- answers may depend on all calls up to it, and is a parameter.
use ulmk_boards.Base.{ℕ, Bool, true, false, not, List, [], ◌∷◌, ◌++◌, ◌==◌, if◌then◌else◌, get_or}
use ulmk_boards.Base.Word.{u8}
use ulmk_boards.Kernel.{Rc, is_ok, Msg}

-- Calls of the vendor's library, each named for what follows LL_USART_ in its name, and of the kernel.
pub data LlCall : Type 0 where
  is_active_txe is_active_rxne : LlCall
  clear_tc enable_txe disable_txe enable_rxne disable_rxne : LlCall
  transmit : ℕ → LlCall
  receive : LlCall
  set_baud_rate : ℕ → ℕ → LlCall
  irq_ack notif_wait : LlCall

-- What the last of the calls answers.
pub record Line : Type 0 where
  pub flag : List LlCall → Bool
  pub received : List LlCall → ℕ
  pub wait : List LlCall → Rc

abbrev pub uart_msg_tx_byte : ℕ
uart_msg_tx_byte = 1

abbrev pub uart_msg_rx_byte : ℕ
uart_msg_rx_byte = 2

abbrev pub uart_msg_rx_byte_nb : ℕ
uart_msg_rx_byte_nb = 3

abbrev pub uart_msg_set_baud : ℕ
uart_msg_set_baud = 4

-- The calls so far, and `baud` of the server's arguments.
pub record Usart : Type 0 where
  pub calls : List LlCall
  pub baud : ℕ

abbrev pub add_calls : Usart → List LlCall → Usart
add_calls u cs = record u { calls = u.calls ++ cs }

module _ (line : Line) where
  unfoldable pub wait_txe : Usart → Rc × Usart
  wait_txe u =
      let u1 = add_calls u (is_active_txe ∷ []) in
      let u2 = add_calls u1 (clear_tc ∷ irq_ack ∷ enable_txe ∷ notif_wait ∷ []) in
      if line.flag u1.calls
      then (Rc.ok, u1)
      else (line.wait u2.calls, add_calls u2 (disable_txe ∷ irq_ack ∷ []))

  unfoldable pub wait_rxne : Usart → Rc × Usart
  wait_rxne u =
      let u1 = add_calls u (is_active_rxne ∷ []) in
      let u2 = add_calls u1 (irq_ack ∷ enable_rxne ∷ notif_wait ∷ []) in
      if line.flag u1.calls
      then (Rc.ok, u1)
      else (line.wait u2.calls, add_calls u2 (disable_rxne ∷ irq_ack ∷ []))

  unfoldable pub hw_tx : ℕ → Usart → Rc × Usart
  hw_tx byte u =
      let (ret, u1) = wait_txe u in
      if not (is_ok ret) then (ret, u1) else (Rc.ok, add_calls u1 (transmit byte ∷ []))

  -- The byte is the one that the server set before, 0, where the code leaves it alone.
  unfoldable pub receive_byte : Usart → Rc × ℕ × Usart
  receive_byte u = let u1 = add_calls u (receive ∷ []) in (Rc.ok, u8 (line.received u1.calls), u1)

  unfoldable pub hw_rx : Bool → Usart → Rc × ℕ × Usart
  hw_rx blocking u =
      let u1 = add_calls u (is_active_rxne ∷ []) in
      let (ret, u2) = wait_rxne u1 in
      let u3 = add_calls u2 (is_active_rxne ∷ []) in
      if line.flag u1.calls
      then receive_byte u1
      else if not blocking
      then (Rc.etimeout, 0, u1)
      else if not (is_ok ret)
      then (ret, 0, u2)
      else if not (line.flag u3.calls)
      then (Rc.etimeout, 0, u3)
      else receive_byte u3

  -- A round of the server at a clock of `pclk_hz`: words 0 and 1 of its reply, and what it leaves.
  unfoldable pub uart_server : ℕ → Msg → Usart → Rc × ℕ × Usart
  uart_server pclk_hz m u =
      let w0 = get_or m.words 0 0 in
      let (rc, u1) = hw_tx (u8 w0) u in
      if m.label == uart_msg_tx_byte
      then (rc, 0, u1)
      else if m.label == uart_msg_rx_byte
      then hw_rx true u
      else if m.label == uart_msg_rx_byte_nb
      then hw_rx false u
      else if m.label == uart_msg_set_baud
      then (Rc.ok, 0, record { calls = u.calls ++ set_baud_rate pclk_hz w0 ∷ []; baud = w0 })
      else (Rc.einval, 0, u)
