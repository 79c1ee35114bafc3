-- ===== src/Usart/Client.antt =====
-- The calls of witte_linum/drivers/uart/src/client.c. `call` stands for `ulmk_ep_call` on the
-- server's endpoint: its result, words 0 and 1 of the reply, and the other side's state.
use ulmk_boards.Base.{
  ℕ, zero, suc, ◌+◌, Bool, not, Option, none, some, List, [], ◌∷◌, if◌then◌else◌, get_or,
}
use ulmk_boards.Base.Word.{u8}
use ulmk_boards.Kernel.{Rc, is_ok, Msg}
use ulmk_boards.Usart.Server.{
  uart_msg_tx_byte, uart_msg_rx_byte, uart_msg_rx_byte_nb, uart_msg_set_baud,
}

-- `valid`: the number is below UART_MAX and its endpoint exists.
module _ {S : Type 0} (valid : Bool) (call : Msg → S → Rc × Rc × ℕ × S) where
  unfoldable pub uart_call : Msg → S → Rc × Rc × ℕ × S
  uart_call m s = if not valid then (Rc.esrch, Rc.ok, 0, s) else call m s

  unfoldable pub uart_tx_byte : ℕ → S → Rc × S
  uart_tx_byte byte s =
      let (rc, reply, w1, s') =
        uart_call (record { label = uart_msg_tx_byte; words = byte ∷ [] }) s in
      if not (is_ok rc) then (rc, s') else (reply, s')

  -- The loop from index `i` on, `left` bytes.
  unfoldable pub tx_from : ℕ → ℕ → List ℕ → S → Rc × S
  tx_from zero i buf s = (Rc.ok, s)
  tx_from (suc left) i buf s =
      let (rc, s') = uart_tx_byte (get_or buf i 0) s in
      let rest = tx_from left (i + 1) buf s' in if not (is_ok rc) then (rc, s') else rest

  -- `none` is a null pointer.
  unfoldable pub uart_tx_buf : Option (List ℕ) → ℕ → S → Rc × S
  uart_tx_buf none len s = (Rc.einval, s)
  uart_tx_buf (some buf) len s = tx_from len 0 buf s

  -- The byte is `none` where the code leaves `*out` alone.
  unfoldable pub rx_byte : ℕ → S → Rc × Option ℕ × S
  rx_byte label s =
      let (rc, reply, w1, s') = uart_call (record { label = label; words = [] }) s in
      if not (is_ok rc)
      then (rc, none, s')
      else if not (is_ok reply)
      then (reply, none, s')
      else (Rc.ok, some (u8 w1), s')

  unfoldable pub uart_rx_byte : S → Rc × Option ℕ × S
  uart_rx_byte s = rx_byte uart_msg_rx_byte s

  unfoldable pub uart_rx_byte_nb : S → Rc × Option ℕ × S
  uart_rx_byte_nb s = rx_byte uart_msg_rx_byte_nb s

  unfoldable pub uart_set_baud : ℕ → S → Rc × S
  uart_set_baud baud s =
      let (rc, reply, w1, s') =
        uart_call (record { label = uart_msg_set_baud; words = baud ∷ [] }) s in
      if not (is_ok rc) then (rc, s') else (reply, s')
