-- ===== src/Asclin/Server.antt =====
-- tc275_lite/drivers/asclin/src/server.c: sending and receiving a byte, the baud rate, and the
-- messages. What the server calls is a list of calls in order; what a call of the vendor's library
-- or of the kernel answers may depend on all calls up to it, and is a parameter.
use ulmk_boards.Base.{
  ℕ, ◌+◌, ◌*◌, ◌/◌, Bool, true, false, not, List, [], ◌∷◌, ◌++◌, ◌==◌, ltb, if◌then◌else◌, get_or,
}
use ulmk_boards.Base.Word.{u8, u16, u32}
use ulmk_boards.Kernel.{Rc, is_ok, Msg}

-- Calls of the vendor's library, each named for what follows IfxAsclin_ in its name, and of the
-- kernel, with the number of the interrupt or the bit waited for.
pub data IfxCall : Type 0 where
  get_tx_fifo_fill_level get_rx_fifo_fill_level : IfxCall
  clear_tx_fifo_fill_level_flag clear_rx_fifo_fill_level_flag : IfxCall
  enable_tx_fifo_fill_level_flag enable_rx_fifo_fill_level_flag : Bool → IfxCall
  write_tx_data : ℕ → IfxCall
  read_rx_data : IfxCall
  set_denominator set_numerator : ℕ → IfxCall
  irq_ack_tx irq_ack_rx : IfxCall
  notif_wait : ℕ → IfxCall

-- What the last of the calls answers.
pub record Line : Type 0 where
  pub level : List IfxCall → ℕ
  pub received : List IfxCall → ℕ
  pub wait : List IfxCall → Rc

abbrev pub asclin_notif_tx : ℕ
asclin_notif_tx = 0

abbrev pub asclin_notif_rx : ℕ
asclin_notif_rx = 1

abbrev pub asclin_msg_tx_byte : ℕ
asclin_msg_tx_byte = 1

abbrev pub asclin_msg_rx_byte : ℕ
asclin_msg_rx_byte = 2

abbrev pub asclin_msg_rx_byte_nb : ℕ
asclin_msg_rx_byte_nb = 3

abbrev pub asclin_msg_set_baud : ℕ
asclin_msg_set_baud = 4

-- The calls so far, and `baud` of the server's arguments.
pub record Asclin : Type 0 where
  pub calls : List IfxCall
  pub baud : ℕ

abbrev pub add_calls : Asclin → List IfxCall → Asclin
add_calls a cs = record a { calls = a.calls ++ cs }

abbrev pub denom : ℕ
denom = 3072

unfoldable pub clamp_numer : ℕ → ℕ
clamp_numer numer =
    let low = (if numer == 0 then 1 else numer) in if ltb 0xFFF low then 0xFFF else low

-- The numerator; the sum before the division does not wrap in its 64 bits.
unfoldable pub numer_of : ℕ → ℕ → ℕ
numer_of baud fa_hz = clamp_numer (u32 ((baud * denom * 16 + fa_hz / 2) / fa_hz))

unfoldable pub hw_set_baud : ℕ → ℕ → List IfxCall
hw_set_baud baud fa_hz =
    set_denominator (u16 denom) ∷ set_numerator (u16 (numer_of baud fa_hz)) ∷ []

module _ (line : Line) where
  unfoldable pub wait_space : Asclin → Rc × Asclin
  wait_space a =
      let a1 = add_calls a (get_tx_fifo_fill_level ∷ []) in
      let a2 = add_calls a1 (
        clear_tx_fifo_fill_level_flag
        ∷ irq_ack_tx
        ∷ enable_tx_fifo_fill_level_flag true
        ∷ notif_wait asclin_notif_tx
        ∷ []) in
      let a3 =
        add_calls a2 (
          enable_tx_fifo_fill_level_flag false ∷ clear_tx_fifo_fill_level_flag ∷ irq_ack_tx ∷ []) in
      if ltb (line.level a1.calls) 16 then (Rc.ok, a1) else (line.wait a2.calls, a3)

  unfoldable pub hw_tx : ℕ → Asclin → Rc × Asclin
  hw_tx byte a =
      let (ret, a1) = wait_space a in
      if not (is_ok ret) then (ret, a1) else (Rc.ok, add_calls a1 (write_tx_data byte ∷ []))

  -- The byte is the one that the server set before, 0, where the code leaves it alone.
  unfoldable pub receive_byte : Asclin → Rc × ℕ × Asclin
  receive_byte a =
      let a1 = add_calls a (read_rx_data ∷ []) in (Rc.ok, u8 (line.received a1.calls), a1)

  unfoldable pub hw_rx : Bool → Asclin → Rc × ℕ × Asclin
  hw_rx blocking a =
      let a1 = add_calls a (get_rx_fifo_fill_level ∷ []) in
      let a2 = add_calls a1 (
        clear_rx_fifo_fill_level_flag
        ∷ irq_ack_rx
        ∷ enable_rx_fifo_fill_level_flag true
        ∷ notif_wait asclin_notif_rx
        ∷ []) in
      let ret = line.wait a2.calls in
      let a3 =
        add_calls a2 (
          enable_rx_fifo_fill_level_flag false ∷ clear_rx_fifo_fill_level_flag ∷ irq_ack_rx ∷ []) in
      let a4 = add_calls a3 (get_rx_fifo_fill_level ∷ []) in
      if ltb 0 (line.level a1.calls)
      then receive_byte a1
      else if not blocking
      then (Rc.etimeout, 0, a1)
      else if not (is_ok ret)
      then (ret, 0, a3)
      else if line.level a4.calls == 0
      then (Rc.etimeout, 0, a4)
      else receive_byte a4

  -- A round of the server at a clock of `fa_hz`: words 0 and 1 of its reply, and what it leaves.
  unfoldable pub asclin_server : ℕ → Msg → Asclin → Rc × ℕ × Asclin
  asclin_server fa_hz m a =
      let w0 = get_or m.words 0 0 in
      let (rc, a1) = hw_tx (u8 w0) a in
      if m.label == asclin_msg_tx_byte
      then (rc, 0, a1)
      else if m.label == asclin_msg_rx_byte
      then hw_rx true a
      else if m.label == asclin_msg_rx_byte_nb
      then hw_rx false a
      else if m.label == asclin_msg_set_baud
      then (Rc.ok, 0, record { calls = a.calls ++ hw_set_baud w0 fa_hz; baud = w0 })
      else (Rc.einval, 0, a)
