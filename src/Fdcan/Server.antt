-- ===== src/Fdcan/Server.antt =====
-- witte_linum/drivers/can/src/server.c: a frame into and out of the controller's message memory, and the
-- messages. What the server does to the machine is a list of acts in order; what the machine and the
-- kernel answer is a parameter.
use ulmk_boards.Base.{
  ℕ, ◌+◌, ◌*◌, not, ◌&&◌, ◌||◌, List, [], ◌∷◌, ◌++◌, ltb, ◌==◌, if◌then◌else◌, get_or, bit_and,
  bit_or,
}
use ulmk_boards.Base.Word.{◌<<◌, ◌>>>◌}
use ulmk_boards.Kernel.{Rc, is_ok, Msg}

abbrev pub can_msg_send : ℕ
can_msg_send = 1

abbrev pub can_msg_recv : ℕ
can_msg_recv = 2

abbrev pub can_ram_stride_words : ℕ
can_ram_stride_words = 32

-- A store to a word of the message memory, writes to the registers TXBAR and RXF0A, the
-- write to IR that clears the flag of a new frame, and the kernel's calls.
pub data FdAct : Type 0 where
  st_ram : ℕ → ℕ → FdAct
  wr_txbar wr_rxf0a : ℕ → FdAct
  clear_rf0n irq_ack notif_wait : FdAct

-- What a message reads in order: TXFQS for a send; RXF0S, the kernel's answer to a wait, RXF0S
-- again, the message memory and RXF0S once more for a receive.
pub record Answers : Type 0 where
  pub txfqs : ℕ
  pub rxf0s : ℕ
  pub waited : Rc
  pub rxf0s_late : ℕ
  pub ram : ℕ → ℕ
  pub rxf0s_ack : ℕ

unfoldable pub can_hw_send : ℕ → Msg → Answers → Rc × List FdAct
can_hw_send n m o =
    let tx = n * can_ram_stride_words + 16 in
    let w = get_or m.words in
    if ltb 0x7FF (w 0 0) || ltb 8 (w 1 0)
    then (Rc.einval, [])
    else if not (bit_and o.txfqs (1 << 21) == 0)
    then (Rc.etimeout, [])
    else (
      Rc.ok,
      st_ram tx (w 0 0 << 18)
          ∷ st_ram (tx + 1) (w 1 0 << 16)
          ∷ st_ram (tx + 2) (w 2 0)
          ∷ st_ram (tx + 3) (w 3 0)
          ∷ wr_txbar 1
          ∷ [],
    )

-- The words are those after word 0 that the code sets.
unfoldable pub can_hw_recv : ℕ → Answers → Rc × List ℕ × List FdAct
can_hw_recv n o =
    let rx = n * can_ram_stride_words + 8 in
    let empty = bit_and o.rxf0s 0x7F == 0 in
    let before = (if empty then irq_ack ∷ notif_wait ∷ [] else []) in
    let first = bit_or ((o.ram (rx + 1) >>> 16) << 16) (bit_and (o.ram rx >>> 18) 0x7FF) in
    if empty && not (is_ok o.waited)
    then (o.waited, [], before)
    else if bit_and o.rxf0s_late 0x7F == 0
    then (Rc.etimeout, [], before)
    else (
      Rc.ok,
      first ∷ o.ram (rx + 2) ∷ o.ram (rx + 3) ∷ [],
      before ++ wr_rxf0a (o.rxf0s_ack >>> 8) ∷ clear_rf0n ∷ irq_ack ∷ [],
    )

-- A round of the server: word 0 of its reply, the words after it, and the acts.
unfoldable pub can_server : ℕ → Msg → Answers → Rc × List ℕ × List FdAct
can_server n m o =
    let (rc, acts) = can_hw_send n m o in
    if m.label == can_msg_send
    then (rc, [], acts)
    else if m.label == can_msg_recv
    then can_hw_recv n o
    else (Rc.einval, [], [])
