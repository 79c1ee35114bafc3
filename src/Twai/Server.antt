-- ===== src/Twai/Server.antt =====
-- The controller's side of esp32p4_ev_function/drivers/can/src/server.c. What it does to the
-- machine is a list of acts in order; what the machine and the kernel answer is a parameter.
use ulmk_boards.Base.{
  ℕ, zero, suc, ◌+◌, Bool, not, ◌&&◌, Option, none, some, List, [], ◌∷◌, ◌++◌, ltb, ◌==◌,
  if◌then◌else◌, get_or, set, bit_and, bit_or,
}
use ulmk_boards.Base.Word.{u8, ◌<<◌, ◌>>>◌}
use ulmk_boards.Kernel.{Rc, is_ok, Msg}
use ulmk_boards.Twai.Payload.{low_word, high_word, payload_of}

abbrev pub st_rxbuf : ℕ
st_rxbuf = 1 << 0

abbrev pub st_txbuf : ℕ
st_txbuf = 1 << 2

abbrev pub int_rx : ℕ
int_rx = 1 << 0

abbrev pub int_tx : ℕ
int_tx = 1 << 1

abbrev pub cmd_abort : ℕ
cmd_abort = 1 << 1

abbrev pub cmd_release_rx : ℕ
cmd_release_rx = 1 << 2

abbrev pub cmd_self_rx : ℕ
cmd_self_rx = 1 << 4

abbrev pub can_msg_send : ℕ
can_msg_send = 1

abbrev pub can_msg_recv : ℕ
can_msg_recv = 2

-- `struct can_inst`, without its numbers of instance, interrupt and notification.
pub record Inst : Type 0 where
  pub ready : Bool
  pub last_id : ℕ
  pub last : List ℕ
  pub last_len : ℕ

-- A store to a data register, to the command register and to the interrupt enable register; a read
-- of the interrupt register, which clears it; and the acknowledgement.
pub data TwaiAct : Type 0 where
  wr_data : ℕ → ℕ → TwaiAct
  wr_cmd wr_int_ena : ℕ → TwaiAct
  rd_int ack : TwaiAct

-- What a send reads in order: the status before the frame, the kernel's answer to a wait for room,
-- the status after the request, the answer to a wait for the frame, the status when it is taken
-- out, and the data registers then.
pub record Answers : Type 0 where
  pub tx_status : ℕ
  pub tx_wait : Rc
  pub rx_status : ℕ
  pub rx_wait : Rc
  pub drain_status : ℕ
  pub frame : ℕ → ℕ

abbrev pub twai_wait_int : ℕ → List TwaiAct
twai_wait_int mask = rd_int ∷ ack ∷ wr_int_ena mask ∷ wr_int_ena 0 ∷ rd_int ∷ []

-- The loop of `rx_drain` from index `i` on, `left` bytes.
unfoldable pub read_last : (ℕ → ℕ) → ℕ → ℕ → List ℕ → List ℕ
read_last frame zero i last = last
read_last frame (suc left) i last = read_last frame left (i + 1) (set last i (u8 (frame (3 + i))))

unfoldable pub rx_drain : Inst → Answers → List TwaiAct × Inst
rx_drain c o =
    if bit_and o.drain_status st_rxbuf == 0
    then ([], c)
    else let dlc = u8 (bit_and (o.frame 0) 0x0F) in
      let rid = bit_and (bit_or (o.frame 1 << 3) (o.frame 2 >>> 5)) 0x7FF in
      let len = (if ltb 8 dlc then 8 else dlc) in
      (
        wr_cmd cmd_release_rx ∷ [],
        record c { last_id = rid; last_len = len; last = read_last o.frame len 0 c.last },
      )

-- The payload loop of `hw_send` from index `i` on, `left` bytes; `none` is a null pointer.
unfoldable pub wr_payload : Option (List ℕ) → ℕ → ℕ → List TwaiAct
wr_payload bytes zero i = []
wr_payload bytes (suc left) i =
    wr_data (3 + i) (elim bytes [ none ↦ 0 | some ds ↦ get_or ds i 0 ])
    ∷ wr_payload bytes left (i + 1)

unfoldable pub wr_frame : ℕ → Option (List ℕ) → ℕ → List TwaiAct
wr_frame id bytes len =
    wr_data 0 (bit_and len 0x0F)
    ∷ wr_data 1 (bit_and (id >>> 3) 0xFF)
    ∷ wr_data 2 (bit_and (id << 5) 0xE0)
    ∷ wr_payload bytes len 0

-- From the request on.
unfoldable pub take_in : Inst → List TwaiAct → Answers → Rc × List TwaiAct × Inst
take_in c before o =
    let asked = before ++ wr_cmd cmd_self_rx ∷ [] in
    let late = bit_and o.rx_status st_rxbuf == 0 in
    let waited = (if late then asked ++ twai_wait_int int_rx else asked) in
    let (acts, c') = rx_drain c o in
    if late && not (is_ok o.rx_wait)
    then (Rc.etimeout, waited ++ wr_cmd cmd_abort ∷ [], c)
    else (Rc.ok, waited ++ acts, c')

unfoldable pub hw_send : Inst → ℕ → Option (List ℕ) → ℕ → Answers → Rc × List TwaiAct × Inst
hw_send c id bytes len o =
    let n = (if ltb 8 len then 8 else len) in
    let full = bit_and o.tx_status st_txbuf == 0 in
    let before = (if full then twai_wait_int int_tx else []) in
    if not c.ready
    then (Rc.einval, [], c)
    else if full && not (is_ok o.tx_wait)
    then (Rc.etimeout, before, c)
    else take_in c (before ++ wr_frame id bytes n) o

abbrev pub word_at : Msg → ℕ → ℕ
word_at m i = get_or m.words i 0

-- A round of the server. The words of its reply after word 0 are set only by a receive.
unfoldable pub can_server : Msg → Answers → Inst → Rc × List ℕ × List TwaiAct × Inst
can_server m o c =
    let w = word_at m in
    let buf = payload_of 4 0 (w 2) ++ payload_of 4 0 (w 3) in
    let (rc, acts, c') = hw_send c (w 0) (some buf) (u8 (w 1)) o in
    if m.label == can_msg_send
    then (rc, [], acts, c')
    else if m.label == can_msg_recv
    then (
      Rc.ok,
      c.last_id ∷ c.last_len ∷ low_word c.last_len c.last ∷ high_word c.last_len c.last ∷ [],
      [],
      c,
    )
    else (Rc.einval, [], [], c)
