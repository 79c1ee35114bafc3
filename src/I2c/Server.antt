-- ===== src/I2c/Server.antt =====
-- esp32p4_ev_function/drivers/i2c/src/server.c: a transfer on the bus, and the messages. What the server
-- does to the machine and asks of the kernel is a list of acts in order; what an act answers may
-- depend on all acts up to it, and is a parameter.
use ulmk_boards.Base.{
  ℕ, zero, suc, ◌+◌, ◌-◌, Bool, true, false, not, ◌||◌, List, [], ◌∷◌, ◌++◌, map, take, ◌==◌, ltb,
  if◌then◌else◌, get_or, bit_and, bit_or,
}
use ulmk_boards.Base.Word.{u8, not32, ◌<<◌}
use ulmk_boards.Kernel.{Rc, is_ok, Msg}
use ulmk_boards.Wire.Pack.{or_bytes, get_bytes}

abbrev pub i2c_msg_probe : ℕ
i2c_msg_probe = 1

abbrev pub i2c_msg_write : ℕ
i2c_msg_write = 2

abbrev pub i2c_msg_read : ℕ
i2c_msg_read = 3

abbrev pub i2c_xfer_max : ℕ
i2c_xfer_max = 32

abbrev pub ctr_trans_start : ℕ
ctr_trans_start = 1 << 5

abbrev pub ctr_fsm_rst : ℕ
ctr_fsm_rst = 1 << 10

abbrev pub ctr_conf_upgate : ℕ
ctr_conf_upgate = 1 << 11

abbrev pub fifo_rst : ℕ
fifo_rst = bit_or (1 << 12) (1 << 13)

abbrev pub sr_bus_busy : ℕ
sr_bus_busy = 1 << 4

abbrev pub int_done : ℕ
int_done = bit_or (1 << 7) (1 << 3)

abbrev pub int_broken : ℕ
int_broken = bit_or (1 << 8) (1 << 5)

abbrev pub int_nack : ℕ
int_nack = 1 << 10

abbrev pub master_ev_mask : ℕ
master_ev_mask = bit_or (bit_or int_done int_broken) int_nack

abbrev pub i2c_cmd_write : ℕ
i2c_cmd_write = 1

abbrev pub i2c_cmd_stop : ℕ
i2c_cmd_stop = 2

abbrev pub i2c_cmd_read : ℕ
i2c_cmd_read = 3

abbrev pub i2c_cmd_rstart : ℕ
i2c_cmd_rstart = 6

abbrev pub i2c_cmd_ack_value : ℕ
i2c_cmd_ack_value = 1 << 10

pub data I2cReg : Type 0 where
  i2c_ctr i2c_sr i2c_fifo_conf i2c_data i2c_int_raw i2c_int_clr : I2cReg
  i2c_comd : ℕ → I2cReg

pub data I2cAct : Type 0 where
  wr : I2cReg → ℕ → I2cAct
  rd : I2cReg → I2cAct
  irq_ack notif_wait notif_poll : I2cAct

-- What the last of the acts answers.
pub record Bus : Type 0 where
  pub val : List I2cAct → ℕ
  pub wait : List I2cAct → Rc

unfoldable pub make_cmd : ℕ → ℕ → Bool → ℕ
make_cmd op nbytes ack_en =
    let c = (if ack_en then bit_or nbytes (1 << 8) else nbytes) in bit_or c (op << 11)

module _ (bus : Bus) where
  -- `wr(reg, rd(reg) | bits)`.
  abbrev pub or_reg : I2cReg → ℕ → List I2cAct → List I2cAct
  or_reg reg bits s = let s1 = s ++ rd reg ∷ [] in s1 ++ wr reg (bit_or (bus.val s1) bits) ∷ []

  unfoldable pub xfer_begin : List I2cAct → List I2cAct
  xfer_begin s =
      let s1 = s ++ notif_poll ∷ wr i2c_int_clr 0x3FFF ∷ rd i2c_sr ∷ [] in
      let s2 =
        (if bit_and (bus.val s1) sr_bus_busy == 0 then s1 else or_reg i2c_ctr ctr_fsm_rst s1) in
      let s3 = s2 ++ rd i2c_fifo_conf ∷ [] in
      let v = bus.val s3 in
      s3
      ++ wr i2c_fifo_conf (bit_or v fifo_rst) ∷ wr i2c_fifo_conf (bit_and v (not32 fifo_rst)) ∷ []

  unfoldable pub xfer_start : List I2cAct → List I2cAct
  xfer_start s = or_reg i2c_ctr ctr_trans_start (or_reg i2c_ctr ctr_conf_upgate s)

  unfoldable pub wait_ev : List I2cAct → Rc × List I2cAct
  wait_ev s =
      let s1 = s ++ irq_ack ∷ notif_wait ∷ [] in
      let ret = bus.wait s1 in
      let s2 = s1 ++ irq_ack ∷ [] in
      let s3 = s2 ++ rd i2c_int_raw ∷ [] in
      if is_ok ret
      then (ret, s2)
      else if not (bit_and (bus.val s3) master_ev_mask == 0)
      then (Rc.ok, s3)
      else (ret, s3)

  unfoldable pub finish_xfer : List I2cAct → Rc × List I2cAct
  finish_xfer s =
      let (ret, s1) = wait_ev s in
      let s2 = s1 ++ rd i2c_int_raw ∷ [] in
      let raw = bus.val s2 in
      let rc =
        (if not (is_ok ret)
          then ret
          else if not (bit_and raw int_nack == 0)
          then Rc.esrch
          else if not (bit_and raw int_broken == 0)
          then Rc.einval
          else if not (bit_and raw int_done == 0)
          then Rc.ok
          else Rc.einval) in
      (rc, s2 ++ wr i2c_int_clr 0x3FFF ∷ [])

  unfoldable pub i2c_do_probe : Bool → ℕ → List I2cAct → Rc × List I2cAct
  i2c_do_probe hw_ok addr7 s =
      let s1 =
        xfer_begin s
        ++ wr i2c_data (addr7 << 1)
          ∷ wr (i2c_comd 0) (make_cmd i2c_cmd_rstart 0 false)
          ∷ wr (i2c_comd 1) (make_cmd i2c_cmd_write 1 true)
          ∷ wr (i2c_comd 2) (make_cmd i2c_cmd_stop 0 false)
          ∷ [] in
      if not hw_ok then (Rc.enotsup, s) else finish_xfer (xfer_start s1)

  -- `bytes` has at least `len` bytes.
  unfoldable pub i2c_do_write : Bool → ℕ → List ℕ → ℕ → List I2cAct → Rc × List I2cAct
  i2c_do_write hw_ok addr7 bytes len s =
      let s1 =
        (xfer_begin s ++ wr i2c_data (addr7 << 1) ∷ map (wr i2c_data) (take len bytes))
        ++ wr (i2c_comd 0) (make_cmd i2c_cmd_rstart 0 false)
          ∷ wr (i2c_comd 1) (make_cmd i2c_cmd_write (u8 (len + 1)) true)
          ∷ wr (i2c_comd 2) (make_cmd i2c_cmd_stop 0 false)
          ∷ [] in
      if not hw_ok
      then (Rc.enotsup, s)
      else if ltb i2c_xfer_max (len + 1)
      then (Rc.einval, s)
      else finish_xfer (xfer_start s1)

  -- The loop that takes `left` bytes out of the buffer of the controller.
  unfoldable pub rd_bytes : ℕ → List I2cAct → List ℕ × List I2cAct
  rd_bytes zero s = ([], s)
  rd_bytes (suc left) s =
      let s1 = s ++ rd i2c_data ∷ [] in
      let (bytes, s2) = rd_bytes left s1 in (u8 (bit_and (bus.val s1) 0xFF) ∷ bytes, s2)

  abbrev read_cmds : ℕ → List I2cAct
  read_cmds len =
      if ltb 1 len
      then wr (i2c_comd 2) (make_cmd i2c_cmd_read (u8 (len - 1)) false)
        ∷ wr (i2c_comd 3) (bit_or (make_cmd i2c_cmd_read 1 false) i2c_cmd_ack_value)
        ∷ wr (i2c_comd 4) (make_cmd i2c_cmd_stop 0 false)
        ∷ []
      else wr (i2c_comd 2) (bit_or (make_cmd i2c_cmd_read 1 false) i2c_cmd_ack_value)
        ∷ wr (i2c_comd 3) (make_cmd i2c_cmd_stop 0 false)
        ∷ []

  -- The bytes are none where the code writes none.
  unfoldable pub i2c_do_read : Bool → ℕ → ℕ → List I2cAct → Rc × List ℕ × List I2cAct
  i2c_do_read hw_ok addr7 len s =
      let s1 =
        (xfer_begin s
          ++ wr i2c_data (bit_or (addr7 << 1) 1)
            ∷ wr (i2c_comd 0) (make_cmd i2c_cmd_rstart 0 false)
            ∷ wr (i2c_comd 1) (make_cmd i2c_cmd_write 1 true)
            ∷ [])
        ++ read_cmds len in
      let (rc, s2) = finish_xfer (xfer_start s1) in
      let (bytes, s3) = rd_bytes len s2 in
      if not hw_ok
      then (Rc.enotsup, [], s)
      else if len == 0 || ltb i2c_xfer_max len
      then (Rc.einval, [], s)
      else if not (is_ok rc)
      then (Rc.einval, [], s2)
      else (Rc.ok, bytes, s3)

  -- A round of the server: word 0 of its reply, words 1 to 3, and the acts.
  unfoldable pub i2c_server : Bool → Msg → List I2cAct → Rc × List ℕ × List I2cAct
  i2c_server hw_ok m s =
      let addr7 = u8 (get_or m.words 0 0) in
      let w1 = get_or m.words 1 0 in
      let wlen = (if ltb i2c_xfer_max w1 then i2c_xfer_max else w1) in
      let rlen = (if ltb 12 w1 then 12 else w1) in
      let zeros = 0 ∷ 0 ∷ 0 ∷ [] in
      let (prc, ps) = i2c_do_probe hw_ok addr7 s in
      let (wrc, ws) = i2c_do_write hw_ok addr7 (get_bytes 2 0 wlen m.words) wlen s in
      let (rrc, buf, rs) = i2c_do_read hw_ok addr7 rlen s in
      if m.label == i2c_msg_probe
      then (prc, zeros, ps)
      else if m.label == i2c_msg_write
      then (wrc, zeros, ws)
      else if m.label == i2c_msg_read
      then (rrc, (if is_ok rrc then or_bytes 0 0 (take rlen buf) zeros else zeros), rs)
      else (Rc.einval, zeros, s)
