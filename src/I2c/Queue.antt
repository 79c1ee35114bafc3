-- ===== src/I2c/Queue.antt =====
-- What the server of esp32p4_ev_function/drivers/i2c queues for the bus, and when it starts it.
use ulmk_boards.Base.{
  ℕ, ◌+◌, ◌*◌, ◌/◌, ◌%◌, ◌^◌, ◌≤◌, ◌≡◌, refl, ap, ap₂, sym, ◌∙◌, inl, inr, true, false, List, [],
  ◌∷◌, ◌++◌, map, if◌then◌else◌, take, append_assoc, append-nil, arith, Bool-cases, bit_and, bit_or,
  ltb, ◌==◌,
}
use ulmk_boards.Base.Bits.{or_above, or_halves}
use ulmk_boards.Base.Word.{u8, ◌<<◌}
use ulmk_boards.Kernel.{Rc, is_ok}
use ulmk_boards.I2c.Server.{
  i2c_ctr, i2c_sr, i2c_fifo_conf, i2c_data, i2c_int_raw, i2c_int_clr, i2c_comd, I2cAct, wr, rd,
  irq_ack, notif_wait, notif_poll, Bus, or_reg, xfer_begin, xfer_start, wait_ev, finish_xfer,
  i2c_do_write, make_cmd, sr_bus_busy, ctr_fsm_rst, ctr_conf_upgate, master_ev_mask, i2c_cmd_rstart,
  i2c_cmd_write, i2c_cmd_stop,
}

-- What an act is to the transfer: a store to the FIFO's configuration, a byte into the FIFO, a
-- command into one of the command registers, or the start.
pub data Event : Type 0 where
  fifo_conf start : Event
  fifo_byte : ℕ → Event
  command : ℕ → ℕ → Event

-- A store to CTR starts the transfer if its bit 5, TRANS_START, is set.
abbrev event : I2cAct → List Event
event (wr i2c_data b) = fifo_byte b ∷ []
event (wr (i2c_comd k) c) = command k c ∷ []
event (wr i2c_fifo_conf v) = fifo_conf ∷ []
event (wr i2c_ctr v) = if v / 32 % 2 == 0 then [] else start ∷ []
event _ = []

-- The events of the acts, in order.
abbrev pub queued : List I2cAct → List Event
queued [] = []
queued (a ∷ s) = event a ++ queued s

queued-append : (s t : List I2cAct) → queued (s ++ t) ≡ queued s ++ queued t
queued-append [] t = refl
queued-append (a ∷ s) t =
    ap (λ q. event a ++ q) (queued-append s t) ∙ sym (append_assoc (event a) (queued s) (queued t))

-- Acts that are none.
queued-none : (s t : List I2cAct) → queued t ≡ [] → queued (s ++ t) ≡ queued s
queued-none s t h = queued-append s t ∙ ap (λ q. queued s ++ q) h ∙ append-nil (queued s)

queued-map : (ds : List ℕ) → queued (map (wr i2c_data) ds) ≡ map fifo_byte ds
queued-map [] = refl
queued-map (d ∷ ds) = ap (λ q. fifo_byte d ∷ q) (queued-map ds)

-- Events after events.
chain : (q r t x y : List Event) → r ≡ q ++ x → t ≡ r ++ y → t ≡ q ++ (x ++ y)
chain q r t x y e f = f ∙ ap (λ k. k ++ y) e ∙ append_assoc q x y

-- TRANS_START after bits from it on are set, where it was clear.
trigger : (v c : ℕ) → v / 32 % 2 ≡ 0 → bit_or v (c * 2 ^ 5) / 32 % 2 ≡ c % 2
trigger v c h = omega (arith, h, or_above 5 v c, or_halves (v / 32) c)

-- The events of a write: two stores to the FIFO's configuration, the byte of the address and the
-- data into it, the commands to start with the address, to write, and to stop into the registers
-- 0, 1 and 2, and then the start.
abbrev pub write_events : ℕ → ℕ → List ℕ → List Event
write_events address cmd bytes =
    fifo_conf ∷ fifo_conf ∷ fifo_byte address ∷ map fifo_byte bytes
    ++ command 0 (6 * 2 ^ 11) ∷ command 1 cmd ∷ command 2 (2 * 2 ^ 11) ∷ start ∷ []

-- TRANS_START reads as 0: the hardware clears it, and software can only set it.
abbrev pub SelfClearing : Bus → Type 0
SelfClearing bus = (s : List I2cAct) → bus.val (s ++ rd i2c_ctr ∷ []) / 32 % 2 ≡ 0

module _ (bus : Bus) (clears : SelfClearing bus) where
  or_ctr-quiet :
      (c : ℕ) (s : List I2cAct) → c % 2 ≡ 0 → queued (or_reg bus i2c_ctr (c * 2 ^ 5) s) ≡ queued s
  or_ctr-quiet c s even =
      let s1 = s ++ rd i2c_ctr ∷ [] in
      let v = bit_or (bus.val s1) (c * 2 ^ 5) in
      let clear : (v / 32 % 2 == 0) ≡ true =
        ground (arith, trigger (bus.val s1) c (clears s), even) in
      queued-none s1 (wr i2c_ctr v ∷ []) (ap (λ b. (if b then [] else start ∷ []) ++ []) clear)
      ∙ queued-none s (rd i2c_ctr ∷ []) refl

  or_ctr-start :
      (s : List I2cAct) → queued (or_reg bus i2c_ctr (1 * 2 ^ 5) s) ≡ queued s ++ start ∷ []
  or_ctr-start s =
      let s1 = s ++ rd i2c_ctr ∷ [] in
      let v = bit_or (bus.val s1) (1 * 2 ^ 5) in
      let set : (v / 32 % 2 == 0) ≡ false = ground (arith, trigger (bus.val s1) 1 (clears s)) in
      queued-append s1 (wr i2c_ctr v ∷ [])
      ∙ ap₂ (λ q b. q ++ ((if b then [] else start ∷ []) ++ []))
          (queued-none s (rd i2c_ctr ∷ []) refl) set

  xfer_begin-queued :
      (s : List I2cAct) → queued (xfer_begin bus s) ≡ queued s ++ fifo_conf ∷ fifo_conf ∷ []
  unfolding xfer_begin
  xfer_begin-queued s =
      let s1 = s ++ notif_poll ∷ wr i2c_int_clr 0x3FFF ∷ rd i2c_sr ∷ [] in
      let first : queued s1 ≡ queued s = queued-none s _ refl in
      let idle = bit_and (bus.val s1) sr_bus_busy == 0 in
      let s2 = (if idle then s1 else or_reg bus i2c_ctr ctr_fsm_rst s1) in
      let second : queued s2 ≡ queued s1 = elim (Bool-cases idle) [
        | inl e ↦ ap (λ b. queued (if b then s1 else or_reg bus i2c_ctr ctr_fsm_rst s1)) e
        | inr e ↦
            ap (λ b. queued (if b then s1 else or_reg bus i2c_ctr ctr_fsm_rst s1)) e
            ∙ or_ctr-quiet 32 s1 refl
      ] in
      let third : queued (s2 ++ rd i2c_fifo_conf ∷ []) ≡ queued s =
        queued-none s2 (rd i2c_fifo_conf ∷ []) refl ∙ second ∙ first in
      queued-append (s2 ++ rd i2c_fifo_conf ∷ []) _
      ∙ ap (λ q. q ++ fifo_conf ∷ fifo_conf ∷ []) third

  xfer_start-queued : (s : List I2cAct) → queued (xfer_start bus s) ≡ queued s ++ start ∷ []
  unfolding xfer_start
  xfer_start-queued s =
      or_ctr-start (or_reg bus i2c_ctr ctr_conf_upgate s)
      ∙ ap (λ q. q ++ start ∷ []) (or_ctr-quiet 64 s refl)

  wait_ev-queued : (s : List I2cAct) → queued (wait_ev bus s).1 ≡ queued s
  unfolding wait_ev
  wait_ev-queued s =
      let s1 = s ++ irq_ack ∷ notif_wait ∷ [] in
      let s2 = s1 ++ irq_ack ∷ [] in
      let s3 = s2 ++ rd i2c_int_raw ∷ [] in
      let second : queued s2 ≡ queued s =
        queued-none s1 (irq_ack ∷ []) refl ∙ queued-none s _ refl in
      let third : queued s3 ≡ queued s = queued-none s2 (rd i2c_int_raw ∷ []) refl ∙ second in
      elim (Bool-cases (is_ok (bus.wait s1))) [
        | inl e ↦ rw (e, second)
        | inr e ↦ elim (Bool-cases (bit_and (bus.val s3) master_ev_mask == 0)) [
          | inl f ↦ rw (e, f, third)
          | inr f ↦ rw (e, f, third)
        ]
      ]

  finish_xfer-queued : (s : List I2cAct) → queued (finish_xfer bus s).1 ≡ queued s
  unfolding finish_xfer
  finish_xfer-queued s =
      queued-none ((wait_ev bus s).1 ++ rd i2c_int_raw ∷ []) (wr i2c_int_clr 0x3FFF ∷ []) refl
      ∙ queued-none (wait_ev bus s).1 (rd i2c_int_raw ∷ []) refl
      ∙ wait_ev-queued s

  pub i2c_do_write-queued :
      (addr7 : ℕ) (bytes : List ℕ) (len : ℕ) (s : List I2cAct)
      → len ≤ 31
      → queued (i2c_do_write bus true addr7 bytes len s).1
        ≡ queued s
          ++ write_events (addr7 << 1) (make_cmd i2c_cmd_write (u8 (len + 1)) true) (take len bytes)
  unfolding i2c_do_write make_cmd
  i2c_do_write-queued addr7 bytes len s small =
      let fits : ltb 32 (len + 1) ≡ false = ground arith in
      let data_acts = wr i2c_data (addr7 << 1) ∷ map (wr i2c_data) (take len bytes) in
      let cmds =
        wr (i2c_comd 0) (make_cmd i2c_cmd_rstart 0 false)
        ∷ wr (i2c_comd 1) (make_cmd i2c_cmd_write (u8 (len + 1)) true)
        ∷ wr (i2c_comd 2) (make_cmd i2c_cmd_stop 0 false)
        ∷ [] in
      let s1 = (xfer_begin bus s ++ data_acts) ++ cmds in
      let all_bytes : queued (xfer_begin bus s ++ data_acts)
          ≡ queued (xfer_begin bus s) ++ fifo_byte (addr7 << 1) ∷ map fifo_byte (take len bytes) =
        queued-append (xfer_begin bus s) data_acts
        ∙ ap (λ q. queued (xfer_begin bus s) ++ fifo_byte (addr7 << 1) ∷ q)
            (queued-map (take len bytes)) in
      ap (λ b. queued (if b then (Rc.einval, s) else finish_xfer bus (xfer_start bus s1)).1) fits
      ∙ finish_xfer-queued (xfer_start bus s1)
      ∙ chain _ _ _ (fifo_conf ∷ fifo_conf ∷ []) _ (xfer_begin-queued s) (
          chain _ _ _ (fifo_byte (addr7 << 1) ∷ map fifo_byte (take len bytes)) _ all_bytes (
            chain _ _ _ (queued cmds) (start ∷ [])
              (queued-append (xfer_begin bus s ++ data_acts) cmds) (xfer_start-queued s1)))
