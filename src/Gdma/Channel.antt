-- ===== src/Gdma/Channel.antt =====
-- The channels of esp32p4_ev_function/drivers/gdma_axi/src/server.c: `hw_channel_open`, the two arm
-- operations and the two wait operations. What they do to the machine is a list of
-- acts in order. What the machine and the kernel answer to a wait is a parameter.
use ulmk_boards.Base.{
  ℕ, Bool, true, false, not, ◌&&◌, ◌||◌, List, [], ◌∷◌, ◌++◌, ltb, leb, ◌==◌, if◌then◌else◌, get_or,
  set, bit_and, bit_or,
}
use ulmk_boards.Base.Word.{u8, ◌<<◌, ◌>>>◌}
use ulmk_boards.Kernel.{Rc, is_ok}

abbrev pub gdma_axi_slot_count : ℕ
gdma_axi_slot_count = 5

abbrev pub gdma_axi_slot_mem : ℕ
gdma_axi_slot_mem = 0

abbrev pub gdma_axi_periph_none : ℕ
gdma_axi_periph_none = 0x3F

abbrev pub desc_max_len : ℕ
desc_max_len = 0xFFF

abbrev pub desc_suc_eof : ℕ
desc_suc_eof = 1 << 30

abbrev pub desc_owner_dma : ℕ
desc_owner_dma = 1 << 31

-- `struct gdma_axi_slot`, without its interrupt number: `buf` is 0 for a null pointer, and `dw0`
-- and `desc_buf` are words of its descriptor, whose `next` is always 0.
pub record Channel : Type 0 where
  pub notif_valid : Bool
  pub hw_ch : ℕ
  pub is_tx : Bool
  pub opened : Bool
  pub periph : ℕ
  pub buf : ℕ
  pub len : ℕ
  pub dw0 : ℕ
  pub desc_buf : ℕ

abbrev pub no_channel : Channel
no_channel = record {
  notif_valid = false;
  hw_ch = 0;
  is_tx = false;
  opened = false;
  periph = 0;
  buf = 0;
  len = 0;
  dw0 = 0;
  desc_buf = 0;
}

-- `g_hw` and `g_slot`.
pub record Gdma : Type 0 where
  pub hw : Bool
  pub slots : List Channel

abbrev pub channel_at : Gdma → ℕ → Channel
channel_at g i = get_or g.slots i no_channel

abbrev pub put_channel : Gdma → ℕ → Channel → Gdma
put_channel g i c = record g { slots = set g.slots i c }

-- The registers of a hardware channel, as a store to one of them; a descriptor's address is named
-- by its slot.
pub data Act : Type 0 where
  in_conf0 in_peri_sel in_int_clr in_int_ena in_link1 : ℕ → ℕ → Act
  out_conf0 out_peri_sel out_int_clr out_int_ena out_link1 : ℕ → ℕ → Act
  in_link2 out_link2 : ℕ → ℕ → Act
  -- The output descriptor of a copy: its first two words, and its address in the register.
  mem_out_desc : ℕ → ℕ → Act
  out_link2_mem : ℕ → Act
  irq_ack : ℕ → Act
  cache_clean cache_invalidate : ℕ → ℕ → Act

-- The kernel's answer to a wait, the raw interrupt word read after it, and the first word of the
-- descriptor as the hardware leaves it.
pub record Outcome : Type 0 where
  pub waited : Rc
  pub raw : ℕ
  pub left : ℕ

unfoldable pub hw_channel_open : Gdma → ℕ → ℕ → Rc × List Act × Gdma
hw_channel_open g slot mux =
    let c = channel_at g slot in
    if leb gdma_axi_slot_count slot
    then (Rc.einval, [], g)
    else if not (mux == gdma_axi_periph_none) && ltb 0x3F mux
    then (Rc.einval, [], g)
    else if not g.hw
    then (Rc.enotsup, [], g)
    else if not c.notif_valid
    then (Rc.enotsup, [], g)
    else if slot == gdma_axi_slot_mem && not (mux == gdma_axi_periph_none)
    then (Rc.einval, [], g)
    else if not (slot == gdma_axi_slot_mem) && mux == gdma_axi_periph_none
    then (Rc.einval, [], g)
    else (
      Rc.ok,
      if slot == gdma_axi_slot_mem
          then []
          else (if c.is_tx
              then out_peri_sel c.hw_ch (bit_and mux 0x3F)
              else in_peri_sel c.hw_ch (bit_and mux 0x3F))
            ∷ [],
      put_channel g slot (record c { periph = u8 mux; opened = true }),
    )

-- The descriptor word of a receive, and of a transmit.
unfoldable pub rx_dw0 : ℕ → ℕ
rx_dw0 len = bit_or (bit_and len desc_max_len) desc_owner_dma

unfoldable pub tx_dw0 : ℕ → ℕ
tx_dw0 len =
    bit_or
      (bit_or (bit_or (bit_and len desc_max_len) (bit_and len desc_max_len << 12)) desc_suc_eof)
      desc_owner_dma

unfoldable pub hw_rx_arm : Gdma → ℕ → ℕ → ℕ → Rc × List Act × Gdma
hw_rx_arm g slot dst len =
    let c = channel_at g slot in
    if leb gdma_axi_slot_count slot || (dst == 0 || len == 0)
    then (Rc.einval, [], g)
    else if slot == gdma_axi_slot_mem || c.is_tx
    then (Rc.einval, [], g)
    else if not g.hw || not c.opened
    then (Rc.enotsup, [], g)
    else if ltb desc_max_len len
    then (Rc.einval, [], g)
    else (
      Rc.ok,
      in_conf0 c.hw_ch 1
          ∷ in_conf0 c.hw_ch (1 << 9)
          ∷ in_peri_sel c.hw_ch (bit_and c.periph 0x3F)
          ∷ in_int_clr c.hw_ch 0xFFFFFFFF
          ∷ in_link2 c.hw_ch slot
          ∷ in_link1 c.hw_ch (1 << 2)
          ∷ [],
      put_channel g slot (record c { dw0 = rx_dw0 len; desc_buf = dst; buf = dst; len = len }),
    )

-- `wait_in_done` and `wait_out_done`; the interrupt of a slot is named by the slot.
abbrev pub wait_in_done : ℕ → ℕ → List Act
wait_in_done hw_ch slot =
    irq_ack slot ∷ in_int_ena hw_ch (bit_or (1 << 1) (1 << 3)) ∷ in_int_ena hw_ch 0 ∷ []

abbrev pub wait_out_done : ℕ → ℕ → List Act
wait_out_done hw_ch slot =
    irq_ack slot ∷ out_int_ena hw_ch (bit_or (1 << 1) (1 << 2)) ∷ out_int_ena hw_ch 0 ∷ []

-- `got`, cut to the length armed.
unfoldable pub received : Channel → ℕ → ℕ
received c left =
    let got = bit_and (left >>> 12) desc_max_len in if ltb c.len got then c.len else got

unfoldable pub hw_rx_wait : Gdma → ℕ → Outcome → Rc × List Act × Gdma
hw_rx_wait g slot o =
    let c = channel_at g slot in
    let idle = put_channel g slot (record c { buf = 0; dw0 = o.left }) in
    if leb gdma_axi_slot_count slot
    then (Rc.einval, [], g)
    else if slot == gdma_axi_slot_mem || c.is_tx
    then (Rc.einval, [], g)
    else if c.buf == 0
    then (Rc.einval, [], g)
    else if not (is_ok o.waited)
    then (Rc.etimeout, wait_in_done c.hw_ch slot ++ in_int_clr c.hw_ch 0xFFFFFFFF ∷ [], idle)
    else (
      if not (bit_and o.raw (1 << 3) == 0)
          then Rc.einval
          else if bit_and o.raw (1 << 1) == 0
          then Rc.etimeout
          else Rc.count (received c o.left),
      wait_in_done c.hw_ch slot
          ++ in_int_clr c.hw_ch 0xFFFFFFFF ∷ cache_invalidate c.buf c.len ∷ [],
      idle,
    )

unfoldable pub hw_tx_arm : Gdma → ℕ → ℕ → ℕ → Rc × List Act × Gdma
hw_tx_arm g slot src len =
    let c = channel_at g slot in
    if leb gdma_axi_slot_count slot || (src == 0 || len == 0)
    then (Rc.einval, [], g)
    else if slot == gdma_axi_slot_mem || not c.is_tx
    then (Rc.einval, [], g)
    else if not g.hw || not c.opened
    then (Rc.enotsup, [], g)
    else if ltb desc_max_len len
    then (Rc.einval, [], g)
    else (
      Rc.ok,
      cache_clean src len
          ∷ out_conf0 c.hw_ch 1
          ∷ out_conf0 c.hw_ch (bit_or (1 << 3) (1 << 10))
          ∷ out_peri_sel c.hw_ch (bit_and c.periph 0x3F)
          ∷ out_int_clr c.hw_ch 0xFFFFFFFF
          ∷ out_link2 c.hw_ch slot
          ∷ out_link1 c.hw_ch (1 << 1)
          ∷ [],
      put_channel g slot (record c { dw0 = tx_dw0 len; desc_buf = src; buf = src; len = len }),
    )

unfoldable pub hw_tx_wait : Gdma → ℕ → Outcome → Rc × List Act × Gdma
hw_tx_wait g slot o =
    let c = channel_at g slot in
    let idle = put_channel g slot (record c { buf = 0; dw0 = o.left }) in
    if leb gdma_axi_slot_count slot
    then (Rc.einval, [], g)
    else if slot == gdma_axi_slot_mem || not c.is_tx
    then (Rc.einval, [], g)
    else if c.buf == 0
    then (Rc.einval, [], g)
    else if not (is_ok o.waited)
    then (Rc.etimeout, wait_out_done c.hw_ch slot ++ out_int_clr c.hw_ch 0xFFFFFFFF ∷ [], idle)
    else (
      if not (bit_and o.raw (1 << 2) == 0)
          then Rc.einval
          else if bit_and o.raw (1 << 1) == 0
          then Rc.etimeout
          else Rc.ok,
      wait_out_done c.hw_ch slot ++ out_int_clr c.hw_ch 0xFFFFFFFF ∷ [],
      idle,
    )
