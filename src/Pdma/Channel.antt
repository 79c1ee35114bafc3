-- ===== src/Pdma/Channel.antt =====
-- The channels of esp32p4_ev_function/drivers/dma/src/server.c: `hw_channel_open`, `hw_rx_arm`,
-- `hw_rx_wait` and `hw_memcpy`. What they do to the machine is a list of acts in order; what the
-- machine and the kernel answer to a wait is a parameter, as for the AXI DMA.
use ulmk_boards.Base.{
  ℕ, Bool, true, false, not, ◌&&◌, ◌||◌, List, [], ◌∷◌, ◌++◌, ltb, leb, ◌==◌, if◌then◌else◌, get_or,
  set, bit_and, bit_or,
}
use ulmk_boards.Base.Word.{u8, ◌<<◌, ◌>>>◌}
use ulmk_boards.Kernel.{Rc, is_ok}
use ulmk_boards.Gdma.Channel.{Outcome, rx_dw0, tx_dw0, desc_max_len}

abbrev pub dma_ch_mem : ℕ
dma_ch_mem = 0

abbrev pub dma_nch : ℕ
dma_nch = 2

abbrev pub dma_periph_none : ℕ
dma_periph_none = 0x3F

-- `struct dma_desc`, whose `next` is always 0.
pub record Desc : Type 0 where
  pub dw0 : ℕ
  pub buf : ℕ

-- `struct dma_ch`, without its interrupt number; a null pointer is 0.
pub record DmaCh : Type 0 where
  pub notif_valid : Bool
  pub opened : Bool
  pub periph : ℕ
  pub rx_dst : ℕ
  pub rx_len : ℕ
  pub in_desc : Desc
  pub out_desc : Desc

abbrev pub no_ch : DmaCh
no_ch = record {
  notif_valid = false;
  opened = false;
  periph = 0;
  rx_dst = 0;
  rx_len = 0;
  in_desc = record { dw0 = 0; buf = 0 };
  out_desc = record { dw0 = 0; buf = 0 };
}

-- `g_hw` and `g_ch`.
pub record Pdma : Type 0 where
  pub hw : Bool
  pub chs : List DmaCh

abbrev pub ch_at : Pdma → ℕ → DmaCh
ch_at g n = get_or g.chs n no_ch

abbrev pub put_ch : Pdma → ℕ → DmaCh → Pdma
put_ch g n c = record g { chs = set g.chs n c }

-- The registers of a channel.
pub data Reg : Type 0 where
  in_int_ena in_int_clr in_conf0 in_link in_peri_sel in_link_addr : Reg
  out_int_clr out_conf0 out_link out_link_addr : Reg

-- A store of a value to a register of a channel, and a store of the address of the channel's
-- descriptor.
pub data PdmaAct : Type 0 where
  wr : Reg → ℕ → ℕ → PdmaAct
  wr_desc : Reg → ℕ → PdmaAct
  irq_ack : ℕ → PdmaAct
  dcache_clean dcache_invalidate : ℕ → ℕ → PdmaAct

unfoldable pub dma_wait_done : ℕ → List PdmaAct
dma_wait_done n = irq_ack n ∷ wr in_int_ena n (bit_or (1 << 1) (1 << 3)) ∷ wr in_int_ena n 0 ∷ []

unfoldable pub hw_channel_open : Pdma → ℕ → ℕ → Rc × List PdmaAct × Pdma
hw_channel_open g slot mux =
    let c = ch_at g slot in
    if leb dma_nch slot
    then (Rc.einval, [], g)
    else if not (mux == dma_periph_none) && ltb 0x3F mux
    then (Rc.einval, [], g)
    else if not g.hw
    then (Rc.enotsup, [], g)
    else if not c.notif_valid
    then (Rc.enotsup, [], g)
    else (
      Rc.ok,
      if mux == dma_periph_none then [] else wr in_peri_sel slot (bit_and mux 0x3F) ∷ [],
      put_ch g slot (record c { periph = u8 mux; opened = true }),
    )

unfoldable pub hw_rx_arm : Pdma → ℕ → ℕ → ℕ → Rc × List PdmaAct × Pdma
hw_rx_arm g slot dst len =
    let c = ch_at g slot in
    if leb dma_nch slot || (dst == 0 || len == 0)
    then (Rc.einval, [], g)
    else if not g.hw || not c.opened
    then (Rc.enotsup, [], g)
    else if c.periph == dma_periph_none
    then (Rc.einval, [], g)
    else if ltb desc_max_len len
    then (Rc.einval, [], g)
    else (
      Rc.ok,
      wr in_conf0 slot 1
          ∷ wr in_conf0 slot (bit_or (1 << 2) (1 << 3))
          ∷ wr in_peri_sel slot (bit_and c.periph 0x3F)
          ∷ wr in_int_clr slot 0xFFFFFFFF
          ∷ wr_desc in_link_addr slot
          ∷ wr in_link slot (1 << 2)
          ∷ [],
      put_ch g slot (record c {
        in_desc = record { dw0 = rx_dw0 len; buf = dst };
        rx_dst = dst;
        rx_len = len;
      }),
    )

-- `got`, cut to the length armed.
unfoldable pub rx_got : DmaCh → ℕ → ℕ
rx_got c left =
    let got = bit_and (left >>> 12) desc_max_len in if ltb c.rx_len got then c.rx_len else got

-- The channel when a wait has ended: the hardware wrote the descriptor's first word.
abbrev pub rx_idle : DmaCh → ℕ → DmaCh
rx_idle c left = record c { rx_dst = 0; in_desc = record { dw0 = left; buf = c.in_desc.buf } }

-- `hw_rx_wait` after its first guard, for the channel of the slot.
unfoldable pub rx_wait_on : DmaCh → Pdma → ℕ → Outcome → Rc × List PdmaAct × Pdma
rx_wait_on c g slot o =
    if c.rx_dst == 0
    then (Rc.einval, [], g)
    else if not (is_ok o.waited)
    then (
      Rc.etimeout,
      dma_wait_done slot ++ wr in_int_clr slot 0xFFFFFFFF ∷ [],
      put_ch g slot (rx_idle c o.left),
    )
    else (
      if not (bit_and o.raw (1 << 3) == 0)
          then Rc.einval
          else if bit_and o.raw (1 << 1) == 0
          then Rc.etimeout
          else Rc.count (rx_got c o.left),
      dma_wait_done slot
          ++ wr in_int_clr slot 0xFFFFFFFF ∷ dcache_invalidate c.rx_dst c.rx_len ∷ [],
      put_ch g slot (rx_idle c o.left),
    )

unfoldable pub hw_rx_wait : Pdma → ℕ → Outcome → Rc × List PdmaAct × Pdma
hw_rx_wait g slot o =
    let r = rx_wait_on (ch_at g slot) g slot o in if leb dma_nch slot then (Rc.einval, [], g) else r

-- What a copy does up to the end of its wait.
unfoldable pub copy_acts : ℕ → ℕ → List PdmaAct
copy_acts src len =
    dcache_clean src len
      ∷ wr in_conf0 dma_ch_mem 1
      ∷ wr out_conf0 dma_ch_mem 1
      ∷ wr in_conf0 dma_ch_mem (bit_or (bit_or (1 << 4) (1 << 2)) (1 << 3))
      ∷ wr out_conf0 dma_ch_mem 0
      ∷ wr in_int_clr dma_ch_mem 0xFFFFFFFF
      ∷ wr out_int_clr dma_ch_mem 0xFFFFFFFF
      ∷ wr_desc out_link_addr dma_ch_mem
      ∷ wr_desc in_link_addr dma_ch_mem
      ∷ wr in_link dma_ch_mem (1 << 2)
      ∷ wr out_link dma_ch_mem (1 << 1)
      ∷ dma_wait_done dma_ch_mem
    ++ wr in_int_clr dma_ch_mem 0xFFFFFFFF ∷ []

-- The channel after a copy: both descriptors are the copy's.
abbrev pub copied : DmaCh → ℕ → ℕ → ℕ → ℕ → DmaCh
copied c dst src len left = record c {
  out_desc = record { dw0 = tx_dw0 len; buf = src };
  in_desc = record { dw0 = left; buf = dst };
}

unfoldable pub dma_memcpy_hw : Pdma → ℕ → ℕ → ℕ → Outcome → Rc × List PdmaAct × Pdma
dma_memcpy_hw g dst src len o =
    let g' = put_ch g dma_ch_mem (copied (ch_at g dma_ch_mem) dst src len o.left) in
    if not (is_ok o.waited)
    then (Rc.etimeout, copy_acts src len, g')
    else if not (bit_and o.raw (1 << 3) == 0)
    then (Rc.einval, copy_acts src len, g')
    else if bit_and o.raw (1 << 1) == 0
    then (Rc.etimeout, copy_acts src len, g')
    else (Rc.ok, copy_acts src len ++ dcache_invalidate dst len ∷ [], g')

unfoldable pub hw_memcpy : Pdma → ℕ → ℕ → ℕ → Outcome → Rc × List PdmaAct × Pdma
hw_memcpy g dst src len o =
    if dst == 0 || src == 0
    then (Rc.einval, [], g)
    else if not g.hw
    then (Rc.enotsup, [], g)
    else if len == 0
    then (Rc.ok, [], g)
    else if ltb desc_max_len len
    then (Rc.einval, [], g)
    else dma_memcpy_hw g dst src len o
