-- ===== src/Gdma/Copy.antt =====
-- A copy from memory to memory in esp32p4_ev_function/drivers/gdma_axi/src/server.c: `hw_memcpy`
-- and the transfer under it.
use ulmk_boards.Base.{ℕ, not, ◌||◌, List, [], ◌∷◌, ◌++◌, ltb, ◌==◌, if◌then◌else◌, bit_and, bit_or}
use ulmk_boards.Base.Word.{◌<<◌}
use ulmk_boards.Kernel.{Rc, is_ok}
use ulmk_boards.Gdma.Channel.{
  Gdma, Act, cache_clean, mem_out_desc, in_conf0, out_conf0, in_peri_sel, out_peri_sel, in_int_clr,
  out_int_clr, out_link2_mem, in_link2, in_link1, out_link1, cache_invalidate, Outcome, channel_at,
  put_channel, tx_dw0, wait_in_done, desc_max_len, gdma_axi_slot_mem, gdma_axi_periph_none,
}

abbrev pub axi_ch_mem : ℕ
axi_ch_mem = 0

-- What is done up to the start of both directions.
abbrev pub start_copy : ℕ → ℕ → List Act
start_copy src len =
    cache_clean src len
    ∷ mem_out_desc (tx_dw0 len) src
    ∷ in_conf0 axi_ch_mem 1
    ∷ out_conf0 axi_ch_mem 1
    ∷ in_conf0 axi_ch_mem (bit_or (1 << 2) (1 << 9))
    ∷ out_conf0 axi_ch_mem (bit_or (1 << 3) (1 << 10))
    ∷ in_peri_sel axi_ch_mem gdma_axi_periph_none
    ∷ out_peri_sel axi_ch_mem gdma_axi_periph_none
    ∷ in_int_clr axi_ch_mem 0xFFFFFFFF
    ∷ out_int_clr axi_ch_mem 0xFFFFFFFF
    ∷ out_link2_mem axi_ch_mem
    ∷ in_link2 axi_ch_mem gdma_axi_slot_mem
    ∷ in_link1 axi_ch_mem (1 << 2)
    ∷ out_link1 axi_ch_mem (1 << 1)
    ∷ []

unfoldable pub dma_memcpy_hw : Gdma → ℕ → ℕ → ℕ → Outcome → Rc × List Act × Gdma
dma_memcpy_hw g dst src len o =
    let c = channel_at g gdma_axi_slot_mem in
    let after = put_channel g gdma_axi_slot_mem (record c { dw0 = o.left; desc_buf = dst }) in
    let acts =
      start_copy src len
      ++ (wait_in_done axi_ch_mem gdma_axi_slot_mem ++ in_int_clr axi_ch_mem 0xFFFFFFFF ∷ []) in
    if not (is_ok o.waited)
    then (Rc.etimeout, acts, after)
    else if not (bit_and o.raw (1 << 3) == 0)
    then (Rc.einval, acts, after)
    else if bit_and o.raw (1 << 1) == 0
    then (Rc.etimeout, acts, after)
    else (Rc.ok, acts ++ cache_invalidate dst len ∷ [], after)

unfoldable pub hw_memcpy : Gdma → ℕ → ℕ → ℕ → Outcome → Rc × List Act × Gdma
hw_memcpy g dst src len o =
    if dst == 0 || src == 0
    then (Rc.einval, [], g)
    else if not g.hw
    then (Rc.enotsup, [], g)
    else if len == 0
    then (Rc.ok, [], g)
    else if ltb desc_max_len len
    then (Rc.einval, [], g)
    else dma_memcpy_hw g dst src len o
