-- ===== src/Dma/Worker.antt =====
-- `flags_to_cr`, `slot_arm_hw`, `slot_wait_tc` and one job of `dma_worker` of
-- witte_linum/drivers/dma/src/server.c. What the worker does to the machine is a list of actions
-- in order; the status register is a parameter, its value at each poll.
use ulmk_boards.Base.{
  ℕ, zero, suc, ◌/◌, Bool, not, ◌&&◌, ◌||◌, Option, none, some, List, [], ◌∷◌, ◌++◌, leb, ◌==◌,
  if◌then◌else◌, get_or, bit_and, bit_or,
}
use ulmk_boards.Base.Word.{add32, ◌<<◌}
use ulmk_boards.Kernel.{Rc, is_ok}
use ulmk_boards.Dma.Slots.{
  Slot, dma_flag_dir_m2p, dma_flag_minc, dma_flag_psize_16, dma_flag_msize_16, dma_job_arm,
  dma_default_wait_ms,
}

pub data Action : Type 0 where
  -- A store to a register of the slot's stream or multiplexer channel, or to LIFCR.
  lifcr cr par m0ar ndtr ccr : ℕ → Action
  irq_ack : ℕ → Action
  -- The `dsb` instruction.
  barrier : Action
  dcache_clean dcache_invalidate : ℕ → Action
  signal_armed signal_done : Action

abbrev pub dma_cr_en : ℕ
dma_cr_en = 1

abbrev pub dma_cr_tcie : ℕ
dma_cr_tcie = 1 << 4

abbrev pub dma_cr_dir_m2p : ℕ
dma_cr_dir_m2p = 1 << 6

abbrev pub dma_cr_minc : ℕ
dma_cr_minc = 1 << 10

abbrev pub dma_cr_psize_16 : ℕ
dma_cr_psize_16 = 1 << 11

abbrev pub dma_cr_msize_16 : ℕ
dma_cr_msize_16 = 1 << 13

abbrev pub g_lifcr_mask : List ℕ
g_lifcr_mask = 0x0000003D ∷ 0x00000F40 ∷ 0x003D0000 ∷ []

abbrev pub g_tcif_mask : List ℕ
g_tcif_mask = (1 << 5) ∷ (1 << 11) ∷ (1 << 21) ∷ []

-- ULMK_BOARD_IRQ_DMA_STR0 to 2
abbrev pub g_irq_slot : List ℕ
g_irq_slot = 15 ∷ 1 ∷ 2 ∷ []

abbrev pub has : ℕ → ℕ → Bool
has flags f = not (bit_and flags f == 0)

unfoldable pub flags_to_cr : ℕ → ℕ
flags_to_cr flags =
    let c0 = dma_cr_tcie in
    let c1 = (if has flags dma_flag_minc then bit_or c0 dma_cr_minc else c0) in
    let c2 = (if has flags dma_flag_dir_m2p then bit_or c1 dma_cr_dir_m2p else c1) in
    let c3 = (if has flags dma_flag_psize_16 then bit_or c2 dma_cr_psize_16 else c2) in
    if has flags dma_flag_msize_16 then bit_or c3 dma_cr_msize_16 else c3

-- `base` is the address of the slot's buffer.
unfoldable pub slot_arm_hw : ℕ → ℕ → Slot → List Action
slot_arm_hw slot base s =
    lifcr (get_or g_lifcr_mask slot 0)
    ∷ cr 0
    ∷ par s.periph
    ∷ m0ar base
    ∷ ndtr (
        if has s.flags dma_flag_psize_16 || has s.flags dma_flag_msize_16 then s.len / 2 else s.len)
    ∷ ccr s.mux_req
    ∷ cr (flags_to_cr s.flags)
    ∷ irq_ack (get_or g_irq_slot slot 0)
    ∷ cr (bit_or (flags_to_cr s.flags) dma_cr_en)
    ∷ barrier
    ∷ []

-- The polling loop with fuel, at the `n`-th poll: `lisr n` is the status register then. `none`
-- means that the fuel ran out.
unfoldable pub slot_wait_tc : ℕ → (ℕ → ℕ) → ℕ → ℕ → ℕ → Option (Rc × List Action)
slot_wait_tc zero lisr slot timeout_ms elapsed = none
slot_wait_tc (suc fuel) lisr slot timeout_ms elapsed =
    let rest = slot_wait_tc fuel lisr slot timeout_ms (add32 elapsed 1) in
    if has (lisr elapsed) (get_or g_tcif_mask slot 0)
    then some (Rc.ok, lifcr (get_or g_lifcr_mask slot 0) ∷ irq_ack (get_or g_irq_slot slot 0) ∷ [])
    else if not (timeout_ms == 0) && leb timeout_ms elapsed
    then some (Rc.etimeout, [])
    else rest

-- The body of the worker's loop once its job notification has come.
unfoldable pub run_job : ℕ → (ℕ → ℕ) → ℕ → ℕ → Slot → Option (Slot × List Action)
run_job fuel lisr slot base s =
    if s.job == dma_job_arm
    then (let tmo = (if s.timeout_ms == 0 then dma_default_wait_ms else s.timeout_ms) in
        let m2p = has s.flags dma_flag_dir_m2p in
        elim (slot_wait_tc fuel lisr slot tmo 0) [
          | none ↦ none
          | some (rc, acts) ↦ some (
            record s { result = rc },
            (if m2p then dcache_clean s.len else dcache_invalidate s.len) ∷ slot_arm_hw slot base s
                ++ signal_armed ∷ acts
                ++ (if not m2p && is_ok rc then dcache_invalidate s.len ∷ [] else [])
                ++ signal_done ∷ [],
          )
        ])
    else some (record s { result = Rc.einval }, signal_done ∷ [])
