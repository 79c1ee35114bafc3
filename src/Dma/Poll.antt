-- ===== src/Dma/Poll.antt =====
-- The polling loop of a DMA worker, and the control register that it programs.
use ulmk_boards.Base.{
  ℕ, zero, suc, ◌+◌, ◌-◌, ◌≤◌, ◌<◌, ◌^◌, ◌≡◌, ap, ◌∙◌, ◌⊎◌, inl, inr, true, false, some, [], ◌∷◌,
  arith, Bool-cases, leb, ◌==◌, leb→gt, get_or,
}
use ulmk_boards.Base.Word.{add32}
use ulmk_boards.Kernel.{Rc}
use ulmk_boards.Dma.Slots.{dma_flag_dir_m2p, dma_flag_minc, dma_flag_psize_16, dma_flag_msize_16}
use ulmk_boards.Dma.Worker.{
  lifcr, irq_ack, has, g_lifcr_mask, g_tcif_mask, g_irq_slot, flags_to_cr, slot_wait_tc, dma_cr_en,
  dma_cr_tcie, dma_cr_dir_m2p, dma_cr_minc, dma_cr_psize_16, dma_cr_msize_16,
}

-- With a timeout other than 0, the loop ends within `timeout_ms + 1` polls. It reports success, and
-- clears and acknowledges the flag, when a poll from this one up to poll `timeout_ms` sees the
-- transfer-complete flag; otherwise it reports a timeout and touches nothing.
pub slot_wait_tc-total :
    (fuel : ℕ) (lisr : ℕ → ℕ) (slot timeout_ms n : ℕ)
    → 0 < timeout_ms
    → timeout_ms < 2 ^ 32 - 1
    → n ≤ timeout_ms
    → timeout_ms < n + fuel
    → ((t : ℕ) × (n ≤ t)
        × (t ≤ timeout_ms)
        × (has (lisr t) (get_or g_tcif_mask slot 0) ≡ true)
        × (slot_wait_tc fuel lisr slot timeout_ms n
            ≡ some (
              Rc.ok,
              lifcr (get_or g_lifcr_mask slot 0) ∷ irq_ack (get_or g_irq_slot slot 0) ∷ [],
            )))
      ⊎ (((t : ℕ) → n ≤ t → t ≤ timeout_ms → has (lisr t) (get_or g_tcif_mask slot 0) ≡ false)
          × (slot_wait_tc fuel lisr slot timeout_ms n ≡ some (Rc.etimeout, [])))
unfolding slot_wait_tc
slot_wait_tc-total zero lisr slot timeout_ms n p r le fit = absurd (omega arith)
slot_wait_tc-total (suc fuel) lisr slot timeout_ms n p r le fit =
    elim (Bool-cases (has (lisr n) (get_or g_tcif_mask slot 0))) [
      | inl seen ↦ inl (n, omega arith, le, seen, rw seen)
      | inr not_yet ↦ elim (Bool-cases (leb timeout_ms n)) [
        | inl late ↦ inr (
          λ t a b. ap (λ k. has (lisr k) (get_or g_tcif_mask slot 0)) (same t a b late) ∙ not_yet,
          ground arith,
        )
        | inr early ↦
            let next : add32 n 1 ≡ n + 1 = omega (arith, leb→gt timeout_ms n early) in
            let more = leb→gt timeout_ms n early in
            elim (slot_wait_tc-total fuel lisr slot timeout_ms (n + 1) p r (omega arith)
              (omega arith)) [
                | inl (t, a, b, seen, e) ↦
                    inl (t, omega arith, b, seen, rw (not_yet, pos, early, next) e)
                | inr (none_seen, e) ↦ inr (
                  λ t a b. elim (Bool-cases (leb t n)) [
                    | inl at_n ↦
                        ap (λ k. has (lisr k) (get_or g_tcif_mask slot 0)) (first t a at_n)
                        ∙ not_yet
                    | inr after ↦ none_seen t (later t after) b
                  ],
                  rw (not_yet, pos, early, next) e,
                )
              ]
      ]
    ]
  where
    same : (t : ℕ) → n ≤ t → t ≤ timeout_ms → leb timeout_ms n ≡ true → t ≡ n
    same t a b late = ground arith

    first : (t : ℕ) → n ≤ t → leb t n ≡ true → t ≡ n
    first t a h = ground arith

    later : (t : ℕ) → leb t n ≡ false → n + 1 ≤ t
    later t h = ground arith

    pos : (timeout_ms == 0) ≡ false
    pos = ground arith

-- The control register has a bit for each flag of the channel and the transfer-complete interrupt
-- always; the stream is not enabled by it.
pub flags_to_cr-bits :
    (flags : ℕ)
    → (has (flags_to_cr flags) dma_cr_minc ≡ has flags dma_flag_minc)
      × (has (flags_to_cr flags) dma_cr_dir_m2p ≡ has flags dma_flag_dir_m2p)
      × (has (flags_to_cr flags) dma_cr_psize_16 ≡ has flags dma_flag_psize_16)
      × (has (flags_to_cr flags) dma_cr_msize_16 ≡ has flags dma_flag_msize_16)
      × (has (flags_to_cr flags) dma_cr_tcie ≡ true)
      × (has (flags_to_cr flags) dma_cr_en ≡ false)
unfolding flags_to_cr
flags_to_cr-bits flags = ground arith
