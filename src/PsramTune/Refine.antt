-- ===== src/PsramTune/Refine.antt =====
-- `board_psram_timing_refine_axi` of esp32p4_ev_function/board_psram_tune.c: the second tuning, by
-- patterns written and read back over the memory window.
use ulmk_boards.Base.{
  ℕ, zero, suc, ◌/◌, ◌≡◌, refl, ◌⊎◌, inl, inr, Bool, true, false, ◌||◌, List, [], ◌∷◌, arith, ltb,
  leb, ◌==◌, if◌then◌else◌, Bool-cases, get_or, length, ap, leb→gt, bit_xor,
}
use ulmk_boards.Base.Word.{add32, sub32, mul32}
use ulmk_boards.PsramTune.Window.{find_window}
use ulmk_boards.PsramTune.Fields.{pattern_word}
use ulmk_boards.PsramTune.Choice.{middle-hit}
use ulmk_boards.PsramTune.Sweep.{
  Machine, Best, delay_num, s_delay_tbl, apply_phase, apply_delayline, board_psram_timing_apply,
}

-- The word that round `t` of delay point `i` writes at index `w`.
unfoldable pub expect_word : ℕ → ℕ → ℕ → ℕ
expect_word i t w = bit_xor (pattern_word i w) (mul32 t 0x01010101)

module _ (m : Machine) where
  open m use {State, rd, wr, dcache_clean, dcache_invalidate}

  -- The words from index `w` on, `left` of them.
  unfoldable pub write_words : ℕ → ℕ → ℕ → ℕ → ℕ → State → State
  write_words zero base i t w s = s
  write_words (suc left) base i t w s =
      write_words left base i t (add32 w 1) (wr s (add32 base (mul32 w 4)) (expect_word i t w))

  unfoldable pub words_match : ℕ → ℕ → ℕ → ℕ → ℕ → State → Bool
  words_match zero base i t w s = true
  words_match (suc left) base i t w s =
      let rest = words_match left base i t (add32 w 1) s in
      if rd s (add32 base (mul32 w 4)) == expect_word i t w then rest else false

  -- The rounds from `t` on, with the hits so far.
  unfoldable pub hit_rounds : ℕ → ℕ → ℕ → ℕ → ℕ → ℕ → State → ℕ × State
  hit_rounds zero base nbytes i t hits s = (hits, s)
  hit_rounds (suc left) base nbytes i t hits s =
      let s1 = write_words (nbytes / 4) base i t 0 s in
      let s2 = dcache_invalidate (dcache_clean s1 base nbytes) base nbytes in
      hit_rounds left base nbytes i (add32 t 1)
        (if words_match (nbytes / 4) base i t 0 s2 then add32 hits 1 else hits) s2

  unfoldable pub refine_points : List (ℕ × ℕ) → ℕ → ℕ → ℕ → State → List ℕ × State
  refine_points [] base nbytes i s = ([], s)
  refine_points ((data_dl, dqs_dl) ∷ tbl) base nbytes i s =
      let (hits, s1) = hit_rounds 8 base nbytes i 0 0 (apply_delayline m data_dl dqs_dl s) in
      let (rest, s2) = refine_points tbl base nbytes (add32 i 1) s1 in (hits ∷ rest, s2)

  -- The result is true for the code's 0, false for its -1. A null base is 0.
  unfoldable pub board_psram_timing_refine_axi : ℕ → ℕ → Best → State → Bool × Best × State
  board_psram_timing_refine_axi base nbytes g s =
      if base == 0 || ltb nbytes 64
      then (false, g, s)
      else let (good, s1) = refine_points s_delay_tbl base nbytes 0 (apply_phase m g.phase s) in
        let w = find_window good delay_num 8 in
        if leb w.len 1
        then (false, g, board_psram_timing_apply m g s1)
        else let (data_dl, dqs_dl) = get_or s_delay_tbl (sub32 w.last (w.len / 2)) (0, 0) in
          let g' = record g { data_dl = data_dl; dqs_dl = dqs_dl } in
          (true, g', board_psram_timing_apply m g' s1)

module _ (m : Machine) where
  open m use {State}

  length-refine_points :
      (tbl : List (ℕ × ℕ)) (base nbytes i : ℕ) (s : State)
      → length (refine_points m tbl base nbytes i s).0 ≡ length tbl
  unfolding refine_points
  length-refine_points [] base nbytes i s = refl
  length-refine_points ((d, q) ∷ tbl) base nbytes i s = ap suc (
      length-refine_points tbl base nbytes (add32 i 1)
        (hit_rounds m 8 base nbytes i 0 0 (apply_delayline m d q s)).1)

  -- On any machine and buffer: when the refinement reports success, the delays it leaves are those
  -- of a table entry that passed all eight rounds; when it reports failure, they are the ones from
  -- before. The phase is never changed.
  pub board_psram_timing_refine_axi-result :
      (base nbytes : ℕ) (g : Best) (s : State)
      → let (ok, g', s') = board_psram_timing_refine_axi m base nbytes g s in
        let good = (refine_points m s_delay_tbl base nbytes 0 (apply_phase m g.phase s)).0 in
        (g'.phase ≡ g.phase)
        × ((ok ≡ false) × (g' ≡ g)
            ⊎ (ok ≡ true)
              × ((i : ℕ) × ((g'.data_dl, g'.dqs_dl) ≡ get_or s_delay_tbl i (0, 0))
                  × (get_or good i 0 ≡ 8)))
  unfolding board_psram_timing_refine_axi
  board_psram_timing_refine_axi-result base nbytes g s =
      let good = (refine_points m s_delay_tbl base nbytes 0 (apply_phase m g.phase s)).0 in
      let size : length good ≡ 31 =
        length-refine_points s_delay_tbl base nbytes 0 (apply_phase m g.phase s) in
      let w = find_window good delay_num 8 in
      elim (Bool-cases (base == 0 || ltb nbytes 64)) [
        | inl bad ↦ rw bad (refl, inl (refl, refl))
        | inr fine ↦ elim (Bool-cases (leb w.len 1)) [
          | inl short ↦ rw (fine, short) (refl, inl (refl, refl))
          | inr long ↦
              rw (fine, long)
                (
                  refl,
                  inr (
                    refl,
                    (
                      sub32 w.last (w.len / 2),
                      refl,
                      middle-hit good 8 31 size (omega arith) (leb→gt w.len 1 long),
                    ),
                  ),
                )
        ]
      ]
