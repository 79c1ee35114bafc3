-- ===== src/PsramTune/Choice.antt =====
-- What the sweeps of esp32p4_ev_function/board_psram_tune.c choose: the start of a longest good
-- window of phases, and the middle of a longest good window of delay points.
use ulmk_boards.Base.{
  ℕ, zero, suc, ◌+◌, ◌-◌, ◌*◌, ◌/◌, ◌^◌, ◌≤◌, ◌<◌, ◌≡◌, refl, ap, ◌∙◌, subst, inl, inr, true, false,
  List, [], ◌∷◌, arith, ◌==◌, Bool-cases, length, get_or,
}
use ulmk_boards.Base.Word.{u8, add32, sub32}
use ulmk_boards.PsramTune.Window.{Found, find_window, Wanted, IsLongest, find_window-IsLongest}
use ulmk_boards.PsramTune.Sweep.{
  Machine, Best, delay_sweeps, s_delay_tbl, choose_phase, choose_delay, try_phases, try_delays,
  sweep_phase, sweep_delayline, apply_phase, apply_delayline, read_matches, count_hits,
}

-- `k` entries from index `a` on are wanted, and no stretch of wanted entries is longer.
pub record Longest (good : List ℕ) (need a k : ℕ) : Type 0 where
  pub fits : a + k ≤ length good
  pub wanted : Wanted good need a (a + k)
  pub longest : (b c : ℕ) → b ≤ c → c ≤ length good → Wanted good need b c → c ≤ b + k

module _ (good : List ℕ) (need n : ℕ) (size : length good ≡ n) (room : n < 2 ^ 32) where
  abbrev pub window : Found
  window = find_window good n need

  facts : IsLongest good need n window
  facts =
      subst (λ k. IsLongest good need k (find_window good k need)) size
        (find_window-IsLongest good need (omega arith))

  window-Longest : 0 < window.len → Longest good need (window.last + 1 - window.len) window.len
  window-Longest h = record {
    fits = omega (arith, facts.inside h);
    wanted = λ j p q. facts.wanted h j p (omega (arith, facts.inside h));
    longest = λ b c p q. facts.longest b c p (omega arith);
  }

  len_of_one : (j : ℕ) → j < n → get_or good j 0 ≡ need → 0 < window.len
  len_of_one j p e = omega (arith, facts.longest j (j + 1) (omega arith) (omega arith) one)
    where
      one : Wanted good need j (j + 1)
      one k x y = ap (λ t. get_or good t 0) (same x y) ∙ e
        where
          same : j ≤ k → k < j + 1 → k ≡ j
          same x y = omega arith

  len_of_two :
      (j : ℕ) → j + 1 < n → get_or good j 0 ≡ need → get_or good (j + 1) 0 ≡ need → 2 ≤ window.len
  len_of_two j p e e' = omega (arith, facts.longest j (j + 2) (omega arith) (omega arith) two)
    where
      two : Wanted good need j (j + 2)
      two k x y = elim (Bool-cases (k == j)) [
        | inl h ↦ ap (λ t. get_or good t 0) (same h) ∙ e
        | inr h ↦ ap (λ t. get_or good t 0) (next h) ∙ e'
      ]
        where
          same : (k == j) ≡ true → k ≡ j
          same h = ground arith

          next : (k == j) ≡ false → k ≡ j + 1
          next h = ground arith

  -- The middle of the window: inside it, and no more than one step nearer to its end.
  middle :
      2 ≤ window.len
      → let best = sub32 window.last (window.len / 2) in
        let start = window.last + 1 - window.len in
        (start ≤ best)
        × (best < start + window.len)
        × (best < n)
        × (window.last + start ≤ 2 * best + 1)
        × (2 * best ≤ window.last + start)
  middle h = omega (arith, facts.inside (omega arith))

  pub middle-hit : 2 ≤ window.len → get_or good (sub32 window.last (window.len / 2)) 0 ≡ need
  middle-hit h =
      let l = window-Longest (omega arith) in
      l.wanted _ (omega (arith, middle h)) (omega (arith, middle h))

-- If any of the four phases reads back right, the chosen phase is the start of a longest window of
-- phases that do.
pub choose_phase-Longest :
    (good : List ℕ) (j : ℕ)
    → length good ≡ 4
    → j < 4
    → get_or good j 0 ≡ 1
    → (k : ℕ) × (0 < k) × Longest good 1 (choose_phase good) k
unfolding choose_phase
choose_phase-Longest good j l p e =
    let found = len_of_one good 1 4 l (omega arith) j p e in
    let k = (window good 1 4 l (omega arith)).len in
    (
      k,
      found,
      subst (λ a. Longest good 1 a k)
          (ground (arith, (facts good 1 4 l (omega arith)).inside found))
          (window-Longest good 1 4 l (omega arith) found),
    )

-- If two neighbouring delay points pass all reads, the chosen point is the middle of a longest
-- window of such points: inside it, and no more than one step nearer to its end.
pub choose_delay-Longest :
    (good : List ℕ) (j : ℕ)
    → length good ≡ 31
    → j + 1 < 31
    → get_or good j 0 ≡ 100
    → get_or good (j + 1) 0 ≡ 100
    → (a k : ℕ) × Longest good 100 a k
      × (a ≤ choose_delay good)
      × (choose_delay good < a + k)
      × (2 * a + k ≤ 2 * choose_delay good + 2)
      × (2 * choose_delay good + 1 ≤ 2 * a + k)
unfolding choose_delay
choose_delay-Longest good j l p e e' =
    let found = len_of_two good 100 31 l (omega arith) j p e e' in
    let w = window good 100 31 l (omega arith) in
    let mid = middle good 100 31 l (omega arith) found in
    let inside = (facts good 100 31 l (omega arith)).inside (omega arith) in
    (
      w.last + 1 - w.len,
      w.len,
      window-Longest good 100 31 l (omega arith) (omega arith),
      ground (arith, mid),
      ground (arith, mid),
      ground (arith, mid, inside),
      ground (arith, mid, inside),
    )

module _ (m : Machine) where
  open m use {State}

  length-try_phases : (left i : ℕ) (s : State) → length (try_phases m left i s).0 ≡ left
  unfolding try_phases
  length-try_phases zero i s = refl
  length-try_phases (suc left) i s =
      ap suc (length-try_phases left (add32 i 1) (read_matches m (apply_phase m (u8 i) s)).1)

  length-try_delays : (tbl : List (ℕ × ℕ)) (s : State) → length (try_delays m tbl s).0 ≡ length tbl
  unfolding try_delays
  length-try_delays [] s = refl
  length-try_delays ((d, q) ∷ tbl) s =
      ap suc (length-try_delays tbl (count_hits m delay_sweeps 0 (apply_delayline m d q s)).1)

  -- On any machine: if the reference pattern reads back at one of the four phases or more, then
  -- the phase that `sweep_phase` keeps is the start of a longest window of phases at which it
  -- does.
  pub sweep_phase-Longest :
      (g : Best) (s : State) (j : ℕ)
      → j < 4
      → get_or (try_phases m 4 0 s).0 j 0 ≡ 1
      → (k : ℕ) × (0 < k) × Longest (try_phases m 4 0 s).0 1 (sweep_phase m g s).0.phase k
  unfolding sweep_phase
  sweep_phase-Longest g s j p e =
      choose_phase-Longest (try_phases m 4 0 s).0 j (length-try_phases 4 0 s) p e

  -- On any machine: if two neighbouring delay points pass all hundred reads, then the data and DQS
  -- delays that `sweep_delayline` keeps are those of one table entry, which passed all hundred
  -- reads itself and is the middle of a longest window of such entries.
  pub sweep_delayline-Longest :
      (g : Best) (s : State) (j : ℕ)
      → j + 1 < 31
      → get_or (try_delays m s_delay_tbl (apply_phase m g.phase s)).0 j 0 ≡ 100
      → get_or (try_delays m s_delay_tbl (apply_phase m g.phase s)).0 (j + 1) 0 ≡ 100
      → let good = (try_delays m s_delay_tbl (apply_phase m g.phase s)).0 in
        let g' = (sweep_delayline m g s).0 in
        (i a k : ℕ) × ((g'.data_dl, g'.dqs_dl) ≡ get_or s_delay_tbl i (0, 0))
        × (get_or good i 0 ≡ 100)
        × Longest good 100 a k
        × (2 * a + k ≤ 2 * i + 2)
        × (2 * i + 1 ≤ 2 * a + k)
  unfolding sweep_delayline
  sweep_delayline-Longest g s j p e e' =
      let good = (try_delays m s_delay_tbl (apply_phase m g.phase s)).0 in
      let (a, k, l, lo, hi, near, far) =
        choose_delay-Longest good j (length-try_delays s_delay_tbl (apply_phase m g.phase s)) p e
          e' in
      (choose_delay good, a, k, refl, l.wanted (choose_delay good) lo hi, l, near, far)
