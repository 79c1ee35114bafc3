-- ===== src/PsramTune/Tests.antt =====
-- Runs and instances, on a machine whose memory always reads back the reference pattern.
use ulmk_boards.Base.{ℕ, ◌+◌, ◌-◌, ◌*◌, ◌≤◌, ◌≡◌, refl, List, [], ◌∷◌, arith, get_or, take, drop}
use ulmk_boards.PsramTune.Window.{find_window, IsLongest, find_window-IsLongest}
use ulmk_boards.PsramTune.Sweep.{
  Machine, Best, bytes_of, s_ref, s_delay_tbl, tune_addr, choose_phase, try_delays, count_hits,
  read_matches, bytes_eq, read_chunk, apply_phase, sweep_delayline,
}
use ulmk_boards.PsramTune.Choice.{Longest, sweep_delayline-Longest}

abbrev sound : Machine
sound = record {
  State = Unit {0};
  rd = λ s a. 0;
  wr = λ s a v. s;
  hex_write = λ s cmd addr dummy bytes. s;
  hex_read = λ s cmd addr dummy n. (take n (drop (addr - tune_addr) (bytes_of s_ref)), s);
  dcache_clean = λ s a n. s;
  dcache_invalidate = λ s a n. s;
}

abbrev unset : Best
unset = record { phase = 0; data_dl = 0; dqs_dl = 0 }

abbrev mixed : List ℕ
mixed = 1 ∷ 0 ∷ 1 ∷ 1 ∷ []

find_window-mixed : find_window mixed 4 1 ≡ record { len = 2; last = 3 }
unfolding find_window
find_window-mixed = refl

choose_phase-mixed : choose_phase mixed ≡ 2
unfolding choose_phase find_window
choose_phase-mixed = refl

find_window-IsLongest_example : IsLongest mixed 1 4 (find_window mixed 4 1)
find_window-IsLongest_example = find_window-IsLongest mixed 1 (omega arith)

sweep_delayline-Longest_example :
    let good = (try_delays sound s_delay_tbl (apply_phase sound 0 tt)).0 in
    let g = (sweep_delayline sound unset tt).0 in
    (i a k : ℕ) × ((g.data_dl, g.dqs_dl) ≡ get_or s_delay_tbl i (0, 0))
    × (get_or good i 0 ≡ 100)
    × Longest good 100 a k
    × (2 * a + k ≤ 2 * i + 2)
    × (2 * i + 1 ≤ 2 * a + k)
unfolding try_delays count_hits read_matches bytes_eq read_chunk
sweep_delayline-Longest_example = sweep_delayline-Longest sound unset tt 0 (omega arith) refl refl
