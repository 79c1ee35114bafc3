-- ===== src/Cache/Sync.antt =====
-- The range loop of esp32p4_ev_function/board_cache.c: it ends, and it syncs every byte it is asked for.
use ulmk_boards.Base.{
  ℕ, zero, suc, ◌+◌, ◌-◌, ◌*◌, ◌/◌, ◌%◌, ◌^◌, ◌≤◌, ◌<◌, ◌≡◌, ◌≢◌, refl, ap, sym, ◌∙◌, inl, inr,
  true, false, ◌||◌, none, some, List, [], ◌++◌, append_assoc, arith, Bool-cases, ltb, ◌==◌,
  if◌then◌else◌, bit_and,
}
use native.Mathlib.Decide.{dec_lt}
use ulmk_boards.Base.Word.{not32, add32, sub32}
use ulmk_boards.Base.Bits.{clear_field}
use ulmk_boards.Cache.P4.{Step, sync_one, sync_from, sync_range, sync_map_for, sync_chunk}

mask_64 : (a : ℕ) → a < 2 ^ 32 → bit_and a (not32 63) ≡ a / 64 * 64
mask_64 a h = clear_field 0 6 26 a ∙ omega arith

-- A round of the loop whose range has the byte.
pub record Synced (map trigger : ℕ) (steps : List Step) (b : ℕ) : Type 0 where
  pub before : List Step
  pub after : List Step
  pub start : ℕ
  pub len : ℕ
  pub split : steps ≡ before ++ (sync_one map trigger start len ++ after)
  pub from_start : start ≤ b
  pub below_end : b < start + len
  pub bounded : len ≤ 4096
  pub start_aligned : start % 64 ≡ 0
  pub len_aligned : len % 64 ≡ 0

later :
    (map trigger : ℕ) (first steps : List Step) (b : ℕ)
    → Synced map trigger steps b
    → Synced map trigger (first ++ steps) b
later map trigger first steps b s = record {
  before = first ++ s.before;
  after = s.after;
  start = s.start;
  len = s.len;
  split =
      ap (λ t. first ++ t) s.split
      ∙ sym (append_assoc first s.before (sync_one map trigger s.start s.len ++ s.after));
  from_start = s.from_start;
  below_end = s.below_end;
  bounded = s.bounded;
  start_aligned = s.start_aligned;
  len_aligned = s.len_aligned;
}

one_more :
    (fuel map trigger a end n : ℕ) (steps : List Step)
    → ltb a end ≡ true
    → (if ltb sync_chunk (sub32 end a) then sync_chunk else sub32 end a) ≡ n
    → sync_from fuel map trigger (add32 a n) end ≡ some steps
    → sync_from (suc fuel) map trigger a end ≡ some (sync_one map trigger a n ++ steps)
unfolding sync_from
one_more fuel map trigger a end n steps more size e = rw more (
    ap
      (λ k. elim (sync_from fuel map trigger (add32 a k) end) [
        | none ↦ none
        | some steps ↦ some (sync_one map trigger a k ++ steps)
      ])
      size
    ∙ rw e refl)

-- One round, and the rounds after it.
round :
    (map trigger a n end : ℕ) (steps : List Step)
    → n ≤ 4096
    → a % 64 ≡ 0
    → n % 64 ≡ 0
    → ((b : ℕ) → a + n ≤ b → b < end → Synced map trigger steps b)
    → (b : ℕ) → a ≤ b
    → b < end
    → Synced map trigger (sync_one map trigger a n ++ steps) b
round map trigger a n end steps small al nal rest b lo hi = elim (dec_lt b (a + n)) [
  | yes here ↦ record {
    before = [];
    after = steps;
    start = a;
    len = n;
    split = refl;
    from_start = lo;
    below_end = here;
    bounded = small;
    start_aligned = al;
    len_aligned = nal;
  }
  | no there ↦ later map trigger (sync_one map trigger a n) steps b (rest b (omega arith) hi)
]

-- The loop, from an aligned address below an aligned end: with fuel for every chunk it ends, and it
-- syncs each byte on the way.
sync_from-Synced :
    (fuel map trigger a end : ℕ)
    → a % 64 ≡ 0
    → end % 64 ≡ 0
    → a ≤ end
    → end < 2 ^ 32
    → end + 4096 ≤ a + fuel * 4096
    → (steps : List Step) × (sync_from fuel map trigger a end ≡ some steps)
      × ((b : ℕ) → a ≤ b → b < end → Synced map trigger steps b)
unfolding sync_from
sync_from-Synced zero map trigger a end al el le r fit = absurd (omega arith)
sync_from-Synced (suc fuel) map trigger a end al el le r fit = elim (Bool-cases (ltb a end)) [
  | inr finished ↦ ([], rw finished refl, λ b p q. absurd (ground arith))
  | inl more ↦ elim (Bool-cases (ltb sync_chunk (sub32 end a))) [
    | inl full ↦
        let next : add32 a 4096 ≡ a + 4096 = ground arith in
        let (steps, e, all) =
          sync_from-Synced fuel map trigger (a + 4096) end (omega arith) el (ground arith) r
            (omega arith) in
        (
          sync_one map trigger a 4096 ++ steps,
          one_more fuel map trigger a end 4096 steps more (ground arith)
              (ap (λ t. sync_from fuel map trigger t end) next ∙ e),
          round map trigger a 4096 end steps (omega arith) al (omega arith) all,
        )
    | inr last ↦
        let size : sub32 end a ≡ end - a = ground arith in
        let next : add32 a (end - a) ≡ end = ground arith in
        let (steps, e, all) =
          sync_from-Synced fuel map trigger end end el el (omega arith) r (ground arith) in
        (
          sync_one map trigger a (end - a) ++ steps,
          one_more fuel map trigger a end (end - a) steps more (ground arith)
              (ap (λ t. sync_from fuel map trigger t end) next ∙ e),
          round map trigger a (end - a) end steps (ground arith) al (omega arith)
              (λ b p q. absurd (ground arith)),
        )
  ]
]

-- With one round of fuel for every 4 KiB and two more, the range operation ends. In a cached window
-- every byte asked for is in a round of aligned lines of at most 4 KiB, which syncs the first level,
-- then, where the window has it, the second.
pub sync_range-Synced :
    (fuel trigger addr size : ℕ)
    → 0 < addr
    → 0 < size
    → sync_map_for addr ≢ 0
    → addr + size + 64 ≤ 2 ^ 32
    → size + 8192 ≤ fuel * 4096
    → (steps : List Step) × (sync_range fuel trigger addr size ≡ some steps)
      × ((b : ℕ) → addr ≤ b → b < addr + size → Synced (sync_map_for addr) trigger steps b)
unfolding sync_range
sync_range-Synced fuel trigger addr size p q cached room fit =
    let (steps, e, all) =
      sync_from-Synced fuel (sync_map_for addr) trigger (addr / 64 * 64)
        ((addr + size + 63) / 64 * 64) (omega arith) (omega arith) (omega arith) (omega arith)
        (omega arith) in
    (
      steps,
      rw (given, mask_64 addr (omega arith), ends) e,
      λ b lo hi. all b (omega arith) (omega arith),
    )
  where
    given : ((addr == 0 || size == 0) || sync_map_for addr == 0) ≡ false
    given = ground arith

    whole : sub32 (add32 (add32 addr size) 64) 1 ≡ addr + size + 63
    whole = omega arith

    ends : bit_and (sub32 (add32 (add32 addr size) 64) 1) (not32 63) ≡ (addr + size + 63) / 64 * 64
    ends = ap (λ t. bit_and t (not32 63)) whole ∙ mask_64 (addr + size + 63) (omega arith)
