-- ===== src/PsramTune/Window.antt =====
-- `find_window` of esp32p4_ev_function/board_psram_tune.c, and the longest run that it looks for.
use ulmk_boards.Base.{
  ℕ, suc, ◌+◌, ◌-◌, ◌^◌, ◌≤◌, ◌<◌, ◌≡◌, ap, ◌≢◌, ◌⊎◌, inl, inr, ◌∙◌, sym, subst, List, [], ◌∷◌,
  false, arith, ltb, ltb→lt, ltb→ge, ◌==◌, ==→eq, if◌then◌else◌, Bool-cases, length, get_or,
}
use native.Mathlib.Decide.{dec_lt}
use ulmk_boards.Base.Word.{add32, sub32}

-- The locals `max`, `run` and `end` of the loop.
pub record Scan : Type 0 where
  pub best : ℕ
  pub run : ℕ
  pub last : ℕ

-- `*len_out` and `*end_out`.
pub record Found : Type 0 where
  pub len : ℕ
  pub last : ℕ

-- One round of the loop, at index `i`.
pub scan_step : ℕ → ℕ → ℕ → Scan → Scan
scan_step need i g s =
    if g == need
    then record s { run = add32 s.run 1 }
    else if ltb s.best s.run
    then record { best = s.run; run = 0; last = sub32 i 1 }
    else record s { run = 0 }

-- The rounds from index `i` on, over the entries that are left.
pub scan_from : ℕ → ℕ → List ℕ → Scan → Scan
scan_from need i [] s = s
scan_from need i (g ∷ gs) s = scan_from need (add32 i 1) gs (scan_step need i g s)

-- What follows the loop: a run that reaches the end of the array.
pub close : ℕ → Scan → Found
close n s =
    if ltb s.best s.run
    then record { len = s.run; last = sub32 n 1 }
    else record { len = s.best; last = s.last }

abbrev no_scan : Scan
no_scan = record { best = 0; run = 0; last = 0 }

-- `good` holds `n` entries.
unfoldable pub find_window : List ℕ → ℕ → ℕ → Found
unfolding scan_step scan_from close
find_window good n need = close n (scan_from need 0 good no_scan)

-- Every entry from index `a` up to, not including, `b` is the wanted one.
abbrev pub Wanted : List ℕ → ℕ → ℕ → ℕ → Type 0
Wanted good need a b = (j : ℕ) → a ≤ j → j < b → get_or good j 0 ≡ need

-- What the loop knows before index `i`.
record Inv (good : List ℕ) (need i : ℕ) (s : Scan) : Type 0 where
  run_le : s.run ≤ i
  run_wanted : Wanted good need (i - s.run) i
  run_longest : (a : ℕ) → a ≤ i → Wanted good need a i → i ≤ a + s.run
  best_room : 0 < s.best → (s.best ≤ s.last + 1) × (s.last < i)
  best_wanted : 0 < s.best → Wanted good need (s.last + 1 - s.best) (s.last + 1)
  best_longest :
      (a b : ℕ) → a ≤ b → b ≤ i → Wanted good need a b → (b ≤ a + s.best) ⊎ (b ≤ a + s.run)

grow :
    (good : List ℕ) (need a i : ℕ)
    → get_or good i 0 ≡ need
    → Wanted good need a i
    → Wanted good need a (i + 1)
grow good need a i e h j p q = elim (dec_lt j i) [
  | yes lt ↦ h j p lt
  | no ge ↦ ap (λ t. get_or good t 0) (same ge q) ∙ e
]
  where
    same : ¬ (j < i) → j < i + 1 → j ≡ i
    same ge q = omega arith

module _ (good : List ℕ) (need i : ℕ) (s : Scan) (v : Inv good need i s) where
  at_most : (a b : ℕ) → a ≤ b → b ≤ i + 1 → (b ≤ i) ⊎ (b ≡ i + 1)
  at_most a b p q = elim (dec_lt i b) [ yes h ↦ inr (omega arith) | no h ↦ inl (omega arith) ]

  hit-Inv : get_or good i 0 ≡ need → Inv good need (i + 1) (record s { run = s.run + 1 })
  hit-Inv e = record {
    run_le = omega (arith, v.run_le);
    run_wanted = λ j p q. grow good need (i - s.run) i e v.run_wanted j (omega (arith, v.run_le)) q;
    run_longest = longest;
    best_room = λ h. omega (arith, v.best_room h);
    best_wanted = v.best_wanted;
    best_longest = λ a b p q w. elim (at_most a b p q) [
      | inl below ↦ elim (v.best_longest a b p below w) [
        | inl x ↦ inl x
        | inr x ↦ inr (omega arith)
      ]
      | inr top ↦ inr (omega (arith, longest a (omega arith) (λ j x y. w j x (omega arith))))
    ];
  }
    where
      longest : (a : ℕ) → a ≤ i + 1 → Wanted good need a (i + 1) → i + 1 ≤ a + (s.run + 1)
      longest a p w = elim (dec_lt i a) [
        | yes h ↦ omega arith
        | no h ↦ omega (arith, v.run_longest a (omega arith) (λ j x y. w j x (omega arith)))
      ]

  module _ (ne : get_or good i 0 ≢ need) where
    top_empty : (a : ℕ) → a ≤ i + 1 → Wanted good need a (i + 1) → i + 1 ≤ a
    top_empty a p w = elim (dec_lt i a) [
      | yes h ↦ omega arith
      | no h ↦ absurd (ne (w i (omega arith) (omega arith)))
    ]

    better-Inv :
        s.best < s.run → Inv good need (i + 1) (record { best = s.run; run = 0; last = i - 1 })
    better-Inv better = record {
      run_le = omega arith;
      run_wanted = λ j p q. absurd (omega arith);
      run_longest = λ a p w. omega (arith, top_empty a p w);
      best_room = λ h. omega (arith, v.run_le);
      best_wanted = λ h j p q. v.run_wanted j (omega (arith, v.run_le)) (omega (arith, v.run_le));
      best_longest = λ a b p q w. elim (at_most a b p q) [
        | inl below ↦ elim (v.best_longest a b p below w) [
          | inl x ↦ inl (omega arith)
          | inr x ↦ inl x
        ]
        | inr top ↦ inr (omega (arith, top_empty a (omega arith) (λ j x y. w j x (omega arith))))
      ];
    }

    worse-Inv : s.run ≤ s.best → Inv good need (i + 1) (record s { run = 0 })
    worse-Inv worse = record {
      run_le = omega arith;
      run_wanted = λ j p q. absurd (omega arith);
      run_longest = λ a p w. omega (arith, top_empty a p w);
      best_room = λ h. omega (arith, v.best_room h);
      best_wanted = v.best_wanted;
      best_longest = λ a b p q w. elim (at_most a b p q) [
        | inl below ↦ elim (v.best_longest a b p below w) [
          | inl x ↦ inl x
          | inr x ↦ inl (omega arith)
        ]
        | inr top ↦ inr (omega (arith, top_empty a (omega arith) (λ j x y. w j x (omega arith))))
      ];
    }

scan_step-Inv :
    (good : List ℕ) (need i g : ℕ) (s : Scan)
    → i < 2 ^ 32 - 1
    → get_or good i 0 ≡ g
    → Inv good need i s
    → Inv good need (i + 1) (scan_step need i g s)
unfolding scan_step
scan_step-Inv good need i g s room e v = elim (Bool-cases (g == need)) [
  | inl hit ↦
      subst (Inv good need (i + 1)) (ground (arith, v.run_le))
        (hit-Inv good need i s v (e ∙ ==→eq g need hit))
  | inr miss ↦ elim (Bool-cases (ltb s.best s.run)) [
    | inl better ↦
        subst (Inv good need (i + 1)) (ground (arith, v.run_le))
          (better-Inv good need i s v (wrong miss) (ltb→lt s.best s.run better))
    | inr worse ↦
        subst (Inv good need (i + 1)) (ground arith)
          (worse-Inv good need i s v (wrong miss) (ltb→ge s.best s.run worse))
  ]
]
  where
    wrong : (g == need) ≡ false → get_or good i 0 ≢ need
    wrong miss h = ground arith

plus_zero : (i : ℕ) → i ≡ i + 0
plus_zero i = omega arith

zero_plus : (j : ℕ) → j ≡ 0 + j
zero_plus j = omega arith

-- The entries left at index `i` are those of the whole array from `i` on.
abbrev From : List ℕ → List ℕ → ℕ → Type 0
From good rest i = (j : ℕ) → get_or rest j 0 ≡ get_or good (i + j) 0

scan_from-Inv :
    (good : List ℕ) (need : ℕ) (rest : List ℕ) (i : ℕ) (s : Scan)
    → i + length rest < 2 ^ 32
    → From good rest i
    → Inv good need i s
    → Inv good need (i + length rest) (scan_from need i rest s)
unfolding scan_from
scan_from-Inv good need [] i s room f v = subst (λ k. Inv good need k s) (plus_zero i) v
scan_from-Inv good need (g ∷ gs) i s room f v =
    let next : add32 i 1 ≡ i + 1 = omega arith in
    rw next (
      subst (λ k. Inv good need k (scan_from need (i + 1) gs (scan_step need i g s))) (omega arith)
        (scan_from-Inv good need gs (i + 1) (scan_step need i g s) (omega arith)
          (λ j. f (suc j) ∙ ap (λ t. get_or good t 0) (shift j))
          (scan_step-Inv good need i g s (omega arith) here v)))
  where
    shift : (j : ℕ) → i + suc j ≡ i + 1 + j
    shift j = omega arith

    here : get_or good i 0 ≡ g
    here = ap (λ t. get_or good t 0) (plus_zero i) ∙ sym (f 0)

-- A longest run: the window has the wanted entry throughout, and no stretch of wanted entries is
-- longer.
pub record IsLongest (good : List ℕ) (need n : ℕ) (w : Found) : Type 0 where
  pub inside : 0 < w.len → (w.len ≤ w.last + 1) × (w.last < n)
  pub wanted : 0 < w.len → Wanted good need (w.last + 1 - w.len) (w.last + 1)
  pub longest : (a b : ℕ) → a ≤ b → b ≤ n → Wanted good need a b → b ≤ a + w.len

module _ (good : List ℕ) (need n : ℕ) (s : Scan) (v : Inv good need n s) (room : n < 2 ^ 32) where
  open_run : s.best < s.run → IsLongest good need n (record { len = s.run; last = n - 1 })
  open_run better = record {
    inside = λ h. omega (arith, v.run_le);
    wanted = λ h j p q. v.run_wanted j (omega (arith, v.run_le)) (omega (arith, v.run_le));
    longest = λ a b p q w. elim (v.best_longest a b p q w) [ inl x ↦ omega arith | inr x ↦ x ];
  }

  closed_run : s.run ≤ s.best → IsLongest good need n (record { len = s.best; last = s.last })
  closed_run worse = record {
    inside = v.best_room;
    wanted = v.best_wanted;
    longest = λ a b p q w. elim (v.best_longest a b p q w) [ inl x ↦ x | inr x ↦ omega arith ];
  }

  close-IsLongest : IsLongest good need n (close n s)
  unfolding close
  close-IsLongest = elim (Bool-cases (ltb s.best s.run)) [
    | inl better ↦
        subst (IsLongest good need n) (ground (arith, v.run_le))
          (open_run (ltb→lt s.best s.run better))
    | inr worse ↦
        subst (IsLongest good need n) (ground arith) (closed_run (ltb→ge s.best s.run worse))
  ]

start-Inv : (good : List ℕ) (need : ℕ) → Inv good need 0 no_scan
start-Inv good need = record {
  run_le = omega arith;
  run_wanted = λ j p q. absurd (omega arith);
  run_longest = λ a p w. omega arith;
  best_room = λ h. absurd (omega arith);
  best_wanted = λ h. absurd (omega arith);
  best_longest = λ a b p q w. inl (omega arith);
}

-- `find_window` finds a longest run of the wanted entry, in an array of any length below 2 ^ 32:
-- it returns length 0 only when no entry is the wanted one, and otherwise a window inside the
-- array that holds the wanted entry throughout and is as long as any such stretch.
pub find_window-IsLongest :
    (good : List ℕ) (need : ℕ)
    → length good < 2 ^ 32
    → IsLongest good need (length good) (find_window good (length good) need)
unfolding find_window
find_window-IsLongest good need room = close-IsLongest good need (length good) _ whole room
  where
    whole : Inv good need (length good) (scan_from need 0 good no_scan)
    whole =
        subst (λ k. Inv good need k (scan_from need 0 good no_scan)) (sym (zero_plus (length good)))
          (scan_from-Inv good need good 0 no_scan (omega arith)
            (λ j. ap (λ t. get_or good t 0) (zero_plus j)) (start-Inv good need))
