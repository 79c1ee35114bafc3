-- ===== src/Ledc/Divider.antt =====
-- The clock divider that esp32p4_ev_function/drivers/pwm/src/pwm_hw.c programs for a frequency.
use ulmk_boards.Base.{
  ℕ, ◌+◌, ◌*◌, ◌/◌, ◌%◌, ◌^◌, ◌≤◌, ◌<◌, ◌≡◌, ◌≢◌, refl, ap, sym, ◌∙◌, inl, inr, ◌⊎◌, eq→==, ==→eq,
  true, false, none, some, List, ◌++◌, if◌then◌else◌, ltb, ◌==◌, bit_and, bit_or, arith, Bool-cases,
}
use mathlib.Core.Option
use native.Mathlib.Nat.{
  div-div-eq-div-mul, div-mul-le_self, le-div_iff_mul-le, div-lt_iff_lt-mul, mul_comm,
}
use native.Mathlib.Decide.{ℕ_discrete}
use ulmk_boards.Base.Word.{mul32, ◌<<◌}
use ulmk_boards.Base.Bits.{and_low, or_fields}
use ulmk_boards.Pinmux.Server.{EspIo}
use ulmk_boards.Ledc.Hw.{
  duty_res_bits, duty_period, xtal_hz, raw_div, timer0_conf_of, timer0_writes, timer0_set_freq,
  pwm_hw_config,
}
use ulmk_boards.Ledc.Server.{Pwm, do_config}

timer0_conf_of-field : (raw : ℕ) → 256 ≤ raw → raw < 2 ^ 18 → timer0_conf_of raw ≡ 10 + raw * 32
timer0_conf_of-field raw low high =
    let kept : ltb raw 256 ≡ false = ground (arith, low) in
    let field : bit_and raw 0x3FFFF << 5 ≡ raw * 2 ^ 5 = omega (arith, and_low 18 raw) in
    ap (λ b. bit_or 10 (bit_and (if b then 256 else raw) 0x3FFFF << 5)) kept
    ∙ ap (bit_or 10) field
    ∙ or_fields 5 10 raw (omega arith)
    ∙ omega arith

over_period : (freq : ℕ) → 1650065408 / (freq * 1024) ≡ 1611392 / freq
over_period freq =
    ap (λ (t : ℕ). 1650065408 / t) (mul_comm freq 1024)
    ∙ sym (div-div-eq-div-mul 1650065408 1024 freq)

raw_div-some : (freq : ℕ) → 0 < freq → freq < 2 ^ 22 → raw_div freq ≡ some (1611392 / freq)
raw_div-some freq pos small =
    let whole : mul32 freq duty_period ≡ freq * 1024 = omega arith in
    let defined : (freq * 1024 == 0) ≡ false = ground (arith, pos) in
    ap (λ t. if t == 0 then none else some (1650065408 / t)) whole
    ∙ ap (λ b. if b then none else some (1650065408 / (freq * 1024))) defined
    ∙ ap some (over_period freq)

-- The quotient of 1611392 at a frequency from 7 to 6294 Hz.
quotient_range :
    (f : ℕ)
    → 7 ≤ f
    → f ≤ 6294
    → (256 ≤ 1611392 / f) × (1611392 / f < 2 ^ 18) × (6 * (1611392 / f) ≤ 10000000 / f)
quotient_range f low high =
    let q = 1611392 / f in
    let pos : 0 < f = omega arith in
    (
      (le-div_iff_mul-le pos).1 (omega arith),
      (div-lt_iff_lt-mul pos).1 (omega arith),
      (le-div_iff_mul-le pos).1 (omega (arith, div-mul-le_self 1611392 f)),
    )

-- The divider that gives the frequency, in 256ths: the clock times 256, over the ticks of a second.
abbrev pub exact_div : ℕ → ℕ
exact_div freq_hz = xtal_hz * 256 / (freq_hz * duty_period)

exact_div_lem : (freq : ℕ) → exact_div freq ≡ 10000000 / freq
exact_div_lem freq =
    ap (λ (t : ℕ). 10240000000 / t) (mul_comm freq 1024)
    ∙ sym (div-div-eq-div-mul 10240000000 1024 freq)

-- For a frequency from 7 to 6294 Hz, timer0_set_freq programs a divider that is at most a sixth of
-- the one that gives the frequency, since `XTAL_HZ << 8` is more than 32 bits: the PWM runs at
-- least at six times the frequency asked for.
pub timer0_set_freq-fast :
    (freq : ℕ) (s : List EspIo)
    → 7 ≤ freq
    → freq ≤ 6294
    → (div : ℕ) × (timer0_set_freq freq s ≡ some (s ++ timer0_writes (duty_res_bits + div * 32)))
      × (6 * div ≤ exact_div freq)
unfolding timer0_set_freq
timer0_set_freq-fast freq s low high =
    let div = 1611392 / freq in
    let (enough, fits, sixth) = quotient_range freq low high in
    let given : (freq == 0) ≡ false = ground (arith, low) in
    (
      div,
      ap
            (λ b.
              Option.map (λ raw. s ++ timer0_writes (timer0_conf_of raw))
                (raw_div (if b then 5000 else freq)))
            given
          ∙ ap (Option.map (λ raw. s ++ timer0_writes (timer0_conf_of raw)))
              (raw_div-some freq (omega arith) (omega arith))
          ∙ ap (λ c. some (s ++ timer0_writes c)) (timer0_conf_of-field div enough fits),
      omega (arith, exact_div_lem freq),
    )

period_zero : (freq : ℕ) → freq < 2 ^ 32 → freq % 2 ^ 22 ≡ 0 → mul32 freq duty_period ≡ 0
period_zero freq small whole = omega arith

period_pos : (freq : ℕ) → freq < 2 ^ 32 → freq % 2 ^ 22 ≢ 0 → 0 < mul32 freq duty_period
period_pos freq small part = elim (Bool-cases (freq % 2 ^ 22 == 0)) [
  | inl e ↦ absurd (part (==→eq (freq % 2 ^ 22) 0 e))
  | inr e ↦ omega (arith, nonzero e)
]
  where
    nonzero : (freq % 2 ^ 22 == 0) ≡ false → 0 < freq % 2 ^ 22
    nonzero e = ground (arith, e)

undefined_at :
    (freq : ℕ) (s : List EspIo)
    → freq < 2 ^ 32
    → freq ≢ 0
    → freq % 2 ^ 22 ≡ 0
    → timer0_set_freq freq s ≡ none
unfolding timer0_set_freq
undefined_at freq s small given whole =
    let hz : (freq == 0) ≡ false = ground (arith, given) in
    let zeroed : (mul32 freq duty_period == 0) ≡ true = eq→== _ 0 (period_zero freq small whole) in
    rw (hz, zeroed)

module _ (freq : ℕ) (s : List EspIo) (small : freq < 2 ^ 32) where
  Ends : Type 0
  Ends = (conf : ℕ) × (timer0_set_freq freq s ≡ some (s ++ timer0_writes conf))

  ends_default : freq ≡ 0 → Ends
  unfolding Ends timer0_set_freq
  ends_default e = (
    timer0_conf_of ((xtal_hz << 8) / mul32 5000 duty_period),
    ap
        (λ b.
          Option.map (λ raw. s ++ timer0_writes (timer0_conf_of raw))
            (raw_div (if b then 5000 else freq)))
        (eq→== freq 0 e),
  )

  ends_given : freq % 2 ^ 22 ≢ 0 → Ends
  unfolding Ends timer0_set_freq
  ends_given part =
      let given : freq ≢ 0 = λ e. part (omega arith) in
      let hz : (freq == 0) ≡ false = ground (arith, given) in
      let nonzero : (mul32 freq duty_period == 0) ≡ false =
        ground (arith, period_pos freq small part) in
      (timer0_conf_of ((xtal_hz << 8) / mul32 freq duty_period), rw (hz, nonzero) refl)

  -- For a 32-bit frequency, timer0_set_freq divides by zero exactly when it is not 0 and is a
  -- multiple of 2 ^ 22; at any other one it ends after the three writes of a timer configuration.
  pub timer0_set_freq-defined :
      ((freq ≢ 0) × (freq % 2 ^ 22 ≡ 0) × (timer0_set_freq freq s ≡ none))
      ⊎ (((freq ≡ 0) ⊎ (freq % 2 ^ 22 ≢ 0))
          × (conf : ℕ) × (timer0_set_freq freq s ≡ some (s ++ timer0_writes conf)))
  unfolding Ends
  timer0_set_freq-defined = elim (ℕ_discrete freq 0) [
    | yes e ↦ inr (inl e, (ends_default e).0, (ends_default e).1)
    | no given ↦ elim (ℕ_discrete (freq % 2 ^ 22) 0) [
      | yes whole ↦ inl (given, whole, undefined_at freq s small given whole)
      | no part ↦ inr (inr part, (ends_given part).0, (ends_given part).1)
    ]
  ]

-- So does a configuration message with such a frequency, once the hardware is set up.
pub do_config-undefined :
    (val : List EspIo → ℕ) (freq duty : ℕ) (p : Pwm)
    → p.hw_ok ≡ true
    → freq < 2 ^ 32
    → freq ≢ 0
    → freq % 2 ^ 22 ≡ 0
    → do_config val 0 freq duty p ≡ none
unfolding do_config pwm_hw_config
do_config-undefined val freq duty p ready small given whole =
    let hz : (freq == 0) ≡ false = ground (arith, given) in
    let undefined : timer0_set_freq freq p.io ≡ none = undefined_at freq p.io small given whole in
    rw (hz, undefined, ready)
