-- ===== src/Ledc/Fit.antt =====
-- The duties that esp32p4_ev_function/drivers/pwm/src/pwm_hw.c programs.
use ulmk_boards.Base.{
  ℕ, ◌*◌, ◌/◌, ◌≤◌, ◌≡◌, inl, inr, Bool, true, false, Option, none, some, List, [], ◌∷◌, ◌++◌,
  if◌then◌else◌, leb, ltb, arith, Bool-cases,
}
use mathlib.Core.Option
use ulmk_boards.Base.Word.{mul32, ◌<<◌}
use ulmk_boards.Pinmux.Server.{
  EspReg, EspIo, wr, ledc_ch_duty, PinmuxCfg, gpio_ok, gpio_enable_w1ts, gpio_enable_w1tc,
  gpio_enable1_w1ts, gpio_enable1_w1tc, pinmux_apply, route,
}
use ulmk_boards.Ledc.Hw.{
  duty_value, duty_full, timer0_set_freq, raw_div, ch_apply_duty, ledc_clk_enable, gpio_matrix_ledc,
  pwm_hw_init, pwm_hw_config, pwm_hw_set_duty, pwm_max_ch,
}

-- A duty written to a channel is one of its 1024 ticks, above four fractional bits that are 0.
abbrev pub DutyFits : EspIo → Type 0
DutyFits (wr (ledc_ch_duty ch) v) = (t : ℕ) × ((t ≤ 1023) × (v ≡ t * 16))
DutyFits _ = Unit {0}

pub AllFit : List EspIo → Type 0
AllFit [] = Unit {0}
AllFit (a ∷ s) = DutyFits a × AllFit s

pub fit_nil : AllFit []
unfolding AllFit
fit_nil = tt

fit_cons : (a : EspIo) (s : List EspIo) → DutyFits a → AllFit s → AllFit (a ∷ s)
unfolding AllFit
fit_cons a s h k = (h, k)

fit_one : (a : EspIo) → DutyFits a → AllFit (a ∷ [])
fit_one a h = fit_cons a [] h fit_nil

AllFit-append : (s t : List EspIo) → AllFit s → AllFit t → AllFit (s ++ t)
unfolding AllFit
AllFit-append [] t h k = k
AllFit-append (a ∷ s) t h k = (h.0, AllFit-append s t h.1 k)

AllFit-if : (b : Bool) (s t : List EspIo) → AllFit s → AllFit t → AllFit (if b then s else t)
AllFit-if true s t h k = h
AllFit-if false s t h k = k

duty_value-small : (duty : ℕ) (on : Bool) → duty_value duty on ≤ 1023
duty_value-small duty true = elim (Bool-cases (ltb 1000 duty)) [
  | inl e ↦ rw e (omega arith)
  | inr e ↦ rw e (fits duty e)
]
  where
    fits : (d : ℕ) → ltb 1000 d ≡ false → mul32 duty_full d / 1000 ≤ 1023
    fits d e = ground (arith, e)
duty_value-small duty false = omega arith

duty_value-fits :
    (duty : ℕ) (on : Bool) → (t : ℕ) × ((t ≤ 1023) × (duty_value duty on << 4 ≡ t * 16))
duty_value-fits duty on =
    let small = duty_value-small duty on in (duty_value duty on, (small, omega (arith, small)))

ch_apply_duty-fit :
    (ch duty : ℕ) (on : Bool) (s : List EspIo) → AllFit s → AllFit (ch_apply_duty ch duty on s)
unfolding ch_apply_duty
ch_apply_duty-fit ch duty on s h =
    AllFit-append s _ h
      (fit_cons _ _ tt (fit_cons _ _ (duty_value-fits duty on) (fit_cons _ _ tt (fit_one _ tt))))

route-fit : (cfg : PinmuxCfg) → AllFit (route cfg)
unfolding route
route-fit cfg =
    AllFit-if _ _ _
      (AllFit-append _ _ (AllFit-if _ _ _ (fit_one _ tt) fit_nil)
        (AllFit-if _ _ _ (fit_one _ tt) fit_nil))
      (fit_one _ tt)

-- An access that sets one of two registers, neither a channel's duty.
either_fit :
    (b c : Bool) (r r' q q' : EspReg) (v : ℕ)
    → DutyFits (wr r v)
    → DutyFits (wr r' v)
    → DutyFits (wr q v)
    → DutyFits (wr q' v)
    → AllFit (if b then wr (if c then r else r') v ∷ [] else wr (if c then q else q') v ∷ [])
either_fit true true r r' q q' v h1 h2 h3 h4 = fit_one _ h1
either_fit true false r r' q q' v h1 h2 h3 h4 = fit_one _ h2
either_fit false true r r' q q' v h1 h2 h3 h4 = fit_one _ h3
either_fit false false r r' q q' v h1 h2 h3 h4 = fit_one _ h4

-- What holds of a result where there is one; there is none after a division by zero.
module _ {A : Type 0} where
  pub After : (A → Type 0) → Option A → Type 0
  After P none = Unit {0}
  After P (some a) = P a

  pub After-some : (P : A → Type 0) (a : A) → P a → After P (some a)
  unfolding After
  After-some P a h = h

  After-any : (x : Option A) → After (λ a. Unit {0}) x
  unfolding After
  After-any none = tt
  After-any (some a) = tt

  pub After-if :
      (P : A → Type 0) (b : Bool) (x y : Option A)
      → After P x
      → After P y
      → After P (if b then x else y)
  After-if P true x y h k = h
  After-if P false x y h k = k

pub After-map :
    {A B : Type 0} (P : A → Type 0) (Q : B → Type 0) (f : A → B) (x : Option A)
    → ((a : A) → P a → Q (f a))
    → After P x
    → After Q (Option.map f x)
unfolding After
After-map P Q f none step h = tt
After-map P Q f (some a) step h = step a h

pub After-bind :
    {A B : Type 0} (P : A → Type 0) (Q : B → Type 0) (f : A → Option B) (x : Option A)
    → ((a : A) → P a → After Q (f a))
    → After P x
    → After Q (Option.bind x f)
unfolding After Option.bind
After-bind P Q f none step h = tt
After-bind P Q f (some a) step h = step a h

timer0_set_freq-fit : (freq : ℕ) (s : List EspIo) → AllFit s → After AllFit (timer0_set_freq freq s)
unfolding timer0_set_freq
timer0_set_freq-fit freq s h =
    After-map (λ raw. Unit {0}) AllFit _ (raw_div _)
      (λ raw u. AllFit-append s _ h (fit_cons _ _ tt (fit_cons _ _ tt (fit_one _ tt))))
      (After-any (raw_div _))

pub pwm_hw_set_duty-fit :
    (ch duty : ℕ) (on : Bool) (s : List EspIo) → AllFit s → AllFit (pwm_hw_set_duty ch duty on s).1
unfolding pwm_hw_set_duty
pwm_hw_set_duty-fit ch duty on s h = elim (Bool-cases (leb pwm_max_ch ch)) [
  | inl e ↦ rw e h
  | inr e ↦ rw e (ch_apply_duty-fit ch duty on s h)
]

module _ (val : List EspIo → ℕ) where
  pinmux_apply-fit :
      (cfg : PinmuxCfg) (s : List EspIo) → AllFit s → AllFit (pinmux_apply val cfg s).1
  unfolding pinmux_apply
  pinmux_apply-fit cfg s h = elim (Bool-cases (gpio_ok cfg.pin)) [
    | inr e ↦ rw e h
    | inl e ↦ rw e (
        AllFit-append _ _
          (AllFit-append _ _
            (AllFit-append _ _
              (AllFit-append _ _ (AllFit-append _ _ h (fit_one _ tt))
                (fit_cons _ _ tt (fit_one _ tt)))
              (fit_one _ tt))
            (route-fit cfg))
          (either_fit _ _ gpio_enable_w1ts gpio_enable_w1tc gpio_enable1_w1ts gpio_enable1_w1tc _ tt
            tt tt tt))
  ]

  ledc_clk_enable-fit : (s : List EspIo) → AllFit s → AllFit (ledc_clk_enable val s)
  unfolding ledc_clk_enable
  ledc_clk_enable-fit s h =
      AllFit-append _ _
        (AllFit-append _ _
          (AllFit-append _ _
            (AllFit-append _ _
              (AllFit-append _ _
                (AllFit-append _ _
                  (AllFit-append _ _ (AllFit-append _ _ h (fit_one _ tt)) (fit_one _ tt))
                  (fit_one _ tt))
                (fit_cons _ _ tt (fit_one _ tt)))
              (fit_one _ tt))
            (fit_one _ tt))
          (fit_one _ tt))
        (fit_one _ tt)

  pub pwm_hw_init-fit : (s : List EspIo) → AllFit s → After (λ r. AllFit r.1) (pwm_hw_init val s)
  unfolding pwm_hw_init
  pwm_hw_init-fit s h =
      After-map AllFit (λ r. AllFit r.1) _ _ (λ t k. k)
        (timer0_set_freq-fit 5000 _ (ledc_clk_enable-fit s h))

  pub pwm_hw_config-fit :
      (ch gpio freq duty : ℕ) (s : List EspIo)
      → AllFit s
      → After (λ r. AllFit r.1) (pwm_hw_config val ch gpio freq duty s)
  unfolding pwm_hw_config gpio_matrix_ledc
  pwm_hw_config-fit ch gpio freq duty s h = After-if _ _ _ _ (After-some _ _ h) (
      After-map AllFit (λ r. AllFit r.1) _ _
        (λ t k. ch_apply_duty-fit ch duty false _ (pinmux_apply-fit _ t k))
        (timer0_set_freq-fit freq s h))
