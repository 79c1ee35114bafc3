-- ===== src/Ledc/Hw.antt =====
-- esp32p4_ev_function/drivers/pwm/src/pwm_hw.c: the timer and a channel. `none` is a division by zero,
-- which the language leaves undefined.
use ulmk_boards.Base.{
  ℕ, ◌+◌, ◌-◌, ◌/◌, Bool, false, Option, none, some, List, [], ◌∷◌, ◌++◌, ◌==◌, ltb, leb,
  if◌then◌else◌, bit_and, bit_or,
}
use mathlib.Core.Option
use ulmk_boards.Base.Word.{u16, mul32, not32, ◌<<◌}
use ulmk_boards.Kernel.{Rc}
use ulmk_boards.Pinmux.Server.{
  EspReg, hp_soc_clk_ctrl3, hp_peri_clk_ctrl22, hp_rst_en1, ledc_timer0_conf, ledc_conf,
  ledc_ch_conf0, ledc_ch_hpoint, ledc_ch_duty, ledc_ch_conf1, EspIo, wr, rd, PinmuxCfg,
  pinmux_apply, pinmux_dir_out, pinmux_pull_none, pinmux_alt_matrix, pinmux_f_periph_oe,
}

abbrev pub pwm_max_ch : ℕ
pwm_max_ch = 1

abbrev pub ledc_sig_out0 : ℕ
ledc_sig_out0 = 126

abbrev pub duty_res_bits : ℕ
duty_res_bits = 10

abbrev pub duty_period : ℕ
duty_period = 1 << duty_res_bits

abbrev pub duty_full : ℕ
duty_full = duty_period - 1

abbrev pub xtal_hz : ℕ
xtal_hz = 40000000

-- The divider before it is limited, and after.
abbrev pub raw_div : ℕ → Option ℕ
raw_div freq_hz =
    let period = mul32 freq_hz duty_period in
    if period == 0 then none else some ((xtal_hz << 8) / period)

abbrev pub timer0_conf_of : ℕ → ℕ
timer0_conf_of raw =
    let div = (if ltb raw 256 then 256 else raw) in
    bit_or (bit_and duty_res_bits 0x1F) (bit_and div 0x3FFFF << 5)

abbrev pub timer0_writes : ℕ → List EspIo
timer0_writes conf =
    wr ledc_timer0_conf (bit_or conf (1 << 24))
    ∷ wr ledc_timer0_conf conf
    ∷ wr ledc_timer0_conf (bit_or conf (1 << 26))
    ∷ []

unfoldable pub timer0_set_freq : ℕ → List EspIo → Option (List EspIo)
timer0_set_freq freq_hz s =
    let freq = (if freq_hz == 0 then 5000 else freq_hz) in
    Option.map (λ raw. s ++ timer0_writes (timer0_conf_of raw)) (raw_div freq)

abbrev pub duty_value : ℕ → Bool → ℕ
duty_value duty_permille on =
    let permille = (if ltb 1000 duty_permille then 1000 else duty_permille) in
    if on then mul32 duty_full permille / 1000 else 0

unfoldable pub ch_apply_duty : ℕ → ℕ → Bool → List EspIo → List EspIo
ch_apply_duty ch duty_permille on s =
    let conf0 = bit_or (if on then bit_or 0 (1 << 2) else 0) (1 << 4) in
    s
    ++ wr (ledc_ch_hpoint ch) 0
      ∷ wr (ledc_ch_duty ch) (duty_value duty_permille on << 4)
      ∷ wr (ledc_ch_conf1 ch) (1 << 31)
      ∷ wr (ledc_ch_conf0 ch) conf0
      ∷ []

-- The pin and the channel as `gpio_matrix_ledc` configures them.
abbrev pub ledc_cfg : ℕ → ℕ → PinmuxCfg
ledc_cfg gpio ch = record {
  port = 0;
  pin = gpio;
  dir = pinmux_dir_out;
  pull = pinmux_pull_none;
  alt = pinmux_alt_matrix;
  flags = pinmux_f_periph_oe;
  matrix_out = u16 (ledc_sig_out0 + ch);
  matrix_in = 0;
}

module _ (val : List EspIo → ℕ) where
  -- `v = rd(reg)`, with the writes that follow from it.
  abbrev with_read : EspReg → (ℕ → List EspIo) → List EspIo → List EspIo
  with_read reg writes s = let s1 = s ++ rd reg ∷ [] in s1 ++ writes (val s1)

  unfoldable pub ledc_clk_enable : List EspIo → List EspIo
  ledc_clk_enable s =
      let s1 = with_read hp_soc_clk_ctrl3 (λ v. wr hp_soc_clk_ctrl3 (bit_or v (1 << 0)) ∷ []) s in
      let s2 =
        with_read hp_rst_en1
          (λ v.
            wr hp_rst_en1 (bit_or v (1 << 29)) ∷ wr hp_rst_en1 (bit_and v (not32 (1 << 29))) ∷ [])
          s1 in
      let s3 =
        with_read hp_peri_clk_ctrl22
          (λ v. wr hp_peri_clk_ctrl22 (bit_or (bit_and v (not32 0x7)) (1 << 2)) ∷ []) s2 in
      with_read ledc_conf (λ v. wr ledc_conf (bit_or v (1 << 31)) ∷ []) s3

  unfoldable pub gpio_matrix_ledc : ℕ → ℕ → List EspIo → List EspIo
  gpio_matrix_ledc gpio ch s = (pinmux_apply val (ledc_cfg gpio ch) s).1

  unfoldable pub pwm_hw_set_idle_level : ℕ → ℕ → Bool → List EspIo → Option (Rc × List EspIo)
  pwm_hw_set_idle_level ch gpio level_high s =
      let conf0 = bit_or (if level_high then bit_or 0 (1 << 3) else 0) (1 << 4) in
      let idle =
        wr (ledc_ch_hpoint ch) 0
        ∷ wr (ledc_ch_duty ch) 0
        ∷ wr (ledc_ch_conf1 ch) (1 << 31)
        ∷ wr (ledc_ch_conf0 ch) conf0
        ∷ [] in
      if leb pwm_max_ch ch
      then some (Rc.einval, s)
      else Option.map (λ t. (Rc.ok, t ++ idle))
          (timer0_set_freq 5000 (gpio_matrix_ledc gpio ch (ledc_clk_enable s)))

  unfoldable pub pwm_hw_init : List EspIo → Option (Rc × List EspIo)
  pwm_hw_init s = Option.map (λ t. (Rc.ok, t)) (timer0_set_freq 5000 (ledc_clk_enable s))

  unfoldable pub pwm_hw_config : ℕ → ℕ → ℕ → ℕ → List EspIo → Option (Rc × List EspIo)
  pwm_hw_config ch gpio freq_hz duty_permille s =
      if leb pwm_max_ch ch
      then some (Rc.einval, s)
      else Option.map
          (λ t. (Rc.ok, ch_apply_duty ch duty_permille false (gpio_matrix_ledc gpio ch t)))
          (timer0_set_freq freq_hz s)

unfoldable pub pwm_hw_set_duty : ℕ → ℕ → Bool → List EspIo → Rc × List EspIo
pwm_hw_set_duty ch duty_permille on s =
    if leb pwm_max_ch ch then (Rc.einval, s) else (Rc.ok, ch_apply_duty ch duty_permille on s)

unfoldable pub pwm_hw_enable : ℕ → ℕ → Bool → List EspIo → Rc × List EspIo
pwm_hw_enable ch duty_permille on s = pwm_hw_set_duty ch duty_permille on s
