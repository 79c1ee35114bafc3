-- ===== src/Pinmux/Server.antt =====
-- esp32p4_ev_function/drivers/pinmux/src/server.c: the registers of a pad, and the messages. What the
-- code does to the registers is a list of accesses in order; what a read answers may depend on all
-- accesses up to it, and is a parameter.
use ulmk_boards.Base.{
  ℕ, Bool, not, ◌||◌, List, [], ◌∷◌, ◌++◌, ◌==◌, ltb, leb, if◌then◌else◌, get_or, bit_and, bit_or,
}
use ulmk_boards.Base.Word.{u8, u16, not32, ◌<<◌, ◌>>>◌}
use ulmk_boards.Kernel.{Rc, Msg}

-- The registers that the pin multiplexer and the PWM driver use; those of a pad, an input signal or
-- a channel carry its number.
pub data EspReg : Type 0 where
  gpio_enable_w1ts gpio_enable_w1tc gpio_enable1_w1ts gpio_enable1_w1tc : EspReg
  gpio_pin gpio_func_out_sel gpio_func_in_sel iomux_gpio : ℕ → EspReg
  hp_soc_clk_ctrl3 hp_peri_clk_ctrl22 hp_rst_en1 ledc_timer0_conf ledc_conf : EspReg
  ledc_ch_conf0 ledc_ch_hpoint ledc_ch_duty ledc_ch_conf1 : ℕ → EspReg

pub data EspIo : Type 0 where
  wr : EspReg → ℕ → EspIo
  rd : EspReg → EspIo

pub record PinmuxCfg : Type 0 where
  pub port : ℕ
  pub pin : ℕ
  pub dir : ℕ
  pub pull : ℕ
  pub alt : ℕ
  pub flags : ℕ
  pub matrix_out : ℕ
  pub matrix_in : ℕ

abbrev pub pinmux_dir_in : ℕ
pinmux_dir_in = 0

abbrev pub pinmux_dir_out : ℕ
pinmux_dir_out = 1

abbrev pub pinmux_pull_none : ℕ
pinmux_pull_none = 0

abbrev pub pinmux_pull_up : ℕ
pinmux_pull_up = 1

abbrev pub pinmux_pull_down : ℕ
pinmux_pull_down = 2

abbrev pub pinmux_alt_matrix : ℕ
pinmux_alt_matrix = 1

abbrev pub pinmux_f_opendrain : ℕ
pinmux_f_opendrain = 1 << 0

abbrev pub pinmux_f_ie : ℕ
pinmux_f_ie = 1 << 1

abbrev pub pinmux_f_periph_oe : ℕ
pinmux_f_periph_oe = 1 << 2

abbrev pub pinmux_sig_gpio_out : ℕ
pinmux_sig_gpio_out = 0x100

abbrev pub pinmux_msg_config : ℕ
pinmux_msg_config = 1

abbrev pub gpio_ok : ℕ → Bool
gpio_ok gpio = leb gpio 56

abbrev pub set_oe : ℕ → Bool → List EspIo
set_oe gpio enable =
    let bit = 1 << bit_and gpio 31 in
    if ltb gpio 32
    then wr (if enable then gpio_enable_w1ts else gpio_enable_w1tc) bit ∷ []
    else wr (if enable then gpio_enable1_w1ts else gpio_enable1_w1tc) bit ∷ []

-- The value that `pinmux_apply` writes to the multiplexer's register of the pad, from the old one.
unfoldable pub mux_of : PinmuxCfg → ℕ → ℕ
mux_of cfg old =
    let mux1 = bit_or (bit_and old (not32 (0x7 << 12))) (1 << 12) in
    let mux2 = bit_and mux1 (not32 (bit_or (bit_or (1 << 9) (1 << 8)) (1 << 7))) in
    let mux3 =
      (if cfg.pull == pinmux_pull_up
        then bit_or mux2 (1 << 8)
        else if cfg.pull == pinmux_pull_down
        then bit_or mux2 (1 << 7)
        else mux2) in
    if cfg.dir == pinmux_dir_in || not (bit_and cfg.flags pinmux_f_ie == 0)
    then bit_or mux3 (1 << 9)
    else mux3

-- The accesses that route the pad.
unfoldable pub route : PinmuxCfg → List EspIo
route cfg =
    let sel = bit_and cfg.matrix_out 0x1FF in
    let out_sel =
      (if bit_and cfg.flags pinmux_f_periph_oe == 0 then bit_or sel (1 << 10) else sel) in
    let out =
      (if not (cfg.matrix_out == 0) || cfg.dir == pinmux_dir_out
        then wr (gpio_func_out_sel cfg.pin) out_sel ∷ []
        else []) in
    let inp =
      (if not (cfg.matrix_in == 0)
        then wr (gpio_func_in_sel cfg.matrix_in) (bit_or (bit_and cfg.pin 0x3F) (1 << 7)) ∷ []
        else []) in
    if cfg.alt == pinmux_alt_matrix
    then out ++ inp
    else wr (gpio_func_out_sel cfg.pin) (bit_or pinmux_sig_gpio_out (1 << 10)) ∷ []

-- The configuration that the words of a message hold.
unfoldable pub decoded : List ℕ → PinmuxCfg
decoded words =
    let w0 = get_or words 0 0 in
    let w3 = get_or words 3 0 in
    let w4 = get_or words 4 0 in
    record {
      port = u8 (w0 >>> 8);
      pin = u8 (bit_and w0 0xFF);
      dir = u8 (get_or words 1 0);
      pull = u8 (get_or words 2 0);
      alt = u8 (bit_and w3 0xFF);
      flags = u8 (bit_and (w3 >>> 8) 0xFF);
      matrix_out = u16 (bit_and w4 0xFFFF);
      matrix_in = u16 (bit_and (w4 >>> 16) 0xFFFF);
    }

module _ (val : List EspIo → ℕ) where
  -- The configuration is not null.
  unfoldable pub pinmux_apply : PinmuxCfg → List EspIo → Rc × List EspIo
  pinmux_apply cfg s =
      let s1 = s ++ rd (iomux_gpio cfg.pin) ∷ [] in
      let s2 = s1 ++ wr (iomux_gpio cfg.pin) (mux_of cfg (val s1)) ∷ rd (gpio_pin cfg.pin) ∷ [] in
      let pad =
        (if not (bit_and cfg.flags pinmux_f_opendrain == 0)
          then bit_or (val s2) (1 << 2)
          else bit_and (val s2) (not32 (1 << 2))) in
      let s3 = s2 ++ wr (gpio_pin cfg.pin) pad ∷ [] in
      let s4 = s3 ++ route cfg in
      if not (gpio_ok cfg.pin)
      then (Rc.einval, s)
      else (Rc.ok, s4 ++ set_oe cfg.pin (cfg.dir == pinmux_dir_out))

  -- A round of the server: word 0 of its reply, and the accesses.
  unfoldable pub pinmux_server : Msg → List EspIo → Rc × List EspIo
  pinmux_server m s =
      if m.label == pinmux_msg_config then pinmux_apply (decoded m.words) s else (Rc.einval, s)
