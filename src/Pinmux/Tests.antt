-- ===== src/Pinmux/Tests.antt =====
-- The theorem on the pin multiplexer at a concrete input: pin 26 as the output of a matrix signal.
use ulmk_boards.Base.{◌≡◌, true, some, [], arith}
use ulmk_boards.Pinmux.Server.{
  PinmuxCfg, pinmux_apply, pinmux_dir_out, pinmux_pull_none, pinmux_alt_matrix, pinmux_f_periph_oe,
}
use ulmk_boards.Pinmux.Client.{pinmux_config}
use ulmk_boards.Pinmux.Trip.{deliver, pinmux_config-apply}

abbrev backlight : PinmuxCfg
backlight = record {
  port = 0;
  pin = 26;
  dir = pinmux_dir_out;
  pull = pinmux_pull_none;
  alt = pinmux_alt_matrix;
  flags = pinmux_f_periph_oe;
  matrix_out = 126;
  matrix_in = 0;
}

pinmux_config-apply_example :
    pinmux_config true (deliver (λ s. 0x1800)) 0 (some backlight) []
    ≡ pinmux_apply (λ s. 0x1800) backlight []
pinmux_config-apply_example =
    pinmux_config-apply (λ s. 0x1800) backlight []
      (
        omega arith,
        omega arith,
        omega arith,
        omega arith,
        omega arith,
        omega arith,
        omega arith,
        omega arith,
      )
