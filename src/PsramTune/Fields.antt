-- ===== src/PsramTune/Fields.antt =====
-- The values that esp32p4_ev_function/board_psram_tune.c writes into its registers: bus divider,
-- pin delay, DQS phase and DQS delay fields, and the test patterns.
use ulmk_boards.Base.{ℕ, ◌+◌, ◌*◌, ◌/◌, ◌%◌, ◌^◌, ◌<◌, ◌≡◌, refl, arith, bit_and, bit_or, bit_xor}
use ulmk_boards.Base.Word.{not32, sub32, mul32, ◌<<◌}
use ulmk_boards.Base.Bits.{clear_field, fill_field, and_low}

abbrev pub pin_dlc_m : ℕ
pin_dlc_m = 0xF << 4

abbrev pub dqs_phase_m : ℕ
dqs_phase_m = 3 << 1

abbrev pub dqs_delay90_m : ℕ
dqs_delay90_m = 0xF << 7

abbrev pub dqs_delay270_m : ℕ
dqs_delay270_m = 0xF << 17

-- The new value of a pin register, in `pin_set_dlc`.
unfoldable pub dlc_value : ℕ → ℕ → ℕ
dlc_value v dl = bit_or (bit_and v (not32 pin_dlc_m)) (bit_and dl 0xF << 4)

-- The new value of a DQS register, in `dqs_set_phase`.
unfoldable pub phase_value : ℕ → ℕ → ℕ
phase_value v phase = bit_or (bit_and v (not32 dqs_phase_m)) (bit_and phase 3 << 1)

-- The new value of a DQS register, in `dqs_set_delay`.
unfoldable pub delay_value : ℕ → ℕ → ℕ
delay_value v dl =
    bit_or (bit_and v (not32 (bit_or dqs_delay90_m dqs_delay270_m)))
      (bit_or (bit_and dl 0xF << 7) (bit_and dl 0xF << 17))

abbrev pub mpll_mhz : ℕ
mpll_mhz = 400

-- The divider that `set_bus_mhz` writes to both clock registers.
unfoldable pub clock_bits : ℕ → ℕ
clock_bits mhz =
    let div = mpll_mhz / mhz in
    bit_or (bit_or (sub32 div 1 << 0) (sub32 (div / 2) 1 << 8)) (sub32 div 1 << 16)

-- `pattern_word`.
unfoldable pub pattern_word : ℕ → ℕ → ℕ
pattern_word salt idx =
    bit_xor (bit_xor (bit_xor 0xA5000000 (mul32 salt 0x11111111)) (mul32 idx 0x00010001))
      (idx << 16)

-- The two bus speeds of `board_psram_timing_tune`.
clock_bits_runs : (clock_bits 20 ≡ 0x130913) × (clock_bits 200 ≡ 0x010001)
unfolding clock_bits
clock_bits_runs = (refl, refl)

nibble : (x : ℕ) → x % 2 ^ 4 << 4 ≡ x % 2 ^ 4 * 2 ^ 4
nibble x = omega arith

crumb : (x : ℕ) → x % 2 ^ 2 << 1 ≡ x % 2 ^ 2 * 2 ^ 1
crumb x = omega arith

-- The pin register's new value holds the delay, cut to four bits, and leaves the other bits as
-- they were.
pub dlc_value-fields :
    (v dl : ℕ) → v < 2 ^ 32 → dlc_value v dl ≡ v % 2 ^ 4 + (dl % 2 ^ 4 + v / 2 ^ 8 * 2 ^ 4) * 2 ^ 4
unfolding dlc_value
dlc_value-fields v dl h =
    rw
      (
        clear_field 4 4 24 v,
        and_low 4 dl,
        nibble dl,
        fill_field 4 4 (v % 2 ^ 4) (v / 2 ^ 4 / 2 ^ 4 % 2 ^ 24) (dl % 2 ^ 4) (omega arith)
            (omega arith),
      )
      (omega arith)

-- The DQS register's new value holds the phase, cut to two bits, and leaves the other bits as they
-- were.
pub phase_value-fields :
    (v phase : ℕ)
    → v < 2 ^ 32
    → phase_value v phase ≡ v % 2 ^ 1 + (phase % 2 ^ 2 + v / 2 ^ 3 * 2 ^ 2) * 2 ^ 1
unfolding phase_value
phase_value-fields v phase h =
    rw
      (
        clear_field 1 2 29 v,
        and_low 2 phase,
        crumb phase,
        fill_field 1 2 (v % 2 ^ 1) (v / 2 ^ 1 / 2 ^ 2 % 2 ^ 29) (phase % 2 ^ 2) (omega arith)
            (omega arith),
      )
      (omega arith)
