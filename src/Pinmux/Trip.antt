-- ===== src/Pinmux/Trip.antt =====
-- A configuration through both sides of esp32p4_ev_function/drivers/pinmux.
use ulmk_boards.Base.{
  ℕ, ◌+◌, ◌*◌, ◌^◌, ◌%◌, ◌<◌, ◌≡◌, ap, ◌∙◌, true, some, List, bit_and, bit_or, arith,
}
use ulmk_boards.Base.Word.{u8, u16, ◌<<◌, ◌>>>◌}
use ulmk_boards.Base.Bits.{fields_or, or_fields, and_low}
use ulmk_boards.Kernel.{Rc, Msg}
use ulmk_boards.Pinmux.Server.{EspIo, PinmuxCfg, decoded, pinmux_apply, pinmux_server}
use ulmk_boards.Pinmux.Client.{config_msg, pinmux_config}

-- The kernel hands a message to the server, which answers it with one round.
abbrev pub deliver : (List EspIo → ℕ) → Msg → List EspIo → Rc × Rc × List EspIo
deliver val m s = let (rc, s') = pinmux_server val m s in (Rc.ok, rc, s')

-- The fields fit the types that the header gives them.
abbrev pub IsCfg : PinmuxCfg → Type 0
IsCfg cfg =
    (cfg.port < 256)
    × (cfg.pin < 256)
    × (cfg.dir < 256)
    × (cfg.pull < 256)
    × (cfg.alt < 256)
    × (cfg.flags < 256)
    × (cfg.matrix_out < 65536)
    × (cfg.matrix_in < 65536)

byte_of : (t : ℕ) → u8 (bit_and t 0xFF) ≡ t % 256
byte_of t = omega (arith, and_low 8 t)

half_of : (t : ℕ) → u16 (bit_and t 0xFFFF) ≡ t % 65536
half_of t = omega (arith, and_low 16 t)

-- Two bytes in a word, and two halves.
two_bytes : (hi lo : ℕ) → hi < 256 → lo < 256 → bit_or (hi << 8) lo ≡ lo + hi * 256
two_bytes hi lo h l =
    ap (λ t. bit_or t lo) {x = hi << 8} {y = hi * 2 ^ 8} (omega arith) ∙ fields_or 8 hi lo l

bytes_two : (hi lo : ℕ) → hi < 256 → lo < 256 → bit_or lo (hi << 8) ≡ lo + hi * 256
bytes_two hi lo h l =
    ap (λ t. bit_or lo t) {x = hi << 8} {y = hi * 2 ^ 8} (omega arith) ∙ or_fields 8 lo hi l

halves_two : (hi lo : ℕ) → hi < 65536 → lo < 65536 → bit_or lo (hi << 16) ≡ lo + hi * 65536
halves_two hi lo h l =
    ap (λ t. bit_or lo t) {x = hi << 16} {y = hi * 2 ^ 16} (omega arith) ∙ or_fields 16 lo hi l

low_byte : (t lo hi : ℕ) → t ≡ lo + hi * 256 → lo < 256 → u8 (bit_and t 0xFF) ≡ lo
low_byte t lo hi e h = omega (arith, byte_of t)

high_byte :
    (t lo hi : ℕ) → t ≡ lo + hi * 256 → lo < 256 → hi < 256 → u8 (bit_and (t >>> 8) 0xFF) ≡ hi
high_byte t lo hi e h k = omega (arith, byte_of (t >>> 8))

top_byte : (t lo hi : ℕ) → t ≡ lo + hi * 256 → lo < 256 → hi < 256 → u8 (t >>> 8) ≡ hi
top_byte t lo hi e h k = omega arith

low_half : (t lo hi : ℕ) → t ≡ lo + hi * 65536 → lo < 65536 → u16 (bit_and t 0xFFFF) ≡ lo
low_half t lo hi e h = omega (arith, half_of t)

high_half :
    (t lo hi : ℕ)
    → t ≡ lo + hi * 65536
    → lo < 65536
    → hi < 65536
    → u16 (bit_and (t >>> 16) 0xFFFF) ≡ hi
high_half t lo hi e h k = omega (arith, half_of (t >>> 16))

small_byte : (t : ℕ) → t < 256 → u8 t ≡ t
small_byte t h = omega arith

-- The server reads the configuration that the client packed.
decoded-config_msg : (cfg : PinmuxCfg) → IsCfg cfg → decoded (config_msg cfg).words ≡ cfg
unfolding decoded config_msg
decoded-config_msg cfg (port, pin, dir, pull, alt, flags, out, inp) =
    let w0 = two_bytes cfg.port cfg.pin port pin in
    let w3 = bytes_two cfg.flags cfg.alt flags alt in
    let w4 = halves_two cfg.matrix_in cfg.matrix_out inp out in
    rw (
      top_byte (bit_or (cfg.port << 8) cfg.pin) cfg.pin cfg.port w0 pin port,
      low_byte (bit_or (cfg.port << 8) cfg.pin) cfg.pin cfg.port w0 pin,
      small_byte cfg.dir dir,
      small_byte cfg.pull pull,
      low_byte (bit_or cfg.alt (cfg.flags << 8)) cfg.alt cfg.flags w3 alt,
      high_byte (bit_or cfg.alt (cfg.flags << 8)) cfg.alt cfg.flags w3 alt flags,
      low_half (bit_or cfg.matrix_out (cfg.matrix_in << 16)) cfg.matrix_out cfg.matrix_in w4 out,
      high_half (bit_or cfg.matrix_out (cfg.matrix_in << 16)) cfg.matrix_out cfg.matrix_in w4 out
          inp,
    )

module _ (val : List EspIo → ℕ) where
  -- For a configuration whose fields fit their types, pinmux_config through the server does what
  -- pinmux_apply does with the same configuration in the process: the same result and the same
  -- accesses to the registers.
  pub pinmux_config-apply :
      (cfg : PinmuxCfg) (s : List EspIo)
      → IsCfg cfg
      → pinmux_config true (deliver val) 0 (some cfg) s ≡ pinmux_apply val cfg s
  unfolding pinmux_config pinmux_server config_msg
  pinmux_config-apply cfg s fit = ap (λ c. pinmux_apply val c s) (decoded-config_msg cfg fit)
