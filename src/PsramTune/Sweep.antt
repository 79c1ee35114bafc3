-- ===== src/PsramTune/Sweep.antt =====
-- The tuning procedure of esp32p4_ev_function/board_psram_tune.c. The machine is a parameter:
-- registers and memory are read and written by address, a PSRAM transaction is the ROM's SPI
-- command, and cache maintenance is the kernel's. The console lines that the code prints are left
-- out.
use ulmk_boards.Base.{
  ℕ, zero, suc, ◌+◌, ◌-◌, ◌*◌, ◌/◌, ◌%◌, ◌^◌, Bool, true, ◌&&◌, List, [], ◌∷◌, ◌++◌, leb, ◌==◌,
  if◌then◌else◌, get_or, take, drop, replicate,
}
use ulmk_boards.Base.Word.{u8, add32, sub32, mul32}
use ulmk_boards.PsramTune.Window.{find_window}
use ulmk_boards.PsramTune.Fields.{dlc_value, phase_value, delay_value, clock_bits}

pub record Machine : Type 1 where
  pub State : Type 0
  -- A load and a store of a 32-bit word.
  pub rd : State → ℕ → ℕ
  pub wr : State → ℕ → ℕ → State
  -- `board_psram_hex_xact` with `tx`, and with `rx`: command, address, dummy cycles, bytes.
  pub hex_write : State → ℕ → ℕ → ℕ → List ℕ → State
  pub hex_read : State → ℕ → ℕ → ℕ → ℕ → List ℕ × State
  pub dcache_clean : State → ℕ → ℕ → State
  pub dcache_invalidate : State → ℕ → ℕ → State

abbrev pub spimem2 : ℕ
spimem2 = 0x5008E000

abbrev pub spimem3 : ℕ
spimem3 = 0x5008F000

abbrev pub iomux_mspi : ℕ
iomux_mspi = 0x500E1200

abbrev pub sram_clk : ℕ
sram_clk = add32 spimem2 0x50

abbrev pub spi1_clock : ℕ
spi1_clock = add32 spimem3 0x14

abbrev pub psram_pin_base : ℕ
psram_pin_base = add32 iomux_mspi 0x1c

abbrev pub psram_dqs0_reg : ℕ
psram_dqs0_reg = add32 iomux_mspi 0x3c

abbrev pub psram_dqs1_reg : ℕ
psram_dqs1_reg = add32 iomux_mspi 0x68

abbrev pub rd_dummy : ℕ
rd_dummy = 2 * (14 - 1)

abbrev pub wr_dummy : ℕ
wr_dummy = 2 * (7 - 1)

abbrev pub tune_addr : ℕ
tune_addr = 0x80

abbrev pub tune_len : ℕ
tune_len = 128

abbrev pub chunk : ℕ
chunk = 64

abbrev pub phase_num : ℕ
phase_num = 4

abbrev pub delay_num : ℕ
delay_num = 31

abbrev pub delay_sweeps : ℕ
delay_sweeps = 100

abbrev pub s_ref : List ℕ
s_ref =
    0x7f786655 ∷ 0xa5ff005a ∷ 0x3f3c33aa ∷ 0xa5ff5a00 ∷ 0x1f1e9955 ∷ 0xa5005aff ∷ 0x0f0fccaa
    ∷ 0xa55a00ff ∷ 0x07876655 ∷ 0xffa55a00 ∷ 0x03c333aa ∷ 0xff00a55a ∷ 0x01e19955 ∷ 0xff005aa5
    ∷ 0x00f0ccaa ∷ 0xff5a00a5 ∷ 0x80786655 ∷ 0x00a5ff5a ∷ 0xc03c33aa ∷ 0x00a55aff ∷ 0xe01e9355
    ∷ 0x00ff5aa5 ∷ 0xf00fccaa ∷ 0x005affa5 ∷ 0xf8876655 ∷ 0x5aa5ff00 ∷ 0xfcc333aa ∷ 0x5affa500
    ∷ 0xfee19955 ∷ 0x5a00a5ff ∷ 0x11f0ccaa ∷ 0x5a00ffa5 ∷ []

-- {data_dl, dqs_dl}
abbrev pub s_delay_tbl : List (ℕ × ℕ)
s_delay_tbl =
    (0, 15)
    ∷ (0, 14)
    ∷ (0, 13)
    ∷ (0, 12)
    ∷ (0, 11)
    ∷ (0, 10)
    ∷ (0, 9)
    ∷ (0, 8)
    ∷ (0, 7)
    ∷ (0, 6)
    ∷ (0, 5)
    ∷ (0, 4)
    ∷ (0, 3)
    ∷ (0, 2)
    ∷ (0, 1)
    ∷ (0, 0)
    ∷ (1, 0)
    ∷ (2, 0)
    ∷ (3, 0)
    ∷ (4, 0)
    ∷ (5, 0)
    ∷ (6, 0)
    ∷ (7, 0)
    ∷ (8, 0)
    ∷ (9, 0)
    ∷ (10, 0)
    ∷ (11, 0)
    ∷ (12, 0)
    ∷ (13, 0)
    ∷ (14, 0)
    ∷ (15, 0)
    ∷ []

-- A word array as the bytes of its memory (the core is little-endian).
abbrev pub bytes_of : List ℕ → List ℕ
bytes_of [] = []
bytes_of (w ∷ ws) =
    w % 2 ^ 8 ∷ w / 2 ^ 8 % 2 ^ 8 ∷ w / 2 ^ 16 % 2 ^ 8 ∷ w / 2 ^ 24 % 2 ^ 8 ∷ bytes_of ws

-- `bytes_eq` over arrays of one length.
unfoldable pub bytes_eq : List ℕ → List ℕ → Bool
bytes_eq [] ys = true
bytes_eq (x ∷ xs) [] = true
bytes_eq (x ∷ xs) (y ∷ ys) = x == y && bytes_eq xs ys

-- Where a sweep keeps what it chose.
pub record Best : Type 0 where
  pub phase : ℕ
  pub data_dl : ℕ
  pub dqs_dl : ℕ

-- `best` in `sweep_phase`, from the entries `good`.
unfoldable pub choose_phase : List ℕ → ℕ
choose_phase good =
    let w = find_window good phase_num 1 in
    if w.len == 0 then 0 else u8 (add32 (sub32 w.last w.len) 1)

-- `best` in `sweep_delayline`.
unfoldable pub choose_delay : List ℕ → ℕ
choose_delay good =
    let w = find_window good delay_num delay_sweeps in
    if leb w.len 1 then 0 else sub32 w.last (w.len / 2)

module _ (m : Machine) where
  open m use {State, rd, wr, hex_write, hex_read, dcache_clean, dcache_invalidate}

  unfoldable pub set_bus_mhz : ℕ → State → State
  set_bus_mhz mhz s = let bits = clock_bits mhz in wr (wr s sram_clk bits) spi1_clock bits

  unfoldable pub pin_set_dlc : ℕ → ℕ → State → State
  pin_set_dlc reg dl s = wr s reg (dlc_value (rd s reg) dl)

  unfoldable pub dqs_set_phase : ℕ → ℕ → State → State
  dqs_set_phase reg phase s = wr s reg (phase_value (rd s reg) phase)

  unfoldable pub dqs_set_delay : ℕ → ℕ → State → State
  dqs_set_delay reg dl s = wr s reg (delay_value (rd s reg) dl)

  unfoldable pub apply_phase : ℕ → State → State
  apply_phase phase s = dqs_set_phase psram_dqs1_reg phase (dqs_set_phase psram_dqs0_reg phase s)

  -- `for (i = …; left rounds; i++) pin_set_dlc(base + i * 4u, dl)`
  unfoldable pub pins_from : ℕ → ℕ → ℕ → ℕ → State → State
  pins_from zero base i dl s = s
  pins_from (suc left) base i dl s =
      pins_from left base (add32 i 1) dl (pin_set_dlc (add32 base (mul32 i 4)) dl s)

  unfoldable pub apply_delayline : ℕ → ℕ → State → State
  apply_delayline data_dl dqs_dl s = dqs_set_delay psram_dqs1_reg dqs_dl (
      dqs_set_delay psram_dqs0_reg dqs_dl
        (pins_from 10 (add32 iomux_mspi 0x40) 0 data_dl (pins_from 8 psram_pin_base 0 data_dl s)))

  unfoldable pub clear_tuning : State → State
  clear_tuning s = apply_delayline 0 0 (apply_phase 0 s)

  -- Both loops over `TUNE_LEN` bytes run twice, with full chunks.
  unfoldable pub write_ref : State → State
  write_ref s =
      let ref = bytes_of s_ref in
      hex_write (hex_write s 0x8080 tune_addr wr_dummy (take chunk ref)) 0x8080 (tune_addr + chunk)
        wr_dummy (drop chunk ref)

  -- A read into a zeroed buffer of `n` bytes.
  unfoldable pub read_chunk : ℕ → ℕ → State → List ℕ × State
  read_chunk off n s =
      let (rx, s') = hex_read s 0x0000 (tune_addr + off) rd_dummy n in
      (take n (rx ++ replicate n 0), s')

  unfoldable pub read_matches : State → Bool × State
  read_matches s =
      let (lo, s1) = read_chunk 0 chunk s in
      let (hi, s2) = read_chunk chunk chunk s1 in (bytes_eq (lo ++ hi) (bytes_of s_ref), s2)

  -- The entries `good[i]` of `sweep_phase`, from phase `i` on.
  unfoldable pub try_phases : ℕ → ℕ → State → List ℕ × State
  try_phases zero i s = ([], s)
  try_phases (suc left) i s =
      let (ok, s1) = read_matches (apply_phase (u8 i) s) in
      let (rest, s2) = try_phases left (add32 i 1) s1 in ((if ok then 1 else 0) ∷ rest, s2)

  unfoldable pub sweep_phase : Best → State → Best × State
  sweep_phase g s =
      let (good, s1) = try_phases phase_num 0 s in
      let best = choose_phase good in (record g { phase = best }, apply_phase best s1)

  -- How many of the reads left match, on top of `hits`.
  unfoldable pub count_hits : ℕ → ℕ → State → ℕ × State
  count_hits zero hits s = (hits, s)
  count_hits (suc left) hits s =
      let (ok, s') = read_matches s in count_hits left (if ok then add32 hits 1 else hits) s'

  unfoldable pub try_delays : List (ℕ × ℕ) → State → List ℕ × State
  try_delays [] s = ([], s)
  try_delays ((data_dl, dqs_dl) ∷ tbl) s =
      let (hits, s1) = count_hits delay_sweeps 0 (apply_delayline data_dl dqs_dl s) in
      let (rest, s2) = try_delays tbl s1 in (hits ∷ rest, s2)

  unfoldable pub sweep_delayline : Best → State → Best × State
  sweep_delayline g s =
      let (good, s1) = try_delays s_delay_tbl (apply_phase g.phase s) in
      let (data_dl, dqs_dl) = get_or s_delay_tbl (choose_delay good) (0, 0) in
      (record g { data_dl = data_dl; dqs_dl = dqs_dl }, apply_delayline data_dl dqs_dl s1)

  unfoldable pub board_psram_timing_apply : Best → State → State
  board_psram_timing_apply g s = apply_delayline g.data_dl g.dqs_dl (apply_phase g.phase s)

  -- The result is true for the code's 0, false for its -1.
  unfoldable pub board_psram_timing_tune : Best → State → Bool × Best × State
  board_psram_timing_tune g s =
      let s0 = set_bus_mhz 200 (write_ref (set_bus_mhz 20 (clear_tuning s))) in
      let (g1, s1) = sweep_phase g s0 in
      let (g2, s2) = sweep_delayline g1 s1 in
      let (ok, s3) = read_matches (board_psram_timing_apply g2 s2) in (ok, g2, s3)
