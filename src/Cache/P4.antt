-- ===== src/Cache/P4.antt =====
-- esp32p4_ev_function/board_cache.c: the sync engine's range loop. Addresses and sizes are 32-bit
-- words; a signed argument is its 32-bit pattern.
use ulmk_boards.Base.{
  ℕ, zero, suc, ◌-◌, ◌&&◌, ◌||◌, Option, none, some, List, [], ◌∷◌, ◌++◌, ltb, leb, ◌==◌,
  if◌then◌else◌, bit_and, bit_or,
}
use ulmk_boards.Base.Word.{not32, add32, sub32, mul32}
use ulmk_boards.Cache.Linum.{not_positive}

-- What the code does to the machine, in order. The polls that follow a write to the control
-- register only read, and end after 1000000 at the latest.
pub data Step : Type 0 where
  sync_map sync_addr sync_size sync_ctrl : ℕ → Step
  irq_save irq_restore fence : Step

abbrev pub sync_invalidate_ena : ℕ
sync_invalidate_ena = 1

abbrev pub sync_writeback_ena : ℕ
sync_writeback_ena = 4

abbrev pub sync_map_l1_dcache : ℕ
sync_map_l1_dcache = 16

abbrev pub sync_map_l2_cache : ℕ
sync_map_l2_cache = 32

abbrev pub cache_line : ℕ
cache_line = 64

abbrev pub sync_chunk : ℕ
sync_chunk = 0x1000

abbrev pub sync_op : ℕ → ℕ → ℕ → ℕ → List Step
sync_op map trigger a len = sync_map map ∷ sync_addr a ∷ sync_size len ∷ sync_ctrl trigger ∷ []

unfoldable pub sync_map_for : ℕ → ℕ
sync_map_for a =
    if leb 0x40000000 a && ltb a 0x4C000000
    then bit_or sync_map_l1_dcache sync_map_l2_cache
    else if leb 0x4FF00000 a && ltb a 0x4FFC0000
    then sync_map_l1_dcache
    else 0

-- One round of the loop, for `n` bytes at `a`.
abbrev pub sync_one : ℕ → ℕ → ℕ → ℕ → List Step
sync_one map trigger a n =
    irq_save ∷ sync_op sync_map_l1_dcache trigger a n
    ++ (if bit_and map sync_map_l2_cache == 0 then [] else sync_op sync_map_l2_cache trigger a n)
    ++ irq_restore ∷ []

-- The loop with fuel: `none` means that the fuel ran out.
unfoldable pub sync_from : ℕ → ℕ → ℕ → ℕ → ℕ → Option (List Step)
sync_from zero map trigger a end = none
sync_from (suc fuel) map trigger a end =
    let n = (if ltb sync_chunk (sub32 end a) then sync_chunk else sub32 end a) in
    let rest = sync_from fuel map trigger (add32 a n) end in
    if ltb a end
    then elim rest [ none ↦ none | some steps ↦ some (sync_one map trigger a n ++ steps) ]
    else some []

unfoldable pub sync_range : ℕ → ℕ → ℕ → ℕ → Option (List Step)
sync_range fuel trigger addr size =
    if (addr == 0 || size == 0) || sync_map_for addr == 0
    then some []
    else sync_from fuel (sync_map_for addr) trigger (bit_and addr (not32 (cache_line - 1)))
        (bit_and (sub32 (add32 (add32 addr size) cache_line) 1) (not32 (cache_line - 1)))

unfoldable pub ulmk_board_dcache_clean : ℕ → ℕ → ℕ → Option (List Step)
ulmk_board_dcache_clean fuel addr len = elim (sync_range fuel sync_writeback_ena addr len) [
  | none ↦ none
  | some steps ↦ some (fence ∷ steps)
]

unfoldable pub ulmk_board_dcache_invalidate : ℕ → ℕ → ℕ → Option (List Step)
ulmk_board_dcache_invalidate fuel addr len = elim (sync_range fuel sync_invalidate_ena addr len) [
  | none ↦ none
  | some steps ↦ some (steps ++ fence ∷ [])
]

-- The strip of whole rows that covers a rectangle, as the address and size that `op` gets; `none`
-- where `op` is not called.
unfoldable pub area_strip : ℕ → ℕ → ℕ → ℕ → ℕ → Option (ℕ × ℕ)
area_strip buf stride y w h =
    if (buf == 0 || not_positive w) || (not_positive h || stride == 0)
    then none
    else some (add32 buf (mul32 y stride), mul32 h stride)
