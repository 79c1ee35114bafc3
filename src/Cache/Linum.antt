-- ===== src/Cache/Linum.antt =====
-- witte_linum/board_cache.c. Addresses and sizes are 32-bit words; a signed argument is its 32-bit
-- pattern. What a function does is the list of its system calls, in order; their results are
-- ignored by the code.
use ulmk_boards.Base.{
  ℕ, zero, suc, ◌-◌, ◌^◌, Bool, ◌&&◌, ◌||◌, List, [], ◌∷◌, ◌++◌, leb, ◌==◌, if◌then◌else◌, bit_and,
}
use ulmk_boards.Base.Word.{not32, add32, sub32, mul32}

-- The three system calls, with address and length.
pub data Call : Type 0 where
  ulmk_dcache_clean ulmk_dcache_invalidate ulmk_dcache_clean_invalidate : ℕ → ℕ → Call

abbrev pub dcache_line : ℕ
dcache_line = 32

-- `start` and `end` of the whole lines that hold a range.
unfoldable pub line_start : ℕ → ℕ
line_start addr = bit_and addr (not32 (dcache_line - 1))

unfoldable pub line_end : ℕ → ℕ → ℕ
line_end addr size = bit_and (add32 (add32 addr size) (dcache_line - 1)) (not32 (dcache_line - 1))

-- The body that the three functions share, with the system call that ends it.
unfoldable pub range_op : (ℕ → ℕ → Call) → ℕ → ℕ → List Call
range_op op addr size =
    if addr == 0 || size == 0
    then []
    else op (line_start addr) (sub32 (line_end addr size) (line_start addr)) ∷ []

unfoldable pub board_dcache_clean : ℕ → ℕ → List Call
board_dcache_clean = range_op ulmk_dcache_clean

unfoldable pub board_dcache_clean_all : List Call
board_dcache_clean_all = ulmk_dcache_clean 0 0 ∷ []

unfoldable pub board_dcache_invalidate : ℕ → ℕ → List Call
board_dcache_invalidate = range_op ulmk_dcache_invalidate

unfoldable pub board_dcache_clean_invalidate : ℕ → ℕ → List Call
board_dcache_clean_invalidate = range_op ulmk_dcache_clean_invalidate

-- `v <= 0` on `int32_t`.
abbrev pub not_positive : ℕ → Bool
not_positive v = v == 0 || leb (2 ^ 31) v

-- The loop of `area_op`: the rounds left, from `row` on.
unfoldable pub rows_from : (ℕ → ℕ → List Call) → ℕ → ℕ → ℕ → ℕ → List Call
rows_from op stride nbytes zero row = []
rows_from op stride nbytes (suc left) row =
    op row nbytes ++ rows_from op stride nbytes left (add32 row stride)

unfoldable pub area_op : (ℕ → ℕ → List Call) → ℕ → ℕ → ℕ → ℕ → ℕ → ℕ → ℕ → List Call
area_op op buf stride x y w h px_size =
    if (buf == 0 || not_positive w) || (not_positive h || (px_size == 0 || stride == 0))
    then []
    else let nbytes = mul32 w px_size in
      let row = add32 buf (mul32 y stride) in
      if x == 0 && nbytes == stride
      then op row (mul32 h stride)
      else rows_from op stride nbytes h (add32 row (mul32 x px_size))

unfoldable pub board_dcache_clean_area : ℕ → ℕ → ℕ → ℕ → ℕ → ℕ → ℕ → List Call
board_dcache_clean_area buf stride x y w h px_size =
    area_op board_dcache_clean buf stride x y w h px_size

unfoldable pub board_dcache_clean_invalidate_area : ℕ → ℕ → ℕ → ℕ → ℕ → ℕ → ℕ → List Call
board_dcache_clean_invalidate_area buf stride x y w h px_size =
    area_op board_dcache_clean_invalidate buf stride x y w h px_size
