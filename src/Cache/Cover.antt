-- ===== src/Cache/Cover.antt =====
-- What the cache operations of witte_linum/board_cache.c cover: every byte that they are asked for.
use ulmk_boards.Base.{
  ℕ, zero, suc, ◌+◌, ◌-◌, ◌*◌, ◌/◌, ◌%◌, ◌^◌, ◌≤◌, ◌<◌, ◌≡◌, ap, ap₂, ◌∙◌, inl, inr, Bool, true,
  false, ◌&&◌, ◌||◌, List, [], ◌∷◌, ◌++◌, arith, Bool-cases, ltb, leb, ◌==◌, bit_and,
}
use ulmk_boards.Base.Word.{not32, add32, mul32}
use ulmk_boards.Base.Bits.{clear_field}
use ulmk_boards.Cache.Linum.{
  Call, ulmk_dcache_clean, ulmk_dcache_invalidate, ulmk_dcache_clean_invalidate, line_start,
  line_end, range_op, rows_from, area_op, not_positive, board_dcache_clean_area, board_dcache_clean,
}

mask_32 : (a : ℕ) → a < 2 ^ 32 → bit_and a (not32 31) ≡ a / 32 * 32
mask_32 a h = clear_field 0 5 27 a ∙ omega arith

-- For a range that does not reach the last line of the address space, the one system call gets
-- whole cache lines: they hold the range, and none of them is free of it.
pub range_op-lines :
    (op : ℕ → ℕ → Call) (addr size : ℕ)
    → 0 < addr
    → 0 < size
    → addr + size + 31 < 2 ^ 32
    → (start len : ℕ) × (range_op op addr size ≡ op start len ∷ [])
      × (start % 32 ≡ 0)
      × (len % 32 ≡ 0)
      × (start ≤ addr)
      × (addr < start + 32)
      × (addr + size ≤ start + len)
      × (start + len < addr + size + 32)
unfolding range_op line_start line_end
range_op-lines op addr size p q r = (
  addr / 32 * 32,
  (addr + size + 31) / 32 * 32 - addr / 32 * 32,
  ran,
  omega arith,
  omega arith,
  omega arith,
  omega arith,
  omega arith,
  omega arith,
)
  where
    given : (addr == 0 || size == 0) ≡ false
    given = ground arith

    ran :
        range_op op addr size
        ≡ op (addr / 32 * 32) ((addr + size + 31) / 32 * 32 - addr / 32 * 32) ∷ []
    ran = rw given (
        ap₂ (λ a b. op a b ∷ []) (mask_32 addr (omega arith))
          (omega (
            arith,
            mask_32 addr (omega arith),
            mask_32 (add32 (add32 addr size) 31) (omega arith),
          )))

-- Whether one of the calls has the byte in its range.
pub reached : List Call → ℕ → Bool
reached [] b = false
reached (ulmk_dcache_clean a n ∷ cs) b = (leb a b && ltb b (a + n)) || reached cs b
reached (ulmk_dcache_invalidate a n ∷ cs) b = (leb a b && ltb b (a + n)) || reached cs b
reached (ulmk_dcache_clean_invalidate a n ∷ cs) b = (leb a b && ltb b (a + n)) || reached cs b

reached-append_left :
    (cs ds : List Call) (b : ℕ) → reached cs b ≡ true → reached (cs ++ ds) b ≡ true
unfolding reached
reached-append_left [] ds b h = absurd (cc h)
reached-append_left (ulmk_dcache_clean a n ∷ cs) ds b h =
    ground (arith, reached-append_left cs ds b)
reached-append_left (ulmk_dcache_invalidate a n ∷ cs) ds b h =
    ground (arith, reached-append_left cs ds b)
reached-append_left (ulmk_dcache_clean_invalidate a n ∷ cs) ds b h =
    ground (arith, reached-append_left cs ds b)

reached-append_right :
    (cs ds : List Call) (b : ℕ) → reached ds b ≡ true → reached (cs ++ ds) b ≡ true
unfolding reached
reached-append_right [] ds b h = h
reached-append_right (ulmk_dcache_clean a n ∷ cs) ds b h =
    ground (arith, reached-append_right cs ds b h)
reached-append_right (ulmk_dcache_invalidate a n ∷ cs) ds b h =
    ground (arith, reached-append_right cs ds b h)
reached-append_right (ulmk_dcache_clean_invalidate a n ∷ cs) ds b h =
    ground (arith, reached-append_right cs ds b h)

clean-reached :
    (addr size b : ℕ)
    → 0 < addr
    → addr + size + 31 < 2 ^ 32
    → addr ≤ b
    → b < addr + size
    → reached (board_dcache_clean addr size) b ≡ true
unfolding board_dcache_clean reached
clean-reached addr size b p r lo hi =
    let (start, len, e, al, al', s, t, u, v) =
      range_op-lines ulmk_dcache_clean addr size p (omega arith) r in
    ap (λ cs. reached cs b) e ∙ ground arith

rows_from-reached :
    (stride n h row r c : ℕ)
    → 0 < row
    → row + h * stride + n + 31 < 2 ^ 32
    → r < h
    → c < n
    → reached (rows_from board_dcache_clean stride n h row) (row + r * stride + c) ≡ true
unfolding rows_from
rows_from-reached stride n zero row r c p room lt inside = absurd (omega arith)
rows_from-reached stride n (suc h) row zero c p room lt inside =
    reached-append_left (board_dcache_clean row n)
      (rows_from board_dcache_clean stride n h (add32 row stride)) (row + zero * stride + c)
      (clean-reached row n (row + zero * stride + c) p (omega arith) (omega arith) (omega arith))
rows_from-reached stride n (suc h) row (suc r) c p room lt inside =
    reached-append_right (board_dcache_clean row n)
      (rows_from board_dcache_clean stride n h (add32 row stride)) (row + suc r * stride + c)
      (ap₂ (λ a b. reached (rows_from board_dcache_clean stride n h a) b) {y = row + stride}
          {v = row + stride + r * stride + c} (omega arith) (omega arith)
        ∙ rows_from-reached stride n h (row + stride) r c (omega arith) (omega arith) (omega arith)
            inside)

in_rows : (h r s c : ℕ) → r < h → c < s → r * s + c < h * s
in_rows zero r s c lt inside = absurd (omega arith)
in_rows (suc h) zero s c lt inside = omega arith
in_rows (suc h) (suc r) s c lt inside = omega (arith, in_rows h r s c (omega arith) inside)

-- Every byte of the rectangle is cleaned: byte `c` of row `r` counted from the rectangle's corner,
-- on both paths of the code, for a rectangle inside an address range that does not wrap.
pub board_dcache_clean_area-reached :
    (buf stride x y w h px_size r c : ℕ)
    → 0 < buf
    → 0 < w
    → w < 2 ^ 31
    → 0 < h
    → h < 2 ^ 31
    → 0 < px_size
    → 0 < stride
    → buf + y * stride + x * px_size + h * stride + w * px_size + 31 < 2 ^ 32
    → r < h
    → c < w * px_size
    → reached
        (board_dcache_clean_area buf stride x y w h px_size)
        (buf + y * stride + x * px_size + r * stride + c)
      ≡ true
unfolding board_dcache_clean_area area_op
board_dcache_clean_area-reached buf stride x y w h px_size r c b w0 w1 h0 h1 p s room lt inside =
    elim (Bool-cases (x == 0 && mul32 w px_size == stride)) [
      | inl strip ↦
          rw (given, strip)
            (ap
                (λ t.
                  reached (board_dcache_clean t (mul32 h stride))
                    (buf + y * stride + x * px_size + r * stride + c))
                top
              ∙ clean-reached (buf + y * stride) (mul32 h stride)
                  (buf + y * stride + x * px_size + r * stride + c) (omega arith) (omega arith)
                  (omega arith)
                  (omega (arith, at_left strip, in_rows h r stride c lt (narrow strip))))
      | inr rows ↦
          rw (given, rows, corner, width)
            (rows_from-reached stride (w * px_size) h (buf + y * stride + x * px_size) r c
              (omega arith) (omega arith) lt inside)
    ]
  where
    at_left : (x == 0 && mul32 w px_size == stride) ≡ true → x * px_size ≡ 0
    at_left e = ap (λ t. t * px_size) {y = 0} (ground arith) ∙ omega arith

    narrow : (x == 0 && mul32 w px_size == stride) ≡ true → c < stride
    narrow e = ground arith

    given :
        ((buf == 0 || not_positive w) || (not_positive h || (px_size == 0 || stride == 0))) ≡ false
    given = ground arith

    width : mul32 w px_size ≡ w * px_size
    width = omega arith

    top : add32 buf (mul32 y stride) ≡ buf + y * stride
    top = omega arith

    corner : add32 (add32 buf (mul32 y stride)) (mul32 x px_size) ≡ buf + y * stride + x * px_size
    corner = omega arith
