-- ===== src/Wire/Pack.antt =====
-- Packing a byte string into the words of a message from word `w0` on, and reading it back: the
-- loops `words[w0 + i / 4] |= data[i] << (i % 4 * 8)` and
-- `data[i] = (words[w0 + i / 4] >> (i % 4 * 8)) & 0xFF` of the drivers.
use ulmk_boards.Base.{
  ℕ, zero, suc, ◌+◌, ◌-◌, ◌/◌, ◌%◌, ◌^◌, ◌≤◌, ◌<◌, ◌≡◌, ◌≢◌, refl, ap, ap₂, ◌∙◌, sym, arith, List,
  [], ◌∷◌, ◌++◌, take, drop, length, get_or, set, length-set, get_or-set_self, get_or-set_ne,
}
use native.Mathlib.Decide.{ℕ_discrete}
use ulmk_boards.Wire.Bytes.{byte, byte-zero, or_byte, byte-or_byte}

-- Byte `i` of the words from `w0` on.
unfoldable pub byte_at : ℕ → ℕ → List ℕ → ℕ
byte_at w0 i ws = byte (i % 4) (get_or ws (w0 + i / 4) 0)

unfoldable pub put_byte : ℕ → ℕ → ℕ → List ℕ → List ℕ
put_byte w0 i d ws = set ws (w0 + i / 4) (or_byte (i % 4) d (get_or ws (w0 + i / 4) 0))

-- The packing loop from index `i` on, over the bytes that are left.
unfoldable pub or_bytes : ℕ → ℕ → List ℕ → List ℕ → List ℕ
or_bytes w0 i [] ws = ws
or_bytes w0 i (d ∷ ds) ws = or_bytes w0 (i + 1) ds (put_byte w0 i d ws)

-- The unpacking loop from index `i` on, `left` bytes.
unfoldable pub get_bytes : ℕ → ℕ → ℕ → List ℕ → List ℕ
get_bytes w0 i zero ws = []
get_bytes w0 i (suc left) ws = byte_at w0 i ws ∷ get_bytes w0 (i + 1) left ws

abbrev pub AllBytes : List ℕ → Type 0
AllBytes [] = Unit {0}
AllBytes (d ∷ ds) = (d < 256) × AllBytes ds

pub AllBytes-take : (n : ℕ) (ds : List ℕ) → AllBytes ds → AllBytes (take n ds)
AllBytes-take zero ds a = tt
AllBytes-take (suc n) [] a = tt
AllBytes-take (suc n) (d ∷ ds) a = (a.0, AllBytes-take n ds a.1)

pub AllBytes-drop : (n : ℕ) (ds : List ℕ) → AllBytes ds → AllBytes (drop n ds)
AllBytes-drop zero ds a = a
AllBytes-drop (suc n) [] a = tt
AllBytes-drop (suc n) (d ∷ ds) a = AllBytes-drop n ds a.1

abbrev pub InRange : List ℕ → Type 0
InRange ws = (k : ℕ) → get_or ws k 0 < 2 ^ 32

module _ (w0 i d : ℕ) (ws : List ℕ) (small : d < 256) (range : InRange ws)
    (room : w0 + i / 4 < length ws) (free : byte_at w0 i ws ≡ 0) where
  old : ℕ
  old = get_or ws (w0 + i / 4) 0

  new : ℕ
  new = or_byte (i % 4) d old

  word_fact :
      (j : ℕ)
      → (new < 2 ^ 32)
        × (j % 4 ≡ i % 4 → byte (j % 4) new ≡ d)
        × (j % 4 ≢ i % 4 → byte (j % 4) new ≡ byte (j % 4) old)
  unfolding old new byte_at
  word_fact j =
      byte-or_byte (j % 4) (i % 4) old d (omega arith) (omega arith) (range (w0 + i / 4)) small free

  put_byte_self : byte_at w0 i (put_byte w0 i d ws) ≡ d
  unfolding byte_at put_byte new old
  put_byte_self =
      ap (byte (i % 4)) (get_or-set_self ws (w0 + i / 4) new 0 room) ∙ (word_fact i).1 refl

  put_byte_ne : (j : ℕ) → j ≢ i → byte_at w0 j (put_byte w0 i d ws) ≡ byte_at w0 j ws
  unfolding byte_at put_byte new old
  put_byte_ne j ne = elim (ℕ_discrete (j / 4) (i / 4)) [
    | yes e ↦
        ap (λ t. byte (j % 4) (get_or (put_byte w0 i d ws) (w0 + t) 0)) e
        ∙ ap (byte (j % 4)) (get_or-set_self ws (w0 + i / 4) new 0 room)
        ∙ (word_fact j).2 (λ h. ne (omega arith))
        ∙ ap (λ t. byte (j % 4) (get_or ws (w0 + t) 0)) (sym e)
    | no n ↦
        ap (byte (j % 4)) (get_or-set_ne ws (w0 + i / 4) (w0 + j / 4) new 0 (λ h. n (omega arith)))
  ]

  put_byte-InRange : InRange (put_byte w0 i d ws)
  unfolding put_byte new old
  put_byte-InRange k = elim (ℕ_discrete (w0 + i / 4) k) [
    | yes e ↦ rw (← e) (omega (arith, get_or-set_self ws (w0 + i / 4) new 0 room, word_fact i))
    | no n ↦ omega (arith, get_or-set_ne ws (w0 + i / 4) k new 0 n, range k)
  ]

pub length-put_byte : (w0 i d : ℕ) (ws : List ℕ) → length (put_byte w0 i d ws) ≡ length ws
unfolding put_byte
length-put_byte w0 i d ws = length-set ws (w0 + i / 4) _

pub length-or_bytes : (w0 i : ℕ) (ds ws : List ℕ) → length (or_bytes w0 i ds ws) ≡ length ws
unfolding or_bytes
length-or_bytes w0 i [] ws = refl
length-or_bytes w0 i (d ∷ ds) ws =
    length-or_bytes w0 (i + 1) ds (put_byte w0 i d ws) ∙ length-put_byte w0 i d ws

-- After packing, the bytes from `i` on are those packed, and those before `i` are as before.
pub byte_at-or_bytes :
    (w0 i j : ℕ) (ds ws : List ℕ)
    → AllBytes ds
    → InRange ws
    → w0 + (i + length ds + 3) / 4 ≤ length ws
    → ((k : ℕ) → i ≤ k → byte_at w0 k ws ≡ 0)
    → (j < i → byte_at w0 j (or_bytes w0 i ds ws) ≡ byte_at w0 j ws)
      × (i ≤ j → byte_at w0 j (or_bytes w0 i ds ws) ≡ get_or ds (j - i) 0)
unfolding or_bytes
byte_at-or_bytes w0 i j [] ws a r room z = (λ h. refl, λ h. z j h)
byte_at-or_bytes w0 i j (d ∷ ds) ws a r room z =
    let ws' = put_byte w0 i d ws in
    let here : w0 + i / 4 < length ws = omega arith in
    let rest =
      byte_at-or_bytes w0 (i + 1) j ds ws' a.1
        (put_byte-InRange w0 i d ws a.0 r here (z i (omega arith)))
        (omega (arith, length-put_byte w0 i d ws))
        (λ k h.
          put_byte_ne w0 i d ws a.0 r here (z i (omega arith)) k (omega arith)
          ∙ z k (omega arith)) in
    (
      λ h.
          rest.0 (omega arith)
          ∙ put_byte_ne w0 i d ws a.0 r here (z i (omega arith)) j (omega arith),
      λ h. elim (ℕ_discrete j i) [
        | yes e ↦
            rest.0 (omega arith)
            ∙ ap (λ t. byte_at w0 t ws') e
            ∙ put_byte_self w0 i d ws a.0 r here (z i (omega arith))
            ∙ ap (λ t. get_or (d ∷ ds) t 0) {x = 0} (omega arith)
        | no n ↦
            rest.1 (omega arith)
            ∙ ap (λ t. get_or (d ∷ ds) t 0) {x = suc (j - (i + 1))} (omega arith)
      ],
    )

plus_zero : (i : ℕ) → i + 0 ≡ i
plus_zero i = omega arith

minus_zero : (k : ℕ) → k - 0 ≡ k
minus_zero k = omega arith

zero_plus : (k : ℕ) → 0 + k ≡ k
zero_plus k = omega arith

-- Unpacking words whose bytes are known.
pub get_bytes-eq :
    (w0 i : ℕ) (xs ws : List ℕ)
    → ((k : ℕ) → k < length xs → byte_at w0 (i + k) ws ≡ get_or xs k 0)
    → get_bytes w0 i (length xs) ws ≡ xs
unfolding get_bytes
get_bytes-eq w0 i [] ws h = refl
get_bytes-eq w0 i (x ∷ xs) ws h =
    ap₂ ◌∷◌ (ap (λ t. byte_at w0 t ws) (sym (plus_zero i)) ∙ h 0 (omega arith)) (
      get_bytes-eq w0 (i + 1) xs ws
        (λ k lt. ap (λ t. byte_at w0 t ws) (shift k) ∙ h (suc k) (omega arith)))
  where
    shift : (k : ℕ) → i + 1 + k ≡ i + suc k
    shift k = omega arith

-- Unpacking gives back the bytes that were packed, into words that were zero from `w0` on.
pub get_bytes-or_bytes :
    (w0 : ℕ) (ds ws : List ℕ)
    → AllBytes ds
    → InRange ws
    → w0 + (length ds + 3) / 4 ≤ length ws
    → ((k : ℕ) → byte_at w0 k ws ≡ 0)
    → get_bytes w0 0 (length ds) (or_bytes w0 0 ds ws) ≡ ds
get_bytes-or_bytes w0 ds ws a r room z = get_bytes-eq w0 0 ds (or_bytes w0 0 ds ws) (λ k lt.
    ap (λ t. byte_at w0 t (or_bytes w0 0 ds ws)) (zero_plus k)
    ∙ (byte_at-or_bytes w0 0 k ds ws a r (omega arith) (λ k h. z k)).1 (omega arith)
    ∙ ap (λ t. get_or ds t 0) (minus_zero k))

pub byte_at-zero : (w0 k : ℕ) (ws : List ℕ) → get_or ws (w0 + k / 4) 0 ≡ 0 → byte_at w0 k ws ≡ 0
unfolding byte_at
byte_at-zero w0 k ws e = ap (byte (k % 4)) e ∙ byte-zero (k % 4)

-- The words before `w0` are left alone.
pub or_bytes-before :
    (w0 i j : ℕ) (ds ws : List ℕ) → j < w0 → get_or (or_bytes w0 i ds ws) j 0 ≡ get_or ws j 0
unfolding or_bytes put_byte
or_bytes-before w0 i j [] ws h = refl
or_bytes-before w0 i j (d ∷ ds) ws h =
    or_bytes-before w0 (i + 1) j ds (put_byte w0 i d ws) h
    ∙ get_or-set_ne ws (w0 + i / 4) j _ 0 (λ e. absurd (omega arith))

pub length-get_bytes : (w0 i n : ℕ) (ws : List ℕ) → length (get_bytes w0 i n ws) ≡ n
unfolding get_bytes
length-get_bytes w0 i zero ws = refl
length-get_bytes w0 i (suc n) ws = ap suc (length-get_bytes w0 (i + 1) n ws)

-- Unpacking in two parts.
pub get_bytes-append :
    (w0 i a b : ℕ) (ws : List ℕ)
    → get_bytes w0 i (a + b) ws ≡ get_bytes w0 i a ws ++ get_bytes w0 (i + a) b ws
unfolding get_bytes
get_bytes-append w0 i zero b ws =
    ap (λ n. get_bytes w0 i n ws) {x = 0 + b} {y = b} (omega arith)
    ∙ ap (λ j. get_bytes w0 j b ws) {x = i} (omega arith)
get_bytes-append w0 i (suc a) b ws =
    ap (λ n. get_bytes w0 i n ws) {x = suc a + b} {y = suc (a + b)} (omega arith)
    ∙ ap (λ t. byte_at w0 i ws ∷ t)
        (get_bytes-append w0 (i + 1) a b ws
          ∙ ap (λ j. get_bytes w0 (i + 1) a ws ++ get_bytes w0 j b ws) {x = i + 1 + a}
              (omega arith))
