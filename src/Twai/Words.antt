-- ===== src/Twai/Words.antt =====
-- Packing at most four bytes into a word and reading them back, as esp32p4_ev_function/drivers/can
-- does on both sides of a message.
use ulmk_boards.Base.{
  ℕ, zero, suc, ◌+◌, ◌-◌, ◌*◌, ◌^◌, ◌≤◌, ◌<◌, ◌≡◌, refl, ap, ap₂, sym, ◌∙◌, List, [], ◌∷◌, ◌++◌,
  bit_or, take, drop, min, length, length-take, length-drop, take-take, take-split, drop-take,
  append-nil, arith,
}
use native.Mathlib.Decide.{dec_lt}
use ulmk_boards.Base.Word.{◌<<◌}
use ulmk_boards.Base.Bits.{or_fields}
use ulmk_boards.Wire.Pack.{AllBytes, AllBytes-take, AllBytes-drop}
use ulmk_boards.Twai.Payload.{or_payload, low_word, high_word, payload_of}

-- The number whose bytes these are, lowest first.
abbrev value : List ℕ → ℕ
value [] = 0
value (d ∷ ds) = d + value ds * 2 ^ 8

or_next :
    (k w d : ℕ) → k < 4 → w < 2 ^ (8 * k) → d < 256 → bit_or w (d << (8 * k)) ≡ w + d * 2 ^ (8 * k)
or_next zero w d p h q =
    ap (bit_or w) {x = d << 0} {y = d * 2 ^ 0} (omega arith) ∙ or_fields 0 w d h
or_next (suc zero) w d p h q =
    ap (bit_or w) {x = d << 8} {y = d * 2 ^ 8} (omega arith) ∙ or_fields 8 w d h
or_next (suc (suc zero)) w d p h q =
    ap (bit_or w) {x = d << 16} {y = d * 2 ^ 16} (omega arith) ∙ or_fields 16 w d h
or_next (suc (suc (suc zero))) w d p h q =
    ap (bit_or w) {x = d << 24} {y = d * 2 ^ 24} (omega arith) ∙ or_fields 24 w d h
or_next (suc (suc (suc (suc k)))) w d p h q = absurd (omega arith)

or_payload-value :
    (k : ℕ) (ds : List ℕ) (w : ℕ)
    → k + length ds ≤ 4
    → w < 2 ^ (8 * k)
    → AllBytes ds
    → or_payload k ds w ≡ w + value ds * 2 ^ (8 * k)
unfolding or_payload
or_payload-value k [] w room h a = omega arith
or_payload-value zero (d ∷ ds) w room h a =
    ap (or_payload 1 ds) (or_next 0 w d (omega arith) h a.0)
    ∙ or_payload-value 1 ds (w + d * 2 ^ (8 * 0)) (omega arith) (omega arith) a.1
    ∙ omega arith
or_payload-value (suc zero) (d ∷ ds) w room h a =
    ap (or_payload 2 ds) (or_next 1 w d (omega arith) h a.0)
    ∙ or_payload-value 2 ds (w + d * 2 ^ (8 * 1)) (omega arith) (omega arith) a.1
    ∙ omega arith
or_payload-value (suc (suc zero)) (d ∷ ds) w room h a =
    ap (or_payload 3 ds) (or_next 2 w d (omega arith) h a.0)
    ∙ or_payload-value 3 ds (w + d * 2 ^ (8 * 2)) (omega arith) (omega arith) a.1
    ∙ omega arith
or_payload-value (suc (suc (suc zero))) (d ∷ ds) w room h a =
    ap (or_payload 4 ds) (or_next 3 w d (omega arith) h a.0)
    ∙ or_payload-value 4 ds (w + d * 2 ^ (8 * 3)) (omega arith) (omega arith) a.1
    ∙ omega arith
or_payload-value (suc (suc (suc (suc k)))) (d ∷ ds) w room h a = absurd (omega arith)

-- Four bytes, the ones that are missing being zero.
abbrev padded : List ℕ → List ℕ
padded ds = take 4 (ds ++ 0 ∷ 0 ∷ 0 ∷ 0 ∷ [])

four :
    {a b c d a' b' c' d' : ℕ}
    → a ≡ a'
    → b ≡ b'
    → c ≡ c'
    → d ≡ d'
    → ◌≡◌ {A = List ℕ} (a ∷ b ∷ c ∷ d ∷ []) (a' ∷ b' ∷ c' ∷ d' ∷ [])
four p q r s = cc

payload_of-value :
    (ds : List ℕ) → length ds ≤ 4 → AllBytes ds → payload_of 4 0 (value ds) ≡ padded ds
unfolding payload_of
payload_of-value [] h a = refl
payload_of-value (x ∷ []) h a = four (omega arith) (omega arith) (omega arith) (omega arith)
payload_of-value (x ∷ y ∷ []) h a = four (omega arith) (omega arith) (omega arith) (omega arith)
payload_of-value (x ∷ y ∷ z ∷ []) h a = four (omega arith) (omega arith) (omega arith) (omega arith)
payload_of-value (x ∷ y ∷ z ∷ u ∷ []) h a =
    four (omega arith) (omega arith) (omega arith) (omega arith)
payload_of-value (x ∷ y ∷ z ∷ u ∷ v ∷ ds) h a = absurd (omega arith)

-- All four bytes of a word into which at most four bytes were packed.
pub payload_of-or_payload :
    (ds : List ℕ) → length ds ≤ 4 → AllBytes ds → payload_of 4 0 (or_payload 0 ds 0) ≡ padded ds
payload_of-or_payload ds h a =
    ap (payload_of 4 0) (or_payload-value 0 ds 0 (omega arith) (omega arith) a ∙ omega arith)
    ∙ payload_of-value ds h a

payload_of-take : (n k w : ℕ) → n ≤ 4 → payload_of n k w ≡ take n (payload_of 4 k w)
unfolding payload_of
payload_of-take zero k w h = refl
payload_of-take (suc zero) k w h = refl
payload_of-take (suc (suc zero)) k w h = refl
payload_of-take (suc (suc (suc zero))) k w h = refl
payload_of-take (suc (suc (suc (suc zero)))) k w h = refl
payload_of-take (suc (suc (suc (suc (suc n))))) k w h = absurd (omega arith)

take-padded :
    (n : ℕ) (ds : List ℕ) → n ≤ 4 → n ≤ length ds → take n (padded (take n ds)) ≡ take n ds
take-padded zero ds h l = refl
take-padded (suc zero) (a ∷ ds) h l = refl
take-padded (suc (suc zero)) (a ∷ b ∷ ds) h l = refl
take-padded (suc (suc (suc zero))) (a ∷ b ∷ c ∷ ds) h l = refl
take-padded (suc (suc (suc (suc zero)))) (a ∷ b ∷ c ∷ d ∷ ds) h l = refl
take-padded n ds h l = absurd (omega arith)

-- Reading back as many bytes as were packed.
pub payload_of-packed :
    (n : ℕ) (ds : List ℕ)
    → n ≤ 4
    → n ≤ length ds
    → AllBytes ds
    → payload_of n 0 (or_payload 0 (take n ds) 0) ≡ take n ds
payload_of-packed n ds h l a =
    payload_of-take n 0 (or_payload 0 (take n ds) 0) h
    ∙ ap (take n)
        (payload_of-or_payload (take n ds) (omega (arith, length-take n ds)) (AllBytes-take n ds a))
    ∙ take-padded n ds h l

-- The two words of a message give back its first `n` bytes.
bytes_back :
    (n : ℕ) (ds : List ℕ)
    → n ≤ 8
    → n ≤ length ds
    → take n (padded (take (min n 4) ds) ++ padded (take (n - 4) (drop 4 ds))) ≡ take n ds
bytes_back zero ds h l = refl
bytes_back (suc zero) (a ∷ ds) h l = refl
bytes_back (suc (suc zero)) (a ∷ b ∷ ds) h l = refl
bytes_back (suc (suc (suc zero))) (a ∷ b ∷ c ∷ ds) h l = refl
bytes_back (suc (suc (suc (suc zero)))) (a ∷ b ∷ c ∷ d ∷ ds) h l = refl
bytes_back (suc (suc (suc (suc (suc zero))))) (a ∷ b ∷ c ∷ d ∷ e ∷ ds) h l = refl
bytes_back (suc (suc (suc (suc (suc (suc zero)))))) (a ∷ b ∷ c ∷ d ∷ e ∷ f ∷ ds) h l = refl
bytes_back (suc (suc (suc (suc (suc (suc (suc zero))))))) (a ∷ b ∷ c ∷ d ∷ e ∷ f ∷ g ∷ ds) h l =
    refl
bytes_back (suc (suc (suc (suc (suc (suc (suc (suc zero)))))))) (a ∷ b ∷ c ∷ d ∷ e ∷ f ∷ g ∷ i ∷ ds)
      h l =
    refl
bytes_back n ds h l = absurd (omega arith)

pub sent_bytes :
    (n : ℕ) (ds : List ℕ)
    → n ≤ 8
    → n ≤ length ds
    → AllBytes ds
    → take n (payload_of 4 0 (low_word n ds) ++ payload_of 4 0 (high_word n ds)) ≡ take n ds
unfolding low_word high_word
sent_bytes n ds h l a =
    ap (take n) (
      ap₂ ◌++◌
        (payload_of-or_payload (take (min n 4) ds) (omega (arith, length-take (min n 4) ds))
          (AllBytes-take (min n 4) ds a))
        (payload_of-or_payload (take (n - 4) (drop 4 ds))
          (omega (arith, length-take (n - 4) (drop 4 ds)))
          (AllBytes-take (n - 4) (drop 4 ds) (AllBytes-drop 4 ds a))))
    ∙ bytes_back n ds h l

take-split_four : (n : ℕ) (ds : List ℕ) → take (min n 4) ds ++ take (n - 4) (drop 4 ds) ≡ take n ds
take-split_four n ds = elim (dec_lt n 4) [
  | yes less ↦
      ap (λ a. take a ds ++ take (n - 4) (drop 4 ds)) {y = n} (omega arith)
      ∙ ap (λ b. take n ds ++ take b (drop 4 ds)) {y = 0} (omega arith)
      ∙ append-nil (take n ds)
  | no more ↦
      ap (λ a. take a ds ++ take (n - 4) (drop 4 ds)) {y = 4} (omega arith)
      ∙ take-split 4 n ds (omega arith)
]

pub received_bytes :
    (n : ℕ) (ds : List ℕ)
    → n ≤ 8
    → n ≤ length ds
    → AllBytes ds
    → payload_of (min n 4) 0 (low_word n ds) ++ payload_of (n - 4) 0 (high_word n ds) ≡ take n ds
unfolding low_word high_word
received_bytes n ds h l a =
    ap₂ ◌++◌ (payload_of-packed (min n 4) ds (omega arith) (omega arith) a) (
      payload_of-packed (n - 4) (drop 4 ds) (omega arith) (omega (arith, length-drop 4 ds))
        (AllBytes-drop 4 ds a))
    ∙ take-split_four n ds

-- The words depend on the first `n` bytes only.
pub low_word_cong : (n : ℕ) (xs ys : List ℕ) → take n xs ≡ take n ys → low_word n xs ≡ low_word n ys
unfolding low_word
low_word_cong n xs ys e =
    ap (λ k. or_payload 0 k 0)
      (sym (take-take (min n 4) n xs (omega arith))
        ∙ ap (take (min n 4)) e
        ∙ take-take (min n 4) n ys (omega arith))

pub high_word_cong :
    (n : ℕ) (xs ys : List ℕ) → take n xs ≡ take n ys → high_word n xs ≡ high_word n ys
unfolding high_word
high_word_cong n xs ys e =
    ap (λ k. or_payload 0 k 0) (sym (drop-take 4 n xs) ∙ ap (drop 4) e ∙ drop-take 4 n ys)
