-- ===== src/Fdcan/Memory.antt =====
-- The words of a frame in the message memory of witte_linum/drivers/can: how they are packed, and what
-- a send stores.
use ulmk_boards.Base.{
  ℕ, ◌+◌, ◌*◌, ◌^◌, ◌<◌, ◌≡◌, refl, ap, ap₂, ◌∙◌, true, false, List, [], ◌∷◌, ◌++◌, bit_and, bit_or,
  arith, if◌then◌else◌, ◌==◌,
}
use ulmk_boards.Base.Word.{u8, ◌<<◌, ◌>>>◌}
use ulmk_boards.Base.Bits.{or_fields, fields_or, and_low}
use ulmk_boards.Fdcan.Server.{FdAct, st_ram, wr_txbar, wr_rxf0a, clear_rf0n, irq_ack, notif_wait}
use ulmk_boards.Fdcan.Client.{pack4, unpack4, frame_of}

-- Word `a` of the message memory after the acts, which held `v` before them.
abbrev pub word_after : ℕ → ℕ → List FdAct → ℕ
word_after a v [] = v
word_after a v (st_ram b u ∷ acts) = word_after a (if b == a then u else v) acts
word_after a v (wr_txbar u ∷ acts) = word_after a v acts
word_after a v (wr_rxf0a u ∷ acts) = word_after a v acts
word_after a v (clear_rf0n ∷ acts) = word_after a v acts
word_after a v (irq_ack ∷ acts) = word_after a v acts
word_after a v (notif_wait ∷ acts) = word_after a v acts

pub word_after-append :
    (a v : ℕ) (xs ys : List FdAct) → word_after a v (xs ++ ys) ≡ word_after a (word_after a v xs) ys
word_after-append a v [] ys = refl
word_after-append a v (st_ram b u ∷ xs) ys = word_after-append a (if b == a then u else v) xs ys
word_after-append a v (wr_txbar u ∷ xs) ys = word_after-append a v xs ys
word_after-append a v (wr_rxf0a u ∷ xs) ys = word_after-append a v xs ys
word_after-append a v (clear_rf0n ∷ xs) ys = word_after-append a v xs ys
word_after-append a v (irq_ack ∷ xs) ys = word_after-append a v xs ys
word_after-append a v (notif_wait ∷ xs) ys = word_after-append a v xs ys

pack4-value :
    (a b c d : ℕ)
    → a < 256
    → b < 256
    → c < 256
    → d < 256
    → pack4 a b c d ≡ a + b * 2 ^ 8 + c * 2 ^ 16 + d * 2 ^ 24
unfolding pack4
pack4-value a b c d p q r s =
    let two : bit_or a (b << 8) ≡ a + b * 2 ^ 8 =
      ap (bit_or a) {x = b << 8} {y = b * 2 ^ 8} (omega arith) ∙ or_fields 8 a b p in
    let three : bit_or (a + b * 2 ^ 8) (c << 16) ≡ a + b * 2 ^ 8 + c * 2 ^ 16 =
      ap (bit_or (a + b * 2 ^ 8)) {x = c << 16} {y = c * 2 ^ 16} (omega arith)
      ∙ or_fields 16 (a + b * 2 ^ 8) c (omega arith) in
    ap (λ t. bit_or (bit_or t (c << 16)) (d << 24)) two
    ∙ ap (λ t. bit_or t (d << 24)) three
    ∙ ap (bit_or (a + b * 2 ^ 8 + c * 2 ^ 16)) {x = d << 24} {y = d * 2 ^ 24} (omega arith)
    ∙ or_fields 24 (a + b * 2 ^ 8 + c * 2 ^ 16) d (omega arith)

list_of :
    {a b c d a' b' c' d' : ℕ}
    → a ≡ a'
    → b ≡ b'
    → c ≡ c'
    → d ≡ d'
    → ◌≡◌ {A = List ℕ} (a ∷ b ∷ c ∷ d ∷ []) (a' ∷ b' ∷ c' ∷ d' ∷ [])
list_of p q r s = cc

pub unpack4-pack4 :
    (a b c d : ℕ)
    → a < 256
    → b < 256
    → c < 256
    → d < 256
    → unpack4 (pack4 a b c d) ≡ a ∷ b ∷ c ∷ d ∷ []
unfolding unpack4
unpack4-pack4 a b c d p q r s =
    let v = pack4-value a b c d p q r s in
    list_of (omega (arith, v)) (omega (arith, v)) (omega (arith, v)) (omega (arith, v))

-- Word 1 of a reply, from the two words that were stored.
pub head_word :
    (id dlc : ℕ)
    → id < 2048
    → dlc < 256
    → bit_or (((dlc << 16) >>> 16) << 16) (bit_and ((id << 18) >>> 18) 0x7FF) ≡ dlc * 2 ^ 16 + id
head_word id dlc p q =
    ap₂ bit_or {x = ((dlc << 16) >>> 16) << 16} (omega arith)
      (and_low 11 ((id << 18) >>> 18) ∙ omega arith)
    ∙ fields_or 16 dlc id (omega arith)
    ∙ omega arith

pub frame_of-parts :
    (id dlc w2 w3 : ℕ)
    → id < 2048
    → dlc < 256
    → frame_of (dlc * 2 ^ 16 + id) w2 w3
      ≡ record { id = id; dlc = dlc; bytes = unpack4 w2 ++ unpack4 w3 }
unfolding frame_of
frame_of-parts id dlc w2 w3 p q =
    let low : bit_and (dlc * 2 ^ 16 + id) 0x7FF ≡ id =
      and_low 11 (dlc * 2 ^ 16 + id) ∙ omega arith in
    let high : u8 ((dlc * 2 ^ 16 + id) >>> 16) ≡ dlc = omega arith in
    ap₂ (λ i l. record { id = i; dlc = l; bytes = unpack4 w2 ++ unpack4 w3 }) low high

abbrev pub stores : ℕ → ℕ → ℕ → ℕ → ℕ → List FdAct
stores t a b c d =
    st_ram t a ∷ st_ram (t + 1) b ∷ st_ram (t + 2) c ∷ st_ram (t + 3) d ∷ wr_txbar 1 ∷ []

module _ (t a b c d v : ℕ) where
  pub stored_0 : word_after t v (stores t a b c d) ≡ a
  stored_0 =
      let e0 : (t == t) ≡ true = ground arith in
      let e1 : (t + 1 == t) ≡ false = ground arith in
      let e2 : (t + 2 == t) ≡ false = ground arith in
      let e3 : (t + 3 == t) ≡ false = ground arith in rw (e0, e1, e2, e3)

  pub stored_1 : word_after (t + 1) v (stores t a b c d) ≡ b
  stored_1 =
      let e1 : (t + 1 == t + 1) ≡ true = ground arith in
      let e2 : (t + 2 == t + 1) ≡ false = ground arith in
      let e3 : (t + 3 == t + 1) ≡ false = ground arith in rw (e1, e2, e3)

  pub stored_2 : word_after (t + 2) v (stores t a b c d) ≡ c
  stored_2 =
      let e2 : (t + 2 == t + 2) ≡ true = ground arith in
      let e3 : (t + 3 == t + 2) ≡ false = ground arith in rw (e2, e3)

  pub stored_3 : word_after (t + 3) v (stores t a b c d) ≡ d
  stored_3 = let e3 : (t + 3 == t + 3) ≡ true = ground arith in rw e3
