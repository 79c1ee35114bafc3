-- ===== src/Twai/Wires.antt =====
-- What the data registers of the controller hold after a frame was written by
-- esp32p4_ev_function/drivers/can/src/server.c, and what `rx_drain` reads from them.
use ulmk_boards.Base.{
  ℕ, zero, suc, ◌+◌, ◌*◌, ◌/◌, ◌%◌, ◌^◌, ◌≤◌, ◌<◌, ◌≡◌, refl, ap, ap₂, sym, ◌∙◌, true, false, some,
  List, [], ◌∷◌, ◌++◌, bit_and, bit_or, get_or, set, length, length-set, get_or-set_self,
  get_or-set_ne, arith, if◌then◌else◌, ◌==◌,
}
use native.Mathlib.Decide.{ℕ_discrete}
use ulmk_boards.Base.Word.{u8, ◌<<◌, ◌>>>◌}
use ulmk_boards.Base.Bits.{fields_or, and_low, and_high}
use ulmk_boards.Twai.Server.{
  TwaiAct, wr_data, wr_cmd, wr_int_ena, rd_int, ack, wr_payload, wr_frame, read_last,
}

-- Data register `k` after the acts, which held `v` before them.
abbrev pub after : ℕ → ℕ → List TwaiAct → ℕ
after k v [] = v
after k v (wr_data j u ∷ acts) = after k (if j == k then u else v) acts
after k v (wr_cmd c ∷ acts) = after k v acts
after k v (wr_int_ena m ∷ acts) = after k v acts
after k v (rd_int ∷ acts) = after k v acts
after k v (ack ∷ acts) = after k v acts

pub after-append :
    (k v : ℕ) (xs ys : List TwaiAct) → after k v (xs ++ ys) ≡ after k (after k v xs) ys
after-append k v [] ys = refl
after-append k v (wr_data j u ∷ xs) ys = after-append k (if j == k then u else v) xs ys
after-append k v (wr_cmd c ∷ xs) ys = after-append k v xs ys
after-append k v (wr_int_ena m ∷ xs) ys = after-append k v xs ys
after-append k v (rd_int ∷ xs) ys = after-append k v xs ys
after-append k v (ack ∷ xs) ys = after-append k v xs ys

-- The payload loop leaves the registers before its first alone, and puts the bytes into the others.
after-payload_low :
    (k v : ℕ) (ds : List ℕ) (left i : ℕ) → k < 3 + i → after k v (wr_payload (some ds) left i) ≡ v
unfolding wr_payload
after-payload_low k v ds zero i h = refl
after-payload_low k v ds (suc left) i h =
    let ne : (3 + i == k) ≡ false = ground arith in
    ap (λ b. after k (if b then get_or ds i 0 else v) (wr_payload (some ds) left (i + 1))) ne
    ∙ after-payload_low k v ds left (i + 1) (omega arith)

after-payload :
    (j v : ℕ) (ds : List ℕ) (left i : ℕ)
    → i ≤ j
    → j < i + left
    → after (3 + j) v (wr_payload (some ds) left i) ≡ get_or ds j 0
unfolding wr_payload
after-payload j v ds zero i lo hi = absurd (omega arith)
after-payload j v ds (suc left) i lo hi = elim (ℕ_discrete i j) [
  | yes e ↦
      let eq : (3 + i == 3 + j) ≡ true = ground arith in
      ap (λ b. after (3 + j) (if b then get_or ds i 0 else v) (wr_payload (some ds) left (i + 1)))
        eq
      ∙ after-payload_low (3 + j) (get_or ds i 0) ds left (i + 1) (omega arith)
      ∙ ap (λ k. get_or ds k 0) e
  | no ne ↦
      after-payload j (if 3 + i == 3 + j then get_or ds i 0 else v) ds left (i + 1) (omega arith)
        (omega arith)
]

module _ (id : ℕ) (ds : List ℕ) (n : ℕ) (small : n ≤ 8) where
  pub after-frame_length : (v : ℕ) → after 0 v (wr_frame id (some ds) n) ≡ n
  unfolding wr_frame
  after-frame_length v =
      after-payload_low 0 (bit_and n 0x0F) ds n 0 (omega arith) ∙ and_low 4 n ∙ omega arith

  pub after-frame_high : (v : ℕ) → after 1 v (wr_frame id (some ds) n) ≡ id / 8 % 256
  unfolding wr_frame
  after-frame_high v =
      after-payload_low 1 (bit_and (id >>> 3) 0xFF) ds n 0 (omega arith) ∙ and_low 8 (id >>> 3)

  pub after-frame_low : (v : ℕ) → after 2 v (wr_frame id (some ds) n) ≡ id % 8 * 32
  unfolding wr_frame
  after-frame_low v =
      after-payload_low 2 (bit_and (id << 5) 0xE0) ds n 0 (omega arith)
      ∙ and_high 5 (id << 5) 7
      ∙ ap (λ t. t * 2 ^ 5) (and_low 3 ((id << 5) / 2 ^ 5))
      ∙ omega arith

  pub after-frame_byte :
      (v j : ℕ) → j < n → after (3 + j) v (wr_frame id (some ds) n) ≡ get_or ds j 0
  unfolding wr_frame
  after-frame_byte v j h = after-payload j _ ds n 0 (omega arith) (omega arith)

-- The identifier that `rx_drain` puts together.
pub identifier :
    (a b id : ℕ)
    → a ≡ id / 8 % 256
    → b ≡ id % 8 * 32
    → bit_and (bit_or (a << 3) (b >>> 5)) 0x7FF ≡ id % 2048
identifier a b id p q =
    let high : a << 3 ≡ a * 2 ^ 3 = omega arith in
    let low : b >>> 5 ≡ id % 8 = omega arith in
    and_low 11 (bit_or (a << 3) (b >>> 5))
    ∙ ap (λ t. t % 2 ^ 11) (ap₂ bit_or high low ∙ fields_or 3 a (id % 8) (omega arith))
    ∙ omega arith

pub length-read_last :
    (f : ℕ → ℕ) (left i : ℕ) (last : List ℕ) → length (read_last f left i last) ≡ length last
unfolding read_last
length-read_last f zero i last = refl
length-read_last f (suc left) i last =
    length-read_last f left (i + 1) (set last i (u8 (f (3 + i))))
    ∙ length-set last i (u8 (f (3 + i)))

get_or-read_last_low :
    (f : ℕ → ℕ) (left i : ℕ) (last : List ℕ) (j : ℕ)
    → j < i
    → get_or (read_last f left i last) j 0 ≡ get_or last j 0
unfolding read_last
get_or-read_last_low f zero i last j h = refl
get_or-read_last_low f (suc left) i last j h =
    get_or-read_last_low f left (i + 1) (set last i (u8 (f (3 + i)))) j (omega arith)
    ∙ get_or-set_ne last i j (u8 (f (3 + i))) 0 (omega arith)

pub get_or-read_last :
    (f : ℕ → ℕ) (left i : ℕ) (last : List ℕ) (j : ℕ)
    → i ≤ j
    → j < i + left
    → i + left ≤ length last
    → get_or (read_last f left i last) j 0 ≡ u8 (f (3 + j))
unfolding read_last
get_or-read_last f zero i last j lo hi room = absurd (omega arith)
get_or-read_last f (suc left) i last j lo hi room = elim (ℕ_discrete i j) [
  | yes e ↦
      ap (λ k. get_or (read_last f left (i + 1) (set last i (u8 (f (3 + i))))) k 0) (sym e)
      ∙ get_or-read_last_low f left (i + 1) (set last i (u8 (f (3 + i)))) i (omega arith)
      ∙ get_or-set_self last i (u8 (f (3 + i))) 0 (omega arith)
      ∙ ap (λ k. u8 (f (3 + k))) e
  | no ne ↦
      get_or-read_last f left (i + 1) (set last i (u8 (f (3 + i)))) j (omega arith) (omega arith)
        (omega (arith, length-set last i (u8 (f (3 + i)))))
]

-- Lists of one length that agree at each place are equal.
pub list_ext :
    (xs ys : List ℕ)
    → length xs ≡ length ys
    → ((j : ℕ) → j < length xs → get_or xs j 0 ≡ get_or ys j 0)
    → xs ≡ ys
list_ext [] [] e h = refl
list_ext [] (y ∷ ys) e h = absurd (omega arith)
list_ext (x ∷ xs) [] e h = absurd (omega arith)
list_ext (x ∷ xs) (y ∷ ys) e h =
    ap₂ ◌∷◌ (h 0 (omega arith)) (list_ext xs ys (omega arith) (λ j lt. h (suc j) (omega arith)))
