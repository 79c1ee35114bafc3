-- ===== src/Twai/Taken.antt =====
-- A send in esp32p4_ev_function/drivers/can/src/server.c that ends well: what it leaves in the data
-- registers, and what the server keeps of the frame that is then taken out of them.
use ulmk_boards.Base.{
  ℕ, zero, suc, ◌+◌, ◌*◌, ◌/◌, ◌%◌, ◌≤◌, ◌<◌, ◌≡◌, refl, ap, sym, ◌∙◌, inl, inr, append-nil, Bool,
  true, false, not, ◌&&◌, some, List, [], ◌∷◌, ◌++◌, bit_and, take, get_or, length, length-take,
  get_or-take, arith, if◌then◌else◌, ◌==◌, ltb, Bool-cases,
}
use ulmk_boards.Base.Word.{u8}
use ulmk_boards.Kernel.{Rc, is_ok}
use ulmk_boards.Base.Bits.{and_low}
use ulmk_boards.Wire.Pack.{AllBytes}
use ulmk_boards.Twai.Server.{
  TwaiAct, wr_cmd, Answers, Inst, wr_frame, read_last, rx_drain, take_in, hw_send, twai_wait_int,
  st_rxbuf, st_txbuf, int_rx, int_tx, cmd_self_rx,
}
use ulmk_boards.Twai.Wires.{
  after, after-append, identifier, get_or-read_last, length-read_last, list_ext,
}

-- The wait that is done only if `b`.
abbrev pub wait_if : Bool → ℕ → List TwaiAct
wait_if b mask = if b then twai_wait_int mask else []

pub after-wait_if : (b : Bool) (mask k v : ℕ) → after k v (wait_if b mask) ≡ v
after-wait_if true mask k v = refl
after-wait_if false mask k v = refl

after-rx_drain : (c : Inst) (o : Answers) (k v : ℕ) → after k v (rx_drain c o).0 ≡ v
unfolding rx_drain
after-rx_drain c o k v = elim (Bool-cases (bit_and o.drain_status st_rxbuf == 0)) [
  | inl e ↦ rw e
  | inr e ↦ rw e
]

-- What `take_in` does before it takes the frame out.
abbrev pub asked : List TwaiAct → Answers → List TwaiAct
asked before o =
    (before ++ wr_cmd cmd_self_rx ∷ []) ++ wait_if (bit_and o.rx_status st_rxbuf == 0) int_rx

take_in-taken :
    (c : Inst) (before : List TwaiAct) (o : Answers)
    → (bit_and o.rx_status st_rxbuf == 0) && not (is_ok o.rx_wait) ≡ false
    → take_in c before o ≡ (Rc.ok, asked before o ++ (rx_drain c o).0, (rx_drain c o).1)
unfolding take_in
take_in-taken c before o h = elim (Bool-cases (bit_and o.rx_status st_rxbuf == 0)) [
  | inl e ↦ let w : is_ok o.rx_wait ≡ true = ground (arith, e, h) in rw (e, w)
  | inr e ↦ rw (e, append-nil (before ++ wr_cmd cmd_self_rx ∷ []))
]

past_guards {ℓ} :
    {A : Type ℓ} {g b : Bool} (x y : A) {z : A}
    → g ≡ true
    → b ≡ false
    → (if not g then x else if b then y else z) ≡ z
past_guards x y p q = rw (p, q)

pub hw_send-sent :
    (c : Inst) (id : ℕ) (buf : List ℕ) (n : ℕ) (o : Answers)
    → c.ready ≡ true
    → n ≤ 8
    → (bit_and o.tx_status st_txbuf == 0) && not (is_ok o.tx_wait) ≡ false
    → (bit_and o.rx_status st_rxbuf == 0) && not (is_ok o.rx_wait) ≡ false
    → hw_send c id (some buf) n o ≡ (
      Rc.ok,
      asked (wait_if (bit_and o.tx_status st_txbuf == 0) int_tx ++ wr_frame id (some buf) n) o
          ++ (rx_drain c o).0,
      (rx_drain c o).1,
    )
unfolding hw_send
hw_send-sent c id buf n o ready small room came =
    let le : ltb 8 n ≡ false = ground arith in
    let before = wait_if (bit_and o.tx_status st_txbuf == 0) int_tx in
    past_guards _ _ ready room
    ∙ ap (λ b. take_in c (before ++ wr_frame id (some buf) (if b then 8 else n)) o) le
    ∙ take_in-taken c (before ++ wr_frame id (some buf) n) o came

-- The data registers after a send: those after the frame.
pub after-asked :
    (k v : ℕ) (waited frame : List TwaiAct) (o : Answers) (c : Inst)
    → after k v waited ≡ v
    → after k v (asked (waited ++ frame) o ++ (rx_drain c o).0) ≡ after k v frame
after-asked k v waited frame o c h =
    after-append k v (asked (waited ++ frame) o) (rx_drain c o).0
    ∙ after-rx_drain c o k _
    ∙ after-append k v ((waited ++ frame) ++ wr_cmd cmd_self_rx ∷ []) _
    ∙ after-wait_if (bit_and o.rx_status st_rxbuf == 0) int_rx k _
    ∙ after-append k v (waited ++ frame) (wr_cmd cmd_self_rx ∷ [])
    ∙ after-append k v waited frame
    ∙ ap (λ u. after k u frame) h

-- What the server keeps of a frame that the data registers hold.
module _ (c : Inst) (o : Answers) (there : (bit_and o.drain_status st_rxbuf == 0) ≡ false) where
  pub received-id :
      (id : ℕ)
      → o.frame 1 ≡ id / 8 % 256
      → o.frame 2 ≡ id % 8 * 32
      → (rx_drain c o).1.last_id ≡ id % 2048
  unfolding rx_drain
  received-id id p q = rw there (identifier (o.frame 1) (o.frame 2) id p q)

  pub received-len : (n : ℕ) → o.frame 0 ≡ n → n ≤ 8 → (rx_drain c o).1.last_len ≡ n
  unfolding rx_drain
  received-len n p small =
      let low : bit_and n 15 ≡ n = and_low 4 n ∙ omega arith in
      let byte : u8 n ≡ n = omega arith in
      let le : ltb 8 n ≡ false = ground arith in rw (there, p, low, byte, le)

  pub received-last :
      (n : ℕ) → o.frame 0 ≡ n → n ≤ 8 → (rx_drain c o).1.last ≡ read_last o.frame n 0 c.last
  unfolding rx_drain
  received-last n p small =
      let low : bit_and n 15 ≡ n = and_low 4 n ∙ omega arith in
      let byte : u8 n ≡ n = omega arith in
      let le : ltb 8 n ≡ false = ground arith in rw (there, p, low, byte, le)

get_or-small : (ds : List ℕ) (j : ℕ) → AllBytes ds → get_or ds j 0 < 256
get_or-small [] j a = omega arith
get_or-small (d ∷ ds) zero a = a.0
get_or-small (d ∷ ds) (suc j) a = get_or-small ds j a.1

-- The bytes that the loop of `rx_drain` stores, where the registers hold those of `buf`, which
-- are the first `n` of `ds`.
pub take-read_last :
    (f : ℕ → ℕ) (n : ℕ) (last buf ds : List ℕ)
    → n ≤ length last
    → n ≤ length ds
    → AllBytes ds
    → take n buf ≡ take n ds
    → ((j : ℕ) → j < n → f (3 + j) ≡ get_or buf j 0)
    → take n (read_last f n 0 last) ≡ take n ds
take-read_last f n last buf ds room enough bytes same holds =
    let lasts = read_last f n 0 last in
    list_ext (take n lasts) (take n ds)
      (omega (arith, length-take n lasts, length-take n ds, length-read_last f n 0 last))
      (λ j lt.
        let less : j < n = omega (arith, length-take n lasts, length-read_last f n 0 last) in
        let of_ds : get_or buf j 0 ≡ get_or ds j 0 =
          sym (get_or-take buf n j 0 less)
          ∙ ap (λ t. get_or t j 0) same
          ∙ get_or-take ds n j 0 less in
        let byte : u8 (get_or ds j 0) ≡ get_or ds j 0 = omega (arith, get_or-small ds j bytes) in
        get_or-take lasts n j 0 less
        ∙ get_or-read_last f n 0 last j (omega arith) (omega arith) (omega arith)
        ∙ ap u8 (holds j less ∙ of_ds)
        ∙ byte
        ∙ sym (get_or-take ds n j 0 less))
