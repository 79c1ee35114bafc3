-- ===== src/I2c/Transfer.antt =====
-- A write through both sides of esp32p4_ev_function/drivers/i2c: what it puts on the bus.
use ulmk_boards.Base.{
  ℕ, zero, suc, ◌+◌, ◌*◌, ◌/◌, ◌^◌, ◌≤◌, ◌<◌, ◌≡◌, refl, ap, ap₂, sym, ◌∙◌, Bool, true, false, List,
  [], ◌∷◌, ◌++◌, if◌then◌else◌, length, get_or, take, min, arith, some, bit_or, ltb, take-take,
  length-take,
}
use ulmk_boards.Base.Word.{u8, ◌<<◌}
use ulmk_boards.Base.Bits.{or_fields}
use ulmk_boards.Kernel.{Rc, Msg}
use ulmk_boards.Wire.Pack.{
  or_bytes, get_bytes, AllBytes, AllBytes-take, InRange, get_bytes-or_bytes, byte_at-zero,
  or_bytes-before,
}
use ulmk_boards.I2c.Server.{I2cAct, Bus, i2c_do_write, i2c_server, make_cmd, i2c_cmd_write}
use ulmk_boards.I2c.Client.{write_msg, i2c_call, i2c_write}
use ulmk_boards.I2c.Queue.{queued, SelfClearing, write_events, i2c_do_write-queued}

-- The kernel hands a message to the server, which answers it with one round.
abbrev pub deliver : Bus → Bool → Msg → List I2cAct → Rc × Rc × List ℕ × List I2cAct
deliver bus hw_ok m s = let (rc, words, s') = i2c_server bus hw_ok m s in (Rc.ok, rc, words, s')

write_free : (a l j : ℕ) → 2 ≤ j → get_or (a ∷ l ∷ 0 ∷ 0 ∷ 0 ∷ 0 ∷ []) j 0 ≡ 0
write_free a l (suc (suc zero)) h = refl
write_free a l (suc (suc (suc zero))) h = refl
write_free a l (suc (suc (suc (suc zero)))) h = refl
write_free a l (suc (suc (suc (suc (suc zero))))) h = refl
write_free a l (suc (suc (suc (suc (suc (suc j)))))) h = refl
write_free a l j h = absurd (omega arith)

write_range : (a l : ℕ) → a < 128 → l ≤ 16 → InRange (a ∷ l ∷ 0 ∷ 0 ∷ 0 ∷ 0 ∷ [])
write_range a l p q zero = omega arith
write_range a l p q (suc zero) = omega arith
write_range a l p q (suc (suc k)) = omega (arith, write_free a l (suc (suc k)) (omega arith))

-- The bytes of a write message.
write_words :
    (addr7 len : ℕ) (ds : List ℕ)
    → addr7 < 128
    → len ≤ 16
    → len ≤ length ds
    → AllBytes ds
    → get_bytes 2 0 len (or_bytes 2 0 (take (min len 16) ds) (addr7 ∷ len ∷ 0 ∷ 0 ∷ 0 ∷ 0 ∷ []))
      ≡ take len ds
write_words addr7 len ds small short enough bytes =
    let ws = addr7 ∷ len ∷ 0 ∷ 0 ∷ 0 ∷ 0 ∷ [] in
    let same : take (min len 16) ds ≡ take len ds =
      ap (λ n. take n ds) {x = min len 16} (omega arith) in
    let all : length (take len ds) ≡ len = omega (arith, length-take len ds) in
    ap (λ t. get_bytes 2 0 len (or_bytes 2 0 t ws)) same
    ∙ ap (λ n. get_bytes 2 0 n (or_bytes 2 0 (take len ds) ws)) (sym all)
    ∙ get_bytes-or_bytes 2 (take len ds) ws (AllBytes-take len ds bytes)
        (write_range addr7 len small short) (omega arith)
        (λ k. byte_at-zero 2 k ws (write_free addr7 len (2 + k / 4) (omega arith)))

write_cmd :
    (len : ℕ) → len ≤ 16 → make_cmd i2c_cmd_write (u8 (len + 1)) true ≡ len + 1 + 2 ^ 8 + 2 ^ 11
unfolding make_cmd
write_cmd len h =
    let n = len + 1 in
    let fits : u8 n ≡ n = omega arith in
    ap (λ k. bit_or (bit_or k (1 << 8)) (1 << 11)) fits
    ∙ ap (λ k. bit_or k (1 * 2 ^ 11)) (or_fields 8 n 1 (omega arith))
    ∙ or_fields 11 (n + 1 * 2 ^ 8) 1 (omega arith)
    ∙ omega arith

module _ (bus : Bus) where
  -- What the server makes of a write message.
  write_msg-served :
      (hw_ok : Bool) (addr7 : ℕ) (ds : List ℕ) (len : ℕ) (s : List I2cAct)
      → addr7 < 128
      → len ≤ 16
      → len ≤ length ds
      → AllBytes ds
      → i2c_write true (deliver bus hw_ok) addr7 (some ds) len s
        ≡ i2c_do_write bus hw_ok addr7 (take len ds) len s
  unfolding i2c_write i2c_call i2c_server write_msg
  write_msg-served hw_ok addr7 ds len s small short enough bytes =
      let ws = addr7 ∷ len ∷ 0 ∷ 0 ∷ 0 ∷ 0 ∷ [] in
      let sent = or_bytes 2 0 (take (min len 16) ds) ws in
      let fits : ltb 32 len ≡ false = ground arith in
      let address : u8 (get_or sent 0 0) ≡ addr7 =
        ap u8 (or_bytes-before 2 0 0 (take (min len 16) ds) ws (omega arith)) ∙ omega arith in
      let count : (if ltb 32 (get_or sent 1 0) then 32 else get_or sent 1 0) ≡ len =
        ap (λ n. if ltb 32 n then 32 else n)
          (or_bytes-before 2 0 1 (take (min len 16) ds) ws (omega arith))
        ∙ ap (λ b. if b then 32 else len) fits in
      let payload : get_bytes 2 0 (if ltb 32 (get_or sent 1 0) then 32 else get_or sent 1 0) sent
          ≡ take len ds =
        ap (λ n. get_bytes 2 0 n sent) count ∙ write_words addr7 len ds small short enough bytes in
      ap
        (λ b.
          if b
          then (Rc.einval, s)
          else i2c_do_write bus hw_ok (u8 (get_or sent 0 0))
              (get_bytes 2 0 (if ltb 32 (get_or sent 1 0) then 32 else get_or sent 1 0) sent)
              (if ltb 32 (get_or sent 1 0) then 32 else get_or sent 1 0) s)
        fits
      ∙ ap
          (λ a.
            i2c_do_write bus hw_ok a
              (get_bytes 2 0 (if ltb 32 (get_or sent 1 0) then 32 else get_or sent 1 0) sent)
              (if ltb 32 (get_or sent 1 0) then 32 else get_or sent 1 0) s)
          address
      ∙ ap₂ (λ b l. i2c_do_write bus hw_ok addr7 b l s) payload count

  -- When the controller is set up and the bit TRANS_START of CTR always reads as 0: i2c_write of
  -- at most sixteen bytes to an address of seven bits, through the server, stores twice to the
  -- FIFO's configuration, puts into the FIFO the address with the write bit and exactly these
  -- bytes in order, puts into the command registers 0, 1 and 2 the commands to start, to write one
  -- byte more than the length with acknowledgement, and to stop, and starts the transfer once,
  -- after all of these.
  pub i2c_write-queued :
      (addr7 : ℕ) (ds : List ℕ) (len : ℕ) (s : List I2cAct)
      → SelfClearing bus
      → addr7 < 128
      → len ≤ 16
      → len ≤ length ds
      → AllBytes ds
      → queued (i2c_write true (deliver bus true) addr7 (some ds) len s).1
        ≡ queued s ++ write_events (addr7 * 2) (len + 1 + 2 ^ 8 + 2 ^ 11) (take len ds)
  i2c_write-queued addr7 ds len s clears small short enough bytes =
      let address : addr7 << 1 ≡ addr7 * 2 = omega arith in
      ap (λ r. queued r.1) (write_msg-served true addr7 ds len s small short enough bytes)
      ∙ i2c_do_write-queued bus clears addr7 (take len ds) len s (omega arith)
      ∙ ap₂ (λ a c. queued s ++ write_events a c (take len (take len ds))) address
          (write_cmd len short)
      ∙ ap (λ t. queued s ++ write_events (addr7 * 2) (len + 1 + 2 ^ 8 + 2 ^ 11) t)
          (take-take len len ds (omega arith))
