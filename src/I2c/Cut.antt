-- ===== src/I2c/Cut.antt =====
-- A write of more than sixteen bytes by esp32p4_ev_function/drivers/i2c/src/client.c.
use ulmk_boards.Base.{
  ℕ, ◌≡◌, ap, sym, ◌∙◌, Bool, some, List, [], ◌∷◌, take, take-take, min, arith, ltb, if◌then◌else◌,
  not,
}
use ulmk_boards.Kernel.{Rc, is_ok, Msg}
use ulmk_boards.Wire.Pack.{or_bytes}
use ulmk_boards.I2c.Server.{i2c_msg_write, i2c_xfer_max}
use ulmk_boards.I2c.Client.{write_msg, i2c_call, i2c_write}

-- The message has only the first sixteen bytes.
write_msg-cut :
    (addr7 len : ℕ) (ds es : List ℕ)
    → take 16 ds ≡ take 16 es
    → write_msg addr7 (some ds) len ≡ write_msg addr7 (some es) len
unfolding write_msg
write_msg-cut addr7 len ds es same =
    let first : take (min len 16) ds ≡ take (min len 16) es =
      sym (take-take (min len 16) 16 ds (omega arith))
      ∙ ap (take (min len 16)) same
      ∙ take-take (min len 16) 16 es (omega arith) in
    ap
      (λ t. record {
        label = i2c_msg_write;
        words = or_bytes 2 0 t (addr7 ∷ len ∷ 0 ∷ 0 ∷ 0 ∷ 0 ∷ []);
      })
      first

module _ {S : Type 0} (valid : Bool) (call : Msg → S → Rc × Rc × List ℕ × S) where
  -- Whatever the length, i2c_write passes on only the first sixteen bytes: on two buffers that
  -- agree in these, it has the same result and leaves the same state on the other side.
  pub i2c_write-cut :
      (addr7 len : ℕ) (ds es : List ℕ) (s : S)
      → take 16 ds ≡ take 16 es
      → i2c_write valid call addr7 (some ds) len s ≡ i2c_write valid call addr7 (some es) len s
  unfolding i2c_write
  i2c_write-cut addr7 len ds es s same =
      ap
        (λ m.
          let (rc, reply, words, s') = i2c_call valid call m s in
          if ltb i2c_xfer_max len
          then (Rc.einval, s)
          else if not (is_ok rc)
          then (rc, s')
          else (reply, s'))
        (write_msg-cut addr7 len ds es same)
