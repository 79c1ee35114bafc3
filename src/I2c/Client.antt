-- ===== src/I2c/Client.antt =====
-- The calls of esp32p4_ev_function/drivers/i2c/src/client.c. `call` stands for `ulmk_ep_call` on the
-- server's endpoint: its result, word 0 of the reply, the words after it, and the other side's state.
use ulmk_boards.Base.{
  ℕ, Bool, not, ◌||◌, Option, none, some, List, [], ◌∷◌, if◌then◌else◌, ltb, ◌==◌, take, min,
  replicate,
}
use ulmk_boards.Kernel.{Rc, is_ok, Msg}
use ulmk_boards.Wire.Pack.{or_bytes, get_bytes}
use ulmk_boards.I2c.Server.{i2c_msg_probe, i2c_msg_write, i2c_msg_read, i2c_xfer_max}

-- `none` is a null pointer; at most sixteen bytes are packed.
unfoldable pub write_msg : ℕ → Option (List ℕ) → ℕ → Msg
write_msg addr7 bytes len = record {
  label = i2c_msg_write;
  words =
      or_bytes 2 0 (elim bytes [ none ↦ replicate (min len 16) 0 | some ds ↦ take (min len 16) ds ])
        (addr7 ∷ len ∷ 0 ∷ 0 ∷ 0 ∷ 0 ∷ []);
}

module _ {S : Type 0} (ep_valid : Bool) (call : Msg → S → Rc × Rc × List ℕ × S) where
  unfoldable pub i2c_call : Msg → S → Rc × Rc × List ℕ × S
  i2c_call m s = if not ep_valid then (Rc.esrch, Rc.ok, [], s) else call m s

  unfoldable pub i2c_probe : ℕ → S → Rc × S
  i2c_probe addr7 s =
      let (rc, reply, words, s') =
        i2c_call (record { label = i2c_msg_probe; words = addr7 ∷ 0 ∷ 0 ∷ 0 ∷ [] }) s in
      if not (is_ok rc) then (rc, s') else (reply, s')

  unfoldable pub i2c_write : ℕ → Option (List ℕ) → ℕ → S → Rc × S
  i2c_write addr7 bytes len s =
      let (rc, reply, words, s') = i2c_call (write_msg addr7 bytes len) s in
      if ltb i2c_xfer_max len
      then (Rc.einval, s)
      else if not (is_ok rc)
      then (rc, s')
      else (reply, s')

  -- The pointer is null or not; the bytes are `none` where the code leaves them alone.
  unfoldable pub i2c_read : ℕ → Bool → ℕ → S → Rc × Option (List ℕ) × S
  i2c_read addr7 have len s =
      let (rc, reply, words, s') =
        i2c_call (record { label = i2c_msg_read; words = addr7 ∷ len ∷ 0 ∷ 0 ∷ [] }) s in
      if not have || len == 0 || ltb 12 len
      then (Rc.einval, none, s)
      else if not (is_ok rc)
      then (rc, none, s')
      else if not (is_ok reply)
      then (reply, none, s')
      else (Rc.ok, some (get_bytes 0 0 len words), s')
