-- ===== src/I2c/Tests.antt =====
-- The theorems on the I2C driver at concrete inputs: a controller that completes each transfer and
-- gives the byte 0x5A.
use ulmk_boards.Base.{
  ℕ, ◌+◌, ◌*◌, ◌^◌, ◌≡◌, true, none, some, List, [], ◌∷◌, refl, take, if◌then◌else◌, arith,
}
use ulmk_boards.Kernel.{Rc, is_ok}
use ulmk_boards.I2c.Server.{Bus, i2c_do_read}
use ulmk_boards.I2c.Client.{i2c_write, i2c_read}
use ulmk_boards.I2c.Queue.{queued, SelfClearing, write_events}
use ulmk_boards.I2c.Transfer.{deliver, i2c_write-queued}
use ulmk_boards.I2c.Receive.{i2c_read-do_read}

abbrev panel : Bus
panel = record { val = λ s. 0x85A; wait = λ s. Rc.ok }

abbrev reg : List ℕ
reg = 0x81 ∷ 0x4E ∷ 0 ∷ []

panel_clears : SelfClearing panel
panel_clears s = refl

i2c_write-queued_example :
    queued (i2c_write true (deliver panel true) 0x5D (some reg) 3 []).1
    ≡ write_events (0x5D * 2) (3 + 1 + 2 ^ 8 + 2 ^ 11) (take 3 reg)
i2c_write-queued_example =
    i2c_write-queued panel 0x5D reg 3 [] panel_clears (omega arith) (omega arith) (omega arith)
      (omega arith, (omega arith, (omega arith, tt)))

i2c_read-do_read_example :
    let r = i2c_do_read panel true 0x5D 4 [] in
    i2c_read true (deliver panel true) 0x5D true 4 []
    ≡ (r.0, if is_ok r.0 then some r.1 else none, r.2)
i2c_read-do_read_example =
    i2c_read-do_read panel true 0x5D 4 [] (omega arith) (omega arith) (omega arith)
