-- ===== src/Pinmux/Client.antt =====
-- The call of esp32p4_ev_function/drivers/pinmux/src/client.c. `call` stands for `ulmk_ep_call` on the
-- server's endpoint: its result, word 0 of the reply, and the other side's state.
use ulmk_boards.Base.{ℕ, Bool, not, ◌||◌, Option, none, some, [], ◌∷◌, if◌then◌else◌, leb, bit_or}
use ulmk_boards.Base.Word.{◌<<◌}
use ulmk_boards.Kernel.{Rc, is_ok, Msg}
use ulmk_boards.Pinmux.Server.{PinmuxCfg, pinmux_msg_config}

unfoldable pub config_msg : PinmuxCfg → Msg
config_msg cfg = record {
  label = pinmux_msg_config;
  words =
      bit_or (cfg.port << 8) cfg.pin
      ∷ cfg.dir
      ∷ cfg.pull
      ∷ bit_or cfg.alt (cfg.flags << 8)
      ∷ bit_or cfg.matrix_out (cfg.matrix_in << 16)
      ∷ [];
}

-- The instances are one; `none` is a null pointer.
module _ {S : Type 0} (ep_valid : Bool) (call : Msg → S → Rc × Rc × S) where
  unfoldable pub pinmux_config : ℕ → Option PinmuxCfg → S → Rc × S
  pinmux_config n none s = (Rc.esrch, s)
  pinmux_config n (some cfg) s =
      let (rc, reply, s') = call (config_msg cfg) s in
      if leb 1 n || not ep_valid
      then (Rc.esrch, s)
      else if not (is_ok rc)
      then (rc, s')
      else (reply, s')
