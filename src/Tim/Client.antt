-- ===== src/Tim/Client.antt =====
-- The calls of witte_linum/drivers/pwm/src/client.c. `call` stands for `ulmk_ep_call` on the server's
-- endpoint: its result, word 0 of the reply, and the other side's state.
use ulmk_boards.Base.{ℕ, Bool, not, ◌||◌, [], ◌∷◌, ◌==◌, ltb, leb, if◌then◌else◌}
use ulmk_boards.Kernel.{Rc, is_ok, Msg}
use ulmk_boards.Tim.Server.{pwm_max_ch, pwm_msg_config, pwm_msg_duty, pwm_msg_enable}

module _ {S : Type 0} (ep_valid : Bool) (call : Msg → S → Rc × Rc × S) where
  unfoldable pub pwm_call : Msg → S → Rc × S
  pwm_call m s =
      let (rc, reply, s') = call m s in
      if not ep_valid then (Rc.esrch, s) else if not (is_ok rc) then (rc, s') else (reply, s')

  unfoldable pub pwm_config : ℕ → ℕ → ℕ → S → Rc × S
  pwm_config n freq_hz duty_permille s =
      if leb pwm_max_ch n || freq_hz == 0 || ltb 1000 duty_permille
      then (Rc.einval, s)
      else pwm_call (record { label = pwm_msg_config; words = n ∷ freq_hz ∷ duty_permille ∷ [] }) s

  unfoldable pub pwm_set_duty : ℕ → ℕ → S → Rc × S
  pwm_set_duty n duty_permille s =
      if leb pwm_max_ch n || ltb 1000 duty_permille
      then (Rc.einval, s)
      else pwm_call (record { label = pwm_msg_duty; words = n ∷ duty_permille ∷ [] }) s

  unfoldable pub pwm_enable : ℕ → Bool → S → Rc × S
  pwm_enable n on s =
      if leb pwm_max_ch n
      then (Rc.einval, s)
      else pwm_call (record { label = pwm_msg_enable; words = n ∷ (if on then 1 else 0) ∷ [] }) s
