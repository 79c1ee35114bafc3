-- ===== src/Tim/Calls.antt =====
-- Any calls of witte_linum/drivers/pwm/src/client.c, one after the other, through the server.
use ulmk_boards.Base.{
  ℕ, ◌≡◌, inl, inr, Bool, true, false, ◌||◌, List, [], ◌∷◌, ltb, leb, ◌==◌, arith, Bool-cases, ◌≤◌,
}
use ulmk_boards.Base.Word.{u8}
use ulmk_boards.Kernel.{Rc, Msg}
use ulmk_boards.Tim.Server.{pwm_max_ch, PwmState, pwm_server, start_channels}
use ulmk_boards.Tim.Client.{pwm_call, pwm_config, pwm_set_duty, pwm_enable}
use ulmk_boards.Tim.Fits.{ChannelFits, AllChannels, AllActs, Valid}
use ulmk_boards.Tim.Valid.{serve_duty-Valid, pwm_set_enable-Valid, pwm_configure-Valid}

-- The kernel hands a message to the server, which answers it with one round.
abbrev pub deliver : Msg → PwmState → Rc × Rc × PwmState
deliver m p = let (rc, p') = pwm_server m p in (Rc.ok, rc, p')

pub data PwmCall : Type 0 where
  config : ℕ → ℕ → ℕ → PwmCall
  set_duty : ℕ → ℕ → PwmCall
  enable : ℕ → Bool → PwmCall

abbrev pub perform : PwmCall → PwmState → Rc × PwmState
perform (config n freq_hz duty) p = pwm_config true deliver n freq_hz duty p
perform (set_duty n duty) p = pwm_set_duty true deliver n duty p
perform (enable n on) p = pwm_enable true deliver n on p

abbrev pub perform_all : List PwmCall → PwmState → PwmState
perform_all [] p = p
perform_all (c ∷ cs) p = perform_all cs (perform c p).1

abbrev pub start : PwmState
start = record { channels = start_channels; acts = [] }

below : (n : ℕ) (b : Bool) → (leb pwm_max_ch n || b) ≡ false → leb pwm_max_ch (u8 n) ≡ false
below n b h = ground (arith, h)

below_both :
    (n : ℕ) (b c : Bool) → (leb pwm_max_ch n || b || c) ≡ false → leb pwm_max_ch (u8 n) ≡ false
below_both n b c h = ground (arith, h)

module _ (p : PwmState) (valid : Valid p) where
  config-Valid : (n freq_hz duty : ℕ) → Valid (perform (config n freq_hz duty) p).1
  unfolding pwm_config pwm_call pwm_server
  config-Valid n freq_hz duty =
      elim (Bool-cases (leb pwm_max_ch n || freq_hz == 0 || ltb 1000 duty)) [
        | inl e ↦ rw e valid
        | inr e ↦
            rw (e, below_both n (freq_hz == 0) (ltb 1000 duty) e)
              (pwm_configure-Valid (u8 n) p valid freq_hz duty (permille e))
      ]
    where
      permille : (leb pwm_max_ch n || freq_hz == 0 || ltb 1000 duty) ≡ false → duty ≤ 1000
      permille h = ground (arith, h)

  set_duty-Valid : (n duty : ℕ) → Valid (perform (set_duty n duty) p).1
  unfolding pwm_set_duty pwm_call pwm_server
  set_duty-Valid n duty = elim (Bool-cases (leb pwm_max_ch n || ltb 1000 duty)) [
    | inl e ↦ rw e valid
    | inr e ↦ rw (e, below n (ltb 1000 duty) e) (serve_duty-Valid (u8 n) p valid duty)
  ]

  enable-Valid : (n : ℕ) (on : Bool) → Valid (perform (enable n on) p).1
  unfolding pwm_enable pwm_call pwm_server
  enable-Valid n on = elim (Bool-cases (leb pwm_max_ch n)) [
    | inl e ↦ rw e valid
    | inr e ↦ rw (e, channel n e) (pwm_set_enable-Valid (u8 n) p valid _)
  ]
    where
      channel : (k : ℕ) → leb pwm_max_ch k ≡ false → leb pwm_max_ch (u8 k) ≡ false
      channel k h = ground (arith, h)

perform-Valid : (c : PwmCall) (p : PwmState) → Valid p → Valid (perform c p).1
perform-Valid (config n freq_hz duty) p valid = config-Valid p valid n freq_hz duty
perform-Valid (set_duty n duty) p valid = set_duty-Valid p valid n duty
perform-Valid (enable n on) p valid = enable-Valid p valid n on

all-Valid : (cs : List PwmCall) (p : PwmState) → Valid p → Valid (perform_all cs p)
all-Valid [] p valid = valid
all-Valid (c ∷ cs) p valid = all-Valid cs (perform c p).1 (perform-Valid c p valid)

-- After any calls of the client, one after the other, from the server's start on, and whatever
-- their arguments, each channel's period fits sixteen bits and its duty is at most 1000 per mille,
-- and no prescaler, reload or compare value written to a 16-bit register of a timer has been cut.
pub perform_all-Valid : (cs : List PwmCall) → Valid (perform_all cs start)
unfolding Valid AllChannels ChannelFits AllActs
perform_all-Valid cs =
    all-Valid cs start (((omega arith, omega arith), ((omega arith, omega arith), tt)), tt)
