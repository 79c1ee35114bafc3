-- ===== src/Ledc/Server.antt =====
-- esp32p4_ev_function/drivers/pwm/src/server.c: the messages of the PWM server.
use ulmk_boards.Base.{
  ℕ, Bool, false, not, Option, some, List, [], ◌∷◌, ◌==◌, ltb, leb, if◌then◌else◌, get_or, set,
}
use mathlib.Core.Option
use ulmk_boards.Base.Word.{u8}
use ulmk_boards.Kernel.{Rc, is_ok, Msg}
use ulmk_boards.Pinmux.Server.{EspIo}
use ulmk_boards.Ledc.Hw.{pwm_max_ch, pwm_hw_init, pwm_hw_config, pwm_hw_set_duty, pwm_hw_enable}

abbrev pub pwm_msg_config : ℕ
pwm_msg_config = 1

abbrev pub pwm_msg_duty : ℕ
pwm_msg_duty = 2

abbrev pub pwm_msg_enable : ℕ
pwm_msg_enable = 3

abbrev pub g_pin : List ℕ
g_pin = 26 ∷ []

-- The server's variables g_duty, g_on and g_hw_ok, and the accesses to the registers so far.
pub record Pwm : Type 0 where
  pub duty : List ℕ
  pub on : List Bool
  pub hw_ok : Bool
  pub io : List EspIo

abbrev with_io : Pwm → Rc × List EspIo → Rc × Pwm
with_io p (rc, io) = (rc, record p { io = io })

unfoldable pub do_duty : ℕ → ℕ → Pwm → Rc × Pwm
do_duty n duty p =
    let permille = (if ltb 1000 duty then 1000 else duty) in
    let p1 : Pwm = record p { duty = set p.duty n permille } in
    if leb pwm_max_ch n
    then (Rc.einval, p)
    else if not p.hw_ok
    then (Rc.enotsup, p1)
    else with_io p1 (pwm_hw_set_duty n (get_or p1.duty n 0) (get_or p.on n false) p.io)

unfoldable pub do_enable : ℕ → Bool → Pwm → Rc × Pwm
do_enable n on p =
    let p1 : Pwm = record p { on = set p.on n on } in
    if leb pwm_max_ch n
    then (Rc.einval, p)
    else if not p.hw_ok
    then (Rc.enotsup, p1)
    else with_io p1 (pwm_hw_enable n (get_or p.duty n 0) on p.io)

abbrev pub reset : Pwm
reset = record { duty = 0 ∷ []; on = false ∷ []; hw_ok = false; io = [] }

module _ (val : List EspIo → ℕ) where
  -- What the server does before its first message.
  unfoldable pub pwm_start : Pwm → Option Pwm
  pwm_start p = Option.map (λ r. record p { hw_ok = is_ok r.0; io = r.1 }) (pwm_hw_init val p.io)

  unfoldable pub do_config : ℕ → ℕ → ℕ → Pwm → Option (Rc × Pwm)
  do_config n freq duty p =
      let permille = (if ltb 1000 duty then 1000 else duty) in
      let p1 : Pwm = record p { duty = set p.duty n permille } in
      let hz = (if freq == 0 then 1000 else freq) in
      if leb pwm_max_ch n
      then some (Rc.einval, p)
      else if not p.hw_ok
      then some (Rc.enotsup, p1)
      else Option.map (with_io p1)
          (pwm_hw_config val n (get_or g_pin n 0) hz (get_or p1.duty n 0) p.io)

  -- A round of the server: word 0 of its reply, and its state.
  unfoldable pub pwm_server : Msg → Pwm → Option (Rc × Pwm)
  pwm_server m p =
      let n = u8 (get_or m.words 0 0) in
      let w1 = get_or m.words 1 0 in
      if m.label == pwm_msg_config
      then do_config n w1 (get_or m.words 2 0) p
      else if m.label == pwm_msg_duty
      then some (do_duty n w1 p)
      else if m.label == pwm_msg_enable
      then some (do_enable n (not (w1 == 0)) p)
      else some (Rc.einval, p)

  -- The server on the messages, one after the other.
  unfoldable pub serve_all : List Msg → Pwm → Option Pwm
  serve_all [] p = some p
  serve_all (m ∷ ms) p = Option.bind (pwm_server m p) (λ r. serve_all ms r.1)

  -- The server from its start on; its variables are zero at reset.
  unfoldable pub run : List Msg → Option Pwm
  run ms = Option.bind (pwm_start reset) (serve_all ms)
