-- ===== src/Tim/Server.antt =====
-- witte_linum/drivers/pwm/src/server.c: the period and the compare value of a timer, and the messages.
-- The calls of the vendor's timer library and of the pin multiplexer are a list of acts in order.
use ulmk_boards.Base.{
  ℕ, ◌+◌, ◌-◌, ◌/◌, Bool, true, false, not, ◌||◌, ◌&&◌, Option, none, some, List, [], ◌∷◌, ◌++◌,
  ◌==◌, ltb, leb, if◌then◌else◌, get_or, set,
}
use ulmk_boards.Base.Word.{u8, mul32, add32}
use ulmk_boards.Kernel.{Rc, Msg}

abbrev pub pwm_max_ch : ℕ
pwm_max_ch = 2

abbrev pub pwm_tim_clk_hz : ℕ
pwm_tim_clk_hz = 240000000

abbrev pub pwm_msg_config : ℕ
pwm_msg_config = 1

abbrev pub pwm_msg_duty : ℕ
pwm_msg_duty = 2

abbrev pub pwm_msg_enable : ℕ
pwm_msg_enable = 3

-- A channel: `output` is the timer's output, 1 or 2, the field `channel` of the source.
pub record PwmChannel : Type 0 where
  pub port : ℕ
  pub pin : ℕ
  pub af : ℕ
  pub output : ℕ
  pub period : ℕ
  pub duty : ℕ
  pub configured : Bool
  pub enabled : Bool

-- Calls of the timer library on the timer of channel `n`, each named for what follows LL_TIM_ in its
-- name, and the pin multiplexer's configuration of a port, a pin and a function.
pub data TimAct : Type 0 where
  pinmux : ℕ → ℕ → ℕ → TimAct
  disable_counter enable_counter enable_arr_preload generate_update counter_mode_up : ℕ → TimAct
  set_prescaler set_auto_reload : ℕ → ℕ → TimAct
  oc_pwm1 oc_polarity_high oc_enable_preload cc_enable cc_disable : ℕ → ℕ → TimAct
  oc_set_compare : ℕ → ℕ → ℕ → TimAct

-- The server's variable g_channels, whose timers are mapped, and the acts so far.
pub record PwmState : Type 0 where
  pub channels : List PwmChannel
  pub acts : List TimAct

abbrev pub no_channel : PwmChannel
no_channel = record {
  port = 0;
  pin = 0;
  af = 0;
  output = 0;
  period = 0;
  duty = 0;
  configured = false;
  enabled = false;
}

abbrev pub channel_of : ℕ → PwmState → PwmChannel
channel_of n p = get_or p.channels n no_channel

-- The output that a call on the channel is for.
abbrev pub output_of : PwmChannel → ℕ
output_of ch = if ch.output == 1 then 1 else 2

unfoldable pub compare_of : PwmChannel → ℕ
compare_of ch = if not ch.enabled then 0 else mul32 ch.period ch.duty / 1000

abbrev pub pwm_apply_duty : ℕ → PwmChannel → List TimAct
pwm_apply_duty n ch = oc_set_compare n (output_of ch) (compare_of ch) ∷ []

-- The prescaler and the reload value for a number of ticks; `none` where they do not fit.
unfoldable pub divide : ℕ → Option (ℕ × ℕ)
divide ticks =
    let up = add32 ticks 65535 / 65536 in
    let psc = (if up == 0 then 1 else up) - 1 in
    let arr = ticks / (psc + 1) - 1 in
    if ltb ticks 2
    then none
    else if arr == 0 || ltb 0xFFFF arr || ltb 0xFFFF psc
    then none
    else some (psc, arr)

abbrev configure_acts : ℕ → PwmChannel → ℕ → ℕ → List TimAct
configure_acts n ch psc arr =
    let out = output_of ch in
    (pinmux ch.port ch.pin ch.af
      ∷ disable_counter n
      ∷ set_prescaler n psc
      ∷ set_auto_reload n arr
      ∷ counter_mode_up n
      ∷ oc_pwm1 n out
      ∷ oc_polarity_high n out
      ∷ oc_enable_preload n out
      ∷ enable_arr_preload n
      ∷ pwm_apply_duty n ch)
    ++ generate_update n ∷ []

-- The rest of `pwm_configure`, with a prescaler and a reload value or none.
unfoldable pub configure_with : ℕ → ℕ → Option (ℕ × ℕ) → PwmState → Rc × PwmState
configure_with n duty none p = (Rc.einval, p)
configure_with n duty (some (psc, arr)) p =
    let ch : PwmChannel = record (channel_of n p) {
      period = arr;
      duty = duty;
      configured = true;
    } in
    (Rc.ok, record { channels = set p.channels n ch; acts = p.acts ++ configure_acts n ch psc arr })

-- The timer of the channel is mapped.
unfoldable pub pwm_configure : ℕ → ℕ → ℕ → PwmState → Rc × PwmState
pwm_configure n freq_hz duty p =
    configure_with n duty (if freq_hz == 0 then none else divide (pwm_tim_clk_hz / freq_hz)) p

unfoldable pub pwm_set_enable : ℕ → Bool → PwmState → Rc × PwmState
pwm_set_enable n on p =
    let ch = channel_of n p in
    let ch1 : PwmChannel = record ch { enabled = on } in
    let switch = (if on then cc_enable n (output_of ch) else cc_disable n (output_of ch)) in
    let counter = (if on then enable_counter n ∷ [] else []) in
    let p1 : PwmState = record {
      channels = set p.channels n ch1;
      acts = (p.acts ++ pwm_apply_duty n ch1) ++ switch ∷ counter;
    } in
    if not ch.configured then (Rc.einval, p) else (Rc.ok, p1)

-- The message that sets a duty, which the loop of the server handles itself.
unfoldable pub serve_duty : ℕ → ℕ → PwmState → Rc × PwmState
serve_duty n duty p =
    let ch = channel_of n p in
    let ch1 : PwmChannel = record ch { duty = duty } in
    let p1 : PwmState = record {
      channels = set p.channels n ch1;
      acts = p.acts ++ pwm_apply_duty n ch1;
    } in
    if leb duty 1000 && ch.configured then (Rc.ok, p1) else (Rc.einval, p)

-- A round of the server: word 0 of its reply, and its state.
unfoldable pub pwm_server : Msg → PwmState → Rc × PwmState
pwm_server m p =
    let n = u8 (get_or m.words 0 0) in
    let w1 = get_or m.words 1 0 in
    if leb pwm_max_ch n
    then (Rc.einval, p)
    else if m.label == pwm_msg_config
    then pwm_configure n w1 (get_or m.words 2 0) p
    else if m.label == pwm_msg_duty
    then serve_duty n w1 p
    else if m.label == pwm_msg_enable
    then pwm_set_enable n (not (w1 == 0)) p
    else (Rc.einval, p)

-- The channels as the server sets them up before its first message.
abbrev pub start_channels : List PwmChannel
start_channels =
    record no_channel { port = 7; pin = 6; af = 2; output = 1 }
    ∷ record no_channel { port = 1; pin = 7; af = 2; output = 2 }
    ∷ []
