-- ===== src/Gpio/Eru.antt =====
-- Edge events of tc275_lite/drivers/gpio/src/server.c: the pins of the ERU, arming a channel,
-- subscribing, and a round of the interrupt server. The ERU's registers are reached through the
-- vendor's library: its calls are a list of acts in order.
use ulmk_boards.Base.{
  ℕ, zero, suc, ◌+◌, ◌/◌, ◌^◌, Bool, true, false, not, ◌&&◌, ◌||◌, Option, none, some, List, [],
  ◌∷◌, ◌++◌, ltb, ◌==◌, if◌then◌else◌, get_or, set, replicate, bit_and, bit_or,
}
use ulmk_boards.Base.Word.{u8, ◌<<◌}
use ulmk_boards.Kernel.{Rc, is_ok}

abbrev pub gpio_max_subs : ℕ
gpio_max_subs = 4

abbrev pub gpio_eru_ch_max : ℕ
gpio_eru_ch_max = 8

abbrev pub gpio_evt_none : ℕ
gpio_evt_none = 0

abbrev pub gpio_evt_falling : ℕ
gpio_evt_falling = 1

abbrev pub gpio_evt_rising : ℕ
gpio_evt_rising = 2

-- `struct gpio_sub`
pub record Sub : Type 0 where
  pub pin : ℕ
  pub edge : ℕ
  pub notif : ℕ
  pub bit : ℕ
  pub active : Bool

abbrev pub no_sub : Sub
no_sub = record { pin = 0; edge = 0; notif = 0; bit = 0; active = false }

-- `struct eru_pin`
pub record EruPin : Type 0 where
  pub port : ℕ
  pub pin : ℕ
  pub ch : ℕ
  pub sel : ℕ

abbrev pub eru_pin : ℕ → ℕ → ℕ → ℕ → EruPin
eru_pin port pin ch sel = record { port = port; pin = pin; ch = ch; sel = sel }

abbrev pub eru_pins : List EruPin
eru_pins =
    eru_pin 15 4 0 0
    ∷ eru_pin 10 7 0 2
    ∷ eru_pin 14 3 1 0
    ∷ eru_pin 10 8 1 2
    ∷ eru_pin 10 2 2 0
    ∷ eru_pin 2 1 2 1
    ∷ eru_pin 0 4 2 2
    ∷ eru_pin 10 3 3 0
    ∷ eru_pin 14 1 3 1
    ∷ eru_pin 2 0 3 2
    ∷ eru_pin 33 7 4 0
    ∷ eru_pin 15 5 4 3
    ∷ eru_pin 15 8 5 0
    ∷ eru_pin 20 0 6 0
    ∷ eru_pin 11 10 6 3
    ∷ eru_pin 20 9 7 0
    ∷ eru_pin 15 1 7 2
    ∷ []

-- `g_subs`, `g_eru_enc`, `g_eru_armed_mask` and `g_ogu0_armed`.
pub record Gpio : Type 0 where
  pub subs : List Sub
  pub eru_enc : List ℕ
  pub armed_mask : ℕ
  pub ogu0_armed : Bool

abbrev pub fresh : Gpio
fresh = record {
  subs = replicate 4 no_sub;
  eru_enc = replicate 8 0;
  armed_mask = 0;
  ogu0_armed = false;
}

-- The calls of the vendor's library.
pub data EruAct : Type 0 where
  select_external_input connect_trigger : ℕ → ℕ → EruAct
  disable_rising disable_falling enable_rising enable_falling : ℕ → EruAct
  enable_trigger_pulse clear_event_flag : ℕ → EruAct
  gate_always_active : EruAct

unfoldable pub find_pin : ℕ → ℕ → List EruPin → Option EruPin
find_pin port pin [] = none
find_pin port pin (p ∷ ps) = if p.port == port && p.pin == pin then some p else find_pin port pin ps

unfoldable pub eru_lookup : ℕ → Option EruPin
eru_lookup enc = find_pin (u8 (enc / 2 ^ 8)) (bit_and enc 0xFF) eru_pins

-- The signals that are sent: to which notification, with which bits.
unfoldable pub defer_subs : ℕ → List Sub → List (ℕ × ℕ)
defer_subs enc [] = []
defer_subs enc (s ∷ subs) =
    let rest = defer_subs enc subs in
    if not s.active || not (s.pin == enc) then rest else (s.notif, 1 << s.bit) ∷ rest

abbrev pub arm_acts : EruPin → ℕ → Bool → List EruAct
arm_acts rp edge gated =
    select_external_input rp.ch rp.sel
      ∷ disable_rising rp.ch
      ∷ disable_falling rp.ch
      ∷ (if bit_and edge gpio_evt_rising == 0 then [] else enable_rising rp.ch ∷ [])
    ++ ((if bit_and edge gpio_evt_falling == 0 then [] else enable_falling rp.ch ∷ [])
        ++ (enable_trigger_pulse rp.ch
            ∷ connect_trigger rp.ch 0
            ∷ ((if gated then [] else gate_always_active ∷ []) ++ clear_event_flag rp.ch ∷ [])))

-- The second half of `eru_arm`, for the pin that was found.
unfoldable pub arm_pin : Gpio → ℕ → EruPin → Gpio
arm_pin g enc rp = record g {
  ogu0_armed = true;
  eru_enc = set g.eru_enc rp.ch enc;
  armed_mask = bit_or g.armed_mask (u8 (1 << rp.ch));
}

unfoldable pub eru_arm : Gpio → ℕ → ℕ → Rc × List EruAct × Gpio
eru_arm g enc edge = elim (eru_lookup enc) [
  | none ↦ (Rc.einval, [], g)
  | some rp ↦ (Rc.ok, arm_acts rp edge g.ogu0_armed, arm_pin g enc rp)
]

abbrev pub keep_sub : Sub → Option (List Sub) → Option (List Sub)
keep_sub t none = none
keep_sub t (some subs) = some (t ∷ subs)

-- The first inactive entry is replaced; `none`: there is none.
unfoldable pub put_sub : Sub → List Sub → Option (List Sub)
put_sub s [] = none
put_sub s (t ∷ subs) = if t.active then keep_sub t (put_sub s subs) else some (s ∷ subs)

-- The last loop of `do_subscribe`, after arming.
unfoldable pub add_sub : Sub → Gpio → Rc × Gpio
add_sub s g = elim (put_sub s g.subs) [
  | none ↦ (Rc.enomem, g)
  | some subs ↦ (Rc.ok, record g { subs = subs })
]

abbrev pub new_sub : ℕ → ℕ → ℕ → ℕ → Sub
new_sub enc edge n bit = record { pin = enc; edge = edge; notif = n; bit = bit; active = true }

unfoldable pub do_subscribe : Gpio → ℕ → ℕ → ℕ → ℕ → Rc × List EruAct × Gpio
do_subscribe g enc edge n bit =
    if edge == gpio_evt_none || ltb 31 bit then (Rc.einval, [], g) else elim (eru_lookup enc) [
      | none ↦ (Rc.einval, [], g)
      | some _ ↦
          let (rc, acts, g1) = eru_arm g enc edge in
          let (rc', g2) = add_sub (new_sub enc edge n bit) g1 in
          if is_ok rc then (rc', acts, g2) else (rc, acts, g1)
    ]

-- What the interrupt server does for channel `ch`, whose event flag is `flag`.
unfoldable pub channel_event : Gpio → Bool → ℕ → List EruAct × List (ℕ × ℕ)
channel_event g flag ch = if not flag then ([], []) else (
  clear_event_flag ch ∷ [],
  if bit_and g.armed_mask (u8 (1 << ch)) == 0
      then []
      else defer_subs (get_or g.eru_enc ch 0) g.subs,
)

-- The loop over the channels from `ch` on: `flag` is the event flag of each when it is read.
unfoldable pub gpio_irq_round : Gpio → (ℕ → Bool) → ℕ → ℕ → List EruAct × List (ℕ × ℕ)
gpio_irq_round g flag zero ch = ([], [])
gpio_irq_round g flag (suc left) ch =
    let (acts, signals) = channel_event g (flag ch) ch in
    let (acts', signals') = gpio_irq_round g flag left (ch + 1) in
    (acts ++ acts', signals ++ signals')
