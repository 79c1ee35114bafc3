-- ===== src/Gpio/Events.antt =====
-- Who is told of an edge after a subscription, in tc275_lite/drivers/gpio/src/server.c.
use ulmk_boards.Base.{
  ℕ, ◌<◌, ◌≡◌, refl, sym, ap, subst, ◌∙◌, Bool, true, false, ◌&&◌, ◌||◌, none, some, List, [], ◌∷◌,
  arith, ltb, ◌==◌, if◌then◌else◌, get_or, set, get_or-set_self,
}
use ulmk_boards.Base.Word.{◌<<◌}
use ulmk_boards.Kernel.{Rc}
use ulmk_boards.Gpio.Eru.{
  Sub, EruPin, Gpio, EruAct, eru_lookup, eru_arm, defer_subs, keep_sub, put_sub, add_sub, arm_pin,
  arm_acts, new_sub, do_subscribe, channel_event, gpio_evt_none,
}
use ulmk_boards.Gpio.Mask.{arm_self}
use ulmk_boards.Gpio.Routes.{
  IsValid, Subscribed, do_subscribe-Subscribed, eru_lookup-lt, Put, here, there, put_sub-Put,
  invalid, armed, refused, added, some-injective,
}

-- Whether a notification is signalled with a word.
abbrev pub sent : ℕ → ℕ → List (ℕ × ℕ) → Bool
sent n w [] = false
sent n w ((m, v) ∷ rest) = (m == n && v == w) || sent n w rest

-- No entry in use is for the pin.
abbrev pub Unwatched : ℕ → List Sub → Type 0
Unwatched enc [] = Unit {0}
Unwatched enc (s ∷ subs) = ((s.active && s.pin == enc) ≡ false) × Unwatched enc subs

-- Every entry is in use.
abbrev pub AllActive : List Sub → Type 0
AllActive [] = Unit {0}
AllActive (s ∷ subs) = (s.active ≡ true) × AllActive subs

defer_subs-Unwatched : (enc : ℕ) (subs : List Sub) → Unwatched enc subs → defer_subs enc subs ≡ []
unfolding defer_subs
defer_subs-Unwatched enc [] h = refl
defer_subs-Unwatched enc (s ∷ subs) (off, h) =
    let rest = defer_subs-Unwatched enc subs h in ground (arith, off, rest)

put_sub-AllActive : (s : Sub) (subs : List Sub) → AllActive subs → put_sub s subs ≡ none
unfolding put_sub
put_sub-AllActive s [] h = refl
put_sub-AllActive s (t ∷ subs) (on, h) =
    ap (λ b. if b then keep_sub t (put_sub s subs) else some (s ∷ subs)) on
    ∙ ap (keep_sub t) (put_sub-AllActive s subs h)

-- What an event on the channel of an armed pin does.
channel_event-arm_pin :
    (g : Gpio) (enc : ℕ) (rp : EruPin) (subs : List Sub)
    → IsValid g
    → eru_lookup enc ≡ some rp
    → (channel_event (record (arm_pin g enc rp) { subs = subs }) true rp.ch).1 ≡ defer_subs enc subs
unfolding channel_event arm_pin
channel_event-arm_pin g enc rp subs v e =
    let on = arm_self g.armed_mask rp.ch v.mask (eru_lookup-lt enc rp e) in
    let at =
      get_or-set_self g.eru_enc rp.ch enc 0 (omega (arith, v.eight, eru_lookup-lt enc rp e)) in
    ap (λ b. if b then [] else defer_subs (get_or (set g.eru_enc rp.ch enc) rp.ch 0) subs) on
    ∙ ap (λ k. defer_subs k subs) at

defer_subs-skip :
    (enc : ℕ) (s : Sub) (subs : List Sub)
    → (s.active && s.pin == enc) ≡ false
    → defer_subs enc (s ∷ subs) ≡ defer_subs enc subs
unfolding defer_subs
defer_subs-skip enc s subs off = ground (arith, off)

defer_subs-hit :
    (s : Sub) (subs : List Sub)
    → s.active ≡ true
    → defer_subs s.pin (s ∷ subs) ≡ (s.notif, 1 << s.bit) ∷ defer_subs s.pin subs
unfolding defer_subs
defer_subs-hit s subs on = ground (arith, on)

sent-defer_subs :
    (n w enc : ℕ) (s : Sub) (subs : List Sub)
    → sent n w (defer_subs enc subs) ≡ true
    → sent n w (defer_subs enc (s ∷ subs)) ≡ true
unfolding defer_subs
sent-defer_subs n w enc s subs h = ground (arith, h)

defer_subs-Put :
    {s : Sub} {subs subs' : List Sub}
    → s.active ≡ true
    → Unwatched s.pin subs
    → Put s subs subs'
    → defer_subs s.pin subs' ≡ (s.notif, 1 << s.bit) ∷ []
defer_subs-Put {s} on h (here {subs} free) =
    defer_subs-hit s subs on
    ∙ ap (λ k. (s.notif, 1 << s.bit) ∷ k) (defer_subs-Unwatched s.pin subs h.1)
defer_subs-Put {s} on h (there {t} {rest} busy p) =
    defer_subs-skip s.pin t rest h.0 ∙ defer_subs-Put on h.1 p

sent-Put :
    {s : Sub} {subs subs' : List Sub}
    → s.active ≡ true
    → Put s subs subs'
    → sent s.notif (1 << s.bit) (defer_subs s.pin subs') ≡ true
sent-Put {s} on (here {subs} free) =
    ap (sent s.notif (1 << s.bit)) (defer_subs-hit s subs on) ∙ ground arith
sent-Put {s} on (there {t} {rest} busy p) =
    sent-defer_subs s.notif (1 << s.bit) s.pin t rest (sent-Put on p)

eru_arm-found :
    (g : Gpio) (enc edge : ℕ) (rp : EruPin)
    → eru_lookup enc ≡ some rp
    → eru_arm g enc edge ≡ (Rc.ok, arm_acts rp edge g.ogu0_armed, arm_pin g enc rp)
unfolding eru_arm
eru_arm-found g enc edge rp e = rw (eru_arm, e) refl

add_sub-none : (s : Sub) (g : Gpio) → put_sub s g.subs ≡ none → add_sub s g ≡ (Rc.enomem, g)
unfolding add_sub
add_sub-none s g no_room = rw (add_sub, no_room) refl

do_subscribe-full :
    (g : Gpio) (enc edge n bit : ℕ) (rp : EruPin)
    → eru_lookup enc ≡ some rp
    → put_sub (new_sub enc edge n bit) g.subs ≡ none
    → (edge == gpio_evt_none) ≡ false
    → bit < 32
    → do_subscribe g enc edge n bit ≡ (Rc.enomem, arm_acts rp edge g.ogu0_armed, arm_pin g enc rp)
unfolding do_subscribe arm_pin
do_subscribe-full g enc edge n bit rp e no_room some_edge lt =
    let fine : (edge == gpio_evt_none || ltb 31 bit) ≡ false = ground (arith, some_edge, lt) in
    rw
      (
        fine,
        e,
        eru_arm-found g enc edge rp e,
        add_sub-none (new_sub enc edge n bit) (arm_pin g enc rp) no_room,
      )
      refl

-- After a subscription that succeeds on a valid driver, an event on the pin's channel signals the
-- subscriber's notification with its bit.
pub do_subscribe-sent :
    (g : Gpio) (enc edge n bit : ℕ) (rp : EruPin)
    → IsValid g
    → eru_lookup enc ≡ some rp
    → (do_subscribe g enc edge n bit).0 ≡ Rc.ok
    → sent n (1 << bit) (channel_event (do_subscribe g enc edge n bit).2 true rp.ch).1 ≡ true
unfolding arm_pin
do_subscribe-sent g enc edge n bit rp v e ok = at (do_subscribe-Subscribed g enc edge n bit) ok
  where
    at :
        {r : Rc × List EruAct × Gpio}
        → Subscribed g enc edge n bit r
        → r.0 ≡ Rc.ok
        → sent n (1 << bit) (channel_event r.2 true rp.ch).1 ≡ true
    at invalid q = absurd (cc q)
    at (armed rp' e' (refused f)) q = absurd (cc q)
    at (armed rp' e' (added subs f)) q =
        let seen = channel_event-arm_pin g enc rp' subs v e' in
        let told = sent-Put {s = new_sub enc edge n bit} refl (put_sub-Put _ g.subs subs f) in
        subst
          (λ k.
            sent n (1 << bit)
              (channel_event (record (arm_pin g enc rp') { subs = subs }) true k.ch).1
            ≡ true)
          (some-injective rp' rp (sym e' ∙ e)) (ap (sent n (1 << bit)) seen ∙ told)

-- After a subscription that succeeds on a valid driver, where no earlier entry in use is for the
-- pin, an event on the pin's channel signals the new subscriber and no other: also none that had
-- subscribed another pin of the same channel.
pub do_subscribe-takes_over :
    (g : Gpio) (enc edge n bit : ℕ) (rp : EruPin)
    → IsValid g
    → eru_lookup enc ≡ some rp
    → Unwatched enc g.subs
    → (do_subscribe g enc edge n bit).0 ≡ Rc.ok
    → (channel_event (do_subscribe g enc edge n bit).2 true rp.ch).1 ≡ (n, 1 << bit) ∷ []
unfolding arm_pin
do_subscribe-takes_over g enc edge n bit rp v e h ok =
    at (do_subscribe-Subscribed g enc edge n bit) ok
  where
    at :
        {r : Rc × List EruAct × Gpio}
        → Subscribed g enc edge n bit r
        → r.0 ≡ Rc.ok
        → (channel_event r.2 true rp.ch).1 ≡ (n, 1 << bit) ∷ []
    at invalid q = absurd (cc q)
    at (armed rp' e' (refused f)) q = absurd (cc q)
    at (armed rp' e' (added subs f)) q =
        let seen = channel_event-arm_pin g enc rp' subs v e' in
        let told =
          defer_subs-Put {s = new_sub enc edge n bit} refl h (put_sub-Put _ g.subs subs f) in
        subst
          (λ k.
            (channel_event (record (arm_pin g enc rp') { subs = subs }) true k.ch).1
            ≡ (n, 1 << bit) ∷ [])
          (some-injective rp' rp (sym e' ∙ e)) (seen ∙ told)

-- When all entries of a valid driver are in use and none is for the pin, subscribing with a valid
-- edge and bit reports that there is no memory, and an event on the pin's channel then signals
-- nobody.
pub do_subscribe-silences :
    (g : Gpio) (enc edge n bit : ℕ) (rp : EruPin)
    → IsValid g
    → eru_lookup enc ≡ some rp
    → AllActive g.subs
    → Unwatched enc g.subs
    → (edge == gpio_evt_none) ≡ false
    → bit < 32
    → ((do_subscribe g enc edge n bit).0 ≡ Rc.enomem)
      × ((channel_event (do_subscribe g enc edge n bit).2 true rp.ch).1 ≡ [])
unfolding arm_pin
do_subscribe-silences g enc edge n bit rp v e full h some_edge lt =
    let no_room = put_sub-AllActive (new_sub enc edge n bit) g.subs full in
    let nobody = channel_event-arm_pin g enc rp g.subs v e ∙ defer_subs-Unwatched enc g.subs h in
    subst (λ r. (r.0 ≡ Rc.enomem) × ((channel_event r.2 true rp.ch).1 ≡ []))
      (sym (do_subscribe-full g enc edge n bit rp e no_room some_edge lt)) (refl, nobody)
