-- ===== src/Gpio/Routes.antt =====
-- The invariant of the ERU's channels in tc275_lite/drivers/gpio/src/server.c.
use ulmk_boards.Base.{
  ℕ, suc, ◌<◌, ◌≡◌, refl, sym, ap, subst, ◌∙◌, inl, inr, Bool, true, false, ◌&&◌, ◌||◌, Option,
  none, some, List, [], ◌∷◌, arith, ltb, ◌==◌, ==→eq, Bool-cases, if◌then◌else◌, get_or, set,
  length, length-set, get_or-set_self, get_or-set_ne,
}
use ulmk_boards.Kernel.{Rc, is_ok}
use ulmk_boards.Gpio.Eru.{
  Sub, EruPin, Gpio, eru_pins, find_pin, eru_lookup, keep_sub, put_sub, add_sub, arm_pin, arm_acts,
  new_sub, EruAct, eru_arm, do_subscribe, gpio_evt_none, fresh,
}
use ulmk_boards.Gpio.Mask.{clear, arm-lt, arm_other, clear-zero}

abbrev ChannelsBelow : List EruPin → Type 0
ChannelsBelow [] = Unit {0}
ChannelsBelow (p ∷ ps) = (p.ch < 8) × ChannelsBelow ps

pub some-injective {ℓ} : {A : Type ℓ} (a b : A) → some a ≡ some b → a ≡ b
some-injective a b q = cc q

find_pin-lt :
    (port pin : ℕ) (ps : List EruPin) (rp : EruPin)
    → ChannelsBelow ps
    → find_pin port pin ps ≡ some rp
    → rp.ch < 8
unfolding find_pin
find_pin-lt port pin [] rp h e = absurd (cc e)
find_pin-lt port pin (p ∷ ps) rp (lt, h) e = elim (Bool-cases (p.port == port && p.pin == pin)) [
  | inl here ↦ subst (λ k. k.ch < 8) (some-injective p rp (rw here at e)) lt
  | inr there ↦ find_pin-lt port pin ps rp h (rw there at e)
]

pub eru_lookup-lt : (enc : ℕ) (rp : EruPin) → eru_lookup enc ≡ some rp → rp.ch < 8
unfolding eru_lookup
eru_lookup-lt enc rp e = find_pin-lt _ _ eru_pins rp (omega arith) e

-- The pin that a channel is armed for is one that the channel serves.
pub record Routed (enc ch : ℕ) : Type 0 where
  pub found : EruPin
  pub lookup : eru_lookup enc ≡ some found
  pub serves : found.ch ≡ ch

pub record IsValid (g : Gpio) : Type 0 where
  pub four : length g.subs ≡ 4
  pub eight : length g.eru_enc ≡ 8
  pub mask : g.armed_mask < 256
  pub routed : (ch : ℕ) → ch < 8 → clear g.armed_mask ch ≡ false → Routed (get_or g.eru_enc ch 0) ch

pub fresh-IsValid : IsValid fresh
fresh-IsValid = record {
  four = refl;
  eight = refl;
  mask = omega arith;
  routed = λ ch lt armed. absurd (nothing_armed ch lt armed);
}
  where
    nothing_armed : (ch : ℕ) → ch < 8 → clear 0 ch ≡ false → ⊥
    nothing_armed ch lt armed = cc (clear-zero ch lt, armed)

pub arm_pin-IsValid :
    (g : Gpio) (enc : ℕ) (rp : EruPin)
    → IsValid g
    → eru_lookup enc ≡ some rp
    → IsValid (arm_pin g enc rp)
unfolding arm_pin
arm_pin-IsValid g enc rp v e = record {
  four = v.four;
  eight = length-set g.eru_enc rp.ch enc ∙ v.eight;
  mask = arm-lt g.armed_mask rp.ch v.mask (eru_lookup-lt enc rp e);
  routed = λ ch lt armed. elim (Bool-cases (ch == rp.ch)) [
    | inl same ↦
        let at : ch ≡ rp.ch = ==→eq ch rp.ch same in
        record {
          found = rp;
          lookup =
              ap eru_lookup (
                ap (λ k. get_or (set g.eru_enc rp.ch enc) k 0) at
                ∙ get_or-set_self g.eru_enc rp.ch enc 0
                    (omega (arith, v.eight, eru_lookup-lt enc rp e)))
              ∙ e;
          serves = sym at;
        }
    | inr other ↦
        let old = v.routed ch lt (
          sym (arm_other g.armed_mask rp.ch ch v.mask (eru_lookup-lt enc rp e) lt other) ∙ armed) in
        subst (λ k. Routed k ch)
          (sym (get_or-set_ne g.eru_enc rp.ch ch enc 0 (λ q. absurd (ground (arith, other, q)))))
          old
  ];
}

keep_sub-some :
    (t : Sub) (r : Option (List Sub)) (subs : List Sub)
    → keep_sub t r ≡ some subs
    → (rest : List Sub) × (r ≡ some rest) × (t ∷ rest ≡ subs)
keep_sub-some t none subs e = absurd (cc e)
keep_sub-some t (some rest) subs e = (rest, refl, cc e)

-- The table after an entry is put in: the first inactive entry is the new one.
pub data Put (s : Sub) : List Sub → List Sub → Type 0 where
  here : {t : Sub} {subs : List Sub} → t.active ≡ false → Put s (t ∷ subs) (s ∷ subs)
  there :
      {t : Sub} {subs rest : List Sub}
      → t.active ≡ true
      → Put s subs rest
      → Put s (t ∷ subs) (t ∷ rest)

pub put_sub-Put : (s : Sub) (subs subs' : List Sub) → put_sub s subs ≡ some subs' → Put s subs subs'
unfolding put_sub
put_sub-Put s [] subs' e = absurd (cc e)
put_sub-Put s (t ∷ subs) subs' e = elim (Bool-cases t.active) [
  | inl busy ↦
      let (rest, f, q) = keep_sub-some t (put_sub s subs) subs' (ap at (sym busy) ∙ e) in
      subst (λ k. Put s (t ∷ subs) k) q (there busy (put_sub-Put s subs rest f))
  | inr free ↦
      subst (λ k. Put s (t ∷ subs) k) (some-injective (s ∷ subs) subs' (ap at (sym free) ∙ e))
        (here free)
]
  where
    at : Bool → Option (List Sub)
    at b = if b then keep_sub t (put_sub s subs) else some (s ∷ subs)

length-Put : {s : Sub} {subs subs' : List Sub} → Put s subs subs' → length subs' ≡ length subs
length-Put (here free) = refl
length-Put (there busy h) = ap suc (length-Put h)

-- The two results of adding an entry.
pub data Added (s : Sub) (g : Gpio) : Rc × Gpio → Type 0 where
  refused : put_sub s g.subs ≡ none → Added s g (Rc.enomem, g)
  added :
      (subs : List Sub) → put_sub s g.subs ≡ some subs → Added s g (Rc.ok, record g { subs = subs })

pub add_sub-Added : (s : Sub) (g : Gpio) → Added s g (add_sub s g)
unfolding add_sub
add_sub-Added s g = at (put_sub s g.subs) refl
  where
    at :
        (r : Option (List Sub))
        → put_sub s g.subs ≡ r
        → Added s g
            (elim r [ none ↦ (Rc.enomem, g) | some subs ↦ (Rc.ok, record g { subs = subs }) ])
    at none e = refused e
    at (some subs) e = added subs e

Added-IsValid : {s : Sub} {g : Gpio} {r : Rc × Gpio} → IsValid g → Added s g r → IsValid r.1
Added-IsValid v (refused e) = v
Added-IsValid {s} {g} v (added subs e) = record {
  four = length-Put (put_sub-Put s g.subs subs e) ∙ v.four;
  eight = v.eight;
  mask = v.mask;
  routed = v.routed;
}

-- The results of subscribing.
pub data Subscribed (g : Gpio) (enc edge n bit : ℕ) : Rc × List EruAct × Gpio → Type 0 where
  invalid : Subscribed g enc edge n bit (Rc.einval, [], g)
  armed :
      (rp : EruPin) {r : Rc × Gpio}
      → eru_lookup enc ≡ some rp
      → Added (new_sub enc edge n bit) (arm_pin g enc rp) r
      → Subscribed g enc edge n bit (r.0, arm_acts rp edge g.ogu0_armed, r.1)

pub do_subscribe-Subscribed :
    (g : Gpio) (enc edge n bit : ℕ) → Subscribed g enc edge n bit (do_subscribe g enc edge n bit)
unfolding do_subscribe eru_arm
do_subscribe-Subscribed g enc edge n bit = elim (Bool-cases (edge == gpio_evt_none || ltb 31 bit)) [
  | inl bad ↦ rw bad invalid
  | inr fine ↦ rw fine (at (eru_lookup enc) refl)
]
  where
    at :
        (r : Option EruPin)
        → eru_lookup enc ≡ r
        → Subscribed g enc edge n bit (elim r [
          | none ↦ (Rc.einval, [], g)
          | some _ ↦
              let (rc, acts, g1) = eru_arm g enc edge in
              let (rc', g2) = add_sub (new_sub enc edge n bit) g1 in
              if is_ok rc then (rc', acts, g2) else (rc, acts, g1)
        ])
    at none e = invalid
    at (some rp) e = rw (eru_arm, e) (armed rp e (add_sub-Added _ _))

-- Subscribing keeps the invariant of a valid driver, whatever its arguments and its result: the
-- tables keep their lengths, and every channel that is armed is armed for a pin that it serves.
pub do_subscribe-IsValid :
    (g : Gpio) (enc edge n bit : ℕ) → IsValid g → IsValid (do_subscribe g enc edge n bit).2
do_subscribe-IsValid g enc edge n bit v = keeps (do_subscribe-Subscribed g enc edge n bit)
  where
    keeps : {r : Rc × List EruAct × Gpio} → Subscribed g enc edge n bit r → IsValid r.2
    keeps invalid = v
    keeps (armed rp e a) = Added-IsValid (arm_pin-IsValid g enc rp v e) a
