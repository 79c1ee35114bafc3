-- ===== src/Tim/Fits.antt =====
-- The values that witte_linum/drivers/pwm/src/server.c keeps and writes.
use ulmk_boards.Base.{
  ℕ, zero, suc, ◌+◌, ◌-◌, ◌/◌, ◌≤◌, ◌≡◌, inl, inr, Bool, true, false, ◌||◌, Option, none, some,
  List, [], ◌∷◌, ◌++◌, if◌then◌else◌, ltb, ◌==◌, get_or, set, arith, Bool-cases,
}
use native.Mathlib.Nat.{mul-le-mul_left}
use ulmk_boards.Base.Word.{mul32, add32}
use ulmk_boards.Tim.Server.{
  PwmChannel, TimAct, set_prescaler, set_auto_reload, oc_set_compare, PwmState, no_channel,
  compare_of, divide,
}

unfoldable pub ChannelFits : PwmChannel → Type 0
ChannelFits ch = (ch.period ≤ 0xFFFF) × (ch.duty ≤ 1000)

unfoldable pub AllChannels : List PwmChannel → Type 0
AllChannels [] = Unit {0}
AllChannels (ch ∷ chs) = ChannelFits ch × AllChannels chs

-- A write to one of the 16-bit registers of a timer is one that the register holds.
unfoldable pub ActFits : TimAct → Type 0
ActFits (oc_set_compare n out v) = v ≤ 0xFFFF
ActFits (set_auto_reload n v) = v ≤ 0xFFFF
ActFits (set_prescaler n v) = v ≤ 0xFFFF
ActFits _ = Unit {0}

unfoldable pub AllActs : List TimAct → Type 0
AllActs [] = Unit {0}
AllActs (a ∷ s) = ActFits a × AllActs s

-- Each channel's period fits sixteen bits and its duty is at most 1000 per mille, and so far no
-- write to a 16-bit register of a timer has been cut.
unfoldable pub Valid : PwmState → Type 0
Valid p = AllChannels p.channels × AllActs p.acts

pub AllActs-append : (s t : List TimAct) → AllActs s → AllActs t → AllActs (s ++ t)
unfolding AllActs
AllActs-append [] t h k = k
AllActs-append (a ∷ s) t h k = (h.0, AllActs-append s t h.1 k)

pub set-AllChannels :
    (chs : List PwmChannel) (n : ℕ) (ch : PwmChannel)
    → AllChannels chs
    → ChannelFits ch
    → AllChannels (set chs n ch)
unfolding AllChannels
set-AllChannels [] n ch h k = tt
set-AllChannels (c ∷ chs) zero ch h k = (k, h.1)
set-AllChannels (c ∷ chs) (suc n) ch h k = (h.0, set-AllChannels chs n ch h.1 k)

pub get_or-ChannelFits :
    (chs : List PwmChannel) (n : ℕ) → AllChannels chs → ChannelFits (get_or chs n no_channel)
unfolding AllChannels ChannelFits
get_or-ChannelFits [] n h = (omega arith, omega arith)
get_or-ChannelFits (c ∷ chs) zero h = h.0
get_or-ChannelFits (c ∷ chs) (suc n) h = get_or-ChannelFits chs n h.1

-- The compare value is at most the period.
compare_of-le : (ch : PwmChannel) → ChannelFits ch → compare_of ch ≤ ch.period
unfolding compare_of ChannelFits
compare_of-le ch (period, duty) = elim (Bool-cases ch.enabled) [
  | inl e ↦ rw e (within ch.period ch.duty period duty)
  | inr e ↦ rw e (omega arith)
]
  where
    within : (m d : ℕ) → m ≤ 0xFFFF → d ≤ 1000 → mul32 m d / 1000 ≤ m
    within m d small permille = omega (arith, mul-le-mul_left m permille)

pub compare_of-ActFits : (ch : PwmChannel) → ChannelFits ch → compare_of ch ≤ 0xFFFF
unfolding ChannelFits
compare_of-ActFits ch h = omega (arith, compare_of-le ch h, h.0)

-- The prescaler and the reload value, where there are any.
unfoldable pub Found : Option (ℕ × ℕ) → Type 0
Found none = Unit {0}
Found (some (psc, arr)) = (psc ≤ 0xFFFF) × (arr ≤ 0xFFFF)

pub divide-Found : (ticks : ℕ) → Found (divide ticks)
unfolding divide Found
divide-Found ticks =
    let up = add32 ticks 65535 / 65536 in
    let psc = (if up == 0 then 1 else up) - 1 in
    let arr = ticks / (psc + 1) - 1 in
    elim (Bool-cases (ltb ticks 2)) [
      | inl few ↦ rw few tt
      | inr enough ↦ elim (Bool-cases (arr == 0 || ltb 0xFFFF arr || ltb 0xFFFF psc)) [
        | inl bad ↦ rw (enough, bad) tt
        | inr good ↦ rw (enough, good) (second arr psc good, first arr psc good)
      ]
    ]
  where
    first : (a b : ℕ) → (a == 0 || ltb 0xFFFF a || ltb 0xFFFF b) ≡ false → a ≤ 0xFFFF
    first a b h = ground (arith, h)

    second : (a b : ℕ) → (a == 0 || ltb 0xFFFF a || ltb 0xFFFF b) ≡ false → b ≤ 0xFFFF
    second a b h = ground (arith, h)

pub Found-if : (b : Bool) (x : Option (ℕ × ℕ)) → Found x → Found (if b then none else x)
unfolding Found
Found-if true x h = tt
Found-if false x h = h
