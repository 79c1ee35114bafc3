-- ===== src/Gpio/Tests.antt =====
-- The theorems on the GPIO driver at a concrete state.
use ulmk_boards.Base.{ℕ, ◌≡◌, refl, true, [], arith}
use ulmk_boards.Base.Word.{◌<<◌}
use ulmk_boards.Kernel.{Rc}
use ulmk_boards.Gpio.Eru.{
  Gpio, fresh, eru_pin, do_subscribe, eru_lookup, find_pin, eru_arm, add_sub, put_sub, arm_pin,
  channel_event,
}
use ulmk_boards.Gpio.Routes.{IsValid, fresh-IsValid, do_subscribe-IsValid}
use ulmk_boards.Gpio.Events.{sent, do_subscribe-sent, do_subscribe-silences}

-- Pins 15.4 and 10.7 share channel 0.
abbrev pin_a : ℕ
pin_a = 0xF04

abbrev pin_b : ℕ
pin_b = 0xA07

abbrev one : Gpio
one = (do_subscribe fresh pin_a 1 5 0).2

one-IsValid : IsValid one
one-IsValid = do_subscribe-IsValid fresh pin_a 1 5 0 fresh-IsValid

abbrev full : Gpio
full = (do_subscribe (do_subscribe (do_subscribe one pin_a 2 6 1).2 pin_a 1 7 2).2 pin_a 1 8 3).2

full-IsValid : IsValid full
full-IsValid =
    do_subscribe-IsValid _ pin_a 1 8 3
      (do_subscribe-IsValid _ pin_a 1 7 2 (do_subscribe-IsValid _ pin_a 2 6 1 one-IsValid))

do_subscribe-IsValid_example : IsValid (do_subscribe fresh 0xF04 1 5 0).2
do_subscribe-IsValid_example = do_subscribe-IsValid fresh 0xF04 1 5 0 fresh-IsValid

do_subscribe-sent_example : sent 5 (1 << 0) (channel_event one true 0).1 ≡ true
unfolding do_subscribe eru_lookup find_pin eru_arm add_sub put_sub arm_pin
do_subscribe-sent_example =
    do_subscribe-sent fresh pin_a 1 5 0 (eru_pin 15 4 0 0) fresh-IsValid refl refl

do_subscribe-silences_example :
    ((do_subscribe full pin_b 1 9 3).0 ≡ Rc.enomem)
    × ((channel_event (do_subscribe full pin_b 1 9 3).2 true 0).1 ≡ [])
unfolding do_subscribe eru_lookup find_pin eru_arm add_sub put_sub arm_pin
do_subscribe-silences_example =
    do_subscribe-silences full pin_b 1 9 3 (eru_pin 10 7 0 2) full-IsValid refl
      (refl, (refl, (refl, (refl, tt)))) (refl, (refl, (refl, (refl, tt)))) refl (omega arith)
