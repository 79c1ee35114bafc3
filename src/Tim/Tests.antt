-- ===== src/Tim/Tests.antt =====
-- The theorems on the PWM driver at concrete inputs: a channel at 1 kHz and 25 percent that is switched
-- on, and a call with a duty out of range.
use ulmk_boards.Base.{ℕ, ◌+◌, ◌*◌, ◌≡◌, ◌≤◌, ◌<◌, refl, true, List, [], ◌∷◌, some, arith}
use ulmk_boards.Tim.Server.{divide}
use ulmk_boards.Tim.Fits.{Valid}
use ulmk_boards.Tim.Period.{divide-near}
use ulmk_boards.Tim.Calls.{PwmCall, config, set_duty, enable, perform_all, start, perform_all-Valid}

abbrev calls : List PwmCall
calls = config 1 1000 250 ∷ enable 1 true ∷ set_duty 1 5000 ∷ []

perform_all-Valid_example : Valid (perform_all calls start)
perform_all-Valid_example = perform_all-Valid calls

divide-near_example :
    (psc : ℕ) × (arr : ℕ) × (divide 240000 ≡ some (psc, arr))
    × (psc ≤ 0xFFFF)
    × (1 ≤ arr)
    × (arr ≤ 0xFFFF)
    × ((psc + 1) * (arr + 1) ≤ 240000)
    × (240000 < (psc + 1) * (arr + 2))
divide-near_example = divide-near 240000 (omega arith) (omega arith)

divide_1_khz : divide 240000 ≡ some (3, 59999)
unfolding divide
divide_1_khz = refl
