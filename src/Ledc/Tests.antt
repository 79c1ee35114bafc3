-- ===== src/Ledc/Tests.antt =====
-- The theorems on the PWM driver at concrete inputs: registers that read as zero, a configuration and a
-- duty.
use ulmk_boards.Base.{
  ℕ, ◌+◌, ◌*◌, ◌≡◌, ◌≢◌, ◌≤◌, ◌⊎◌, refl, none, some, List, [], ◌∷◌, ◌++◌, ◌%◌, ◌^◌, arith,
}
use ulmk_boards.Kernel.{Msg}
use ulmk_boards.Ledc.Hw.{duty_res_bits, timer0_set_freq, timer0_writes}
use ulmk_boards.Ledc.Server.{run, pwm_msg_config, pwm_msg_duty}
use ulmk_boards.Ledc.Divider.{exact_div, timer0_set_freq-fast, timer0_set_freq-defined}
use ulmk_boards.Ledc.Fit.{After}
use ulmk_boards.Ledc.Range.{InRange, run-InRange}

abbrev half_duty : List Msg
half_duty =
    record { label = pwm_msg_config; words = 0 ∷ 5000 ∷ 250 ∷ [] }
    ∷ record { label = pwm_msg_duty; words = 0 ∷ 50000 ∷ [] }
    ∷ []

run-InRange_example : After InRange (run (λ s. 0) half_duty)
run-InRange_example = run-InRange (λ s. 0) half_duty

timer0_set_freq-fast_example :
    (div : ℕ) × (timer0_set_freq 5000 [] ≡ some ([] ++ timer0_writes (duty_res_bits + div * 32)))
    × (6 * div ≤ exact_div 5000)
timer0_set_freq-fast_example = timer0_set_freq-fast 5000 [] (omega arith) (omega arith)

abbrev wrapped : ℕ
wrapped = 4194304

timer0_set_freq-defined_example :
    ((wrapped ≢ 0) × (wrapped % 2 ^ 22 ≡ 0) × (timer0_set_freq wrapped [] ≡ none))
    ⊎ (((wrapped ≡ 0) ⊎ (wrapped % 2 ^ 22 ≢ 0))
        × (conf : ℕ) × (timer0_set_freq wrapped [] ≡ some ([] ++ timer0_writes conf)))
timer0_set_freq-defined_example = timer0_set_freq-defined wrapped [] (omega arith)

-- The divider at 5000 Hz is 322, where 2000 is right.
timer0_set_freq_default : timer0_set_freq 5000 [] ≡ some (timer0_writes (10 + 322 * 32))
unfolding timer0_set_freq
timer0_set_freq_default = refl
