-- ===== src/Pdma/Tests.antt =====
-- The theorems on the AHB DMA at a concrete state: the channel of memory is opened for a peripheral.
use ulmk_boards.Base.{◌*◌, ◌≡◌, refl, true, [], ◌∷◌, arith}
use ulmk_boards.Kernel.{Rc}
use ulmk_boards.Gdma.Channel.{Outcome}
use ulmk_boards.Pdma.Channel.{DmaCh, Pdma, no_ch, hw_channel_open, hw_rx_arm, hw_rx_wait, hw_memcpy}
use ulmk_boards.Pdma.Apart.{AllOfCopy, hw_memcpy-rx_wait_apart}

abbrev idle : DmaCh
idle = record no_ch { notif_valid = true; periph = 0x3F }

abbrev adc : Pdma
adc = (hw_channel_open (hw_channel_open (record { hw = true; chs = idle ∷ idle ∷ [] }) 1 8).2 0 8).2

abbrev answer : Outcome
answer = record { waited = Rc.ok; raw = 2; left = 40 * 4096 }

arm_run : (hw_rx_arm adc 1 0x48001000 32).0 ≡ Rc.ok
unfolding hw_rx_arm hw_channel_open
arm_run = refl

hw_memcpy-rx_wait_apart_example :
    let g1 = (hw_rx_arm adc 1 0x48001000 32).2 in
    let g2 = (hw_memcpy g1 0x48002000 0x48003000 64 answer).2 in
    ((hw_rx_wait g2 1 answer).0 ≡ (hw_rx_wait g1 1 answer).0)
    × ((hw_rx_wait g2 1 answer).1 ≡ (hw_rx_wait g1 1 answer).1)
    × AllOfCopy 0x48002000 0x48003000 64 (hw_memcpy g1 0x48002000 0x48003000 64 answer).1
hw_memcpy-rx_wait_apart_example =
    hw_memcpy-rx_wait_apart (hw_rx_arm adc 1 0x48001000 32).2 0x48002000 0x48003000 64 1 answer
      answer (omega arith)
