-- ===== src/Gdma/Tests.antt =====
-- An instance for the AXI DMA channels: the receive channel 1 is open for peripheral 1.
use ulmk_boards.Base.{arith, ◌*◌, ◌≡◌, refl, true, [], ◌∷◌}
use ulmk_boards.Kernel.{Rc}
use ulmk_boards.Gdma.Channel.{Channel, Gdma, Outcome, no_channel, hw_rx_arm, hw_rx_wait, received}
use ulmk_boards.Gdma.Channel.{hw_channel_open}
use ulmk_boards.Gdma.Copy.{hw_memcpy, dma_memcpy_hw}
use ulmk_boards.Gdma.Server.{gdma_axi_server}
use ulmk_boards.Gdma.Client.{gdma_axi_call, gdma_axi_rx_arm, gdma_axi_rx_wait}
use ulmk_boards.Gdma.Calls.{deliver}
use ulmk_boards.Gdma.Receive.{Received}
use ulmk_boards.Gdma.Trip.{gdma_axi_rx_arm-rx_wait}
use ulmk_boards.Gdma.Beside.{hw_channel_open-rx_arm}

abbrev receiver : Channel
receiver = record no_channel { notif_valid = true; hw_ch = 1; opened = true; periph = 1 }

abbrev ready : Gdma
ready = record {
  hw = true;
  slots = no_channel ∷ receiver ∷ no_channel ∷ no_channel ∷ no_channel ∷ [];
}

-- The hardware wrote 40 bytes into a buffer of 32.
abbrev too_many : Outcome
too_many = record { waited = Rc.ok; raw = 2; left = 40 * 4096 }

count_run : (hw_rx_wait (hw_rx_arm ready 1 0x48001000 32).2 1 too_many).0 ≡ Rc.count 32
unfolding hw_rx_wait hw_rx_arm received
count_run = refl

gdma_axi_rx_arm-rx_wait_example :
    let armed = (gdma_axi_rx_arm true (deliver too_many) 1 0x48001000 32 (ready, [])).1 in
    let waited = gdma_axi_rx_wait true (deliver too_many) 1 armed in
    Received 32 too_many waited.0
    × (gdma_axi_rx_wait true (deliver too_many) 1 waited.1 ≡ (Rc.einval, waited.1))
unfolding gdma_axi_rx_arm gdma_axi_call gdma_axi_server hw_rx_arm
gdma_axi_rx_arm-rx_wait_example =
    gdma_axi_rx_arm-rx_wait ready [] 1 0x48001000 32 too_many too_many too_many refl (omega arith)
      refl

-- A copy that runs.
copy_run : (hw_memcpy ready 0x48002000 0x48003000 64 too_many).0 ≡ Rc.ok
unfolding hw_memcpy dma_memcpy_hw
copy_run = refl

hw_channel_open-rx_arm_example : (hw_rx_arm (hw_channel_open ready 1 5).2 1 0x48001000 32).0 ≡ Rc.ok
unfolding hw_channel_open
hw_channel_open-rx_arm_example =
    hw_channel_open-rx_arm ready 1 5 0x48001000 32 refl (omega arith) refl refl (omega arith)
      (omega arith) (omega arith)
