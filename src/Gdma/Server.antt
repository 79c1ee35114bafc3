-- ===== src/Gdma/Server.antt =====
-- The messages of esp32p4_ev_function/drivers/gdma_axi/src/server.c.
use ulmk_boards.Base.{ℕ, List, [], ◌==◌, if◌then◌else◌, get_or}
use ulmk_boards.Base.Word.{u8}
use ulmk_boards.Kernel.{Rc, Msg}
use ulmk_boards.Gdma.Channel.{
  Gdma, Act, Outcome, hw_channel_open, hw_rx_arm, hw_rx_wait, hw_tx_arm, hw_tx_wait,
}
use ulmk_boards.Gdma.Copy.{hw_memcpy}

abbrev pub gdma_axi_msg_open : ℕ
gdma_axi_msg_open = 1

abbrev pub gdma_axi_msg_memcpy : ℕ
gdma_axi_msg_memcpy = 2

abbrev pub gdma_axi_msg_rx_arm : ℕ
gdma_axi_msg_rx_arm = 3

abbrev pub gdma_axi_msg_rx_wait : ℕ
gdma_axi_msg_rx_wait = 4

abbrev pub gdma_axi_msg_tx_arm : ℕ
gdma_axi_msg_tx_arm = 5

abbrev pub gdma_axi_msg_tx_wait : ℕ
gdma_axi_msg_tx_wait = 6

abbrev pub msg_word : Msg → ℕ → ℕ
msg_word m i = get_or m.words i 0

-- A round of the server: word 0 of its reply, what it does to the machine, and its state.
unfoldable pub gdma_axi_server : Msg → Outcome → Gdma → Rc × List Act × Gdma
gdma_axi_server m o g =
    let w = msg_word m in
    if m.label == gdma_axi_msg_open
    then hw_channel_open g (u8 (w 0)) (w 1)
    else if m.label == gdma_axi_msg_memcpy
    then hw_memcpy g (w 0) (w 1) (w 2) o
    else if m.label == gdma_axi_msg_rx_arm
    then hw_rx_arm g (u8 (w 0)) (w 1) (w 2)
    else if m.label == gdma_axi_msg_rx_wait
    then hw_rx_wait g (u8 (w 0)) o
    else if m.label == gdma_axi_msg_tx_arm
    then hw_tx_arm g (u8 (w 0)) (w 1) (w 2)
    else if m.label == gdma_axi_msg_tx_wait
    then hw_tx_wait g (u8 (w 0)) o
    else (Rc.einval, [], g)
