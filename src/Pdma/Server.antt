-- ===== src/Pdma/Server.antt =====
-- The messages of esp32p4_ev_function/drivers/dma/src/server.c.
use ulmk_boards.Base.{ℕ, List, [], ◌==◌, if◌then◌else◌, get_or}
use ulmk_boards.Base.Word.{u8}
use ulmk_boards.Kernel.{Rc, Msg}
use ulmk_boards.Gdma.Channel.{Outcome}
use ulmk_boards.Pdma.Channel.{Pdma, PdmaAct, hw_channel_open, hw_rx_arm, hw_rx_wait, hw_memcpy}

abbrev pub dma_msg_open : ℕ
dma_msg_open = 1

abbrev pub dma_msg_memcpy : ℕ
dma_msg_memcpy = 2

abbrev pub dma_msg_rx_arm : ℕ
dma_msg_rx_arm = 3

abbrev pub dma_msg_rx_wait : ℕ
dma_msg_rx_wait = 4

-- A round of the server: word 0 of its reply, what it does to the machine, and its state.
unfoldable pub dma_server : Msg → Outcome → Pdma → Rc × List PdmaAct × Pdma
dma_server m o g =
    let a = get_or m.words 0 0 in
    let b = get_or m.words 1 0 in
    let c = get_or m.words 2 0 in
    if m.label == dma_msg_open
    then hw_channel_open g (u8 a) b
    else if m.label == dma_msg_memcpy
    then hw_memcpy g a b c o
    else if m.label == dma_msg_rx_arm
    then hw_rx_arm g (u8 a) b c
    else if m.label == dma_msg_rx_wait
    then hw_rx_wait g (u8 a) o
    else (Rc.einval, [], g)
