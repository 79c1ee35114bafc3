-- ===== src/Pdma/Calls.antt =====
-- The calls of esp32p4_ev_function/drivers/dma/src/client.c through the messages of its server.
use ulmk_boards.Base.{ℕ, ◌<◌, ◌≡◌, refl, ap, true, List, ◌++◌, arith}
use ulmk_boards.Base.Word.{u8}
use ulmk_boards.Kernel.{Rc, Msg}
use ulmk_boards.Gdma.Channel.{Outcome}
use ulmk_boards.Pdma.Channel.{Pdma, PdmaAct, hw_channel_open, hw_rx_arm, hw_rx_wait, hw_memcpy}
use ulmk_boards.Pdma.Server.{dma_server}
use ulmk_boards.Pdma.Client.{dma_call, dma_channel_open, dma_memcpy, dma_rx_arm, dma_rx_wait}

-- What an operation leaves, after the acts of the operations before it.
abbrev pub after : Rc × List PdmaAct × Pdma → List PdmaAct → Rc × (Pdma × List PdmaAct)
after r log = (r.0, (r.2, log ++ r.1))

-- The kernel hands each call to the server, which the machine answers by `o`.
abbrev pub hand_over : Outcome → Msg → Pdma × List PdmaAct → Rc × Rc × (Pdma × List PdmaAct)
hand_over o m s = let (rc, s1) = after (dma_server m o s.0) s.1 in (Rc.ok, rc, s1)

-- Each call of the client does what the operation of the server does: it returns its result, and
-- leaves its state and its acts, in order.
pub record SlotCalls (o : Outcome) (g : Pdma) (log : List PdmaAct) (slot : ℕ) : Type 0 where
  pub open_call :
      (mux flags : ℕ)
      → dma_channel_open true (hand_over o) slot mux flags (g, log)
        ≡ after (hw_channel_open g slot mux) log
  pub memcpy_call :
      (dst src len : ℕ)
      → dma_memcpy true (hand_over o) dst src len (g, log) ≡ after (hw_memcpy g dst src len o) log
  pub rx_arm_call :
      (dst len : ℕ)
      → dma_rx_arm true (hand_over o) slot dst len (g, log) ≡ after (hw_rx_arm g slot dst len) log
  pub rx_wait_call : dma_rx_wait true (hand_over o) slot (g, log) ≡ after (hw_rx_wait g slot o) log

-- Whatever the state and the machine's answer, every call of the client through the server does
-- what the operation behind it does, for a slot number of eight bits.
pub dma_server-SlotCalls :
    (o : Outcome) (g : Pdma) (log : List PdmaAct) (slot : ℕ) → slot < 256 → SlotCalls o g log slot
unfolding dma_call dma_channel_open dma_memcpy dma_rx_arm dma_rx_wait dma_server
dma_server-SlotCalls o g log slot h =
    let same : u8 slot ≡ slot = omega arith in
    record {
      open_call = λ mux flags. ap (λ k. after (hw_channel_open g k mux) log) same;
      memcpy_call = λ dst src len. refl;
      rx_arm_call = λ dst len. ap (λ k. after (hw_rx_arm g k dst len) log) same;
      rx_wait_call = ap (λ k. after (hw_rx_wait g k o) log) same;
    }
