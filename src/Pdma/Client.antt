-- ===== src/Pdma/Client.antt =====
-- The calls of esp32p4_ev_function/drivers/dma/src/client.c. `call` stands for `ulmk_ep_call` on the
-- server's endpoint: its result, word 0 of the reply, and the other side's state.
use ulmk_boards.Base.{ℕ, Bool, not, List, [], ◌∷◌, if◌then◌else◌}
use ulmk_boards.Kernel.{Rc, is_ok, Msg}
use ulmk_boards.Pdma.Server.{dma_msg_open, dma_msg_memcpy, dma_msg_rx_arm, dma_msg_rx_wait}

module _ {S : Type 0} (ep_valid : Bool) (call : Msg → S → Rc × Rc × S) where
  unfoldable pub dma_call : ℕ → List ℕ → S → Rc × S
  dma_call label words s =
      if not ep_valid
      then (Rc.einval, s)
      else let (rc, reply, s') = call (record { label = label; words = words }) s in
        if not (is_ok rc) then (Rc.einval, s') else (reply, s')

  unfoldable pub dma_channel_open : ℕ → ℕ → ℕ → S → Rc × S
  dma_channel_open slot mux flags = dma_call dma_msg_open (slot ∷ mux ∷ flags ∷ [])

  unfoldable pub dma_memcpy : ℕ → ℕ → ℕ → S → Rc × S
  dma_memcpy dst src len = dma_call dma_msg_memcpy (dst ∷ src ∷ len ∷ [])

  unfoldable pub dma_rx_arm : ℕ → ℕ → ℕ → S → Rc × S
  dma_rx_arm slot dst len = dma_call dma_msg_rx_arm (slot ∷ dst ∷ len ∷ [])

  unfoldable pub dma_rx_wait : ℕ → S → Rc × S
  dma_rx_wait slot = dma_call dma_msg_rx_wait (slot ∷ [])
