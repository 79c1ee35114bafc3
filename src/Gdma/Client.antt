-- ===== src/Gdma/Client.antt =====
-- The calls of esp32p4_ev_function/drivers/gdma_axi/src/client.c. `call` stands for `ulmk_ep_call`
-- on the server's endpoint: its result, word 0 of the reply, and the other side's state.
use ulmk_boards.Base.{ℕ, Bool, not, List, [], ◌∷◌, if◌then◌else◌}
use ulmk_boards.Kernel.{Rc, is_ok, Msg}
use ulmk_boards.Gdma.Server.{
  gdma_axi_msg_open, gdma_axi_msg_memcpy, gdma_axi_msg_rx_arm, gdma_axi_msg_rx_wait,
  gdma_axi_msg_tx_arm, gdma_axi_msg_tx_wait,
}

module _ {S : Type 0} (ep_valid : Bool) (call : Msg → S → Rc × Rc × S) where
  unfoldable pub gdma_axi_call : ℕ → List ℕ → S → Rc × S
  gdma_axi_call label words s =
      if not ep_valid
      then (Rc.einval, s)
      else let (rc, reply, s') = call (record { label = label; words = words }) s in
        if not (is_ok rc) then (Rc.einval, s') else (reply, s')

  unfoldable pub gdma_axi_channel_open : ℕ → ℕ → ℕ → S → Rc × S
  gdma_axi_channel_open slot mux flags = gdma_axi_call gdma_axi_msg_open (slot ∷ mux ∷ flags ∷ [])

  unfoldable pub gdma_axi_memcpy : ℕ → ℕ → ℕ → S → Rc × S
  gdma_axi_memcpy dst src len = gdma_axi_call gdma_axi_msg_memcpy (dst ∷ src ∷ len ∷ [])

  unfoldable pub gdma_axi_rx_arm : ℕ → ℕ → ℕ → S → Rc × S
  gdma_axi_rx_arm slot dst len = gdma_axi_call gdma_axi_msg_rx_arm (slot ∷ dst ∷ len ∷ [])

  unfoldable pub gdma_axi_rx_wait : ℕ → S → Rc × S
  gdma_axi_rx_wait slot = gdma_axi_call gdma_axi_msg_rx_wait (slot ∷ [])

  unfoldable pub gdma_axi_tx_arm : ℕ → ℕ → ℕ → S → Rc × S
  gdma_axi_tx_arm slot src len = gdma_axi_call gdma_axi_msg_tx_arm (slot ∷ src ∷ len ∷ [])

  unfoldable pub gdma_axi_tx_wait : ℕ → S → Rc × S
  gdma_axi_tx_wait slot = gdma_axi_call gdma_axi_msg_tx_wait (slot ∷ [])
