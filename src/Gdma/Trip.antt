-- ===== src/Gdma/Trip.antt =====
-- A receive through both sides of esp32p4_ev_function/drivers/gdma_axi: gdma_axi_rx_arm, then
-- gdma_axi_rx_wait, as messages to the server.
use ulmk_boards.Base.{ℕ, ◌<◌, ◌≡◌, ap, sym, subst, ◌∙◌, true, List, ◌++◌, append-nil, length}
use ulmk_boards.Kernel.{Rc}
use ulmk_boards.Gdma.Channel.{Gdma, Act, Outcome, hw_rx_arm, hw_rx_wait}
use ulmk_boards.Gdma.Client.{gdma_axi_rx_arm, gdma_axi_rx_wait}
use ulmk_boards.Gdma.Calls.{deliver, ran, gdma_axi_server-Calls}
use ulmk_boards.Gdma.Receive.{Received, hw_rx_arm-wait}

-- With the five slots in place, where gdma_axi_rx_arm through the server succeeds for a slot
-- number of eight bits, then whatever the kernel and the hardware answer, gdma_axi_rx_wait through
-- the server returns a timeout where the kernel's wait failed, an error where the error bit is
-- set, a timeout where neither that bit nor the one for the end is set, and otherwise the count
-- that the hardware left in the descriptor, cut to the length armed; it leaves the slot idle, so
-- that a second gdma_axi_rx_wait is refused, touches no register and changes nothing.
pub gdma_axi_rx_arm-rx_wait :
    (g : Gdma) (log : List Act) (slot dst len : ℕ) (o o1 o2 : Outcome)
    → length g.slots ≡ 5
    → slot < 256
    → (gdma_axi_rx_arm true (deliver o) slot dst len (g, log)).0 ≡ Rc.ok
    → let armed = (gdma_axi_rx_arm true (deliver o) slot dst len (g, log)).1 in
      let waited = gdma_axi_rx_wait true (deliver o1) slot armed in
      Received len o1 waited.0
      × (gdma_axi_rx_wait true (deliver o2) slot waited.1 ≡ (Rc.einval, waited.1))
gdma_axi_rx_arm-rx_wait g log slot dst len o o1 o2 five small ok =
    let arm = (gdma_axi_server-Calls o g log).rx_arm_call slot dst len small in
    let r = hw_rx_arm g slot dst len in
    let w = hw_rx_wait r.2 slot o1 in
    let (first, again) = hw_rx_arm-wait g slot dst len o1 o2 five (sym (ap (λ t. t.0) arm) ∙ ok) in
    let wait =
      ap (λ t. gdma_axi_rx_wait true (deliver o1) slot t.1) arm
      ∙ (gdma_axi_server-Calls o1 r.2 (log ++ r.1)).rx_wait_call slot small in
    let second =
      ap (λ t. gdma_axi_rx_wait true (deliver o2) slot t.1) wait
      ∙ (gdma_axi_server-Calls o2 w.2 ((log ++ r.1) ++ w.1)).rx_wait_call slot small
      ∙ ap (λ t. ran t ((log ++ r.1) ++ w.1)) again
      ∙ ap (λ t. (Rc.einval, (w.2, t))) (append-nil ((log ++ r.1) ++ w.1)) in
    (
      subst (λ t. Received len o1 t) (sym (ap (λ t. t.0) wait)) first,
      second ∙ ap (λ t. (Rc.einval, t.1)) (sym wait),
    )
