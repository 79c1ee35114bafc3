-- ===== src/Dma/Tests.antt =====
-- Runs and instances for the DMA driver: three slots of which the first is open, and a worker that
-- answers at once.
use ulmk_boards.Base.{
  ℕ, zero, suc, ◌≤◌, ◌≡◌, ◌≢◌, refl, ◌⊎◌, true, false, none, some, List, [], ◌∷◌, ◌++◌, arith,
  get_or, set, drop, replicate, length,
}
use ulmk_boards.Kernel.{Rc}
use ulmk_boards.Dma.Slots.{Slot, Waits, blank, slot_at, do_load}
use ulmk_boards.Dma.Server.{Dispatcher, serve, no_words}
use ulmk_boards.Dma.Client.{load_msg, dma_arm}
use ulmk_boards.Dma.Worker.{
  lifcr, irq_ack, has, g_lifcr_mask, g_tcif_mask, g_irq_slot, slot_wait_tc,
}
use ulmk_boards.Dma.Poll.{slot_wait_tc-total}
use ulmk_boards.Dma.Load.{splice, do_load-wraps}
use ulmk_boards.Dma.Transfer.{IsValid, deliver, serve-load}
use ulmk_boards.Dma.Arm.{armed_slot, dma_arm-armed}
use ulmk_boards.Wire.Pack.{AllBytes}

abbrev used : Slot
used = record blank { opened = true; mux_req = 7; flags = 3 }

abbrev three : List Slot
three = used ∷ blank ∷ blank ∷ []

abbrev zeroes : List ℕ
zeroes = replicate 16 0

abbrev idle : Dispatcher
idle = record { slots = three; tmp = zeroes }

abbrev prompt : Waits
prompt = record { armed = λ i s. (Rc.ok, s); done = λ i s. (Rc.ok, s) }

three-bufs : (i : ℕ) → length (slot_at three i).buf ≡ 16
three-bufs zero = refl
three-bufs (suc zero) = refl
three-bufs (suc (suc zero)) = refl
three-bufs (suc (suc (suc i))) = refl

idle-IsValid : IsValid idle
idle-IsValid = record { three = refl; bufs = three-bufs; tmp = refl }

abbrev payload : List ℕ
payload = 10 ∷ 20 ∷ 30 ∷ []

do_load-wraps_example : do_load three 0 0xFFFFFFF8 zeroes 16 ≡ none
do_load-wraps_example =
    do_load-wraps three 0 0xFFFFFFF8 16 zeroes refl refl (omega arith) (omega arith) (omega arith)
      (omega arith) (omega arith)

serve-load_example :
    serve prompt (load_msg 0 2 payload 3) idle
    ≡ some (
      record { rc = Rc.ok; words = no_words },
      record {
        slots = set three 0 (record used { buf = splice 2 payload zeroes });
        tmp = payload ++ drop 3 zeroes;
      },
    )
serve-load_example =
    serve-load prompt idle 0 2 payload 3 idle-IsValid refl (omega arith)
      (omega arith, (omega arith, (omega arith, tt))) refl (omega arith) (omega arith) (omega arith)

slot_wait_tc-total_example :
    ((t : ℕ) × (0 ≤ t)
      × (t ≤ 5)
      × (has 0x20 (get_or g_tcif_mask 0 0) ≡ true)
      × (slot_wait_tc 6 (λ n. 0x20) 0 5 0
          ≡ some (Rc.ok, lifcr (get_or g_lifcr_mask 0 0) ∷ irq_ack (get_or g_irq_slot 0 0) ∷ [])))
    ⊎ (((t : ℕ) → 0 ≤ t → t ≤ 5 → has 0x20 (get_or g_tcif_mask 0 0) ≡ false)
        × (slot_wait_tc 6 (λ n. 0x20) 0 5 0 ≡ some (Rc.etimeout, [])))
slot_wait_tc-total_example =
    slot_wait_tc-total 6 (λ n. 0x20) 0 5 0 (omega arith) (omega arith) (omega arith) (omega arith)

abbrev long_payload : List ℕ
long_payload = 1 ∷ 2 ∷ 3 ∷ 4 ∷ 5 ∷ 6 ∷ 7 ∷ 8 ∷ 9 ∷ 10 ∷ 11 ∷ 12 ∷ 13 ∷ 14 ∷ []

long_payload-AllBytes : AllBytes long_payload
long_payload-AllBytes = ground arith

dma_arm-armed_example :
    let (rc, s) = prompt.armed 0 (armed_slot used 0x40004428 long_payload 14) in
    (d' : Dispatcher) × (dma_arm true (deliver prompt) 0 0x40004428 (some long_payload) 14 idle
      ≡ (rc, d'))
    × (slot_at d'.slots 0 ≡ s)
    × ((j : ℕ) → 0 ≢ j → slot_at d'.slots j ≡ slot_at three j)
dma_arm-armed_example =
    dma_arm-armed prompt idle 0 0x40004428 long_payload 14 idle-IsValid refl long_payload-AllBytes
      refl (omega arith) (omega arith)
