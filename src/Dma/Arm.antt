-- ===== src/Dma/Arm.antt =====
-- `dma_arm` of witte_linum/drivers/dma/src/client.c against the dispatcher of server.c: what the
-- slot holds when the worker is told to start.
use ulmk_boards.Base.{
  ℕ, ◌+◌, ◌/◌, ◌≤◌, ◌<◌, ◌≡◌, ◌≢◌, refl, ap, ◌∙◌, true, false, ◌||◌, Option, some, List, [], ◌∷◌,
  arith, ltb, ◌==◌, if◌then◌else◌, set, length, get_or-set_ne,
}
use ulmk_boards.Kernel.{Rc, Msg, Reply, is_ok}
use ulmk_boards.Wire.Pack.{AllBytes}
use ulmk_boards.Dma.Slots.{Slot, Waits, blank, slot_at, bad_slot, dma_xfer_max, do_arm, dma_job_arm}
use ulmk_boards.Dma.Server.{Dispatcher, serve, serve_arm, no_words, dma_msg_arm}
use ulmk_boards.Dma.Client.{dma_call, load_rounds, dma_arm}
use ulmk_boards.Dma.Load.{splice}
use ulmk_boards.Dma.Fill.{slot_at-set_self, bad_slot-inside, dma_call-served}
use ulmk_boards.Dma.Rounds.{load_rounds-Filled, same_slot-bad}
use ulmk_boards.Dma.Transfer.{IsValid, deliver}

-- The slot that the worker gets to see.
abbrev pub armed_slot : Slot → ℕ → List ℕ → ℕ → Slot
armed_slot s periph p len = record s {
  buf = splice 0 p s.buf;
  job = dma_job_arm;
  periph = periph;
  len = len;
  timeout_ms = 1000;
}

-- An arm message, with the client's fixed timeout.
arm_msg : ℕ → ℕ → ℕ → Msg
arm_msg i periph len = record { label = dma_msg_arm; words = i ∷ periph ∷ len ∷ 1000 ∷ 0 ∷ 0 ∷ [] }

arm_in : Slot → ℕ → ℕ → Slot
arm_in s periph len = record s { job = dma_job_arm; periph = periph; len = len; timeout_ms = 1000 }

serve-arm :
    (w : Waits) (d : Dispatcher) (i periph len : ℕ)
    → bad_slot d.slots i ≡ false
    → 0 < len
    → len ≤ 16
    → let r = w.armed i (arm_in (slot_at d.slots i) periph len) in
      serve w (arm_msg i periph len) d
      ≡ some (record { rc = r.0; words = no_words }, record d { slots = set d.slots i r.1 })
unfolding serve serve_arm do_arm arm_msg arm_in
serve-arm w d i periph len good pos le = ap answer (
    ap (λ k. do_arm w d.slots k periph len 1000) {y = i}
      (ground (arith, (bad_slot-inside d.slots i good).0))
    ∙ rw (good, fine) refl)
  where
    answer : Rc × List Slot → Option (Reply × Dispatcher)
    answer (rc, slots) = some (record { rc = rc; words = no_words }, record d { slots = slots })

    fine : (len == 0 || ltb dma_xfer_max len) ≡ false
    fine = ground arith

dma_arm-run :
    (w : Waits) (d d1 d2 : Dispatcher) (i periph : ℕ) (p : List ℕ) (len : ℕ) (reply : Reply)
    → 0 < len
    → len ≤ 16
    → load_rounds true (deliver w) ((len + 11) / 12) i 0 p len d ≡ (Rc.ok, d1)
    → serve w (arm_msg i periph len) d1 ≡ some (reply, d2)
    → dma_arm true (deliver w) i periph (some p) len d ≡ (reply.rc, d2)
unfolding dma_arm arm_msg
dma_arm-run w d d1 d2 i periph p len reply pos le e served =
    let fine : (len == 0 || ltb dma_xfer_max len) ≡ false = ground arith in
    rw fine (
      ap
        (λ r.
          let (rc, s1) = r in
          let (rc', ws, s2) = dma_call true (deliver w) (arm_msg i periph len) s1 in
          if is_ok rc then (rc', s2) else (rc, s1))
        e
      ∙ ap (λ r. let (rc', ws, s2) = r in (rc', s2))
          (dma_call-served w d1 d2 (arm_msg i periph len) reply served))

-- For an open slot of a valid dispatcher and a buffer of 1 to 16 bytes, `dma_arm` gives the worker
-- a slot with the buffer's bytes at the start of the slot's, with the address and length asked for
-- and a timeout of 1000; it returns what the wait for the worker returns, and the slot is as the
-- worker left it. No other slot changes.
pub dma_arm-armed :
    (w : Waits) (d : Dispatcher) (i periph : ℕ) (p : List ℕ) (len : ℕ)
    → IsValid d
    → bad_slot d.slots i ≡ false
    → AllBytes p
    → length p ≡ len
    → 0 < len
    → len ≤ 16
    → let (rc, s) = w.armed i (armed_slot (slot_at d.slots i) periph p len) in
      (d' : Dispatcher) × (dma_arm true (deliver w) i periph (some p) len d ≡ (rc, d'))
      × (slot_at d'.slots i ≡ s)
      × ((j : ℕ) → i ≢ j → slot_at d'.slots j ≡ slot_at d.slots j)
unfolding arm_in
dma_arm-armed w d i periph p len v good a size pos le =
    let (d1, e, f) = load_rounds-Filled w d i p len v good a size pos le in
    let inside = (bad_slot-inside d.slots i good).0 in
    let good1 = same_slot-bad d.slots d1.slots i (ap (λ s. s.opened) f.slot) good in
    let seen = ap (λ s. w.armed i (arm_in s periph len)) f.slot in
    let s' = (w.armed i (arm_in (slot_at d1.slots i) periph len)).1 in
    let d2 = record d1 { slots = set d1.slots i s' } in
    (
      d2,
      dma_arm-run w d d1 d2 i periph p len _ pos le e (serve-arm w d1 i periph len good1 pos le)
          ∙ ap (λ r. (r.0, d2)) seen,
      slot_at-set_self d1.slots i s' (omega (arith, f.valid.three)) ∙ ap (λ r. r.1) seen,
      λ j other. get_or-set_ne d1.slots i j s' blank other ∙ f.others j other,
    )
