-- ===== src/Dma/Rounds.antt =====
-- The loop of `dma_arm` of witte_linum/drivers/dma/src/client.c over a buffer: one round, or two.
use ulmk_boards.Base.{
  ℕ, zero, suc, ◌+◌, ◌-◌, ◌/◌, ◌≤◌, ◌<◌, ◌≡◌, ◌≢◌, refl, ap, ◌∙◌, true, false, ◌||◌, not, List, [],
  ◌∷◌, arith, ltb, leb, if◌then◌else◌, take, drop, length, length-take, length-drop, get_or-set_ne,
  take_all, take-append-drop,
}
use native.Mathlib.Decide.{dec_lt}
use ulmk_boards.Kernel.{Rc, is_ok}
use ulmk_boards.Wire.Pack.{AllBytes}
use ulmk_boards.Dma.Slots.{Slot, Waits, blank, slot_at, bad_slot, dma_max_slots}
use ulmk_boards.Dma.Server.{Dispatcher}
use ulmk_boards.Dma.Client.{dma_load, load_rounds}
use ulmk_boards.Dma.Load.{splice}
use ulmk_boards.Dma.Transfer.{IsValid, deliver}
use ulmk_boards.Dma.Fill.{
  loaded, bad_slot-inside, slot_at-set_self, loaded-IsValid, dma_load-loaded, splice-two,
}

load_rounds-step :
    (w : Waits) (left i off : ℕ) (p : List ℕ) (len n : ℕ) (d d1 : Dispatcher)
    → (if ltb 12 (len - off) then 12 else len - off) ≡ n
    → dma_load true (deliver w) i off p n d ≡ (Rc.ok, d1)
    → load_rounds true (deliver w) (suc left) i off p len d
      ≡ load_rounds true (deliver w) left i (off + 12) (drop 12 p) len d1
unfolding load_rounds
load_rounds-step w left i off p len n d d1 size e =
    ap
      (λ k.
        let (rc, s') = dma_load true (deliver w) i off p k d in
        let rest = load_rounds true (deliver w) left i (off + 12) (drop 12 p) len s' in
        if is_ok rc then rest else (rc, s'))
      size
    ∙ ap
        (λ r.
          let (rc, s') = r in
          let rest = load_rounds true (deliver w) left i (off + 12) (drop 12 p) len s' in
          if is_ok rc then rest else (rc, s'))
        e

-- What the client's loop has done to the dispatcher.
pub record Filled (d : Dispatcher) (i : ℕ) (p : List ℕ) (d1 : Dispatcher) : Type 0 where
  pub valid : IsValid d1
  pub slot :
      slot_at d1.slots i ≡ record (slot_at d.slots i) { buf = splice 0 p (slot_at d.slots i).buf }
  pub others : (j : ℕ) → i ≢ j → slot_at d1.slots j ≡ slot_at d.slots j

loaded-slot :
    (d : Dispatcher) (i offset : ℕ) (bytes : List ℕ)
    → IsValid d
    → i < 3
    → slot_at (loaded d i offset bytes).slots i
      ≡ record (slot_at d.slots i) { buf = splice offset bytes (slot_at d.slots i).buf }
unfolding loaded
loaded-slot d i offset bytes v small = slot_at-set_self d.slots i _ (omega (arith, v.three))

loaded-others :
    (d : Dispatcher) (i offset : ℕ) (bytes : List ℕ) (j : ℕ)
    → i ≢ j
    → slot_at (loaded d i offset bytes).slots j ≡ slot_at d.slots j
unfolding loaded
loaded-others d i offset bytes j other = get_or-set_ne d.slots i j _ blank other

AllBytes-take : (n : ℕ) (p : List ℕ) → AllBytes p → AllBytes (take n p)
AllBytes-take zero p a = tt
AllBytes-take (suc n) [] a = tt
AllBytes-take (suc n) (x ∷ p) (s, a) = (s, AllBytes-take n p a)

AllBytes-drop : (n : ℕ) (p : List ℕ) → AllBytes p → AllBytes (drop n p)
AllBytes-drop zero p a = a
AllBytes-drop (suc n) [] a = tt
AllBytes-drop (suc n) (x ∷ p) (s, a) = AllBytes-drop n p a

-- The loop of `dma_arm` over a buffer of up to twelve bytes, and of more.
load_rounds-one :
    (w : Waits) (d : Dispatcher) (i : ℕ) (p : List ℕ) (len : ℕ)
    → IsValid d
    → bad_slot d.slots i ≡ false
    → AllBytes p
    → length p ≡ len
    → 0 < len
    → len ≤ 12
    → (d1 : Dispatcher) × (load_rounds true (deliver w) 1 i 0 p len d ≡ (Rc.ok, d1))
      × Filled d i p d1
load_rounds-one w d i p len v good a size pos le =
    let inside = (bad_slot-inside d.slots i good).0 in
    let whole : take len p ≡ p = take_all len p (omega arith) in
    let one =
      dma_load-loaded w d i 0 p len v good (AllBytes-take len p a) (omega arith) pos le
        (omega arith)
      ∙ ap (λ t. (Rc.ok, loaded d i 0 t)) whole in
    (
      loaded d i 0 p,
      load_rounds-step w 0 i 0 p len len d (loaded d i 0 p) (ground arith) one
          ∙ unfold load_rounds in refl,
      record {
        valid = loaded-IsValid d i 0 p v inside (omega arith);
        slot = loaded-slot d i 0 p v inside;
        others = loaded-others d i 0 p;
      },
    )

pub same_slot-bad :
    (slots slots' : List Slot) (i : ℕ)
    → (slot_at slots' i).opened ≡ (slot_at slots i).opened
    → bad_slot slots i ≡ false
    → bad_slot slots' i ≡ false
same_slot-bad slots slots' i same good = ap (λ o. leb dma_max_slots i || not o) same ∙ good

load_rounds-two :
    (w : Waits) (d : Dispatcher) (i : ℕ) (p : List ℕ) (len : ℕ)
    → IsValid d
    → bad_slot d.slots i ≡ false
    → AllBytes p
    → length p ≡ len
    → 12 < len
    → len ≤ 16
    → (d2 : Dispatcher) × (load_rounds true (deliver w) 2 i 0 p len d ≡ (Rc.ok, d2))
      × Filled d i p d2
load_rounds-two w d i p len v good a size more le = (
  d2,
  load_rounds-step w 1 i 0 p len 12 d d1 (ground arith) first
      ∙ load_rounds-step w 0 i 12 (drop 12 p) len (len - 12) d1 d2 (ground arith) second
      ∙ unfold load_rounds in refl,
  record {
    valid = loaded-IsValid d1 i 12 (drop 12 p) v1 inside (omega (arith, length-drop 12 p));
    slot = loaded-slot d1 i 12 (drop 12 p) v1 inside ∙ both;
    others = λ j other.
        loaded-others d1 i 12 (drop 12 p) j other ∙ loaded-others d i 0 (take 12 p) j other;
  },
)
  where
    d1 : Dispatcher
    d1 = loaded d i 0 (take 12 p)

    d2 : Dispatcher
    d2 = loaded d1 i 12 (drop 12 p)

    inside : i < 3
    inside = (bad_slot-inside d.slots i good).0

    v1 : IsValid d1
    v1 = loaded-IsValid d i 0 (take 12 p) v inside (omega (arith, length-take 12 p))

    good1 : bad_slot d1.slots i ≡ false
    good1 =
        same_slot-bad d.slots d1.slots i
          (ap (λ s. s.opened) (loaded-slot d i 0 (take 12 p) v inside)) good

    first : dma_load true (deliver w) i 0 p 12 d ≡ (Rc.ok, d1)
    first =
        dma_load-loaded w d i 0 p 12 v good (AllBytes-take 12 p a) (omega arith) (omega arith)
          (omega arith) (omega arith)

    rest : take (len - 12) (drop 12 p) ≡ drop 12 p
    rest = take_all (len - 12) (drop 12 p) (omega (arith, length-drop 12 p))

    second : dma_load true (deliver w) i 12 (drop 12 p) (len - 12) d1 ≡ (Rc.ok, d2)
    second =
        dma_load-loaded w d1 i 12 (drop 12 p) (len - 12) v1 good1
          (AllBytes-take (len - 12) (drop 12 p) (AllBytes-drop 12 p a))
          (omega (arith, length-drop 12 p)) (omega arith) (omega arith) (omega arith)
        ∙ ap (λ t. (Rc.ok, loaded d1 i 12 t)) rest

    both :
        record (slot_at d1.slots i) { buf = splice 12 (drop 12 p) (slot_at d1.slots i).buf }
        ≡ record (slot_at d.slots i) { buf = splice 0 p (slot_at d.slots i).buf }
    both =
        ap {A = Slot} (λ s. record s { buf = splice 12 (drop 12 p) s.buf })
          (loaded-slot d i 0 (take 12 p) v inside)
        ∙ ap {B = Slot} (λ b. record (slot_at d.slots i) { buf = b })
            (splice-two 0 12 (take 12 p) (drop 12 p) (slot_at d.slots i).buf
              (omega (arith, length-take 12 p)))
        ∙ ap {B = Slot}
            (λ t. record (slot_at d.slots i) { buf = splice 0 t (slot_at d.slots i).buf })
            (take-append-drop 12 p)

pub load_rounds-Filled :
    (w : Waits) (d : Dispatcher) (i : ℕ) (p : List ℕ) (len : ℕ)
    → IsValid d
    → bad_slot d.slots i ≡ false
    → AllBytes p
    → length p ≡ len
    → 0 < len
    → len ≤ 16
    → (d1 : Dispatcher) × (load_rounds true (deliver w) ((len + 11) / 12) i 0 p len d ≡ (Rc.ok, d1))
      × Filled d i p d1
load_rounds-Filled w d i p len v good a size pos le = elim (dec_lt 12 len) [
  | yes long ↦
      let (d2, e, f) = load_rounds-two w d i p len v good a size long le in
      (d2, ap (λ k. load_rounds true (deliver w) k i 0 p len d) {y = 2} (omega arith) ∙ e, f)
  | no short ↦
      let (d1, e, f) = load_rounds-one w d i p len v good a size pos (omega arith) in
      (d1, ap (λ k. load_rounds true (deliver w) k i 0 p len d) {y = 1} (omega arith) ∙ e, f)
]
