-- ===== src/Dma/Fill.antt =====
-- The loop of `dma_arm` of witte_linum/drivers/dma/src/client.c against the dispatcher of server.c:
-- the load messages that fill a slot.
use ulmk_boards.Base.{
  ℕ, zero, suc, ◌+◌, ◌≤◌, ◌<◌, ◌≡◌, refl, ap, sym, ◌∙◌, true, false, none, some, List, [], ◌∷◌,
  ◌++◌, arith, if◌then◌else◌, set, take, drop, min, length, length-set, length-append, length-take,
  length-drop, get_or-set_self, get_or-set_ne, take_all,
}
use native.Mathlib.Decide.{ℕ_discrete}
use ulmk_boards.Kernel.{Rc, Msg, Reply, is_ok}
use ulmk_boards.Wire.Pack.{AllBytes, or_bytes}
use ulmk_boards.Dma.Slots.{Slot, Waits, blank, slot_at, bad_slot}
use ulmk_boards.Dma.Server.{Dispatcher, serve}
use ulmk_boards.Dma.Client.{load_msg, dma_call, dma_load}
use ulmk_boards.Dma.Load.{splice, length-splice}
use ulmk_boards.Dma.Transfer.{IsValid, deliver, serve-load}

-- The dispatcher after a load message that it accepts.
unfoldable pub loaded : Dispatcher → ℕ → ℕ → List ℕ → Dispatcher
loaded d i offset bytes = record {
  slots =
      set d.slots i
        (record (slot_at d.slots i) { buf = splice offset bytes (slot_at d.slots i).buf });
  tmp = bytes ++ drop (length bytes) d.tmp;
}

-- A message holds at most the named bytes of what follows them.
load_msg-take :
    (i offset : ℕ) (p : List ℕ) (n : ℕ)
    → n ≤ 12
    → load_msg i offset p n ≡ load_msg i offset (take n p) n
unfolding load_msg
load_msg-take i offset p n small =
    let capped : min n 12 ≡ n = omega arith in
    ap (λ t. record { label = 5; words = or_bytes 3 0 t (i ∷ offset ∷ n ∷ 0 ∷ 0 ∷ 0 ∷ []) })
      (ap (λ k. take k p) capped
        ∙ sym (take_all n (take n p) (omega (arith, length-take n p)))
        ∙ ap (λ k. take k (take n p)) (sym capped))

pub bad_slot-inside :
    (slots : List Slot) (i : ℕ)
    → bad_slot slots i ≡ false
    → (i < 3) × ((slot_at slots i).opened ≡ true)
bad_slot-inside slots i good = (ground arith, ground arith)

-- The slots other than the one written, and the one written.
pub slot_at-set_self :
    (slots : List Slot) (i : ℕ) (s : Slot) → i < length slots → slot_at (set slots i s) i ≡ s
slot_at-set_self slots i s h = get_or-set_self slots i s blank h

bufs_after :
    (slots : List Slot) (i : ℕ) (s : Slot)
    → ((j : ℕ) → length (slot_at slots j).buf ≡ 16)
    → i < length slots
    → length s.buf ≡ 16
    → (j : ℕ) → length (slot_at (set slots i s) j).buf ≡ 16
bufs_after slots i s all h e j = elim (ℕ_discrete i j) [
  | yes same ↦
      ap (λ t. length (slot_at (set slots i s) t).buf) (sym same)
      ∙ ap (λ t. length t.buf) (slot_at-set_self slots i s h)
      ∙ e
  | no other ↦ ap (λ t. length t.buf) (get_or-set_ne slots i j s blank other) ∙ all j
]

pub loaded-IsValid :
    (d : Dispatcher) (i offset : ℕ) (bytes : List ℕ)
    → IsValid d
    → i < 3
    → length bytes ≤ 12
    → IsValid (loaded d i offset bytes)
unfolding loaded
loaded-IsValid d i offset bytes v small le = record {
  three = length-set d.slots i _ ∙ v.three;
  bufs =
      bufs_after d.slots i _ v.bufs (omega (arith, v.three))
        (length-splice offset bytes (slot_at d.slots i).buf ∙ v.bufs i);
  tmp = omega (
    arith,
    length-append bytes (drop (length bytes) d.tmp),
    length-drop (length bytes) d.tmp,
    v.tmp,
  );
}

-- A call that the dispatcher answers.
pub dma_call-served :
    (w : Waits) (d d' : Dispatcher) (m : Msg) (reply : Reply)
    → serve w m d ≡ some (reply, d')
    → dma_call true (deliver w) m d ≡ (reply.rc, reply.words, d')
unfolding dma_call
dma_call-served w d d' m reply e =
    ap
      (λ r.
        let (rc, ans, s') = elim r as (λ x. Rc × Reply × Dispatcher) [
          | none ↦ (Rc.esrch, record { rc = Rc.esrch; words = [] }, d)
          | some (reply, d') ↦ (Rc.ok, reply, d')
        ] in
        if is_ok rc then (ans.rc, ans.words, s') else (rc, m.words, s'))
      e

-- One round of the client's loop.
pub dma_load-loaded :
    (w : Waits) (d : Dispatcher) (i offset : ℕ) (p : List ℕ) (n : ℕ)
    → IsValid d
    → bad_slot d.slots i ≡ false
    → AllBytes (take n p)
    → n ≤ length p
    → 0 < n
    → n ≤ 12
    → offset + n ≤ 16
    → dma_load true (deliver w) i offset p n d ≡ (Rc.ok, loaded d i offset (take n p))
unfolding dma_load loaded
dma_load-loaded w d i offset p n v good a long pos le fits =
    let size : length (take n p) ≡ n = omega (arith, length-take n p) in
    let inside = (bad_slot-inside d.slots i good).0 in
    ap (λ m. let (rc, ws, s') = dma_call true (deliver w) m d in (rc, s'))
      (load_msg-take i offset p n le)
    ∙ ap (λ r. let (rc, ws, s') = r in (rc, s'))
        (dma_call-served w d _ (load_msg i offset (take n p) n) _
          (serve-load w d i offset (take n p) n v good (omega arith) a size pos le fits))
    ∙ ap
        (λ k. (
          Rc.ok,
          record {
            slots = set d.slots i (record (slot_at d.slots i) {
              buf = splice offset (take n p) (slot_at d.slots i).buf;
            });
            tmp = take n p ++ drop k d.tmp;
          },
        ))
        (sym size)

splice-empty : (n : ℕ) (ys : List ℕ) → splice n ys [] ≡ []
unfolding splice
splice-empty zero [] = refl
splice-empty zero (y ∷ ys) = refl
splice-empty (suc n) ys = refl

-- Two pieces, one after the other, are the whole.
pub splice-two :
    (off n : ℕ) (xs ys buf : List ℕ)
    → n ≡ off + length xs
    → splice n ys (splice off xs buf) ≡ splice off (xs ++ ys) buf
unfolding splice
splice-two zero n [] ys buf e = ap (λ t. splice t ys buf) {y = 0} (omega arith)
splice-two zero n (x ∷ xs) ys [] e = splice-empty n ys
splice-two zero zero (x ∷ xs) ys (b ∷ buf) e = absurd (omega arith)
splice-two zero (suc n) (x ∷ xs) ys (b ∷ buf) e =
    ap (λ t. x ∷ t) (splice-two zero n xs ys buf (omega arith))
splice-two (suc off) n xs ys [] e = splice-empty n ys
splice-two (suc off) zero xs ys (b ∷ buf) e = absurd (omega arith)
splice-two (suc off) (suc n) xs ys (b ∷ buf) e =
    ap (λ t. b ∷ t) (splice-two off n xs ys buf (omega arith))
