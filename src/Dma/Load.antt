-- ===== src/Dma/Load.antt =====
-- `do_load` of witte_linum/drivers/dma/src/server.c: where it writes, and when its guard is enough.
use ulmk_boards.Base.{
  ℕ, zero, suc, ◌+◌, ◌≤◌, ◌<◌, ◌^◌, ◌≡◌, ◌≢◌, refl, ap, ap₂, sym, ◌∙◌, inl, inr, true, false, ◌||◌,
  none, some, List, [], ◌∷◌, arith, Bool-cases, ltb, ◌==◌, get_or, set, take, drop, length,
  length-set,
}
use ulmk_boards.Base.Word.{add32}
use ulmk_boards.Kernel.{Rc}
use ulmk_boards.Dma.Slots.{Slot, slot_at, bad_slot, dma_xfer_max, store_from, do_load}

-- `offset` bytes kept, `bytes` written over, and the rest kept.
unfoldable pub splice : ℕ → List ℕ → List ℕ → List ℕ
splice zero [] buf = buf
splice zero (x ∷ xs) [] = []
splice zero (x ∷ xs) (b ∷ buf) = x ∷ splice zero xs buf
splice (suc offset) xs [] = []
splice (suc offset) xs (b ∷ buf) = b ∷ splice offset xs buf

pub splice-all : (xs buf : List ℕ) → length xs ≡ length buf → splice 0 xs buf ≡ xs
unfolding splice
splice-all [] [] e = refl
splice-all [] (b ∷ buf) e = absurd (omega arith)
splice-all (x ∷ xs) [] e = absurd (omega arith)
splice-all (x ∷ xs) (b ∷ buf) e = ap (λ t. x ∷ t) (splice-all xs buf (omega arith))

pub length-splice : (off : ℕ) (xs buf : List ℕ) → length (splice off xs buf) ≡ length buf
unfolding splice
length-splice zero [] buf = refl
length-splice zero (x ∷ xs) [] = refl
length-splice zero (x ∷ xs) (b ∷ buf) = ap suc (length-splice zero xs buf)
length-splice (suc off) xs [] = refl
length-splice (suc off) xs (b ∷ buf) = ap suc (length-splice off xs buf)

splice-nil : (off : ℕ) (buf : List ℕ) → splice off [] buf ≡ buf
unfolding splice
splice-nil zero buf = refl
splice-nil (suc off) [] = refl
splice-nil (suc off) (b ∷ buf) = ap (λ t. b ∷ t) (splice-nil off buf)

-- Writing the first byte and then the others.
splice-cons :
    (off x : ℕ) (xs buf : List ℕ)
    → off < length buf
    → splice (suc off) xs (set buf off x) ≡ splice off (x ∷ xs) buf
unfolding splice
splice-cons zero x xs [] h = absurd (omega arith)
splice-cons zero x xs (b ∷ buf) h = refl
splice-cons (suc off) x xs [] h = absurd (omega arith)
splice-cons (suc off) x xs (b ∷ buf) h = ap (λ t. b ∷ t) (splice-cons off x xs buf (omega arith))

-- The entries from `k` on.
drop-cons : (k : ℕ) (xs : List ℕ) → k < length xs → drop k xs ≡ get_or xs k 0 ∷ drop (suc k) xs
drop-cons zero [] h = absurd (omega arith)
drop-cons zero (x ∷ xs) h = refl
drop-cons (suc k) [] h = absurd (omega arith)
drop-cons (suc k) (x ∷ xs) h = drop-cons k xs (omega arith)

-- The copy loop, where it stays inside both arrays.
pub store_from-splice :
    (left k offset : ℕ) (bytes buf : List ℕ)
    → offset + k + left < 2 ^ 32
    → offset + k + left ≤ length buf
    → k + left ≤ length bytes
    → store_from left k offset bytes buf ≡ some (splice (offset + k) (take left (drop k bytes)) buf)
unfolding store_from
store_from-splice zero k offset bytes buf r h g = ap some (sym (splice-nil (offset + k) buf))
store_from-splice (suc left) k offset bytes buf r h g =
    let at : add32 offset k ≡ offset + k = omega arith in
    let inside : ltb (offset + k) (length buf) ≡ true = ground arith in
    let inside' : ltb k (length bytes) ≡ true = ground arith in
    rw (at, inside, inside', drop-cons k bytes (omega arith))
      (store_from-splice left (k + 1) offset bytes (set buf (offset + k) (get_or bytes k 0))
          (omega arith) (omega (arith, length-set buf (offset + k) (get_or bytes k 0)))
          (omega arith)
        ∙ ap₂
            (λ u v.
              some (splice u (take left (drop v bytes)) (set buf (offset + k) (get_or bytes k 0))))
            {y = suc (offset + k)} {v = suc k} (omega arith) (omega arith)
        ∙ ap some (
            splice-cons (offset + k) (get_or bytes k 0) (take left (drop (suc k) bytes)) buf
              (omega arith)))

-- Where `do_load` accepts a message whose offset and length do not wrap: the named bytes of the
-- slot's buffer become those of the message, and nothing else changes.
pub do_load-splice :
    (slots : List Slot) (i offset len : ℕ) (bytes : List ℕ)
    → length (slot_at slots i).buf ≡ 16
    → length bytes ≡ 16
    → bad_slot slots i ≡ false
    → 0 < len
    → offset + len ≤ 16
    → do_load slots i offset bytes len
      ≡ some (
        Rc.ok,
        set slots i (record (slot_at slots i) {
          buf = splice offset (take len bytes) (slot_at slots i).buf;
        }),
      )
unfolding do_load
do_load-splice slots i offset len bytes b t good pos fits =
    let nonzero : (len == 0) ≡ false = ground arith in
    let small : ltb dma_xfer_max (add32 offset len) ≡ false = ground arith in
    rw (good, nonzero, small, stored) refl
  where
    stored :
        store_from len 0 offset bytes (slot_at slots i).buf
        ≡ some (splice offset (take len bytes) (slot_at slots i).buf)
    stored =
        store_from-splice len 0 offset bytes (slot_at slots i).buf (omega arith) (omega arith)
          (omega arith)
        ∙ ap (λ t. some (splice t (take len bytes) (slot_at slots i).buf)) {y = offset}
            (omega arith)

-- The guard `offset + len > DMA_XFER_MAX` keeps every access inside the two 16-byte arrays when the
-- sum does not wrap, whatever the slot, the offset and the length.
pub do_load-in_bounds :
    (slots : List Slot) (i offset len : ℕ) (bytes : List ℕ)
    → length (slot_at slots i).buf ≡ 16
    → length bytes ≡ 16
    → offset + len < 2 ^ 32
    → do_load slots i offset bytes len ≢ none
unfolding do_load
do_load-in_bounds slots i offset len bytes b t r = elim (Bool-cases (bad_slot slots i)) [
  | inl bad ↦ rw bad (λ h. cc)
  | inr good ↦ elim (Bool-cases (len == 0 || ltb dma_xfer_max (add32 offset len))) [
    | inl refused ↦ rw (good, refused) (λ h. cc)
    | inr taken ↦
        λ h. cc (do_load-splice slots i offset len bytes b t good (ground arith) (ground arith), h)
  ]
]

-- When the sum does wrap, the guard lets the message through and the first write is past the end
-- of the slot's buffer.
pub do_load-wraps :
    (slots : List Slot) (i offset len : ℕ) (bytes : List ℕ)
    → length (slot_at slots i).buf ≡ 16
    → bad_slot slots i ≡ false
    → offset < 2 ^ 32
    → len < 2 ^ 32
    → 2 ^ 32 ≤ offset + len
    → offset + len ≤ 2 ^ 32 + 16
    → 16 ≤ offset
    → do_load slots i offset bytes len ≡ none
unfolding do_load store_from
do_load-wraps slots i offset zero bytes b good o l w fits far = absurd (omega arith)
do_load-wraps slots i offset (suc len) bytes b good o l w fits far =
    let small : ltb dma_xfer_max (add32 offset (suc len)) ≡ false = ground arith in
    let outside : ltb (add32 offset 0) (length (slot_at slots i).buf) ≡ false = ground arith in
    let nonzero : (suc len == 0) ≡ false = ground arith in rw (good, nonzero, small, outside) refl
