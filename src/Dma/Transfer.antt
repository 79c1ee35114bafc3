-- ===== src/Dma/Transfer.antt =====
-- A client's transfer through the dispatcher of witte_linum/drivers/dma: what `dma_arm` leaves in the
-- slot, and what `dma_wait` brings back.
use ulmk_boards.Base.{
  ℕ, zero, suc, ◌+◌, ◌/◌, ◌≤◌, ◌<◌, ◌^◌, ◌≡◌, refl, ap, sym, ◌∙◌, false, none, some, List, [], ◌∷◌,
  ◌++◌, arith, get_or, set, take, drop, min, length, length-append, length-drop, take_all,
}
use ulmk_boards.Base.Word.{u8}
use ulmk_boards.Kernel.{Rc, Msg, Reply}
use ulmk_boards.Wire.Pack.{
  or_bytes, get_bytes, byte_at, AllBytes, InRange, get_bytes-or_bytes, byte_at-zero,
  or_bytes-before,
}
use ulmk_boards.Dma.Slots.{Waits, slot_at, bad_slot, dma_xfer_max, do_load, copy_in}
use ulmk_boards.Dma.Server.{
  Dispatcher, load_reply, serve_load, serve, unpack_payload, word, no_words,
}
use ulmk_boards.Dma.Client.{load_msg}
use ulmk_boards.Dma.Load.{splice, do_load-splice}

-- The kernel delivers the message, and the dispatcher answers it. A message at which the server
-- would leave its arrays has no answer: the call fails.
abbrev pub deliver : Waits → Msg → Dispatcher → Rc × Reply × Dispatcher
deliver w m d = elim (serve w m d) [
  | none ↦ (Rc.esrch, record { rc = Rc.esrch; words = [] }, d)
  | some (reply, d') ↦ (Rc.ok, reply, d')
]

-- What the dispatcher's state has at all times.
pub record IsValid (d : Dispatcher) : Type 0 where
  pub three : length d.slots ≡ 3
  pub bufs : (i : ℕ) → length (slot_at d.slots i).buf ≡ 16
  pub tmp : length d.tmp ≡ 16

six : ℕ → ℕ → ℕ → List ℕ
six a b c = a ∷ b ∷ c ∷ 0 ∷ 0 ∷ 0 ∷ []

six-InRange : (a b c : ℕ) → a < 2 ^ 32 → b < 2 ^ 32 → c < 2 ^ 32 → InRange (six a b c)
unfolding six
six-InRange a b c p q r zero = p
six-InRange a b c p q r (suc zero) = q
six-InRange a b c p q r (suc (suc zero)) = r
six-InRange a b c p q r (suc (suc (suc zero))) = omega arith
six-InRange a b c p q r (suc (suc (suc (suc zero)))) = omega arith
six-InRange a b c p q r (suc (suc (suc (suc (suc zero))))) = omega arith
six-InRange a b c p q r (suc (suc (suc (suc (suc (suc k)))))) = omega arith

six_tail : (a b c t : ℕ) → get_or (six a b c) (suc (suc (suc t))) 0 ≡ 0
unfolding six
six_tail a b c zero = refl
six_tail a b c (suc zero) = refl
six_tail a b c (suc (suc zero)) = refl
six_tail a b c (suc (suc (suc t))) = refl

six-free : (a b c k : ℕ) → byte_at 3 k (six a b c) ≡ 0
six-free a b c k = byte_at-zero 3 k (six a b c) (
    ap (λ t. get_or (six a b c) t 0) {y = suc (suc (suc (k / 4)))} (omega arith)
    ∙ six_tail a b c (k / 4))

six_free_from_two : (a b k : ℕ) → byte_at 2 k (six a b 0) ≡ 0
six_free_from_two a b k =
    byte_at-zero 2 k (six a b 0)
      (ap (λ t. get_or (six a b 0) t 0) {y = suc (suc (k / 4))} (omega arith) ∙ tail (k / 4))
  where
    tail : (t : ℕ) → get_or (six a b 0) (suc (suc t)) 0 ≡ 0
    tail zero = unfold six in refl
    tail (suc t) = six_tail a b 0 t

-- The bytes of a load message come out as they went in.
pub load_msg-bytes :
    (slot offset : ℕ) (bytes : List ℕ) (len : ℕ)
    → AllBytes bytes
    → length bytes ≡ len
    → len ≤ 12
    → slot < 2 ^ 32
    → offset < 2 ^ 32
    → get_bytes 3 0 len (load_msg slot offset bytes len).words ≡ bytes
unfolding load_msg six
load_msg-bytes slot offset bytes len a e small s o =
    let ws = six slot offset len in
    let all : take (min len 12) bytes ≡ bytes = take_all (min len 12) bytes (omega arith) in
    ap (λ t. get_bytes 3 0 len (or_bytes 3 0 t ws)) all
    ∙ ap (λ n. get_bytes 3 0 n (or_bytes 3 0 bytes ws)) (sym e)
    ∙ get_bytes-or_bytes 3 bytes ws a (six-InRange slot offset len s o (omega arith)) (omega arith)
        (six-free slot offset len)

module _ (i offset : ℕ) (bytes : List ℕ) (len : ℕ) where
  load_msg-word0 : word (load_msg i offset bytes len) 0 ≡ i
  unfolding load_msg
  load_msg-word0 =
      or_bytes-before 3 0 0 (take (min len 12) bytes) (i ∷ offset ∷ len ∷ 0 ∷ 0 ∷ 0 ∷ [])
        (omega arith)

  load_msg-word1 : word (load_msg i offset bytes len) 1 ≡ offset
  unfolding load_msg
  load_msg-word1 =
      or_bytes-before 3 0 1 (take (min len 12) bytes) (i ∷ offset ∷ len ∷ 0 ∷ 0 ∷ 0 ∷ [])
        (omega arith)

  load_msg-word2 : word (load_msg i offset bytes len) 2 ≡ len
  unfolding load_msg
  load_msg-word2 =
      or_bytes-before 3 0 2 (take (min len 12) bytes) (i ∷ offset ∷ len ∷ 0 ∷ 0 ∷ 0 ∷ [])
        (omega arith)

take_front : (xs ys : List ℕ) (n : ℕ) → length xs ≡ n → take n (xs ++ ys) ≡ xs
take_front [] ys zero e = refl
take_front [] ys (suc n) e = absurd (omega arith)
take_front (x ∷ xs) ys zero e = absurd (omega arith)
take_front (x ∷ xs) ys (suc n) e = ap (λ t. x ∷ t) (take_front xs ys n (omega arith))

unpack_load :
    (i offset : ℕ) (bytes : List ℕ) (len : ℕ) (tmp : List ℕ)
    → AllBytes bytes
    → length bytes ≡ len
    → len ≤ 12
    → i < 2 ^ 32
    → offset < 2 ^ 32
    → unpack_payload (load_msg i offset bytes len) 3 tmp len ≡ bytes ++ drop len tmp
unfolding unpack_payload copy_in
unpack_load i offset bytes len tmp a e le p q =
    let capped : min len dma_xfer_max ≡ len = omega arith in
    rw (capped, load_msg-bytes i offset bytes len a e le p q, take_all len bytes (omega arith)) refl

-- The bytes of a load message, with what the array `tmp` kept, stand in `tmp`, and the open slot's
-- buffer has them from the offset on, where they fit.
pub serve-load :
    (w : Waits) (d : Dispatcher) (i offset : ℕ) (bytes : List ℕ) (len : ℕ)
    → IsValid d
    → bad_slot d.slots i ≡ false
    → i < 256
    → AllBytes bytes
    → length bytes ≡ len
    → 0 < len
    → len ≤ 12
    → offset + len ≤ 16
    → let s = slot_at d.slots i in
      serve w (load_msg i offset bytes len) d
      ≡ some (
        record { rc = Rc.ok; words = no_words },
        record {
          slots = set d.slots i (record s { buf = splice offset bytes s.buf });
          tmp = bytes ++ drop len d.tmp;
        },
      )
unfolding serve serve_load load_msg
serve-load w d i offset bytes len v good small a e pos le fits = loaded
  where
    m : Msg
    m = load_msg i offset bytes len

    tmp_of : ℕ → List ℕ
    tmp_of n = unpack_payload m 3 d.tmp n

    kept : List ℕ
    kept = bytes ++ drop len d.tmp

    loaded :
        serve_load (load_msg i offset bytes len) d
        ≡ some (
          record { rc = Rc.ok; words = no_words },
          record {
            slots =
                set d.slots i (record (slot_at d.slots i) {
                  buf = splice offset bytes (slot_at d.slots i).buf;
                });
            tmp = bytes ++ drop len d.tmp;
          },
        )
    loaded =
        ap
          (λ t.
            load_reply (tmp_of (word m 2))
              (do_load d.slots (u8 t) (word m 1) (tmp_of (word m 2)) (word m 2)))
          (load_msg-word0 i offset bytes len)
        ∙ ap
            (λ t.
              load_reply (tmp_of (word m 2))
                (do_load d.slots (u8 i) t (tmp_of (word m 2)) (word m 2)))
            (load_msg-word1 i offset bytes len)
        ∙ ap (λ n. load_reply (tmp_of n) (do_load d.slots (u8 i) offset (tmp_of n) n))
            (load_msg-word2 i offset bytes len)
        ∙ ap (λ t. load_reply t (do_load d.slots (u8 i) offset t len))
            (unpack_load i offset bytes len d.tmp a e le (omega arith) (omega arith))
        ∙ ap (λ t. load_reply kept (do_load d.slots t offset kept len)) {y = i} (omega arith)
        ∙ ap (load_reply kept) (
            do_load-splice d.slots i offset len kept (v.bufs i)
              (omega (arith, length-append bytes (drop len d.tmp), length-drop len d.tmp, v.tmp))
              good pos fits)
        ∙ ap
            (λ t. load_reply kept (
              some (
                Rc.ok,
                set d.slots i
                    (record (slot_at d.slots i) { buf = splice offset t (slot_at d.slots i).buf }),
              )))
            (take_front bytes (drop len d.tmp) len e)
