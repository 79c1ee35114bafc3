-- ===== src/Pdma/Apart.antt =====
-- A copy and a receive of esp32p4_ev_function/drivers/dma/src/server.c between one another.
use ulmk_boards.Base.{
  ℕ, ◌≤◌, ◌<◌, ◌≡◌, refl, ap, sym, ◌∙◌, ◌⊎◌, inl, inr, false, not, ◌||◌, arith, Bool-cases, ltb,
  leb, ◌==◌, length, length-set, get_or-set_self, get_or-set_ne, List, [], ◌∷◌,
}
use ulmk_boards.Kernel.{Rc}
use ulmk_boards.Gdma.Channel.{Outcome, desc_max_len, rx_dw0}
use ulmk_boards.Pdma.Channel.{
  Pdma, PdmaAct, wr, wr_desc, irq_ack, dcache_clean, dcache_invalidate, copy_acts, dma_wait_done,
  DmaCh, hw_rx_arm, hw_rx_wait, rx_wait_on, hw_memcpy, dma_memcpy_hw, copied, ch_at, put_ch, no_ch,
  dma_nch,
}

-- A copy changes at most the channel of memory.
hw_memcpy-put :
    (g : Pdma) (dst src len : ℕ) (o : Outcome)
    → ((hw_memcpy g dst src len o).2 ≡ g)
      ⊎ ((hw_memcpy g dst src len o).2 ≡ put_ch g 0 (copied (ch_at g 0) dst src len o.left))
unfolding hw_memcpy dma_memcpy_hw
hw_memcpy-put g dst src len o = elim (Bool-cases (dst == 0 || src == 0)) [
  | inl bad ↦ rw bad (inl refl)
  | inr fine ↦ elim (Bool-cases (not g.hw)) [
    | inl off ↦ rw (fine, off) (inl refl)
    | inr on ↦ elim (Bool-cases (len == 0)) [
      | inl nothing ↦ rw (fine, on, nothing) (inl refl)
      | inr something ↦ elim (Bool-cases (ltb desc_max_len len)) [
        | inl long ↦ rw (fine, on, something, long) (inl refl)
        | inr short ↦ rw (fine, on, something, short) (inr (ground arith))
      ]
    ]
  ]
]

ch_at-hw_memcpy :
    (g : Pdma) (dst src len : ℕ) (o : Outcome) (slot : ℕ)
    → 0 < slot
    → ch_at (hw_memcpy g dst src len o).2 slot ≡ ch_at g slot
ch_at-hw_memcpy g dst src len o slot pos = elim (hw_memcpy-put g dst src len o) [
  | inl e ↦ ap (λ k. ch_at k slot) e
  | inr e ↦
      ap (λ k. ch_at k slot) e
      ∙ get_or-set_ne g.chs 0 slot (copied (ch_at g 0) dst src len o.left) no_ch (omega arith)
]

rx_wait_on-result :
    (c : DmaCh) (g g' : Pdma) (slot : ℕ) (o : Outcome)
    → ((rx_wait_on c g slot o).0 ≡ (rx_wait_on c g' slot o).0)
      × ((rx_wait_on c g slot o).1 ≡ (rx_wait_on c g' slot o).1)
unfolding rx_wait_on
rx_wait_on-result c g g' slot o = (ground arith, ground arith)

hw_rx_wait-inside :
    (g : Pdma) (slot : ℕ) (o : Outcome)
    → leb dma_nch slot ≡ false
    → hw_rx_wait g slot o ≡ rx_wait_on (ch_at g slot) g slot o
unfolding hw_rx_wait
hw_rx_wait-inside g slot o inside = rw inside refl

hw_rx_wait-result :
    (g g' : Pdma) (slot : ℕ) (o : Outcome)
    → ch_at g' slot ≡ ch_at g slot
    → ((hw_rx_wait g' slot o).0 ≡ (hw_rx_wait g slot o).0)
      × ((hw_rx_wait g' slot o).1 ≡ (hw_rx_wait g slot o).1)
hw_rx_wait-result g g' slot o same =
    let r = rx_wait_on-result (ch_at g slot) g' g slot o in
    elim (Bool-cases (leb dma_nch slot)) [
      | inl outside ↦ unfold hw_rx_wait in rw outside (refl, refl)
      | inr inside ↦
          let here = hw_rx_wait-inside g slot o inside in
          let there = hw_rx_wait-inside g' slot o inside ∙ ap (λ c. rx_wait_on c g' slot o) same in
          (
            ap (λ t. t.0) there ∙ r.0 ∙ ap (λ t. t.0) (sym here),
            ap (λ t. t.1) there ∙ r.1 ∙ ap (λ t. t.1) (sym here),
          )
    ]

-- An act on the channel of memory, a clean of the copy's source, or an invalidation of its
-- destination.
abbrev pub OfCopy : ℕ → ℕ → ℕ → PdmaAct → Type 0
OfCopy dst src len (wr r n v) = n ≡ 0
OfCopy dst src len (wr_desc r n) = n ≡ 0
OfCopy dst src len (irq_ack n) = n ≡ 0
OfCopy dst src len (dcache_clean p n) = (p ≡ src) × (n ≡ len)
OfCopy dst src len (dcache_invalidate p n) = (p ≡ dst) × (n ≡ len)

abbrev pub AllOfCopy : ℕ → ℕ → ℕ → List PdmaAct → Type 0
AllOfCopy dst src len [] = Unit {0}
AllOfCopy dst src len (a ∷ acts) = OfCopy dst src len a × AllOfCopy dst src len acts

hw_memcpy-acts :
    (g : Pdma) (dst src len : ℕ) (o : Outcome) → AllOfCopy dst src len (hw_memcpy g dst src len o).1
unfolding hw_memcpy dma_memcpy_hw copy_acts dma_wait_done
hw_memcpy-acts g dst src len o = ground arith

-- A copy, whatever becomes of it, leaves a wait for a receive on another channel than that of
-- memory as it is: the wait returns the same and does the same to the machine; and what the copy
-- does to the machine is all on the channel of memory, but for a clean of its source and an
-- invalidation of its destination.
pub hw_memcpy-rx_wait_apart :
    (g : Pdma) (dst src len slot : ℕ) (o o' : Outcome)
    → 0 < slot
    → ((hw_rx_wait (hw_memcpy g dst src len o).2 slot o').0 ≡ (hw_rx_wait g slot o').0)
      × ((hw_rx_wait (hw_memcpy g dst src len o).2 slot o').1 ≡ (hw_rx_wait g slot o').1)
      × AllOfCopy dst src len (hw_memcpy g dst src len o).1
hw_memcpy-rx_wait_apart g dst src len slot o o' pos =
    let (same, acts) =
      hw_rx_wait-result g (hw_memcpy g dst src len o).2 slot o'
        (ch_at-hw_memcpy g dst src len o slot pos) in
    (same, acts, hw_memcpy-acts g dst src len o)

-- The channel of an armed receive.
abbrev armed : DmaCh → ℕ → ℕ → DmaCh
armed c dst len = record c {
  in_desc = record { dw0 = rx_dw0 len; buf = dst };
  rx_dst = dst;
  rx_len = len;
}

hw_rx_arm-left :
    (g : Pdma) (slot dst len : ℕ)
    → (hw_rx_arm g slot dst len).0 ≡ Rc.ok
    → (hw_rx_arm g slot dst len).2 ≡ put_ch g slot (armed (ch_at g slot) dst len)
unfolding hw_rx_arm
hw_rx_arm-left g slot dst len ok = ground (arith, ok)

hw_rx_arm-on :
    (g : Pdma) (slot dst len : ℕ) → (hw_rx_arm g slot dst len).0 ≡ Rc.ok → not g.hw ≡ false
unfolding hw_rx_arm
hw_rx_arm-on g slot dst len ok = ground (arith, ok)

hw_memcpy-left :
    (g : Pdma) (dst src len : ℕ) (o : Outcome)
    → (dst == 0 || src == 0) ≡ false
    → not g.hw ≡ false
    → (len == 0) ≡ false
    → ltb desc_max_len len ≡ false
    → (hw_memcpy g dst src len o).2 ≡ put_ch g 0 (copied (ch_at g 0) dst src len o.left)
unfolding hw_memcpy dma_memcpy_hw
hw_memcpy-left g dst src len o fine on something short =
    rw (fine, on, something, short) (ground arith)

ch_at-put_self : (g : Pdma) (c : DmaCh) → length g.chs ≡ 2 → ch_at (put_ch g 0 c) 0 ≡ c
ch_at-put_self g c two = get_or-set_self g.chs 0 c no_ch (omega (arith, two))

-- With the two channels in place, where arming a receive on the channel of memory succeeds, a copy
-- that is of 1 to 4095 bytes between pointers that are not null leaves that receive armed, but
-- with its descriptor aimed at the copy's destination.
pub hw_rx_arm-memcpy :
    (g : Pdma) (dst len to from n : ℕ) (o : Outcome)
    → length g.chs ≡ 2
    → (hw_rx_arm g 0 dst len).0 ≡ Rc.ok
    → 0 < to
    → 0 < from
    → 0 < n
    → n ≤ 4095
    → let g2 = (hw_memcpy (hw_rx_arm g 0 dst len).2 to from n o).2 in
      ((ch_at g2 0).rx_dst ≡ dst) × ((ch_at g2 0).in_desc.buf ≡ to)
hw_rx_arm-memcpy g dst len to from n o two ok p q r s =
    let a = armed (ch_at g 0) dst len in
    let on = hw_rx_arm-on g 0 dst len ok in
    let g1 = put_ch g 0 a in
    let same = ch_at-put_self g a two in
    let left =
      ap (λ k. (hw_memcpy k to from n o).2) (hw_rx_arm-left g 0 dst len ok)
      ∙ hw_memcpy-left g1 to from n o (ground arith) on (ground arith) (ground arith) in
    let at =
      ap (λ k. ch_at k 0) left
      ∙ ch_at-put_self g1 (copied (ch_at g1 0) to from n o.left) (length-set g.chs 0 a ∙ two) in
    (ap (λ c. c.rx_dst) at ∙ ap (λ c. c.rx_dst) same, ap (λ c. c.in_desc.buf) at)
