-- ===== src/Gdma/Beside.antt =====
-- Operations of esp32p4_ev_function/drivers/gdma_axi/src/server.c in a row: opening and arming, and
-- a copy between arming and waiting.
use ulmk_boards.Base.{
  ℕ, ◌≤◌, ◌<◌, ◌≡◌, refl, ap, sym, subst, ◌∙◌, ◌⊎◌, inl, inr, true, false, not, ◌||◌, List, [], ◌∷◌,
  ◌++◌, arith, Bool-cases, ltb, leb, ◌==◌, length, get_or-set_self, get_or-set_ne, bit_and,
  if◌then◌else◌,
}
use ulmk_boards.Base.Word.{u8, ◌<<◌}
use ulmk_boards.Kernel.{Rc, is_ok}
use ulmk_boards.Gdma.Channel.{
  Channel, Gdma, Act, Outcome, hw_channel_open, hw_rx_arm, hw_rx_wait, received, wait_in_done,
  channel_at, put_channel, no_channel, in_int_clr, cache_invalidate, gdma_axi_slot_count,
  gdma_axi_slot_mem, desc_max_len,
}
use ulmk_boards.Gdma.Copy.{dma_memcpy_hw, hw_memcpy}

-- A copy changes at most the channel of memory.
hw_memcpy-put :
    (g : Gdma) (dst src len : ℕ) (o : Outcome)
    → ((hw_memcpy g dst src len o).2 ≡ g)
      ⊎ ((c : Channel) × ((hw_memcpy g dst src len o).2 ≡ put_channel g 0 c))
unfolding hw_memcpy dma_memcpy_hw
hw_memcpy-put g dst src len o = elim (Bool-cases (dst == 0 || src == 0)) [
  | inl bad ↦ rw bad (inl refl)
  | inr fine ↦ elim (Bool-cases (not g.hw)) [
    | inl off ↦ rw (fine, off) (inl refl)
    | inr on ↦ elim (Bool-cases (len == 0)) [
      | inl nothing ↦ rw (fine, on, nothing) (inl refl)
      | inr something ↦ elim (Bool-cases (ltb desc_max_len len)) [
        | inl long ↦ rw (fine, on, something, long) (inl refl)
        | inr short ↦
            rw (fine, on, something, short)
              (inr (record (channel_at g 0) { dw0 = o.left; desc_buf = dst }, ground arith))
      ]
    ]
  ]
]

channel_at-hw_memcpy :
    (g : Gdma) (dst src len : ℕ) (o : Outcome) (slot : ℕ)
    → 0 < slot
    → channel_at (hw_memcpy g dst src len o).2 slot ≡ channel_at g slot
channel_at-hw_memcpy g dst src len o slot pos = elim (hw_memcpy-put g dst src len o) [
  | inl e ↦ ap (λ k. channel_at k slot) e
  | inr (c, e) ↦
      ap (λ k. channel_at k slot) e ∙ get_or-set_ne g.slots 0 slot c no_channel (omega arith)
]

wait_for : Channel → Gdma → ℕ → Outcome → Rc × List Act × Gdma
wait_for c g slot o =
    let idle = put_channel g slot (record c { buf = 0; dw0 = o.left }) in
    if leb gdma_axi_slot_count slot
    then (Rc.einval, [], g)
    else if slot == gdma_axi_slot_mem || c.is_tx
    then (Rc.einval, [], g)
    else if c.buf == 0
    then (Rc.einval, [], g)
    else if not (is_ok o.waited)
    then (Rc.etimeout, wait_in_done c.hw_ch slot ++ in_int_clr c.hw_ch 0xFFFFFFFF ∷ [], idle)
    else (
      if not (bit_and o.raw (1 << 3) == 0)
          then Rc.einval
          else if bit_and o.raw (1 << 1) == 0
          then Rc.etimeout
          else Rc.count (received c o.left),
      wait_in_done c.hw_ch slot
          ++ in_int_clr c.hw_ch 0xFFFFFFFF ∷ cache_invalidate c.buf c.len ∷ [],
      idle,
    )

wait_for-result :
    (c : Channel) (g g' : Gdma) (slot : ℕ) (o : Outcome)
    → ((wait_for c g slot o).0 ≡ (wait_for c g' slot o).0)
      × ((wait_for c g slot o).1 ≡ (wait_for c g' slot o).1)
unfolding wait_for
wait_for-result c g g' slot o = (ground arith, ground arith)

hw_rx_wait-for :
    (g : Gdma) (slot : ℕ) (o : Outcome)
    → hw_rx_wait g slot o ≡ wait_for (channel_at g slot) g slot o
unfolding hw_rx_wait wait_for
hw_rx_wait-for g slot o = refl

-- A copy from memory to memory, whatever becomes of it, leaves a wait for a receive on another
-- channel as it is: the wait returns the same and does the same to the machine.
pub hw_memcpy-rx_wait :
    (g : Gdma) (dst src len slot : ℕ) (o o' : Outcome)
    → 0 < slot
    → ((hw_rx_wait (hw_memcpy g dst src len o).2 slot o').0 ≡ (hw_rx_wait g slot o').0)
      × ((hw_rx_wait (hw_memcpy g dst src len o).2 slot o').1 ≡ (hw_rx_wait g slot o').1)
hw_memcpy-rx_wait g dst src len slot o o' pos =
    let g1 = (hw_memcpy g dst src len o).2 in
    let same =
      hw_rx_wait-for g1 slot o'
      ∙ ap (λ c. wait_for c g1 slot o') (channel_at-hw_memcpy g dst src len o slot pos) in
    let r = wait_for-result (channel_at g slot) g1 g slot o' in
    let there = hw_rx_wait-for g slot o' in
    (
      ap (λ t. t.0) same ∙ r.0 ∙ ap (λ t. t.0) (sym there),
      ap (λ t. t.1) same ∙ r.1 ∙ ap (λ t. t.1) (sym there),
    )

-- What opening leaves, where it succeeds: the state, and the guards that it passed.
record Opened (g : Gdma) (slot mux : ℕ) : Type 0 where
  left :
      (hw_channel_open g slot mux).2
      ≡ put_channel g slot (record (channel_at g slot) { periph = u8 mux; opened = true })
  inside : leb gdma_axi_slot_count slot ≡ false
  on : not g.hw ≡ false

hw_channel_open-left :
    (g : Gdma) (slot mux : ℕ)
    → (hw_channel_open g slot mux).0 ≡ Rc.ok
    → (hw_channel_open g slot mux).2
      ≡ put_channel g slot (record (channel_at g slot) { periph = u8 mux; opened = true })
unfolding hw_channel_open
hw_channel_open-left g slot mux ok = ground (arith, ok)

hw_channel_open-inside :
    (g : Gdma) (slot mux : ℕ)
    → (hw_channel_open g slot mux).0 ≡ Rc.ok
    → leb gdma_axi_slot_count slot ≡ false
unfolding hw_channel_open
hw_channel_open-inside g slot mux ok = ground (arith, ok)

hw_channel_open-on :
    (g : Gdma) (slot mux : ℕ) → (hw_channel_open g slot mux).0 ≡ Rc.ok → not g.hw ≡ false
unfolding hw_channel_open
hw_channel_open-on g slot mux ok = ground (arith, ok)

hw_channel_open-Opened :
    (g : Gdma) (slot mux : ℕ) → (hw_channel_open g slot mux).0 ≡ Rc.ok → Opened g slot mux
hw_channel_open-Opened g slot mux ok = record {
  left = hw_channel_open-left g slot mux ok;
  inside = hw_channel_open-inside g slot mux ok;
  on = hw_channel_open-on g slot mux ok;
}

hw_rx_arm-ok :
    (g : Gdma) (slot dst len : ℕ)
    → (leb gdma_axi_slot_count slot || (dst == 0 || len == 0)) ≡ false
    → (slot == gdma_axi_slot_mem || (channel_at g slot).is_tx) ≡ false
    → (not g.hw || not (channel_at g slot).opened) ≡ false
    → ltb desc_max_len len ≡ false
    → (hw_rx_arm g slot dst len).0 ≡ Rc.ok
unfolding hw_rx_arm
hw_rx_arm-ok g slot dst len fine rx ready short = rw (fine, rx, ready, short) refl

-- With the five slots in place, opening a slot that receives, other than the one of memory, makes
-- arming it succeed, for a buffer that is not null and of 1 to 4095 bytes.
pub hw_channel_open-rx_arm :
    (g : Gdma) (slot mux dst len : ℕ)
    → length g.slots ≡ 5
    → 0 < slot
    → (channel_at g slot).is_tx ≡ false
    → (hw_channel_open g slot mux).0 ≡ Rc.ok
    → 0 < dst
    → 0 < len
    → len ≤ 4095
    → (hw_rx_arm (hw_channel_open g slot mux).2 slot dst len).0 ≡ Rc.ok
hw_channel_open-rx_arm g slot mux dst len five pos rx ok d l short =
    let a = hw_channel_open-Opened g slot mux ok in
    let c = record (channel_at g slot) { periph = u8 mux; opened = true } in
    let same = get_or-set_self g.slots slot c no_channel (ground (arith, a.inside, five)) in
    subst (λ k. (hw_rx_arm k slot dst len).0 ≡ Rc.ok) (sym a.left)
      (hw_rx_arm-ok (put_channel g slot c) slot dst len (ground (arith, a.inside, d, l))
        (ap (λ k. slot == gdma_axi_slot_mem || k.is_tx) same ∙ ground (arith, rx))
        (ap (λ k. not g.hw || not k.opened) same ∙ ground (arith, a.on)) (ground arith))
