-- ===== src/Gdma/Receive.antt =====
-- A transfer of one channel: arming and waiting.
use ulmk_boards.Base.{
  ℕ, ◌/◌, ◌%◌, ◌^◌, min, ◌≡◌, refl, ap, sym, subst, ◌∙◌, inl, inr, true, false, not, ◌||◌, [],
  arith, Bool-cases, ltb, leb, ◌==◌, length, length-set, get_or-set_self, bit_and,
}
use ulmk_boards.Base.Bits.{and_low}
use ulmk_boards.Base.Word.{◌<<◌, ◌>>>◌}
use ulmk_boards.Kernel.{Rc, is_ok}
use ulmk_boards.Gdma.Channel.{
  Channel, Gdma, Outcome, no_channel, channel_at, put_channel, received, hw_rx_arm, hw_rx_wait,
  gdma_axi_slot_count, gdma_axi_slot_mem, desc_max_len,
}

-- What a wait for an armed receive returns, by what the kernel and the hardware answered: bit 3 is
-- an error, bit 1 the end of the receive, and the descriptor has the count in its bits from 12 on.
pub data Received (len : ℕ) (o : Outcome) : Rc → Type 0 where
  unanswered : is_ok o.waited ≡ false → Received len o Rc.etimeout
  failed : is_ok o.waited ≡ true → (bit_and o.raw (1 << 3) == 0) ≡ false → Received len o Rc.einval
  unfinished :
      is_ok o.waited ≡ true
      → (bit_and o.raw (1 << 3) == 0) ≡ true
      → (bit_and o.raw (1 << 1) == 0) ≡ true
      → Received len o Rc.etimeout
  bytes :
      is_ok o.waited ≡ true
      → (bit_and o.raw (1 << 3) == 0) ≡ true
      → (bit_and o.raw (1 << 1) == 0) ≡ false
      → Received len o (Rc.count (min len (o.left / 2 ^ 12 % 2 ^ 12)))

received-min : (c : Channel) (left : ℕ) → received c left ≡ min c.len (left / 2 ^ 12 % 2 ^ 12)
unfolding received
received-min c left = ground (arith, and_low 12 (left >>> 12))

record Armed (g : Gdma) (slot len : ℕ) : Type 0 where
  inside : leb gdma_axi_slot_count slot ≡ false
  receives : (slot == gdma_axi_slot_mem || (channel_at g slot).is_tx) ≡ false
  busy : ((channel_at g slot).buf == 0) ≡ false
  length : (channel_at g slot).len ≡ len

channel_at-put_self :
    (g : Gdma) (slot : ℕ) (c : Channel)
    → length g.slots ≡ 5
    → leb gdma_axi_slot_count slot ≡ false
    → channel_at (put_channel g slot c) slot ≡ c
channel_at-put_self g slot c five inside = get_or-set_self g.slots slot c no_channel (ground arith)

put_channel-Armed :
    (g : Gdma) (slot : ℕ) (c : Channel)
    → length g.slots ≡ 5
    → leb gdma_axi_slot_count slot ≡ false
    → (slot == gdma_axi_slot_mem || c.is_tx) ≡ false
    → (c.buf == 0) ≡ false
    → Armed (put_channel g slot c) slot c.len
put_channel-Armed g slot c five inside rx busy =
    let same = channel_at-put_self g slot c five inside in
    record {
      inside = inside;
      receives = ap (λ k. slot == gdma_axi_slot_mem || k.is_tx) same ∙ rx;
      busy = ap (λ k. k.buf == 0) same ∙ busy;
      length = ap (λ k. k.len) same;
    }

hw_rx_arm-Armed :
    (g : Gdma) (slot dst len : ℕ)
    → length g.slots ≡ 5
    → (hw_rx_arm g slot dst len).0 ≡ Rc.ok
    → Armed (hw_rx_arm g slot dst len).2 slot len × (length (hw_rx_arm g slot dst len).2.slots ≡ 5)
unfolding hw_rx_arm
hw_rx_arm-Armed g slot dst len five =
    elim (Bool-cases (leb gdma_axi_slot_count slot || (dst == 0 || len == 0))) [
      | inl bad ↦ rw bad (λ e. absurd (cc e))
      | inr fine ↦ elim (Bool-cases (slot == gdma_axi_slot_mem || (channel_at g slot).is_tx)) [
        | inl bad ↦ rw (fine, bad) (λ e. absurd (cc e))
        | inr rx ↦ elim (Bool-cases (not g.hw || not (channel_at g slot).opened)) [
          | inl bad ↦ rw (fine, rx, bad) (λ e. absurd (cc e))
          | inr ready ↦ elim (Bool-cases (ltb desc_max_len len)) [
            | inl bad ↦ rw (fine, rx, ready, bad) (λ e. absurd (cc e))
            | inr short ↦
                rw (fine, rx, ready, short)
                  (λ e. (
                    put_channel-Armed g slot _ five (ground arith) rx (ground arith),
                    length-set g.slots slot _ ∙ five,
                  ))
          ]
        ]
      ]
    ]

hw_rx_wait-idle :
    (g : Gdma) (slot len : ℕ) (o : Outcome)
    → Armed g slot len
    → (hw_rx_wait g slot o).2
      ≡ put_channel g slot (record (channel_at g slot) { buf = 0; dw0 = o.left })
unfolding hw_rx_wait
hw_rx_wait-idle g slot len o a = elim (Bool-cases (is_ok o.waited)) [
  | inl done ↦ rw (a.inside, a.receives, a.busy, done) refl
  | inr late ↦ rw (a.inside, a.receives, a.busy, late) refl
]

hw_rx_wait-refused :
    (g : Gdma) (slot : ℕ) (o : Outcome)
    → leb gdma_axi_slot_count slot ≡ false
    → (slot == gdma_axi_slot_mem || (channel_at g slot).is_tx) ≡ false
    → ((channel_at g slot).buf == 0) ≡ true
    → hw_rx_wait g slot o ≡ (Rc.einval, [], g)
unfolding hw_rx_wait
hw_rx_wait-refused g slot o inside rx idle = rw (inside, rx, idle) refl

hw_rx_wait-Received :
    (g : Gdma) (slot len : ℕ) (o : Outcome)
    → Armed g slot len
    → Received len o (hw_rx_wait g slot o).0
unfolding hw_rx_wait
hw_rx_wait-Received g slot len o a = elim (Bool-cases (is_ok o.waited)) [
  | inr no_event ↦ rw (a.inside, a.receives, a.busy, no_event) (unanswered no_event)
  | inl done ↦ elim (Bool-cases (bit_and o.raw (1 << 3) == 0)) [
    | inr broken ↦ rw (a.inside, a.receives, a.busy, done, broken) (failed done broken)
    | inl sound ↦ elim (Bool-cases (bit_and o.raw (1 << 1) == 0)) [
      | inl no_end ↦
          rw (a.inside, a.receives, a.busy, done, sound, no_end) (unfinished done sound no_end)
      | inr ended ↦
          rw (a.inside, a.receives, a.busy, done, sound, ended)
            (subst (λ n. Received len o (Rc.count n))
              (sym (
                received-min (channel_at g slot) o.left
                ∙ ap (λ n. min n (o.left / 2 ^ 12 % 2 ^ 12)) a.length))
              (bytes done sound ended))
    ]
  ]
]

hw_rx_wait-twice :
    (g : Gdma) (slot len : ℕ) (o o' : Outcome)
    → length g.slots ≡ 5
    → Armed g slot len
    → let g2 = (hw_rx_wait g slot o).2 in hw_rx_wait g2 slot o' ≡ (Rc.einval, [], g2)
hw_rx_wait-twice g slot len o o' five a =
    let idle = record (channel_at g slot) { buf = 0; dw0 = o.left } in
    let same = channel_at-put_self g slot idle five a.inside in
    subst (λ g2. hw_rx_wait g2 slot o' ≡ (Rc.einval, [], g2)) (sym (hw_rx_wait-idle g slot len o a))
      (hw_rx_wait-refused (put_channel g slot idle) slot o' a.inside
        (ap (λ k. slot == gdma_axi_slot_mem || k.is_tx) same ∙ a.receives)
        (ap (λ k. k.buf == 0) same))

-- With the five slots in place, where arming a receive succeeds, then whatever the hardware does,
-- the wait for it reports an error, a timeout or the count that the hardware left in the
-- descriptor, cut to the length armed; it leaves the slot idle, so that a second wait is refused,
-- touches no register and changes nothing.
pub hw_rx_arm-wait :
    (g : Gdma) (slot dst len : ℕ) (o o' : Outcome)
    → length g.slots ≡ 5
    → (hw_rx_arm g slot dst len).0 ≡ Rc.ok
    → let g1 = (hw_rx_arm g slot dst len).2 in
      let g2 = (hw_rx_wait g1 slot o).2 in
      Received len o (hw_rx_wait g1 slot o).0 × (hw_rx_wait g2 slot o' ≡ (Rc.einval, [], g2))
hw_rx_arm-wait g slot dst len o o' five e =
    let (a, still) = hw_rx_arm-Armed g slot dst len five e in
    (
      hw_rx_wait-Received (hw_rx_arm g slot dst len).2 slot len o a,
      hw_rx_wait-twice (hw_rx_arm g slot dst len).2 slot len o o' still a,
    )
