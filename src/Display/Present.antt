-- ===== src/Display/Present.antt =====
-- A buffer on its way through both sides of witte_linum/drivers/display.
use ulmk_boards.Base.{
  ℕ, zero, suc, ◌+◌, ◌-◌, ◌*◌, ◌^◌, ◌≤◌, ◌<◌, ◌≡◌, refl, ap, ◌∙◌, ◌⊎◌, inl, inr, true, false, not,
  ◌&&◌, Option, none, some, List, [], ◌∷◌, ◌++◌, if◌then◌else◌, ◌==◌, arith, Bool-cases,
}
use ulmk_boards.Base.Word.{add32, sub32, mul32}
use ulmk_boards.Kernel.{Rc, is_ok, Msg}
use ulmk_boards.Display.Server.{
  sdram_base, display_fb_bytes, LtdcAct, set_cfbar, reload_vbr, dsb, Ltdc, Disp, fb_phys,
  display_wait_vsync, index_of, present_at, display_do_present, display_server,
}
use ulmk_boards.Display.Client.{display_fb, display_call, display_present}

-- The kernel hands a message to the server, which answers it with one round.
abbrev pub deliver : Ltdc → Msg → Disp → Rc × Rc × ℕ × Disp
deliver ltdc m d = let (rc, w1, d') = display_server ltdc m d in (Rc.ok, rc, w1, d')

-- The kernel maps both buffers below the end of the addresses.
abbrev pub IsMapped : ℕ → Type 0
IsMapped base = (0 < base) × (base + 2 * display_fb_bytes ≤ 2 ^ 32)

-- The address that the controller was last given.
abbrev pub last_cfbar : List LtdcAct → Option ℕ → Option ℕ
last_cfbar [] o = o
last_cfbar (set_cfbar a ∷ s) o = last_cfbar s (some a)
last_cfbar (_ ∷ s) o = last_cfbar s o

is_ok-ok : (rc : Rc) → is_ok rc ≡ true → rc ≡ Rc.ok
is_ok-ok rc h = ground (arith, h)

module _ (ltdc : Ltdc) (base : ℕ) (mapped : IsMapped base) where
  -- A pointer to one of the buffers is accepted, and its address is the buffer's.
  accepted :
      (fb phys idx : ℕ) (d : Disp)
      → (fb ≡ base) ⊎ (fb ≡ base + display_fb_bytes)
      → add32 sdram_base (sub32 fb base) ≡ phys
      → index_of phys ≡ some idx
      → d.ready ≡ true
      → display_present true base (deliver ltdc) fb d ≡ present_at ltdc phys (some idx) d
  unfolding display_present display_call display_server display_do_present
  accepted fb phys idx d place address index ready =
      let some_fb : (fb == 0) ≡ false = given fb place in
      let some_base : (base == 0) ≡ false = ground (arith, mapped.0) in
      let known : (not (fb == base) && not (fb == add32 base display_fb_bytes)) ≡ false =
        found fb place in
      rw (some_fb, some_base, known)
        (ap (λ t. if not d.ready then (Rc.einval, d) else present_at ltdc t (index_of t) d) address
          ∙ ap (λ b. if not b then (Rc.einval, d) else present_at ltdc phys (index_of phys) d) ready
          ∙ ap (λ o. present_at ltdc phys o d) index)
    where
      given : (f : ℕ) → (f ≡ base) ⊎ (f ≡ base + display_fb_bytes) → (f == 0) ≡ false
      given f (inl e) = ground (arith, mapped.0, e)
      given f (inr e) = ground (arith, mapped.0, e)

      found :
          (f : ℕ)
          → (f ≡ base) ⊎ (f ≡ base + display_fb_bytes)
          → (not (f == base) && not (f == add32 base display_fb_bytes)) ≡ false
      found f (inl e) = ground (arith, e)
      found f (inr e) = ground (arith, e, mapped.1)

  -- What a present of buffer `idx` leads to, with `w` the wait for the blanking.
  abbrev shown : ℕ → Disp → Rc × List LtdcAct → Rc × Disp
  shown idx d w = (
    w.0,
    if is_ok w.0
        then record d { front = idx; back = 1 - idx; pend_addr = fb_phys idx; acts = w.1 }
        else record d { acts = w.1 },
  )

  -- The wait, after the controller has been given the address of buffer `idx`.
  abbrev wait_for : ℕ → Disp → Rc × List LtdcAct
  wait_for idx d =
      display_wait_vsync ltdc (d.acts ++ set_cfbar (fb_phys idx) ∷ reload_vbr ∷ dsb ∷ [])

  present_at-shown :
      (idx : ℕ) (d : Disp)
      → (if idx == 0 then 1 else 0) ≡ 1 - idx
      → present_at ltdc (fb_phys idx) (some idx) d ≡ shown idx d (wait_for idx d)
  unfolding present_at
  present_at-shown idx d swapped = elim (Bool-cases (is_ok (wait_for idx d).0)) [
    | inl e ↦ rw (e, swapped, is_ok-ok (wait_for idx d).0 e)
    | inr e ↦ rw e
  ]

  -- For frame buffers that the kernel has mapped and a controller that is up, display_present of a
  -- buffer that display_fb gives, through the server, hands the controller the physical address of
  -- that buffer and waits: it returns the result of the wait, and where that is a success the
  -- buffer is in front and the other one in the back, and otherwise the buffers are as before.
  pub display_present-shown :
      (idx : ℕ) (d : Disp)
      → idx ≤ 1
      → d.ready ≡ true
      → let w =
          display_wait_vsync ltdc (d.acts ++ set_cfbar (fb_phys idx) ∷ reload_vbr ∷ dsb ∷ []) in
        (fb : ℕ) × (display_fb base idx ≡ some fb)
        × (display_present true base (deliver ltdc) fb d ≡ (
          w.0,
          if is_ok w.0
              then record d { front = idx; back = 1 - idx; pend_addr = fb_phys idx; acts = w.1 }
              else record d { acts = w.1 },
        ))
  unfolding display_fb
  display_present-shown zero d small ready =
      let some_base : (base == 0) ≡ false = ground (arith, mapped.0) in
      let same : add32 base (mul32 0 display_fb_bytes) ≡ base = omega (arith, mapped.1) in
      (
        base,
        ap (λ b. if b then none else some (add32 base (mul32 0 display_fb_bytes))) some_base
            ∙ ap some same,
        accepted base (fb_phys 0) 0 d (inl refl) (omega (arith, mapped.1)) refl ready
            ∙ present_at-shown 0 d refl,
      )
  display_present-shown (suc zero) d small ready =
      let some_base : (base == 0) ≡ false = ground (arith, mapped.0) in
      let same : add32 base (mul32 1 display_fb_bytes) ≡ base + display_fb_bytes =
        omega (arith, mapped.1) in
      (
        base + display_fb_bytes,
        ap (λ b. if b then none else some (add32 base (mul32 1 display_fb_bytes))) some_base
            ∙ ap some same,
        accepted (base + display_fb_bytes) (fb_phys 1) 1 d (inr refl) (omega (arith, mapped.1)) refl
              ready
            ∙ present_at-shown 1 d refl,
      )
  display_present-shown (suc (suc idx)) d small ready = absurd (omega arith)
