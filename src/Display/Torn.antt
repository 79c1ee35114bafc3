-- ===== src/Display/Torn.antt =====
-- A flip whose wait fails, through both sides of witte_linum/drivers/display.
use ulmk_boards.Base.{
  ℕ, zero, suc, ◌≤◌, ◌≡◌, refl, ap, sym, subst, ◌∙◌, inl, inr, true, false, not, Option, none, some,
  List, [], ◌∷◌, ◌++◌, if◌then◌else◌, ◌==◌, ltb, arith, Bool-cases,
}
use ulmk_boards.Base.Word.{sub32, mul32}
use ulmk_boards.Kernel.{Rc, is_ok}
use ulmk_boards.Display.Server.{
  sdram_base, display_fb_bytes, display_w, display_h, LtdcAct, set_cfbar, reload_vbr, dsb,
  clear_lif, irq_ack, line_irq, notif_wait, read_isr, panel, bring_up, Ltdc, Disp, fb_phys,
  display_wait_vsync, index_of, present_at, display_do_present, display_do_flip, display_server,
}
use ulmk_boards.Display.Client.{display_fb, display_call, display_write, display_flip}
use ulmk_boards.Display.Present.{deliver, IsMapped, last_cfbar}

last_cfbar-append :
    (s t : List LtdcAct) (o : Option ℕ) → last_cfbar (s ++ t) o ≡ last_cfbar t (last_cfbar s o)
last_cfbar-append [] t o = refl
last_cfbar-append (set_cfbar a ∷ s) t o = last_cfbar-append s t (some a)
last_cfbar-append (reload_vbr ∷ s) t o = last_cfbar-append s t o
last_cfbar-append (dsb ∷ s) t o = last_cfbar-append s t o
last_cfbar-append (clear_lif ∷ s) t o = last_cfbar-append s t o
last_cfbar-append (irq_ack ∷ s) t o = last_cfbar-append s t o
last_cfbar-append (notif_wait ∷ s) t o = last_cfbar-append s t o
last_cfbar-append (read_isr ∷ s) t o = last_cfbar-append s t o
last_cfbar-append (line_irq b ∷ s) t o = last_cfbar-append s t o
last_cfbar-append (panel b ∷ s) t o = last_cfbar-append s t o
last_cfbar-append (bring_up a ∷ s) t o = last_cfbar-append s t o

module _ (ltdc : Ltdc) where
  -- The wait does not give the controller another address.
  wait-cfbar :
      (s : List LtdcAct) (o : Option ℕ)
      → last_cfbar (display_wait_vsync ltdc s).1 o ≡ last_cfbar s o
  unfolding display_wait_vsync
  wait-cfbar s o =
      let s1 = s ++ clear_lif ∷ irq_ack ∷ line_irq true ∷ notif_wait ∷ [] in
      let s2 = s1 ++ line_irq false ∷ [] in
      let s3 = s2 ++ read_isr ∷ [] in
      let one : last_cfbar s1 o ≡ last_cfbar s o = last_cfbar-append s _ o in
      let two : last_cfbar s2 o ≡ last_cfbar s o = last_cfbar-append s1 _ o ∙ one in
      let three : last_cfbar s3 o ≡ last_cfbar s o = last_cfbar-append s2 _ o ∙ two in
      elim (Bool-cases (not (is_ok (ltdc.wait s1)))) [
        | inl e ↦ rw e two
        | inr e ↦ elim (Bool-cases (not (ltdc.lif s3))) [
          | inl f ↦ rw (e, f) three
          | inr f ↦ rw (e, f) (last_cfbar-append s3 _ o ∙ three)
        ]
      ]

  module _ (base : ℕ) (mapped : IsMapped base) (d : Disp) (ready : d.ready ≡ true) where
    -- A flip to the buffer `idx`, which is in the back, where its wait fails.
    flip_at :
        (idx : ℕ)
        → index_of (fb_phys idx) ≡ some idx
        → d.back ≡ idx
        → let w =
            display_wait_vsync ltdc (d.acts ++ set_cfbar (fb_phys idx) ∷ reload_vbr ∷ dsb ∷ []) in
          is_ok w.0 ≡ false
          → display_flip true base (deliver ltdc) d ≡ (w.0, record d { acts = w.1 })
    unfolding display_flip display_call display_server display_do_flip display_do_present present_at
    flip_at idx index behind failed =
        ap (λ b. display_do_present ltdc (fb_phys b) d) behind
        ∙ ap
            (λ b.
              if not b
              then (Rc.einval, d)
              else present_at ltdc (fb_phys idx) (index_of (fb_phys idx)) d)
            ready
        ∙ ap (λ o. present_at ltdc (fb_phys idx) o d) index
        ∙ rw failed

    -- What display_write gives while the buffer `idx` is in the back.
    write_at :
        (idx : ℕ) (acts : List LtdcAct)
        → sub32 (fb_phys idx) sdram_base ≡ mul32 idx display_fb_bytes
        → ltb 1 idx ≡ false
        → d.back ≡ idx
        → (display_write true base
            (deliver ltdc)
            0
            0
            display_w
            display_h
            (record d { acts = acts })).0
          ≡ display_fb base idx
    unfolding display_write display_call display_server display_fb
    write_at idx acts offset small behind =
        let some_base : (base == 0) ≡ false = ground (arith, mapped.0) in
        rw (some_base, ready, behind, small, offset)

    torn_at :
        (idx : ℕ)
        → index_of (fb_phys idx) ≡ some idx
        → sub32 (fb_phys idx) sdram_base ≡ mul32 idx display_fb_bytes
        → ltb 1 idx ≡ false
        → d.back ≡ idx
        → is_ok
            (display_wait_vsync ltdc (d.acts ++ set_cfbar (fb_phys idx) ∷ reload_vbr ∷ dsb ∷ [])).0
          ≡ false
        → let r = display_flip true base (deliver ltdc) d in
          (is_ok r.0 ≡ false)
          × (r.1.front ≡ d.front)
          × (last_cfbar r.1.acts none ≡ some (fb_phys idx))
          × ((display_write true base (deliver ltdc) 0 0 display_w display_h r.1).0
              ≡ display_fb base idx)
    torn_at idx index offset small behind failed =
        let acts = d.acts ++ set_cfbar (fb_phys idx) ∷ reload_vbr ∷ dsb ∷ [] in
        let w = display_wait_vsync ltdc acts in
        subst
          (λ r.
            (is_ok r.0 ≡ false)
            × (r.1.front ≡ d.front)
            × (last_cfbar r.1.acts none ≡ some (fb_phys idx))
            × ((display_write true base (deliver ltdc) 0 0 display_w display_h r.1).0
                ≡ display_fb base idx))
          (sym (flip_at idx index behind failed))
          (
            failed,
            refl,
            wait-cfbar acts none
                ∙ last_cfbar-append d.acts (set_cfbar (fb_phys idx) ∷ reload_vbr ∷ dsb ∷ []) none,
            write_at idx w.1 offset small behind,
          )

    -- Where the kernel has mapped the frame buffers and the controller is up: a display_flip whose
    -- wait for the blanking fails reports it and keeps the buffer in front, but the controller has
    -- been given the address of the other one, and display_write then hands out that same buffer.
    pub display_flip-torn :
        (idx : ℕ)
        → idx ≤ 1
        → d.back ≡ idx
        → is_ok
            (display_wait_vsync ltdc (d.acts ++ set_cfbar (fb_phys idx) ∷ reload_vbr ∷ dsb ∷ [])).0
          ≡ false
        → let r = display_flip true base (deliver ltdc) d in
          (is_ok r.0 ≡ false)
          × (r.1.front ≡ d.front)
          × (last_cfbar r.1.acts none ≡ some (fb_phys idx))
          × ((display_write true base (deliver ltdc) 0 0 display_w display_h r.1).0
              ≡ display_fb base idx)
    display_flip-torn zero small behind failed = torn_at 0 refl refl refl behind failed
    display_flip-torn (suc zero) small behind failed = torn_at 1 refl refl refl behind failed
    display_flip-torn (suc (suc idx)) small behind failed = absurd (omega arith)
