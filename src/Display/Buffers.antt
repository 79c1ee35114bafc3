-- ===== src/Display/Buffers.antt =====
-- The two frame buffers of witte_linum/drivers/display.
use ulmk_boards.Base.{
  ℕ, ◌≡◌, refl, ap, sym, subst, ◌⊎◌, inl, inr, Bool, true, false, not, Option, none, some, List, [],
  ◌∷◌, ◌++◌, if◌then◌else◌, ◌==◌, get_or, Bool-cases,
}
use ulmk_boards.Kernel.{Rc, is_ok, Msg}
use ulmk_boards.Display.Server.{
  sdram_base, set_cfbar, reload_vbr, dsb, bring_up, panel, Ltdc, Disp, fb_phys, ltdc_hw_init,
  display_wait_vsync, index_of, present_at, display_do_present, display_do_flip, display_server,
  display_start, serve_all, display_msg_write, display_msg_flip, display_msg_on,
  display_msg_present,
}

-- One of the buffers is in front and the other in the back.
unfoldable pub Apart : Disp → Type 0
Apart d = ((d.front ≡ 0) × (d.back ≡ 1)) ⊎ ((d.front ≡ 1) × (d.back ≡ 0))

Kept : Rc × Disp → Type 0
Kept r = (r.1.ready ≡ true) × Apart r.1

-- The index of a buffer, where there is one.
IsIndex : Option ℕ → Type 0
IsIndex none = Unit {0}
IsIndex (some idx) = (idx ≡ 0) ⊎ (idx ≡ 1)

abbrev other : ℕ → ℕ
other idx = if idx == 0 then 1 else 0

-- A controller that is up is not brought up again.
ltdc_hw_init_again : (d : Disp) → d.ready ≡ true → ltdc_hw_init d ≡ d
unfolding ltdc_hw_init
ltdc_hw_init_again d ready =
    ap
      (λ b. if b then d else record d {
        front = 0;
        back = 1;
        ready = true;
        acts = d.acts ++ bring_up sdram_base ∷ [];
      })
      ready

module _ (ltdc : Ltdc) where
  index_of-IsIndex : (phys : ℕ) → IsIndex (index_of phys)
  unfolding IsIndex
  index_of-IsIndex phys = elim (Bool-cases (phys == fb_phys 0)) [
    | inl e ↦ rw e (inl refl)
    | inr e ↦ elim (Bool-cases (phys == fb_phys 1)) [
      | inl f ↦ rw (e, f) (inr refl)
      | inr f ↦ rw (e, f) tt
    ]
  ]

  present_at-Kept :
      (phys : ℕ) (found : Option ℕ) (d : Disp)
      → IsIndex found
      → d.ready ≡ true
      → Apart d
      → Kept (present_at ltdc phys found d)
  unfolding present_at Kept Apart IsIndex
  present_at-Kept phys none d i ready apart = (ready, apart)
  present_at-Kept phys (some idx) d i ready apart =
      let w = display_wait_vsync ltdc (d.acts ++ set_cfbar phys ∷ reload_vbr ∷ dsb ∷ []) in
      elim (Bool-cases (is_ok w.0)) [
        | inl e ↦ rw e (ready, swapped idx i)
        | inr e ↦ rw e (ready, apart)
      ]
    where
      swapped : (k : ℕ) → (k ≡ 0) ⊎ (k ≡ 1) → ((k ≡ 0) × (other k ≡ 1)) ⊎ ((k ≡ 1) × (other k ≡ 0))
      swapped k (inl e) = inl (e, ap other e)
      swapped k (inr e) = inr (e, ap other e)

  display_do_present-Kept :
      (phys : ℕ) (d : Disp) → d.ready ≡ true → Apart d → Kept (display_do_present ltdc phys d)
  unfolding display_do_present Kept
  display_do_present-Kept phys d ready apart =
      subst (λ b. Kept (if not b then (Rc.einval, d) else present_at ltdc phys (index_of phys) d))
        (sym ready) (present_at-Kept phys (index_of phys) d (index_of-IsIndex phys) ready apart)

  abbrev switched_of : Msg → Disp → Disp
  switched_of m d = record d { acts = d.acts ++ panel (not (get_or m.words 0 0 == 0)) ∷ [] }

  Served : Rc × ℕ × Disp → Type 0
  Served r = (r.2.ready ≡ true) × Apart r.2

  display_server-Served :
      (m : Msg) (d : Disp) → d.ready ≡ true → Apart d → Served (display_server ltdc m d)
  unfolding display_server display_do_flip Served Kept Apart
  display_server-Served m d ready apart =
      let w0 = get_or m.words 0 0 in
      elim (Bool-cases (m.label == display_msg_write)) [
        | inl e ↦ rw e (written d.ready)
        | inr a ↦ elim (Bool-cases (m.label == display_msg_flip)) [
          | inl e ↦ rw (a, e) (display_do_present-Kept (fb_phys d.back) d ready apart)
          | inr b ↦ elim (Bool-cases (m.label == display_msg_on)) [
            | inl e ↦ rw (a, b, e) (turned (w0 == 0))
            | inr c ↦ elim (Bool-cases (m.label == display_msg_present)) [
              | inl e ↦ rw (a, b, c, e) (display_do_present-Kept (get_or m.words 1 0) d ready apart)
              | inr n ↦ rw (a, b, c, n) (ready, apart)
            ]
          ]
        ]
      ]
    where
      written : (b : Bool) → Served (if b then (Rc.ok, fb_phys d.back, d) else (Rc.einval, 0, d))
      written true = (ready, apart)
      written false = (ready, apart)

      turned :
          (b : Bool)
          → Served (Rc.ok, 0, if b then switched_of m d else ltdc_hw_init (switched_of m d))
      turned true = (ready, apart)
      turned false =
          subst (λ t. Served (Rc.ok, 0, t)) (sym (ltdc_hw_init_again (switched_of m d) ready))
            (ready, apart)

  all-Apart :
      (ms : List Msg) (d : Disp)
      → d.ready ≡ true
      → Apart d
      → ((serve_all ltdc ms d).ready ≡ true) × Apart (serve_all ltdc ms d)
  unfolding serve_all Served
  all-Apart [] d ready apart = (ready, apart)
  all-Apart (m ∷ ms) d ready apart =
      let (r, a) = display_server-Served m d ready apart in
      all-Apart ms (display_server ltdc m d).2 r a

  -- From its start on, whatever messages the server gets and whatever the hardware and the kernel
  -- answer, the controller stays up, and one of the two buffers is in front and the other in the
  -- back.
  pub serve_all-Apart :
      (ms : List Msg)
      → ((serve_all ltdc ms display_start).ready ≡ true) × Apart (serve_all ltdc ms display_start)
  unfolding Apart ltdc_hw_init
  serve_all-Apart ms = all-Apart ms display_start refl (inl (refl, refl))
