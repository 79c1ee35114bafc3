-- ===== src/Ledc/Range.antt =====
-- The duties that esp32p4_ev_function/drivers/pwm keeps and programs.
use ulmk_boards.Base.{
  ℕ, zero, suc, ◌≤◌, inl, inr, Bool, false, not, List, [], ◌∷◌, if◌then◌else◌, leb, ltb, ◌==◌,
  get_or, set, arith, Bool-cases,
}
use ulmk_boards.Kernel.{Rc, Msg}
use ulmk_boards.Pinmux.Server.{EspIo}
use ulmk_boards.Ledc.Hw.{pwm_hw_config, pwm_hw_set_duty, pwm_hw_enable, pwm_max_ch}
use ulmk_boards.Ledc.Server.{
  Pwm, do_config, do_duty, do_enable, pwm_server, pwm_start, g_pin, reset, serve_all, run,
}
use ulmk_boards.Ledc.Fit.{
  AllFit, After, After-some, After-if, After-map, After-bind, fit_nil, pwm_hw_set_duty-fit,
  pwm_hw_init-fit, pwm_hw_config-fit,
}

AllAtMost : List ℕ → Type 0
AllAtMost [] = Unit {0}
AllAtMost (d ∷ ds) = (d ≤ 1000) × AllAtMost ds

set-AllAtMost : (ds : List ℕ) (i d : ℕ) → AllAtMost ds → d ≤ 1000 → AllAtMost (set ds i d)
unfolding AllAtMost
set-AllAtMost [] i d h k = tt
set-AllAtMost (x ∷ ds) zero d h k = (k, h.1)
set-AllAtMost (x ∷ ds) (suc i) d h k = (h.0, set-AllAtMost ds i d h.1 k)

limit : (d : ℕ) → (if ltb 1000 d then 1000 else d) ≤ 1000
limit d = ground arith

-- The duties that the server keeps are at most 1000 per mille, and each that it has programmed is
-- one of the 1024 ticks of the period.
pub InRange : Pwm → Type 0
InRange p = AllAtMost p.duty × AllFit p.io

duties : (p : Pwm) → InRange p → AllAtMost p.duty
unfolding InRange
duties p r = r.0

accesses : (p : Pwm) → InRange p → AllFit p.io
unfolding InRange
accesses p r = r.1

in_range : (p : Pwm) → AllAtMost p.duty → AllFit p.io → InRange p
unfolding InRange
in_range p d h = (d, h)

Kept : Rc × Pwm → Type 0
Kept r = InRange r.1

kept : (rc : Rc) (p : Pwm) → InRange p → Kept (rc, p)
unfolding Kept
kept rc p r = r

do_duty-Kept : (n duty : ℕ) (p : Pwm) → InRange p → Kept (do_duty n duty p)
unfolding do_duty
do_duty-Kept n duty p r =
    let permille = (if ltb 1000 duty then 1000 else duty) in
    let p1 : Pwm = record p { duty = set p.duty n permille } in
    let all = set-AllAtMost p.duty n permille (duties p r) (limit duty) in
    let hw = pwm_hw_set_duty n (get_or p1.duty n 0) (get_or p.on n false) p.io in
    elim (Bool-cases (leb pwm_max_ch n)) [
      | inl e ↦ rw e (kept Rc.einval p r)
      | inr e ↦ elim (Bool-cases (not p.hw_ok)) [
        | inl off ↦ rw (e, off) (kept Rc.enotsup p1 (in_range p1 all (accesses p r)))
        | inr ready ↦
            rw (e, ready)
              (kept hw.0 (record p1 { io = hw.1 })
                (in_range (record p1 { io = hw.1 }) all
                  (pwm_hw_set_duty-fit n (get_or p1.duty n 0) (get_or p.on n false) p.io
                    (accesses p r))))
      ]
    ]

do_enable-Kept : (n : ℕ) (on : Bool) (p : Pwm) → InRange p → Kept (do_enable n on p)
unfolding do_enable pwm_hw_enable
do_enable-Kept n on p r =
    let p1 : Pwm = record p { on = set p.on n on } in
    let hw = pwm_hw_set_duty n (get_or p.duty n 0) on p.io in
    elim (Bool-cases (leb pwm_max_ch n)) [
      | inl e ↦ rw e (kept Rc.einval p r)
      | inr e ↦ elim (Bool-cases (not p.hw_ok)) [
        | inl off ↦ rw (e, off) (kept Rc.enotsup p1 (in_range p1 (duties p r) (accesses p r)))
        | inr ready ↦
            rw (e, ready)
              (kept hw.0 (record p1 { io = hw.1 })
                (in_range (record p1 { io = hw.1 }) (duties p r)
                  (pwm_hw_set_duty-fit n (get_or p.duty n 0) on p.io (accesses p r))))
      ]
    ]

module _ (val : List EspIo → ℕ) where
  -- The server's start, from any state whose duties and accesses are in range, and every message
  -- keep them in range.
  pub pwm_start-InRange : (p : Pwm) → InRange p → After InRange (pwm_start val p)
  unfolding pwm_start
  pwm_start-InRange p r =
      After-map (λ r. AllFit r.1) _ _ _ (λ t k. in_range _ (duties p r) k)
        (pwm_hw_init-fit val p.io (accesses p r))

  do_config-Kept :
      (n freq duty : ℕ) (p : Pwm) → InRange p → After Kept (do_config val n freq duty p)
  unfolding do_config
  do_config-Kept n freq duty p r =
      let permille = (if ltb 1000 duty then 1000 else duty) in
      let p1 : Pwm = record p { duty = set p.duty n permille } in
      let all = set-AllAtMost p.duty n permille (duties p r) (limit duty) in
      let hz = (if freq == 0 then 1000 else freq) in
      let hw = pwm_hw_config val n (get_or g_pin n 0) hz (get_or p1.duty n 0) p.io in
      let configured =
        pwm_hw_config-fit val n (get_or g_pin n 0) hz (get_or p1.duty n 0) p.io (accesses p r) in
      elim (Bool-cases (leb pwm_max_ch n)) [
        | inl e ↦ rw e (After-some _ _ (kept Rc.einval p r))
        | inr e ↦ elim (Bool-cases (not p.hw_ok)) [
          | inl off ↦
              rw (e, off) (After-some _ _ (kept Rc.enotsup p1 (in_range p1 all (accesses p r))))
          | inr on ↦
              rw (e, on)
                (After-map (λ r. AllFit r.1) Kept _ hw
                  (λ t k. kept t.0 _ (in_range (record p1 { io = t.1 }) all k)) configured)
        ]
      ]

  pwm_server-Kept : (m : Msg) (p : Pwm) → InRange p → After Kept (pwm_server val m p)
  unfolding pwm_server
  pwm_server-Kept m p r = After-if _ _ _ _ (do_config-Kept _ _ _ p r) (
      After-if _ _ _ _ (After-some _ _ (do_duty-Kept _ _ p r))
        (After-if _ _ _ _ (After-some _ _ (do_enable-Kept _ _ p r)) (After-some _ _ (kept _ _ r))))

  -- Every message keeps them in range, and so do the messages one after the other.
  serve_all-InRange : (ms : List Msg) (p : Pwm) → InRange p → After InRange (serve_all val ms p)
  unfolding serve_all Kept
  serve_all-InRange [] p r = After-some _ _ r
  serve_all-InRange (m ∷ ms) p r =
      After-bind Kept InRange (λ r. serve_all val ms r.1) (pwm_server val m p)
        (λ a k. serve_all-InRange ms a.1 k) (pwm_server-Kept m p r)

  -- From its start on, whatever messages the server gets and whatever the registers answer, the
  -- duties that it keeps are at most 1000 per mille and each that it programs into a channel is
  -- one of the 1024 ticks of the period above four fractional bits that are 0, as long as no
  -- message makes it divide by zero.
  pub run-InRange : (ms : List Msg) → After InRange (run val ms)
  unfolding run AllAtMost
  run-InRange ms =
      After-bind InRange InRange (serve_all val ms) (pwm_start val reset)
        (λ p r. serve_all-InRange ms p r) (pwm_start-InRange reset (in_range reset at_most fit_nil))
    where
      at_most : AllAtMost (0 ∷ [])
      at_most = (omega arith, tt)
