-- ===== src/Display/Tests.antt =====
-- The theorems on the display driver at concrete inputs: buffers mapped at 0x40000000, a blanking that
-- comes, and one that does not.
use ulmk_boards.Base.{
  ℕ, ◌-◌, ◌≡◌, refl, true, false, none, some, List, [], ◌∷◌, ◌++◌, if◌then◌else◌, arith,
}
use ulmk_boards.Kernel.{Rc, is_ok, Msg}
use ulmk_boards.Display.Server.{
  Ltdc, Disp, set_cfbar, reload_vbr, dsb, fb_phys, display_wait_vsync, display_w, display_h,
  display_msg_flip, display_msg_write, display_start, serve_all,
}
use ulmk_boards.Display.Client.{display_fb, display_present, display_flip, display_write}
use ulmk_boards.Display.Buffers.{Apart, serve_all-Apart}
use ulmk_boards.Display.Present.{deliver, last_cfbar, display_present-shown}
use ulmk_boards.Display.Torn.{display_flip-torn}

abbrev panel_up : Ltdc
panel_up = record { lif = λ s. true; wait = λ s. Rc.ok }

abbrev panel_lost : Ltdc
panel_lost = record { lif = λ s. true; wait = λ s. Rc.etimeout }

abbrev shown_first : Disp
shown_first = record { front = 0; back = 1; pend_addr = 0; ready = true; acts = [] }

abbrev frames : List Msg
frames =
    record { label = display_msg_write; words = [] }
    ∷ record { label = display_msg_flip; words = [] }
    ∷ record { label = display_msg_flip; words = [] }
    ∷ []

serve_all-Apart_example :
    ((serve_all panel_up frames display_start).ready ≡ true)
    × Apart (serve_all panel_up frames display_start)
serve_all-Apart_example = serve_all-Apart panel_up frames

display_present-shown_example :
    let w = display_wait_vsync panel_up ([] ++ set_cfbar (fb_phys 1) ∷ reload_vbr ∷ dsb ∷ []) in
    (fb : ℕ) × (display_fb 0x40000000 1 ≡ some fb)
    × (display_present true 0x40000000 (deliver panel_up) fb shown_first ≡ (
      w.0,
      if is_ok w.0
          then record shown_first { front = 1; back = 1 - 1; pend_addr = fb_phys 1; acts = w.1 }
          else record shown_first { acts = w.1 },
    ))
display_present-shown_example =
    display_present-shown panel_up 0x40000000 (omega arith, omega arith) 1 shown_first (omega arith)
      refl

failing :
    is_ok
      (display_wait_vsync panel_lost
        (shown_first.acts ++ set_cfbar (fb_phys 1) ∷ reload_vbr ∷ dsb ∷ [])).0
    ≡ false
unfolding display_wait_vsync
failing = refl

display_flip-torn_example :
    let r = display_flip true 0x40000000 (deliver panel_lost) shown_first in
    (is_ok r.0 ≡ false)
    × (r.1.front ≡ 0)
    × (last_cfbar r.1.acts none ≡ some (fb_phys 1))
    × ((display_write true 0x40000000 (deliver panel_lost) 0 0 display_w display_h r.1).0
        ≡ display_fb 0x40000000 1)
display_flip-torn_example =
    display_flip-torn panel_lost 0x40000000 (omega arith, omega arith) shown_first refl 1
      (omega arith) refl failing
