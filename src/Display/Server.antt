-- ===== src/Display/Server.antt =====
-- witte_linum/drivers/display/src/server.c: the two frame buffers and the messages. What the server
-- does to the display controller and asks of the kernel is a list of acts in order; what an act
-- answers may depend on all acts up to it, and is a parameter.
use ulmk_boards.Base.{
  ℕ, ◌*◌, Bool, true, false, not, Option, none, some, List, [], ◌∷◌, ◌++◌, ◌==◌, if◌then◌else◌,
  get_or,
}
use ulmk_boards.Base.Word.{add32, mul32}
use ulmk_boards.Kernel.{Rc, is_ok, Msg}

abbrev pub sdram_base : ℕ
sdram_base = 0xC0000000

abbrev pub display_w : ℕ
display_w = 1024

abbrev pub display_h : ℕ
display_h = 600

abbrev pub display_fb_bytes : ℕ
display_fb_bytes = display_w * display_h * 2

abbrev pub display_msg_write : ℕ
display_msg_write = 0x10

abbrev pub display_msg_flip : ℕ
display_msg_flip = 0x11

abbrev pub display_msg_on : ℕ
display_msg_on = 0x12

abbrev pub display_msg_present : ℕ
display_msg_present = 0x16

-- `set_cfbar` is the address of the frame buffer, `reload_vbr` its reload at the next blanking,
-- `clear_lif` the write that clears the line interrupt flag, `line_irq` the change of its enable, and
-- `panel` the pin that switches the panel. `bring_up` stands for all register writes of
-- `ltdc_hw_init`, which set the address given.
pub data LtdcAct : Type 0 where
  set_cfbar : ℕ → LtdcAct
  reload_vbr dsb clear_lif irq_ack notif_wait read_isr : LtdcAct
  line_irq panel : Bool → LtdcAct
  bring_up : ℕ → LtdcAct

-- What the last of the acts answers: the line interrupt flag, and the kernel's wait.
pub record Ltdc : Type 0 where
  pub lif : List LtdcAct → Bool
  pub wait : List LtdcAct → Rc

-- The server's variables, and the acts so far.
pub record Disp : Type 0 where
  pub front : ℕ
  pub back : ℕ
  pub pend_addr : ℕ
  pub ready : Bool
  pub acts : List LtdcAct

abbrev pub fb_phys : ℕ → ℕ
fb_phys idx = add32 sdram_base (mul32 idx display_fb_bytes)

unfoldable pub ltdc_hw_init : Disp → Disp
ltdc_hw_init d =
    if d.ready
    then d
    else record d { front = 0; back = 1; ready = true; acts = d.acts ++ bring_up sdram_base ∷ [] }

-- The buffer at an address.
abbrev pub index_of : ℕ → Option ℕ
index_of phys = if phys == fb_phys 0 then some 0 else if phys == fb_phys 1 then some 1 else none

module _ (ltdc : Ltdc) where
  unfoldable pub display_wait_vsync : List LtdcAct → Rc × List LtdcAct
  display_wait_vsync s =
      let s1 = s ++ clear_lif ∷ irq_ack ∷ line_irq true ∷ notif_wait ∷ [] in
      let s2 = s1 ++ line_irq false ∷ [] in
      let s3 = s2 ++ read_isr ∷ [] in
      let ret = ltdc.wait s1 in
      if not (is_ok ret)
      then (ret, s2)
      else if not (ltdc.lif s3)
      then (Rc.etimeout, s3)
      else (Rc.ok, s3 ++ clear_lif ∷ irq_ack ∷ [])

  unfoldable pub present_at : ℕ → Option ℕ → Disp → Rc × Disp
  present_at phys none d = (Rc.einval, d)
  present_at phys (some idx) d =
      let (ret, acts) = display_wait_vsync (d.acts ++ set_cfbar phys ∷ reload_vbr ∷ dsb ∷ []) in
      let waited : Disp = record d { acts = acts } in
      if not (is_ok ret) then (ret, waited) else (
        Rc.ok,
        record waited { front = idx; back = (if idx == 0 then 1 else 0); pend_addr = phys },
      )

  unfoldable pub display_do_present : ℕ → Disp → Rc × Disp
  display_do_present phys d =
      if not d.ready then (Rc.einval, d) else present_at phys (index_of phys) d

  unfoldable pub display_do_flip : Disp → Rc × Disp
  display_do_flip d = display_do_present (fb_phys d.back) d

  -- A round of the server: words 0 and 1 of its reply, and its state.
  unfoldable pub display_server : Msg → Disp → Rc × ℕ × Disp
  display_server m d =
      let w0 = get_or m.words 0 0 in
      let switched : Disp = record d { acts = d.acts ++ panel (not (w0 == 0)) ∷ [] } in
      let (frc, fd) = display_do_flip d in
      let (prc, pd) = display_do_present (get_or m.words 1 0) d in
      if m.label == display_msg_write
      then (if d.ready then (Rc.ok, fb_phys d.back, d) else (Rc.einval, 0, d))
      else if m.label == display_msg_flip
      then (frc, 0, fd)
      else if m.label == display_msg_on
      then (Rc.ok, 0, if w0 == 0 then switched else ltdc_hw_init switched)
      else if m.label == display_msg_present
      then (prc, 0, pd)
      else (Rc.einval, 0, d)

  -- The server on the messages, one after the other.
  unfoldable pub serve_all : List Msg → Disp → Disp
  serve_all [] d = d
  serve_all (m ∷ ms) d = serve_all ms (display_server m d).2

-- The server before its first message: the panel is switched on and the controller brought up.
abbrev pub display_start : Disp
display_start =
    ltdc_hw_init
      (record { front = 0; back = 0; pend_addr = 0; ready = false; acts = panel true ∷ [] })
