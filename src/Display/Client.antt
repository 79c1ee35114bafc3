-- ===== src/Display/Client.antt =====
-- The calls of witte_linum/drivers/display/src/client.c. `call` stands for `ulmk_ep_call` on the
-- server's endpoint: its result, words 0 and 1 of the reply, and the other side's state. `base` is the
-- address at which the kernel maps the frame buffers, 0 where it does not.
use ulmk_boards.Base.{
  ℕ, Bool, not, ◌||◌, ◌&&◌, Option, none, some, List, [], ◌∷◌, if◌then◌else◌, ltb, ◌==◌,
}
use ulmk_boards.Base.Word.{add32, sub32, mul32}
use ulmk_boards.Kernel.{Rc, is_ok, Msg}
use ulmk_boards.Display.Server.{
  sdram_base, display_w, display_h, display_fb_bytes, display_msg_write, display_msg_flip,
  display_msg_on, display_msg_present,
}

abbrev pub display_msg : ℕ → List ℕ → Msg
display_msg label words = record { label = label; words = words }

-- `none` is the null pointer.
unfoldable pub display_fb : ℕ → ℕ → Option ℕ
display_fb base idx =
    if ltb 1 idx
    then none
    else if base == 0
    then none
    else some (add32 base (mul32 idx display_fb_bytes))

module _ {S : Type 0} (ep_valid : Bool) (base : ℕ) (call : Msg → S → Rc × Rc × ℕ × S) where
  -- The result, word 1 of the reply, and the state.
  unfoldable pub display_call : Msg → S → Rc × ℕ × S
  display_call m s =
      let (rc, reply, w1, s') = call m s in
      if not ep_valid
      then (Rc.esrch, 0, s)
      else if not (is_ok rc)
      then (rc, w1, s')
      else (reply, w1, s')

  -- The pointer is 0 where it is null.
  unfoldable pub display_present : ℕ → S → Rc × S
  display_present fb s =
      let phys = add32 sdram_base (sub32 fb base) in
      let (rc, w1, s') = display_call (display_msg display_msg_present (0 ∷ phys ∷ [])) s in
      if fb == 0
      then (Rc.einval, s)
      else if base == 0
      then (Rc.enomem, s)
      else if not (fb == base) && not (fb == add32 base display_fb_bytes)
      then (Rc.einval, s)
      else (rc, s')

  unfoldable pub display_write : ℕ → ℕ → ℕ → ℕ → S → Option ℕ × S
  display_write x y w h s =
      let (rc, w1, s') = display_call (display_msg display_msg_write (x ∷ y ∷ w ∷ h ∷ [])) s in
      if base == 0
      then (none, s)
      else if not (x == 0) || not (y == 0) || not (w == display_w) || not (h == display_h)
      then (none, s)
      else if not (is_ok rc)
      then (none, s')
      else (some (add32 base (sub32 w1 sdram_base)), s')

  unfoldable pub display_flip : S → Rc × S
  display_flip s = let (rc, w1, s') = display_call (display_msg display_msg_flip []) s in (rc, s')

  unfoldable pub display_on : Bool → S → Rc × S
  display_on on s =
      let (rc, w1, s') = display_call (display_msg display_msg_on ((if on then 1 else 0) ∷ [])) s in
      (rc, s')
