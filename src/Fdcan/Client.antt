-- ===== src/Fdcan/Client.antt =====
-- The calls of witte_linum/drivers/can/src/client.c. `call` stands for `ulmk_ep_call` on the server's
-- endpoint: its result, word 0 of the reply, the words after it, and the other side's state.
use ulmk_boards.Base.{
  ℕ, Bool, not, ◌||◌, Option, none, some, List, [], ◌∷◌, ltb, if◌then◌else◌, ◌++◌, get_or, bit_and,
  bit_or,
}
use ulmk_boards.Base.Word.{u8, ◌<<◌, ◌>>>◌}
use ulmk_boards.Kernel.{Rc, is_ok, Msg}
use ulmk_boards.Fdcan.Server.{can_msg_send, can_msg_recv}

-- `can_frame_t`, with its eight bytes of data.
pub record Frame : Type 0 where
  pub id : ℕ
  pub dlc : ℕ
  pub bytes : List ℕ

unfoldable pub pack4 : ℕ → ℕ → ℕ → ℕ → ℕ
pack4 a b c d = bit_or (bit_or (bit_or a (b << 8)) (c << 16)) (d << 24)

unfoldable pub send_msg : Frame → Msg
send_msg f =
    let d : ℕ → ℕ = λ i. get_or f.bytes i 0 in
    record {
      label = can_msg_send;
      words = f.id ∷ f.dlc ∷ pack4 (d 0) (d 1) (d 2) (d 3) ∷ pack4 (d 4) (d 5) (d 6) (d 7) ∷ [];
    }

unfoldable pub unpack4 : ℕ → List ℕ
unpack4 w = u8 w ∷ u8 (w >>> 8) ∷ u8 (w >>> 16) ∷ u8 (w >>> 24) ∷ []

-- From word 1 of the reply on.
unfoldable pub frame_of : ℕ → ℕ → ℕ → Frame
frame_of w1 w2 w3 = record {
  id = bit_and w1 0x7FF;
  dlc = u8 (w1 >>> 16);
  bytes = unpack4 w2 ++ unpack4 w3;
}

-- `valid`: the number is below CAN_MAX and its endpoint exists.
module _ {S : Type 0} (valid : Bool) (call : Msg → S → Rc × Rc × List ℕ × S) where
  unfoldable pub can_call : Msg → S → Rc × List ℕ × S
  can_call m s =
      let (ret, reply, words, s') = call m s in
      if not valid
      then (Rc.esrch, [], s)
      else if not (is_ok ret)
      then (ret, [], s')
      else (reply, words, s')

  -- `none` is a null pointer.
  unfoldable pub can_send : Option Frame → S → Rc × S
  can_send none s = (Rc.einval, s)
  can_send (some f) s =
      let (rc, words, s') = can_call (send_msg f) s in
      if ltb 0x7FF f.id || ltb 8 f.dlc then (Rc.einval, s) else (rc, s')

  -- For a pointer that is not null; `none` where the code leaves the frame alone.
  unfoldable pub can_recv : S → Rc × Option Frame × S
  can_recv s =
      let (rc, words, s') = can_call (record { label = can_msg_recv; words = [] }) s in
      if not (is_ok rc)
      then (rc, none, s')
      else (Rc.ok, some (frame_of (get_or words 0 0) (get_or words 1 0) (get_or words 2 0)), s')
