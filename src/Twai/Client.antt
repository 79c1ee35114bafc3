-- ===== src/Twai/Client.antt =====
-- The calls of esp32p4_ev_function/drivers/can/src/client.c. `call` stands for `ulmk_ep_call` on the
-- server's endpoint: its result, word 0 of the reply, the words after it, and the other side's state.
use ulmk_boards.Base.{
  ℕ, ◌-◌, Bool, not, Option, none, some, List, [], ◌∷◌, ◌++◌, ltb, if◌then◌else◌, get_or, min,
}
use ulmk_boards.Base.Word.{u8}
use ulmk_boards.Kernel.{Rc, is_ok, Msg}
use ulmk_boards.Twai.Payload.{low_word, high_word, payload_of}
use ulmk_boards.Twai.Server.{can_msg_send, can_msg_recv}

-- A frame that is received: `*id`, `*len`, and the bytes written to `data`.
pub record Frame : Type 0 where
  pub id : ℕ
  pub len : ℕ
  pub bytes : List ℕ

unfoldable pub send_msg : ℕ → List ℕ → ℕ → Msg
send_msg id bytes len = record {
  label = can_msg_send;
  words = id ∷ len ∷ low_word len bytes ∷ high_word len bytes ∷ [];
}

unfoldable pub frame_of : List ℕ → Frame
frame_of words =
    let n8 = u8 (get_or words 1 0) in
    let n = (if ltb 8 n8 then 8 else n8) in
    record {
      id = get_or words 0 0;
      len = n;
      bytes = payload_of (min n 4) 0 (get_or words 2 0) ++ payload_of (n - 4) 0 (get_or words 3 0);
    }

module _ {S : Type 0} (ep_valid : Bool) (call : Msg → S → Rc × Rc × List ℕ × S) where
  unfoldable pub can_send : ℕ → List ℕ → ℕ → S → Rc × S
  can_send id bytes len s =
      let n = (if ltb 8 len then 8 else len) in
      if not ep_valid
      then (Rc.einval, s)
      else let (rc, reply, words, s') = call (send_msg id bytes n) s in
        if is_ok rc then (reply, s') else (Rc.einval, s')

  -- The frame is `none` where the code leaves its arguments alone.
  unfoldable pub can_recv : S → Rc × Option Frame × S
  can_recv s =
      if not ep_valid
      then (Rc.einval, none, s)
      else let (rc, reply, words, s') = call (record { label = can_msg_recv; words = [] }) s in
        if not (is_ok rc)
        then (Rc.einval, none, s')
        else if is_ok reply
        then (Rc.ok, some (frame_of words), s')
        else (reply, none, s')
