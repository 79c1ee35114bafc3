-- ===== src/Twai/Failure.antt =====
-- A send in esp32p4_ev_function/drivers/can that reports an error: no request is left with the
-- controller, and the frame that the server keeps is the one before.
use ulmk_boards.Base.{
  ℕ, ◌≡◌, ◌≢◌, refl, ap, ◌∙◌, Bool, true, false, not, ◌&&◌, Option, some, List, [], ◌∷◌, ◌++◌,
  bit_and, if◌then◌else◌, ◌==◌, ltb,
}
use ulmk_boards.Base.Word.{u8}
use ulmk_boards.Kernel.{Rc, is_ok}
use ulmk_boards.Twai.Payload.{low_word, high_word, payload_of}
use ulmk_boards.Twai.Server.{
  TwaiAct, wr_data, wr_cmd, wr_int_ena, rd_int, ack, Answers, Inst, take_in, hw_send, can_server,
  twai_wait_int, st_rxbuf, st_txbuf, int_rx, int_tx, cmd_self_rx, cmd_abort,
}
use ulmk_boards.Twai.Client.{send_msg, can_send}
use ulmk_boards.Twai.Taken.{wait_if}
use ulmk_boards.Twai.Trip.{Machine, deliver}

-- Whether a request is left with the controller after the acts, `b` before them: a request for
-- self-reception makes one, an abort ends it.
abbrev pub pending : Bool → List TwaiAct → Bool
pending b [] = b
pending b (wr_data k v ∷ acts) = pending b acts
pending b (wr_cmd c ∷ acts) =
    pending (if c == cmd_self_rx then true else if c == cmd_abort then false else b) acts
pending b (wr_int_ena m ∷ acts) = pending b acts
pending b (rd_int ∷ acts) = pending b acts
pending b (ack ∷ acts) = pending b acts

pending-append :
    (b : Bool) (xs ys : List TwaiAct) → pending b (xs ++ ys) ≡ pending (pending b xs) ys
pending-append b [] ys = refl
pending-append b (wr_data k v ∷ xs) ys = pending-append b xs ys
pending-append b (wr_cmd c ∷ xs) ys =
    pending-append (if c == cmd_self_rx then true else if c == cmd_abort then false else b) xs ys
pending-append b (wr_int_ena m ∷ xs) ys = pending-append b xs ys
pending-append b (rd_int ∷ xs) ys = pending-append b xs ys
pending-append b (ack ∷ xs) ys = pending-append b xs ys

pending-wait_if : (b w : Bool) (mask : ℕ) → pending b (wait_if w mask) ≡ b
pending-wait_if b true mask = refl
pending-wait_if b false mask = refl

-- What holds of a send's result.
abbrev Clean : Inst → Rc × List TwaiAct × Inst → Type 0
Clean c r = r.0 ≢ Rc.ok → (r.2 ≡ c) × pending false r.1 ≡ false

Clean-if :
    {c : Inst} (b : Bool) (x y : Rc × List TwaiAct × Inst)
    → Clean c x
    → Clean c y
    → Clean c (if b then x else y)
Clean-if true x y p q = p
Clean-if false x y p q = q

take_in-Clean : (c : Inst) (before : List TwaiAct) (o : Answers) → Clean c (take_in c before o)
unfolding take_in
take_in-Clean c before o =
    let asked = before ++ wr_cmd cmd_self_rx ∷ [] in
    let waited =
      (if bit_and o.rx_status st_rxbuf == 0 then asked ++ twai_wait_int int_rx else asked) in
    Clean-if ((bit_and o.rx_status st_rxbuf == 0) && not (is_ok o.rx_wait)) _ _
      (λ f. (refl, pending-append false waited (wr_cmd cmd_abort ∷ []))) (λ f. absurd (f refl))

hw_send-Clean :
    (c : Inst) (id : ℕ) (bytes : Option (List ℕ)) (len : ℕ) (o : Answers)
    → Clean c (hw_send c id bytes len o)
unfolding hw_send
hw_send-Clean c id bytes len o =
    let full = bit_and o.tx_status st_txbuf == 0 in
    Clean-if (not c.ready) _ _ (λ f. (refl, refl))
      (Clean-if (full && not (is_ok o.tx_wait)) _ _ (λ f. (refl, pending-wait_if false full int_tx))
        (take_in-Clean c _ o))

-- Where no request is left with the controller before, a can_send that does not succeed, whatever
-- the reason, leaves the frame that the server keeps and its other state as they were, and leaves
-- no request with the controller: one that was made has been aborted.
pub can_send-failed :
    (valid : Bool) (o : Answers) (s : Machine) (id : ℕ) (ds : List ℕ) (len : ℕ)
    → pending false s.acts ≡ false
    → (can_send valid (deliver o) id ds len s).0 ≢ Rc.ok
    → (can_send valid (deliver o) id ds len s).1.inst ≡ s.inst
      × pending false (can_send valid (deliver o) id ds len s).1.acts ≡ false
unfolding can_send can_server send_msg
can_send-failed false o s id ds len idle failed = (refl, idle)
can_send-failed true o s id ds len idle failed =
    let n = (if ltb 8 len then 8 else len) in
    let buf = payload_of 4 0 (low_word n ds) ++ payload_of 4 0 (high_word n ds) in
    let r = hw_send s.inst id (some buf) (u8 n) o in
    let clean = hw_send-Clean s.inst id (some buf) (u8 n) o failed in
    (clean.0, pending-append false s.acts r.1 ∙ ap (λ b. pending b r.1) idle ∙ clean.1)
