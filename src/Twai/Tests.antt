-- ===== src/Twai/Tests.antt =====
-- The theorems on the CAN driver at concrete inputs: a frame of nine bytes, of which eight go on the
-- wire, and a frame that nobody answers.
use ulmk_boards.Base.{
  ℕ, zero, suc, ◌≡◌, ◌<◌, refl, true, false, some, List, [], ◌∷◌, get_or, take, arith,
}
use ulmk_boards.Kernel.{Rc}
use ulmk_boards.Twai.Payload.{or_payload, low_word, high_word, payload_of}
use ulmk_boards.Twai.Server.{
  Answers, st_rxbuf, st_txbuf, wr_payload, wr_frame, read_last, rx_drain, take_in, hw_send,
  can_server,
}
use ulmk_boards.Twai.Client.{send_msg, can_send, can_recv}
use ulmk_boards.Twai.Trip.{Machine, deliver, can_send-recv}
use ulmk_boards.Wire.Pack.{AllBytes}
use ulmk_boards.Twai.Wires.{after}
use ulmk_boards.Twai.Failure.{pending, can_send-failed}

abbrev quiet : Machine
quiet = record {
  inst = record {
    ready = true;
    last_id = 0;
    last = 0 ∷ 0 ∷ 0 ∷ 0 ∷ 0 ∷ 0 ∷ 0 ∷ 0 ∷ [];
    last_len = 0;
  };
  acts = [];
}

abbrev nine : List ℕ
nine = 17 ∷ 34 ∷ 51 ∷ 68 ∷ 85 ∷ 102 ∷ 119 ∷ 136 ∷ 153 ∷ []

-- The registers with the identifier 0x123 and the eight bytes.
abbrev looped : Answers
looped = record {
  tx_status = st_txbuf;
  tx_wait = Rc.ok;
  rx_status = 0;
  rx_wait = Rc.ok;
  drain_status = st_rxbuf;
  frame = λ k. get_or (8 ∷ 36 ∷ 96 ∷ nine) k 0;
}

nine-AllBytes : AllBytes nine
nine-AllBytes = (
  omega arith,
  (
    omega arith,
    (
      omega arith,
      (omega arith, (omega arith, (omega arith, (omega arith, (omega arith, (omega arith, tt)))))),
    ),
  ),
)

looped_echo :
    (k : ℕ)
    → k < 11
    → looped.frame k ≡ after k 0 (can_send true (deliver looped) 0x123 nine 9 quiet).1.acts
unfolding can_send can_server send_msg low_word high_word or_payload payload_of hw_send take_in
    rx_drain read_last wr_frame wr_payload
looped_echo zero h = refl
looped_echo (suc zero) h = refl
looped_echo (suc (suc zero)) h = refl
looped_echo (suc (suc (suc zero))) h = refl
looped_echo (suc (suc (suc (suc zero)))) h = refl
looped_echo (suc (suc (suc (suc (suc zero))))) h = refl
looped_echo (suc (suc (suc (suc (suc (suc zero)))))) h = refl
looped_echo (suc (suc (suc (suc (suc (suc (suc zero))))))) h = refl
looped_echo (suc (suc (suc (suc (suc (suc (suc (suc zero)))))))) h = refl
looped_echo (suc (suc (suc (suc (suc (suc (suc (suc (suc zero))))))))) h = refl
looped_echo (suc (suc (suc (suc (suc (suc (suc (suc (suc (suc zero)))))))))) h = refl
looped_echo (suc (suc (suc (suc (suc (suc (suc (suc (suc (suc (suc k))))))))))) h =
    absurd (omega arith)

can_send-recv_example :
    (can_send true (deliver looped) 0x123 nine 9 quiet).0 ≡ Rc.ok
    × can_recv true (deliver looped) (can_send true (deliver looped) 0x123 nine 9 quiet).1 ≡ (
      Rc.ok,
      some (record { id = 0x123; len = 8; bytes = take 8 nine }),
      (can_send true (deliver looped) 0x123 nine 9 quiet).1,
    )
can_send-recv_example =
    can_send-recv looped quiet 0x123 nine 9 (λ k. 0) refl refl (omega arith) nine-AllBytes refl refl
      refl looped_echo

abbrev lost : Answers
lost = record looped { rx_wait = Rc.etimeout }

lost_run : (can_send true (deliver lost) 0x123 nine 9 quiet).0 ≡ Rc.etimeout
unfolding can_send can_server send_msg hw_send take_in
lost_run = refl

can_send-failed_example :
    (can_send true (deliver lost) 0x123 nine 9 quiet).1.inst ≡ quiet.inst
    × pending false (can_send true (deliver lost) 0x123 nine 9 quiet).1.acts ≡ false
can_send-failed_example =
    can_send-failed true lost quiet 0x123 nine 9 refl (λ e. ground (arith, lost_run, e))
