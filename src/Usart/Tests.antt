-- ===== src/Usart/Tests.antt =====
-- The theorems on the serial driver of witte_linum/drivers/uart at concrete inputs: a port that is
-- busy at the first byte, and one whose wait fails at the third.
use ulmk_boards.Base.{
  ℕ, ◌≡◌, refl, true, false, some, List, [], ◌∷◌, if◌then◌else◌, ltb, length, take, ◌⊎◌, ◌<◌, arith,
}
use ulmk_boards.Kernel.{Rc, is_ok}
use ulmk_boards.Usart.Server.{enable_txe, disable_txe, Line, Usart, uart_server, uart_msg_rx_byte}
use ulmk_boards.Usart.Client.{uart_tx_buf}
use ulmk_boards.Usart.Sent.{deliver, sent, uart_tx_buf-sent}
use ulmk_boards.Usart.Quiet.{armed, off, uart_server-quiet}

abbrev text : List ℕ
text = 72 ∷ 105 ∷ 33 ∷ []

abbrev fresh : Usart
fresh = record { calls = []; baud = 115200 }

-- Busy at every call, with a wait that fails once two bytes are sent.
abbrev slow : Line
slow = record {
  flag = λ cs. false;
  received = λ cs. 65;
  wait = λ cs. if ltb (length (sent cs)) 2 then Rc.ok else Rc.einval;
}

uart_tx_buf-sent_example :
    let r = uart_tx_buf true (deliver slow 100000000) (some text) 3 fresh in
    ((is_ok r.0 ≡ true) × (sent r.1.calls ≡ take 3 text))
    ⊎ ((is_ok r.0 ≡ false) × ((k : ℕ) × ((k < 3) × (sent r.1.calls ≡ take k text))))
uart_tx_buf-sent_example =
    uart_tx_buf-sent slow 100000000 text 3 fresh (omega arith)
      (omega arith, (omega arith, (omega arith, tt)))

uart_server-quiet_example :
    armed off
      (uart_server slow 100000000
        (record { label = uart_msg_rx_byte; words = [] })
        (record fresh { calls = enable_txe ∷ disable_txe ∷ [] })).2.calls
    ≡ off
uart_server-quiet_example =
    uart_server-quiet slow 100000000 (record { label = uart_msg_rx_byte; words = [] })
      (record fresh { calls = enable_txe ∷ disable_txe ∷ [] }) refl
