-- ===== src/Asclin/Tests.antt =====
-- The theorems on the serial driver of tc275_lite/drivers/asclin at concrete inputs: a port whose wait
-- fails at the third byte, and a usual baud rate.
use ulmk_boards.Base.{
  ℕ, ◌*◌, ◌≡◌, true, List, [], ◌∷◌, if◌then◌else◌, ltb, length, take, ◌⊎◌, ◌<◌, ◌≤◌, arith, inl,
  inr, refl, Bool-cases,
}
use ulmk_boards.Kernel.{Rc, is_ok, is_error}
use ulmk_boards.Asclin.Server.{IfxCall, Line, Asclin, numer_of, denom}
use ulmk_boards.Asclin.Client.{asclin_tx_buf}
use ulmk_boards.Asclin.Sent.{deliver, sent, room_wait, asclin_tx_buf-sent}
use ulmk_boards.Asclin.Baud.{distance, numer_of-nearest}

abbrev text : List ℕ
text = 72 ∷ 105 ∷ 33 ∷ []

abbrev fresh : Asclin
fresh = record { calls = []; baud = 115200 }

-- Full at every call, with a wait that fails once two bytes are sent.
abbrev slow : Line
slow = record {
  level = λ cs. 16;
  received = λ cs. 65;
  wait = λ cs. if ltb (length (sent cs)) 2 then Rc.ok else Rc.einval;
}

slow_waits : (cs : List IfxCall) → (is_ok (slow.wait cs) ≡ true) ⊎ (is_error (slow.wait cs) ≡ true)
slow_waits cs = elim (Bool-cases (ltb (length (sent cs)) 2)) [
  | inl e ↦ rw e (inl refl)
  | inr e ↦ rw e (inr refl)
]

asclin_tx_buf-sent_example :
    let r = asclin_tx_buf true (deliver slow 100000000) text 3 fresh in
    ((k : ℕ) × ((k ≤ 3) × ((r.0 ≡ Rc.count k) × (sent r.1.calls ≡ take k text))))
    ⊎ ((0 < 3)
        × ((is_error r.0 ≡ true)
            × ((r.0 ≡ slow.wait (room_wait slow fresh)) × (sent r.1.calls ≡ []))))
asclin_tx_buf-sent_example =
    asclin_tx_buf-sent slow 100000000 text 3 fresh (omega arith)
      (omega arith, (omega arith, (omega arith, tt))) slow_waits

numer_of-nearest_example :
    (1 ≤ numer_of 115200 100000000)
    × ((numer_of 115200 100000000 ≤ 4095)
        × (distance (numer_of 115200 100000000 * 100000000) (115200 * denom * 16)
            ≤ distance (56 * 100000000) (115200 * denom * 16)))
numer_of-nearest_example =
    numer_of-nearest 115200 100000000 56 (omega arith) (omega arith) (omega arith) (omega arith)
