-- ===== src/Fdcan/Tests.antt =====
-- The round trip of a frame through the CAN driver of witte_linum at concrete numbers: the second controller, with
-- the memory that it then has.
use ulmk_boards.Base.{◌-◌, ◌*◌, ◌^◌, [], ◌∷◌, get_or}
use ulmk_boards.Kernel.{Rc}
use ulmk_boards.Fdcan.Server.{Answers}
use ulmk_boards.Fdcan.Client.{Frame}

abbrev free : Answers
free = record { txfqs = 0; rxf0s = 0; waited = Rc.ok; rxf0s_late = 0; ram = λ a. 0; rxf0s_ack = 0 }

-- Words 40 to 43 hold what a send stores at 48 to 51.
abbrev looped : Answers
looped = record {
  txfqs = 0;
  rxf0s = 0;
  waited = Rc.ok;
  rxf0s_late = 1;
  ram = λ a. get_or (0x321 * 2 ^ 18 ∷ 8 * 2 ^ 16 ∷ 0x04030201 ∷ 0x08070605 ∷ []) (a - 40) 0;
  rxf0s_ack = 1;
}

abbrev hello : Frame
hello = record { id = 0x321; dlc = 8; bytes = 1 ∷ 2 ∷ 3 ∷ 4 ∷ 5 ∷ 6 ∷ 7 ∷ 8 ∷ [] }
