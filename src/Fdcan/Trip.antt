-- ===== src/Fdcan/Trip.antt =====
-- A frame through both sides of witte_linum/drivers/can, where the controller receives what it sends.
use ulmk_boards.Base.{
  ℕ, ◌+◌, ◌*◌, ◌≤◌, ◌≡◌, ap, true, false, not, ◌&&◌, some, List, ◌++◌, bit_and, arith, ◌==◌,
}
use ulmk_boards.Base.Word.{◌<<◌}
use ulmk_boards.Kernel.{Rc, is_ok, Msg}
use ulmk_boards.Fdcan.Server.{FdAct, Answers, can_hw_recv, can_server, can_ram_stride_words}
use ulmk_boards.Fdcan.Client.{unpack4, can_call, can_recv}
use ulmk_boards.Fdcan.Memory.{head_word, frame_of-parts}

-- The kernel hands a message to the server of controller `n`, which answers it with one round.
abbrev pub deliver : ℕ → Answers → Msg → List FdAct → Rc × Rc × List ℕ × List FdAct
deliver n o m s = let (rc, words, acts) = can_server n m o in (Rc.ok, rc, words, s ++ acts)

module _ (n : ℕ) (o : Answers) (s : List FdAct) where
  received :
      (id dlc w2 w3 : ℕ)
      → id ≤ 0x7FF
      → dlc ≤ 8
      → (bit_and o.rxf0s 0x7F == 0) && not (is_ok o.waited) ≡ false
      → (bit_and o.rxf0s_late 0x7F == 0) ≡ false
      → o.ram (n * can_ram_stride_words + 8) ≡ id << 18
      → o.ram (n * can_ram_stride_words + 8 + 1) ≡ dlc << 16
      → o.ram (n * can_ram_stride_words + 8 + 2) ≡ w2
      → o.ram (n * can_ram_stride_words + 8 + 3) ≡ w3
      → ((can_recv true (deliver n o) s).0 ≡ Rc.ok)
        × ((can_recv true (deliver n o) s).1
            ≡ some (record { id = id; dlc = dlc; bytes = unpack4 w2 ++ unpack4 w3 }))
  unfolding can_recv can_call can_server can_hw_recv
  received id dlc w2 w3 small short came there e0 e1 e2 e3 = (
    rw (came, there),
    rw (came, there, e0, e1, e2, e3, head_word id dlc (omega arith) (omega arith))
        (ap some (frame_of-parts id dlc w2 w3 (omega arith) (omega arith))),
  )
