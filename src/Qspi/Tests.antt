-- ===== src/Qspi/Tests.antt =====
-- The theorems on the flash driver at concrete inputs: a controller that is never busy and always has
-- a byte, and answers 0x1F06 to every read.
use ulmk_boards.Base.{◌≡◌, refl, true, List, [], ◌∷◌, arith, ℕ, some}
use ulmk_boards.Kernel.{Rc}
use ulmk_boards.Wire.Bytes.{byte, or_byte}
use ulmk_boards.Wire.Pack.{get_bytes, byte_at, or_bytes, put_byte}
use ulmk_boards.Qspi.Server.{
  Quad, do_read, do_cmd_read, qspi_server, read_reply, wait_tc, qspi_drain, wait_level, level_round,
  pack_reply, idle, qspi_abort,
}
use ulmk_boards.Qspi.Client.{unpack, qspi_call, qspi_read, qspi_cmd_read}
use ulmk_boards.Qspi.Popped.{Drained, do_read-popped}
use ulmk_boards.Qspi.Reply.{deliver, outcome}
use ulmk_boards.Qspi.Trip.{qspi_read-do_read, qspi_cmd_read-do_cmd_read}

abbrev flash : Quad
flash = record {
  cr_abort = 2;
  sr_busy = 32;
  sr_tcf = 2;
  sr_tef = 1;
  sr_ftf = 4;
  sr_flevel_pos = 8;
  fcr_ctcf = 2;
  fcr_ctef = 1;
  fcr_csmf = 8;
  ccr_fmode_0 = 0x4000000;
  ccr_fmode_pos = 26;
  ccr_imode_pos = 8;
  ccr_admode_pos = 10;
  ccr_adsize_pos = 12;
  ccr_dmode_pos = 24;
  ccr_dcyc_pos = 18;
  ccr_instruction_pos = 0;
  val = λ s. 0x1F06;
  wait = λ s. Rc.ok;
}

abbrev before : List ℕ
before = 7 ∷ 7 ∷ 7 ∷ 7 ∷ []

do_read-popped_example : Drained flash 3 [] (do_read flash 0x1000 3 [])
do_read-popped_example = do_read-popped flash 0x1000 3 [] (omega arith) (omega arith)

qspi_read-do_read_example :
    qspi_read true (deliver flash 7 before) 0x1000 true 16 []
    ≡ outcome flash 16 (do_read flash 0x1000 16 [])
qspi_read-do_read_example =
    qspi_read-do_read flash 7 before 0x1000 16 [] (omega arith) (omega arith)

-- Byte 13 is the control register's second, and not the flash's.
last_bytes :
    (qspi_read true (deliver flash 7 before) 0x1000 true 14 []).1
    ≡ some (6 ∷ 6 ∷ 6 ∷ 6 ∷ 6 ∷ 6 ∷ 6 ∷ 6 ∷ 6 ∷ 6 ∷ 6 ∷ 6 ∷ 6 ∷ 0x1F ∷ [])
unfolding qspi_read qspi_call qspi_server read_reply do_read wait_tc qspi_drain wait_level
    level_round unpack get_bytes byte_at byte pack_reply or_bytes put_byte or_byte idle qspi_abort
last_bytes = refl

status_read :
    qspi_cmd_read true (deliver flash 7 before) 0x05 true 1 []
    ≡ outcome flash 1 (do_cmd_read flash 0x05 1 [])
status_read =
    qspi_cmd_read-do_cmd_read flash 7 before 0x05 1 [] (omega arith) (omega arith) (omega arith)
