-- ===== src/Qspi/Client.antt =====
-- The calls of witte_linum/drivers/qspi/src/client.c. `call` stands for `ulmk_ep_call` on the server's
-- endpoint: its result, word 0 of the reply, words 1 to 5, and the other side's state.
use ulmk_boards.Base.{
  ℕ, Bool, not, ◌||◌, Option, none, some, List, [], ◌∷◌, if◌then◌else◌, ltb, ◌==◌, get_or, min,
}
use ulmk_boards.Kernel.{Rc, is_ok, Msg}
use ulmk_boards.Wire.Pack.{get_bytes}
use ulmk_boards.Qspi.Server.{qspi_msg_cmd_read, qspi_msg_read}

abbrev pub qspi_msg : ℕ → ℕ → ℕ → Msg
qspi_msg label w0 len = record { label = label; words = w0 ∷ len ∷ 0 ∷ 0 ∷ 0 ∷ 0 ∷ [] }

-- The bytes out of words 1 to 5.
unfoldable pub unpack : List ℕ → ℕ → List ℕ
unpack words len = get_bytes 1 0 (min len 16) words

module _ {S : Type 0} (ep_valid : Bool) (call : Msg → S → Rc × Rc × List ℕ × S) where
  -- The result, words 1 to 5 of the message afterwards, and the state.
  unfoldable pub qspi_call : Msg → S → Rc × List ℕ × S
  qspi_call m s =
      let (rc, reply, words, s') = call m s in
      if not ep_valid
      then (Rc.esrch, get_or m.words 1 0 ∷ 0 ∷ 0 ∷ 0 ∷ 0 ∷ [], s)
      else if not (is_ok rc)
      then (rc, words, s')
      else (reply, words, s')

  -- The pointer is null or not; the bytes are `none` where the code leaves them alone.
  unfoldable pub qspi_cmd_read : ℕ → Bool → ℕ → S → Rc × Option (List ℕ) × S
  qspi_cmd_read cmd have len s =
      let (ret, words, s') = qspi_call (qspi_msg qspi_msg_cmd_read cmd len) s in
      if not have || len == 0 || ltb 16 len
      then (Rc.einval, none, s)
      else (ret, if is_ok ret then some (unpack words len) else none, s')

  -- With `g_last_cr` before the call, and after it; the status is given where the pointer for it is
  -- not null.
  unfoldable pub qspi_cmd_read_dbg :
      ℕ → Bool → ℕ → Bool → ℕ → S → Rc × Option (List ℕ) × Option ℕ × ℕ × S
  qspi_cmd_read_dbg cmd have len want_sr last_cr s =
      let (ret, words, s') = qspi_call (qspi_msg qspi_msg_cmd_read cmd len) s in
      let status = (if want_sr then some (get_or words 0 0) else none) in
      if not have || len == 0 || ltb 16 len
      then (Rc.einval, none, none, last_cr, s)
      else (ret, if is_ok ret then some (unpack words len) else none, status, get_or words 4 0, s')

  unfoldable pub qspi_read : ℕ → Bool → ℕ → S → Rc × Option (List ℕ) × S
  qspi_read addr have len s =
      let (ret, words, s') = qspi_call (qspi_msg qspi_msg_read addr len) s in
      if not have || len == 0 || ltb 16 len
      then (Rc.einval, none, s)
      else (ret, if is_ok ret then some (unpack words len) else none, s')
