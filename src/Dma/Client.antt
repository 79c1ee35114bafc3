-- ===== src/Dma/Client.antt =====
-- The calls of witte_linum/drivers/dma/src/client.c. `call` stands for `ulmk_ep_call` on the
-- server's endpoint, over any state of the other side.
use ulmk_boards.Base.{
  ℕ, zero, suc, ◌+◌, ◌-◌, ◌/◌, Bool, false, not, ◌&&◌, ◌||◌, Option, none, some, List, [], ◌∷◌, ltb,
  ◌==◌, if◌then◌else◌, take, drop, min,
}
use ulmk_boards.Kernel.{Rc, is_ok, Msg, Reply}
use ulmk_boards.Wire.Pack.{or_bytes, get_bytes}
use ulmk_boards.Dma.Slots.{dma_xfer_max}
use ulmk_boards.Dma.Server.{dma_msg_open, dma_msg_close, dma_msg_load, dma_msg_arm, dma_msg_wait}

-- A message with `words[0..2]` given and the others zero.
abbrev pub msg3 : ℕ → ℕ → ℕ → ℕ → Msg
msg3 label a b c = record { label = label; words = a ∷ b ∷ c ∷ 0 ∷ 0 ∷ 0 ∷ [] }

-- `pack_bytes` into words 3 to 5: at most twelve bytes.
unfoldable pub load_msg : ℕ → ℕ → List ℕ → ℕ → Msg
load_msg slot offset bytes len = record {
  label = dma_msg_load;
  words = or_bytes 3 0 (take (min len 12) bytes) (slot ∷ offset ∷ len ∷ 0 ∷ 0 ∷ 0 ∷ []);
}

module _ {S : Type 0} (ep_valid : Bool) (call : Msg → S → Rc × Reply × S) where
  -- The reply comes back in the caller's message.
  unfoldable pub dma_call : Msg → S → Rc × List ℕ × S
  dma_call m s =
      if not ep_valid
      then (Rc.esrch, m.words, s)
      else let (rc, reply, s') = call m s in
        if is_ok rc then (reply.rc, reply.words, s') else (rc, m.words, s')

  unfoldable pub dma_load : ℕ → ℕ → List ℕ → ℕ → S → Rc × S
  dma_load slot offset bytes len s =
      let (rc, ws, s') = dma_call (load_msg slot offset bytes len) s in (rc, s')

  unfoldable pub dma_channel_open : ℕ → ℕ → ℕ → S → Rc × S
  dma_channel_open slot req flags s =
      let (rc, ws, s') = dma_call (msg3 dma_msg_open slot req flags) s in (rc, s')

  unfoldable pub dma_channel_close : ℕ → S → Rc × S
  dma_channel_close slot s = let (rc, ws, s') = dma_call (msg3 dma_msg_close slot 0 0) s in (rc, s')

  -- The loop over `buf`, twelve bytes a round, at offset `off`: `p` is `buf + off`, and the rounds
  -- left are those that `off < len` allows.
  unfoldable pub load_rounds : ℕ → ℕ → ℕ → List ℕ → ℕ → S → Rc × S
  load_rounds zero slot off p len s = (Rc.ok, s)
  load_rounds (suc left) slot off p len s =
      let chunk = (if ltb 12 (len - off) then 12 else len - off) in
      let (rc, s') = dma_load slot off p chunk s in
      let rest = load_rounds left slot (off + 12) (drop 12 p) len s' in
      if is_ok rc then rest else (rc, s')

  -- `buf` is `none` for a null pointer.
  unfoldable pub dma_arm : ℕ → ℕ → Option (List ℕ) → ℕ → S → Rc × S
  dma_arm slot periph buf len s =
      if len == 0 || ltb dma_xfer_max len
      then (Rc.einval, s)
      else let (rc, s1) = load_all buf in
        let (rc', ws, s2) = dma_call arm_msg s1 in if is_ok rc then (rc', s2) else (rc, s1)
    where
      load_all : Option (List ℕ) → Rc × S
      load_all none = (Rc.ok, s)
      load_all (some p) = load_rounds ((len + 11) / 12) slot 0 p len s

      arm_msg : Msg
      arm_msg = record { label = dma_msg_arm; words = slot ∷ periph ∷ len ∷ 1000 ∷ 0 ∷ 0 ∷ [] }

  -- What goes through `out` is `none` where the code leaves it alone.
  unfoldable pub dma_wait : ℕ → Bool → ℕ → ℕ → S → Rc × Option (List ℕ) × S
  dma_wait slot has_out len timeout_ms s =
      let (rc, ws, s') = dma_call (msg3 dma_msg_wait slot timeout_ms len) s in
      if is_ok rc && (has_out && ltb 0 len)
      then (rc, some (get_bytes 2 0 (min len dma_xfer_max) ws), s')
      else (rc, none, s')

  unfoldable pub dma_xfer : ℕ → ℕ → Option (List ℕ) → ℕ → ℕ → S → Rc × S
  dma_xfer slot periph buf len timeout_ms s =
      let (rc, s1) = dma_arm slot periph buf len s in
      let (rc', out, s2) = dma_wait slot false 0 timeout_ms s1 in
      if is_ok rc then (rc', s2) else (rc, s1)

  unfoldable pub dma_xfer_read : ℕ → ℕ → Bool → ℕ → ℕ → S → Rc × Option (List ℕ) × S
  dma_xfer_read slot periph has_out len timeout_ms s =
      let (rc, s1) = dma_arm slot periph none len s in
      let waited = dma_wait slot has_out len timeout_ms s1 in
      if is_ok rc then waited else (rc, none, s1)
