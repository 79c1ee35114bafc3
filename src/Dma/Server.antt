-- ===== src/Dma/Server.antt =====
-- The dispatcher of witte_linum/drivers/dma/src/server.c: one message, one reply.
use ulmk_boards.Base.{
  ℕ, ◌&&◌, Option, none, some, List, [], ◌∷◌, ltb, ◌==◌, if◌then◌else◌, get_or, take, min,
}
use ulmk_boards.Base.Word.{u8}
use ulmk_boards.Kernel.{Rc, is_ok, Msg, Reply}
use ulmk_boards.Wire.Pack.{or_bytes, get_bytes}
use ulmk_boards.Dma.Slots.{
  Slot, Waits, dma_xfer_max, do_open, do_close, do_load, do_arm, do_wait, copy_in,
}

abbrev pub dma_msg_open : ℕ
dma_msg_open = 1

abbrev pub dma_msg_close : ℕ
dma_msg_close = 2

abbrev pub dma_msg_arm : ℕ
dma_msg_arm = 3

abbrev pub dma_msg_wait : ℕ
dma_msg_wait = 4

abbrev pub dma_msg_load : ℕ
dma_msg_load = 5

-- The dispatcher's state: `g_slots` and its array `tmp`, which keeps its bytes between messages.
pub record Dispatcher : Type 0 where
  pub slots : List Slot
  pub tmp : List ℕ

abbrev pub word : Msg → ℕ → ℕ
word m i = get_or m.words i 0

abbrev pub no_words : List ℕ
no_words = 0 ∷ 0 ∷ 0 ∷ 0 ∷ 0 ∷ 0 ∷ []

-- `unpack_payload` into `dst`.
unfoldable pub unpack_payload : Msg → ℕ → List ℕ → ℕ → List ℕ
unpack_payload m w0 dst len =
    let n = min len dma_xfer_max in copy_in n (get_bytes w0 0 n m.words) dst

-- `pack_payload` into the four words from `w0` on, which are zero before.
unfoldable pub pack_payload : ℕ → List ℕ → ℕ → List ℕ
pack_payload w0 src len = or_bytes w0 0 (take (min len dma_xfer_max) src) no_words

abbrev plain : Rc → Reply
plain rc = record { rc = rc; words = no_words }

unfoldable pub serve_open : Msg → Dispatcher → Reply × Dispatcher
serve_open m d =
    let (rc, slots) = do_open d.slots (u8 (word m 0)) (u8 (word m 1)) (word m 2) in
    (plain rc, record d { slots = slots })

unfoldable pub serve_close : Msg → Dispatcher → Reply × Dispatcher
serve_close m d =
    let (rc, slots) = do_close d.slots (u8 (word m 0)) in (plain rc, record d { slots = slots })

abbrev pub load_reply : List ℕ → Option (Rc × List Slot) → Option (Reply × Dispatcher)
load_reply tmp r = elim r [
  | none ↦ none
  | some (rc, slots) ↦ some (plain rc, record { slots = slots; tmp = tmp })
]

-- `none`: the message made the server write or read past an array.
unfoldable pub serve_load : Msg → Dispatcher → Option (Reply × Dispatcher)
serve_load m d =
    let tmp = unpack_payload m 3 d.tmp (word m 2) in
    load_reply tmp (do_load d.slots (u8 (word m 0)) (word m 1) tmp (word m 2))

module _ (w : Waits) where
  unfoldable pub serve_arm : Msg → Dispatcher → Reply × Dispatcher
  serve_arm m d =
      let (rc, slots) = do_arm w d.slots (u8 (word m 0)) (word m 1) (word m 2) (word m 3) in
      (plain rc, record d { slots = slots })

  unfoldable pub serve_wait : Msg → Dispatcher → Reply × Dispatcher
  serve_wait m d =
      let (rc, tmp, slots) = do_wait w d.slots (u8 (word m 0)) d.tmp (word m 2) in
      (
        record {
          rc = rc;
          words = if is_ok rc && ltb 0 (word m 2) then pack_payload 2 tmp (word m 2) else no_words;
        },
        record { slots = slots; tmp = tmp },
      )

  -- `none`: the message made the server write or read past an array.
  unfoldable pub serve : Msg → Dispatcher → Option (Reply × Dispatcher)
  serve m d =
      if m.label == dma_msg_open
      then some (serve_open m d)
      else if m.label == dma_msg_close
      then some (serve_close m d)
      else if m.label == dma_msg_load
      then serve_load m d
      else if m.label == dma_msg_arm
      then some (serve_arm m d)
      else if m.label == dma_msg_wait
      then some (serve_wait m d)
      else some (plain Rc.einval, d)
