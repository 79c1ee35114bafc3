-- ===== src/Dma/Slots.antt =====
-- The slots of witte_linum/drivers/dma/src/server.c and the operations `do_open`, `do_close`,
-- `do_load`, `do_arm` and `do_wait` of its dispatcher. What happens while the dispatcher waits for
-- a worker is a parameter.
use ulmk_boards.Base.{
  ℕ, zero, suc, ◌+◌, Bool, true, false, not, ◌&&◌, ◌||◌, Option, none, some, List, ltb, leb, ◌==◌,
  if◌then◌else◌, get_or, set, take, drop, ◌++◌, replicate, length, bit_and,
}
use ulmk_boards.Base.Word.{add32}
use ulmk_boards.Kernel.{Rc, is_ok}

abbrev pub dma_max_slots : ℕ
dma_max_slots = 3

abbrev pub dma_xfer_max : ℕ
dma_xfer_max = 16

abbrev pub dma_default_wait_ms : ℕ
dma_default_wait_ms = 1000

abbrev pub dma_flag_dir_m2p : ℕ
dma_flag_dir_m2p = 1

abbrev pub dma_flag_minc : ℕ
dma_flag_minc = 2

abbrev pub dma_flag_psize_16 : ℕ
dma_flag_psize_16 = 4

abbrev pub dma_flag_msize_16 : ℕ
dma_flag_msize_16 = 8

abbrev pub dma_job_arm : ℕ
dma_job_arm = 1

-- `struct dma_slot`, without the handles that the kernel gives it.
pub record Slot : Type 0 where
  pub opened : Bool
  pub mux_req : ℕ
  pub flags : ℕ
  pub buf : List ℕ
  pub job : ℕ
  pub periph : ℕ
  pub len : ℕ
  pub timeout_ms : ℕ
  pub result : Rc

-- A slot in `.user_bss`.
abbrev pub blank : Slot
blank = record {
  opened = false;
  mux_req = 0;
  flags = 0;
  buf = replicate 16 0;
  job = 0;
  periph = 0;
  len = 0;
  timeout_ms = 0;
  result = Rc.ok;
}

abbrev pub slot_at : List Slot → ℕ → Slot
slot_at slots i = get_or slots i blank

-- `slot >= DMA_MAX_SLOTS || !g_slots[slot].open`
abbrev pub bad_slot : List Slot → ℕ → Bool
bad_slot slots i = leb dma_max_slots i || not (slot_at slots i).opened

-- What the kernel's wait on `done_notif` returns, and the slot as the worker left it, for the bits
-- ARMED and DONE.
pub record Waits : Type 0 where
  pub armed : ℕ → Slot → Rc × Slot
  pub done : ℕ → Slot → Rc × Slot

unfoldable pub do_open : List Slot → ℕ → ℕ → ℕ → Rc × List Slot
do_open slots i mux_req flags =
    if leb dma_max_slots i
    then (Rc.einval, slots)
    else if (slot_at slots i).opened
    then (Rc.enospc, slots)
    else (
      Rc.ok,
      set slots i (record (slot_at slots i) { opened = true; mux_req = mux_req; flags = flags }),
    )

unfoldable pub do_close : List Slot → ℕ → Rc × List Slot
do_close slots i =
    if bad_slot slots i
    then (Rc.einval, slots)
    else (Rc.ok, set slots i (record (slot_at slots i) { opened = false }))

-- The copy loop from index `k` on; `none` is an access past the end of `buf` or of `data`, which C
-- leaves undefined.
unfoldable pub store_from : ℕ → ℕ → ℕ → List ℕ → List ℕ → Option (List ℕ)
store_from zero k offset bytes buf = some buf
store_from (suc left) k offset bytes buf =
    let at = add32 offset k in
    if ltb at (length buf) && ltb k (length bytes)
    then store_from left (k + 1) offset bytes (set buf at (get_or bytes k 0))
    else none

-- The server always passes its own array for `data`.
unfoldable pub do_load : List Slot → ℕ → ℕ → List ℕ → ℕ → Option (Rc × List Slot)
do_load slots i offset bytes len =
    if bad_slot slots i
    then some (Rc.einval, slots)
    else if len == 0 || ltb dma_xfer_max (add32 offset len)
    then some (Rc.einval, slots)
    else elim (store_from len 0 offset bytes (slot_at slots i).buf) [
      | none ↦ none
      | some buf ↦ some (Rc.ok, set slots i (record (slot_at slots i) { buf = buf }))
    ]

-- `for (i = 0; i < n; i++) out[i] = buf[i]`
unfoldable pub copy_in : ℕ → List ℕ → List ℕ → List ℕ
copy_in n buf out = take n buf ++ drop n out

module _ (w : Waits) where
  unfoldable pub do_arm : List Slot → ℕ → ℕ → ℕ → ℕ → Rc × List Slot
  do_arm slots i periph len timeout_ms =
      if bad_slot slots i
      then (Rc.einval, slots)
      else if len == 0 || ltb dma_xfer_max len
      then (Rc.einval, slots)
      else let s = record (slot_at slots i) {
        periph = periph;
        len = len;
        timeout_ms = if timeout_ms == 0 then dma_default_wait_ms else timeout_ms;
        job = dma_job_arm;
      } in
        let (rc, s') = w.armed i s in (rc, set slots i s')

  -- The first `len` bytes of `out` are replaced when the slot reads from the peripheral.
  unfoldable pub do_wait : List Slot → ℕ → List ℕ → ℕ → Rc × List ℕ × List Slot
  do_wait slots i out len =
      if bad_slot slots i
      then (Rc.einval, out, slots)
      else let (rc, s) = w.done i (slot_at slots i) in
        let slots' = set slots i s in
        if not (is_ok rc)
        then (rc, out, slots')
        else if ltb 0 len && bit_and s.flags dma_flag_dir_m2p == 0
        then (s.result, copy_in (if ltb s.len len then s.len else len) s.buf out, slots')
        else (s.result, out, slots')
