-- ===== src/Gdma/Calls.antt =====
-- The calls of esp32p4_ev_function/drivers/gdma_axi/src/client.c through the messages of its server.
use ulmk_boards.Base.{
  ℕ, ◌+◌, ◌*◌, ◌^◌, ◌<◌, ◌≡◌, refl, ap, ◌∙◌, true, List, ◌++◌, arith, bit_and, bit_or,
}
use ulmk_boards.Base.Word.{u8, ◌<<◌}
use ulmk_boards.Base.Bits.{or_fields, and_low}
use ulmk_boards.Kernel.{Rc, Msg}
use ulmk_boards.Gdma.Channel.{
  Gdma, Act, Outcome, hw_channel_open, hw_rx_arm, hw_rx_wait, hw_tx_arm, hw_tx_wait, tx_dw0,
}
use ulmk_boards.Gdma.Copy.{hw_memcpy}
use ulmk_boards.Gdma.Server.{gdma_axi_server}
use ulmk_boards.Gdma.Client.{
  gdma_axi_call, gdma_axi_channel_open, gdma_axi_memcpy, gdma_axi_rx_arm, gdma_axi_rx_wait,
  gdma_axi_tx_arm, gdma_axi_tx_wait,
}

-- What an operation leaves, after the acts of the operations before it.
abbrev pub ran : Rc × List Act × Gdma → List Act → Rc × (Gdma × List Act)
ran r log = (r.0, (r.2, log ++ r.1))

-- The kernel hands each call to the server, which the machine answers by `o`.
abbrev pub deliver : Outcome → Msg → Gdma × List Act → Rc × Rc × (Gdma × List Act)
deliver o m s = let (rc, s1) = ran (gdma_axi_server m o s.0) s.1 in (Rc.ok, rc, s1)

-- Each call of the client, for a slot number of eight bits, does what the operation of the server
-- does: it returns its result, and leaves its state and its acts, in order.
pub record Calls (o : Outcome) (g : Gdma) (log : List Act) : Type 0 where
  pub open_call :
      (slot mux flags : ℕ)
      → slot < 256
      → gdma_axi_channel_open true (deliver o) slot mux flags (g, log)
        ≡ ran (hw_channel_open g slot mux) log
  pub memcpy_call :
      (dst src len : ℕ)
      → gdma_axi_memcpy true (deliver o) dst src len (g, log) ≡ ran (hw_memcpy g dst src len o) log
  pub rx_arm_call :
      (slot dst len : ℕ)
      → slot < 256
      → gdma_axi_rx_arm true (deliver o) slot dst len (g, log) ≡ ran (hw_rx_arm g slot dst len) log
  pub rx_wait_call :
      (slot : ℕ)
      → slot < 256
      → gdma_axi_rx_wait true (deliver o) slot (g, log) ≡ ran (hw_rx_wait g slot o) log
  pub tx_arm_call :
      (slot src len : ℕ)
      → slot < 256
      → gdma_axi_tx_arm true (deliver o) slot src len (g, log) ≡ ran (hw_tx_arm g slot src len) log
  pub tx_wait_call :
      (slot : ℕ)
      → slot < 256
      → gdma_axi_tx_wait true (deliver o) slot (g, log) ≡ ran (hw_tx_wait g slot o) log

byte_same : (slot : ℕ) → slot < 256 → u8 slot ≡ slot
byte_same slot h = omega arith

-- Whatever the state and the machine's answer, every call of the client through the server does
-- what the operation behind it does, for a slot number of eight bits.
pub gdma_axi_server-Calls : (o : Outcome) (g : Gdma) (log : List Act) → Calls o g log
unfolding gdma_axi_call gdma_axi_channel_open gdma_axi_memcpy gdma_axi_rx_arm gdma_axi_rx_wait
    gdma_axi_tx_arm gdma_axi_tx_wait gdma_axi_server
gdma_axi_server-Calls o g log = record {
  open_call = λ slot mux flags h. ap (λ k. ran (hw_channel_open g k mux) log) (byte_same slot h);
  memcpy_call = λ dst src len. refl;
  rx_arm_call = λ slot dst len h. ap (λ k. ran (hw_rx_arm g k dst len) log) (byte_same slot h);
  rx_wait_call = λ slot h. ap (λ k. ran (hw_rx_wait g k o) log) (byte_same slot h);
  tx_arm_call = λ slot src len h. ap (λ k. ran (hw_tx_arm g k src len) log) (byte_same slot h);
  tx_wait_call = λ slot h. ap (λ k. ran (hw_tx_wait g k o) log) (byte_same slot h);
}

low_len : (len : ℕ) → len < 2 ^ 12 → bit_and len 0xFFF ≡ len
low_len len h = and_low 12 len ∙ omega arith

-- The descriptor word of a transmit of at most 4095 bytes has the length in its two fields of
-- twelve bits, and the bits 30 and 31 set.
pub tx_dw0-fields : (len : ℕ) → len < 2 ^ 12 → tx_dw0 len ≡ len + len * 2 ^ 12 + 2 ^ 30 + 2 ^ 31
unfolding tx_dw0
tx_dw0-fields len h =
    let shifted : len << 12 ≡ len * 2 ^ 12 = omega arith in
    rw (low_len len h, shifted, or_fields 12 len len h)
      (ap (λ k. bit_or k (1 << 31)) (or_fields 30 (len + len * 2 ^ 12) 1 (omega arith))
        ∙ or_fields 31 (len + len * 2 ^ 12 + 1 * 2 ^ 30) 1 (omega arith)
        ∙ omega arith)
