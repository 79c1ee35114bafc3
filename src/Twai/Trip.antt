-- ===== src/Twai/Trip.antt =====
-- A frame through esp32p4_ev_function/drivers/can: the client's message, the controller in its
-- self-test loop, and the client's reception of what the server took in.
use ulmk_boards.Base.{
  ℕ, ◌+◌, ◌-◌, ◌%◌, ◌≤◌, ◌<◌, ◌≡◌, ap, ap₂, sym, ◌∙◌, subst, inl, inr, append-nil, true, false, not,
  ◌&&◌, some, List, [], ◌∷◌, ◌++◌, bit_and, take, min, length, arith, if◌then◌else◌, ◌==◌, ltb,
  Bool-cases,
}
use ulmk_boards.Base.Word.{u8}
use ulmk_boards.Kernel.{Rc, is_ok, Msg}
use ulmk_boards.Wire.Pack.{AllBytes}
use ulmk_boards.Twai.Payload.{low_word, high_word, payload_of}
use ulmk_boards.Twai.Server.{
  TwaiAct, Answers, Inst, wr_frame, rx_drain, hw_send, can_server, st_rxbuf, st_txbuf, int_tx,
}
use ulmk_boards.Twai.Client.{send_msg, frame_of, can_send, can_recv}
use ulmk_boards.Twai.Words.{sent_bytes, received_bytes, low_word_cong, high_word_cong}
use ulmk_boards.Twai.Wires.{
  after, after-append, after-frame_length, after-frame_high, after-frame_low, after-frame_byte,
}
use ulmk_boards.Twai.Taken.{
  wait_if, after-wait_if, asked, after-asked, hw_send-sent, received-id, received-len,
  received-last, take-read_last,
}

-- The server's instance and what it has done to the machine so far.
pub record Machine : Type 0 where
  pub inst : Inst
  pub acts : List TwaiAct

-- The kernel hands a message to the server, which answers it with one round.
abbrev pub deliver : Answers → Msg → Machine → Rc × Rc × List ℕ × Machine
deliver o m s =
    let (rc, words, acts, c) = can_server m o s.inst in
    (Rc.ok, rc, words, record { inst = c; acts = s.acts ++ acts })

-- The payload that the server unpacks.
abbrev unpacked : ℕ → List ℕ → List ℕ
unpacked n ds = payload_of 4 0 (low_word n ds) ++ payload_of 4 0 (high_word n ds)

-- All that the server does for a frame, and its machine then.
abbrev frame_acts : ℕ → List ℕ → ℕ → Answers → Inst → List TwaiAct
frame_acts id ds n o c =
    asked
      (wait_if (bit_and o.tx_status st_txbuf == 0) int_tx ++ wr_frame id (some (unpacked n ds)) n) o
    ++ (rx_drain c o).0

abbrev sent : ℕ → List ℕ → ℕ → Answers → Machine → Machine
sent id ds n o s = record {
  inst = (rx_drain s.inst o).1;
  acts = s.acts ++ frame_acts id ds n o s.inst;
}

answered :
    (id : ℕ) (ds : List ℕ) (n : ℕ) (o : Answers) (s : Machine)
    → s.inst.ready ≡ true
    → n ≤ 8
    → (bit_and o.tx_status st_txbuf == 0) && not (is_ok o.tx_wait) ≡ false
    → (bit_and o.rx_status st_rxbuf == 0) && not (is_ok o.rx_wait) ≡ false
    → deliver o (send_msg id ds n) s ≡ (Rc.ok, Rc.ok, [], sent id ds n o s)
unfolding can_server send_msg
answered id ds n o s ready small room came =
    let byte : u8 n ≡ n = omega arith in
    let eq =
      ap (λ k. hw_send s.inst id (some (unpacked n ds)) k o) byte
      ∙ hw_send-sent s.inst id (unpacked n ds) n o ready small room came in
    ap
      (λ (h : Rc × List TwaiAct × Inst).
        (Rc.ok, h.0, [], record { inst = h.2; acts = s.acts ++ h.1 }))
      eq

clamp : (len : ℕ) → (if ltb 8 len then 8 else len) ≡ min len 8
clamp len = elim (Bool-cases (ltb 8 len)) [
  | inl e ↦ ap (λ b. if b then 8 else len) e ∙ ground (arith, e)
  | inr e ↦ ap (λ b. if b then 8 else len) e ∙ ground (arith, e)
]

frame_of-words :
    (id n low high : ℕ)
    → n ≤ 8
    → frame_of (id ∷ n ∷ low ∷ high ∷ [])
      ≡ record { id = id; len = n; bytes = payload_of (min n 4) 0 low ++ payload_of (n - 4) 0 high }
unfolding frame_of
frame_of-words id n low high small =
    let eq : (if ltb 8 (u8 n) then 8 else u8 n) ≡ n =
      ap (λ k. if ltb 8 k then 8 else k) {x = u8 n} {y = n} (omega arith) ∙ clamp n ∙ omega arith in
    ap
      (λ k. record {
        id = id;
        len = k;
        bytes = payload_of (min k 4) 0 low ++ payload_of (k - 4) 0 high;
      })
      eq

list_of :
    (i : ℕ) {a b c a' b' c' : ℕ}
    → a ≡ a'
    → b ≡ b'
    → c ≡ c'
    → frame_of (i ∷ a ∷ b ∷ c ∷ []) ≡ frame_of (i ∷ a' ∷ b' ∷ c' ∷ [])
list_of i p q r = cc

sent_ok :
    (id : ℕ) (ds : List ℕ) (len : ℕ) (o : Answers) (s : Machine)
    → s.inst.ready ≡ true
    → (bit_and o.tx_status st_txbuf == 0) && not (is_ok o.tx_wait) ≡ false
    → (bit_and o.rx_status st_rxbuf == 0) && not (is_ok o.rx_wait) ≡ false
    → can_send true (deliver o) id ds len s ≡ (Rc.ok, sent id ds (min len 8) o s)
unfolding can_send
sent_ok id ds len o s ready room came =
    let eq : deliver o (send_msg id ds (if ltb 8 len then 8 else len)) s
        ≡ (Rc.ok, Rc.ok, [], sent id ds (min len 8) o s) =
      ap (λ n. deliver o (send_msg id ds n) s) (clamp len)
      ∙ answered id ds (min len 8) o s ready (omega arith) room came in
    ap (λ (r : Rc × Rc × List ℕ × Machine). if is_ok r.0 then (r.1, r.3) else (Rc.einval, r.3)) eq

-- The client's reception of what the server keeps, as far as its length goes.
received :
    (o : Answers) (s : Machine) (n : ℕ) (ds : List ℕ)
    → n ≤ 8
    → n ≤ length ds
    → AllBytes ds
    → s.inst.last_len ≡ n
    → take n s.inst.last ≡ take n ds
    → can_recv true (deliver o) s
      ≡ (Rc.ok, some (record { id = s.inst.last_id; len = n; bytes = take n ds }), s)
unfolding can_server can_recv
received o s n ds small enough bytes p q =
    let low : low_word s.inst.last_len s.inst.last ≡ low_word n ds =
      ap (λ k. low_word k s.inst.last) p ∙ low_word_cong n s.inst.last ds q in
    let high : high_word s.inst.last_len s.inst.last ≡ high_word n ds =
      ap (λ k. high_word k s.inst.last) p ∙ high_word_cong n s.inst.last ds q in
    let words : frame_of (
          s.inst.last_id
          ∷ s.inst.last_len
          ∷ low_word s.inst.last_len s.inst.last
          ∷ high_word s.inst.last_len s.inst.last
          ∷ [])
        ≡ record { id = s.inst.last_id; len = n; bytes = take n ds } =
      list_of s.inst.last_id p low high
      ∙ frame_of-words s.inst.last_id n (low_word n ds) (high_word n ds) small
      ∙ ap (λ b. record { id = s.inst.last_id; len = n; bytes = b })
          (received_bytes n ds small enough bytes) in
    ap₂ (λ f acts. (Rc.ok, some f, record { inst = s.inst; acts = acts })) words (append-nil s.acts)

sent-recv :
    (o : Answers) (s : Machine) (id : ℕ) (ds : List ℕ) (n : ℕ) (held : ℕ → ℕ)
    → length s.inst.last ≡ 8
    → n ≤ 8
    → n ≤ length ds
    → AllBytes ds
    → (bit_and o.drain_status st_rxbuf == 0) ≡ false
    → ((k : ℕ) → k < 3 + n → o.frame k ≡ after k (held k) (sent id ds n o s).acts)
    → can_recv true (deliver o) (sent id ds n o s)
      ≡ (Rc.ok, some (record { id = id % 2048; len = n; bytes = take n ds }), sent id ds n o s)
sent-recv o s id ds n held eight small enough bytes there echo =
    let buf = unpacked n ds in
    let full = bit_and o.tx_status st_txbuf == 0 in
    let reads : (k : ℕ)
        → k < 3 + n
        → o.frame k ≡ after k (after k (held k) s.acts) (wr_frame id (some buf) n) =
      λ k lt.
        echo k lt
        ∙ after-append k (held k) s.acts (frame_acts id ds n o s.inst)
        ∙ after-asked k (after k (held k) s.acts) (wait_if full int_tx) (wr_frame id (some buf) n) o
            s.inst (after-wait_if full int_tx k (after k (held k) s.acts)) in
    let dlc = reads 0 (omega arith) ∙ after-frame_length id buf n small _ in
    let last : take n (rx_drain s.inst o).1.last ≡ take n ds =
      ap (take n) (received-last s.inst o there n dlc small)
      ∙ take-read_last o.frame n s.inst.last buf ds (omega arith) enough bytes
          (sent_bytes n ds small enough bytes)
          (λ j lt. reads (3 + j) (omega arith) ∙ after-frame_byte id buf n small _ j lt) in
    let same =
      received-id s.inst o there id (reads 1 (omega arith) ∙ after-frame_high id buf n small _)
        (reads 2 (omega arith) ∙ after-frame_low id buf n small _) in
    received o (sent id ds n o s) n ds small enough bytes (received-len s.inst o there n dlc small)
      last
    ∙ ap (λ i. (Rc.ok, some (record { id = i; len = n; bytes = take n ds }), sent id ds n o s)) same

-- On a server that is ready, with eight bytes of room for a frame, where no wait of a send times
-- out and the controller files a frame whose registers read back as they were last written,
-- can_send with enough bytes succeeds, and can_recv then returns the low eleven bits of the
-- identifier, the length, at most eight, and exactly that many first bytes, and changes nothing.
pub can_send-recv :
    (o : Answers) (s : Machine) (id : ℕ) (ds : List ℕ) (len : ℕ) (held : ℕ → ℕ)
    → s.inst.ready ≡ true
    → length s.inst.last ≡ 8
    → min len 8 ≤ length ds
    → AllBytes ds
    → (bit_and o.tx_status st_txbuf == 0) && not (is_ok o.tx_wait) ≡ false
    → (bit_and o.rx_status st_rxbuf == 0) && not (is_ok o.rx_wait) ≡ false
    → (bit_and o.drain_status st_rxbuf == 0) ≡ false
    → ((k : ℕ)
        → k < 3 + min len 8
        → o.frame k ≡ after k (held k) (can_send true (deliver o) id ds len s).1.acts)
    → (can_send true (deliver o) id ds len s).0 ≡ Rc.ok
      × can_recv true (deliver o) (can_send true (deliver o) id ds len s).1 ≡ (
        Rc.ok,
        some (record { id = id % 2048; len = min len 8; bytes = take (min len 8) ds }),
        (can_send true (deliver o) id ds len s).1,
      )
can_send-recv o s id ds len held ready eight enough bytes room came there echo =
    let e = sent_ok id ds len o s ready room came in
    (
      ap (λ r. r.0) e,
      subst
          (λ m. can_recv true (deliver o) m ≡ (
            Rc.ok,
            some (record { id = id % 2048; len = min len 8; bytes = take (min len 8) ds }),
            m,
          ))
          (sym (ap (λ r. r.1) e))
          (sent-recv o s id ds (min len 8) held eight (omega arith) enough bytes there
            (λ k lt. echo k lt ∙ ap (λ r. after k (held k) r.1.acts) e)),
    )
