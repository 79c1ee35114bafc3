-- ===== src/Console/Written.antt =====
-- One written message through the server of witte_linum/board_console.c, and several in order.
use ulmk_boards.Base.{
  ℕ, ◌≤◌, ◌<◌, ◌≡◌, refl, sym, ap, ◌∙◌, true, false, List, [], ◌∷◌, ◌++◌, append-nil, append_assoc,
  arith, min, ◌==◌, length, take, take_all,
}
use ulmk_boards.Kernel.{Rc}
use ulmk_boards.Console.Buffer.{take-append_take}
use ulmk_boards.Console.Server.{
  Message, write, Rtt, Console, board_rtt_init, board_rtt_write, console_emit_buf, console_server,
}
use ulmk_boards.Console.Log.{log_from-append, concat}

-- Pieces that are not empty and not longer than a message holds.
abbrev pub Pieces : ℕ → List (List ℕ) → Type 0
Pieces chunk_max [] = Unit {0}
Pieces chunk_max (c ∷ cs) = (0 < length c) × (length c ≤ chunk_max) × Pieces chunk_max cs

module _ (t : Rtt) (chunk_max : ℕ) where
  open t use {R, write_skip}

  -- The kernel hands each call to the server.
  abbrev pub deliver : Message → Console R → Rc × Rc × ℕ × Console R
  deliver m s = let (rc, word, s') = console_server t chunk_max m s in (Rc.ok, rc, word, s')

  -- The pieces, written to the channel one after the other.
  abbrev pub write_all : List (List ℕ) → R → R
  write_all [] r = r
  write_all (c ∷ cs) r = write_all cs (write_skip c r)

  abbrev pub after_write : List ℕ → Console R → Console R
  after_write bytes s = record s { log = take 2047 (s.log ++ bytes); rtt = write_skip bytes s.rtt }

  board_rtt_write-ready :
      (bytes : List ℕ) (s : Console R)
      → 0 < length bytes
      → s.ready ≡ true
      → board_rtt_write t bytes s ≡ record s { rtt = write_skip bytes s.rtt }
  unfolding board_rtt_write board_rtt_init
  board_rtt_write-ready bytes s some_bytes ready =
      let nonempty : (length bytes == 0) ≡ false = ground arith in simp (ready, nonempty)

  pub server-write :
      (n : ℕ) (bytes : List ℕ) (s : Console R)
      → length bytes ≡ n
      → 0 < n
      → n ≤ chunk_max
      → n ≤ 256
      → s.ready ≡ true
      → length s.log ≤ 2047
      → deliver (write n bytes) s ≡ (Rc.ok, Rc.ok, s.second, after_write bytes s)
  unfolding console_server console_emit_buf
  server-write n bytes s size pos le small ready h =
      let nonempty : (min n chunk_max == 0) ≡ false = ground arith in
      let all : take (min (min n chunk_max) 256) bytes ≡ bytes =
        take_all (min (min n chunk_max) 256) bytes (omega arith) in
      rw (nonempty, all, log_from-append bytes s.log h)
        (ap (λ k. (Rc.ok, Rc.ok, s.second, k))
          (board_rtt_write-ready bytes (record s { log = take 2047 (s.log ++ bytes) }) (omega arith)
            ready))

  -- What a written text leaves: the pieces in which it came, in order.
  pub record Written (text : List ℕ) (s s' : Console R) : Type 0 where
    pub pieces : List (List ℕ)
    pub whole : concat pieces ≡ text
    pub small : Pieces chunk_max pieces
    pub log : s'.log ≡ take 2047 (s.log ++ text)
    pub rtt : s'.rtt ≡ write_all pieces s.rtt
    pub ready : s'.ready ≡ true
    pub second : s'.second ≡ s.second

  pub Written-none : (s : Console R) → s.ready ≡ true → length s.log ≤ 2047 → Written [] s s
  Written-none s ready h = record {
    pieces = [];
    whole = refl;
    small = tt;
    log = sym (ap (take 2047) (append-nil s.log) ∙ take_all 2047 s.log h);
    rtt = refl;
    ready = ready;
    second = refl;
  }

  pub Written-more :
      (bytes text : List ℕ) (s s' : Console R)
      → 0 < length bytes
      → length bytes ≤ chunk_max
      → Written text (after_write bytes s) s'
      → Written (bytes ++ text) s s'
  Written-more bytes text s s' pos le w = record {
    pieces = bytes ∷ w.pieces;
    whole = ap (λ k. bytes ++ k) w.whole;
    small = (pos, le, w.small);
    log =
        w.log
        ∙ take-append_take 2047 (s.log ++ bytes) text
        ∙ ap (take 2047) (append_assoc s.log bytes text);
    rtt = w.rtt;
    ready = w.ready;
    second = w.second;
  }
