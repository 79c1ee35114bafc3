-- ===== src/Qspi/Reply.antt =====
-- A read through both sides of witte_linum/drivers/qspi: what the client gets of the server's bytes.
use ulmk_boards.Base.{
  ℕ, zero, suc, ◌+◌, ◌-◌, ◌/◌, ◌%◌, ◌≤◌, ◌<◌, ◌≡◌, refl, ap, ap₂, sym, ◌∙◌, inl, inr, true, List,
  [], ◌∷◌, ◌++◌, append_assoc, if◌then◌else◌, length, length-take, get_or, get_or-take,
  get_or-set_ne, get_or-set_self, take, take_all, set, arith, Bool-cases, Option, some, none, leb,
  min,
}
use ulmk_boards.Kernel.{Rc, is_ok, Msg}
use ulmk_boards.Wire.Bytes.{byte}
use ulmk_boards.Wire.Pack.{
  byte_at, or_bytes, length-or_bytes, get_bytes, get_bytes-append, get_bytes-eq, AllBytes,
  byte_at-or_bytes, byte_at-zero,
}
use ulmk_boards.Qspi.Server.{QspiAct, rd, sr, cr, Quad, pack_reply, read_reply, qspi_server}
use ulmk_boards.Qspi.Client.{unpack}

-- The kernel hands a message to the server, which answers it with one round; `old1` and `old` are
-- words 1 to 5 of its reply before.
abbrev pub deliver : Quad → ℕ → List ℕ → Msg → List QspiAct → Rc × Rc × List ℕ × List QspiAct
deliver q old1 old m s = let (rc, words, s') = qspi_server q old1 old m s in (Rc.ok, rc, words, s')

zeros : List ℕ
zeros = 0 ∷ 0 ∷ 0 ∷ 0 ∷ []

zero_words : (j : ℕ) → ◌≡◌ {A = ℕ} (get_or (0 ∷ 0 ∷ 0 ∷ 0 ∷ []) j 0) 0
zero_words zero = refl
zero_words (suc zero) = refl
zero_words (suc (suc zero)) = refl
zero_words (suc (suc (suc zero))) = refl
zero_words (suc (suc (suc (suc j)))) = refl

-- The words after word 0 of the reply, with the status and the control register in words 1 and 5.
abbrev words_of : ℕ → ℕ → List ℕ → List ℕ
words_of status control bytes = status ∷ set (or_bytes 0 0 bytes (0 ∷ 0 ∷ 0 ∷ 0 ∷ [])) 3 control

module _ (status control : ℕ) (bytes : List ℕ) (few : length bytes ≤ 16)
    (all : AllBytes bytes) where
  packed : List ℕ
  packed = or_bytes 0 0 bytes (0 ∷ 0 ∷ 0 ∷ 0 ∷ [])

  length-packed : length packed ≡ 4
  unfolding packed
  length-packed = length-or_bytes 0 0 bytes (0 ∷ 0 ∷ 0 ∷ 0 ∷ [])

  -- Byte `k` of the client, below and from 12.
  byte_at-words :
      (k : ℕ)
      → (k < 12 → byte_at 1 k (words_of status control bytes) ≡ get_or bytes k 0)
        × (12 ≤ k → k < 16 → byte_at 1 k (words_of status control bytes) ≡ byte (k % 4) control)
  unfolding byte_at packed
  byte_at-words k =
      let next : 1 + k / 4 ≡ suc (0 + k / 4) = omega arith in
      let over : byte_at 1 k (words_of status control bytes) ≡ byte_at 0 k (set packed 3 control) =
        ap (λ n. byte (k % 4) (get_or (words_of status control bytes) n 0)) next in
      (
        λ h.
            over
            ∙ ap (byte (k % 4))
                (get_or-set_ne packed 3 (0 + k / 4) control 0 (λ e. absurd (omega arith)))
            ∙ (byte_at-or_bytes 0 0 k bytes (0 ∷ 0 ∷ 0 ∷ 0 ∷ []) all
                  (λ j. omega (arith, zero_words j)) (omega arith)
                  (λ j h. byte_at-zero 0 j (0 ∷ 0 ∷ 0 ∷ 0 ∷ []) (zero_words (0 + j / 4)))).1
                (omega arith)
            ∙ ap (λ n. get_or bytes n 0) {x = k - 0} (omega arith),
        λ h top.
            over
            ∙ ap (λ n. byte (k % 4) (get_or (set packed 3 control) n 0)) {x = 0 + k / 4} {y = 3}
                (omega arith)
            ∙ ap (byte (k % 4)) (get_or-set_self packed 3 control 0 (omega (arith, length-packed))),
      )

  byte_of_one : (k : ℕ) → k < 4 → byte_at 0 k (control ∷ []) ≡ byte (k % 4) control
  unfolding byte_at
  byte_of_one k h =
      ap (λ n. byte (k % 4) (get_or (control ∷ []) n 0)) {x = 0 + k / 4} {y = 0} (omega arith)

  -- From byte 12 on.
  control_bytes :
      (i b : ℕ)
      → 12 ≤ i
      → i + b ≤ 16
      → get_bytes 1 i b (words_of status control bytes) ≡ get_bytes 0 (i - 12) b (control ∷ [])
  unfolding get_bytes
  control_bytes i zero late fits = refl
  control_bytes i (suc b) late fits =
      ap₂ ◌∷◌
        ((byte_at-words i).1 late (omega arith)
          ∙ sym (
              byte_of_one (i - 12) (omega arith)
              ∙ ap (λ k. byte k control) {x = (i - 12) % 4} (omega arith)))
        (control_bytes (i + 1) b (omega arith) (omega arith)
          ∙ ap (λ k. get_bytes 0 k b (control ∷ [])) {x = i + 1 - 12} (omega arith))

  -- The client has the first twelve bytes, and the control register's where there are more.
  unpack_words :
      unpack (words_of status control bytes) (length bytes)
      ≡ take 12 bytes ++ get_bytes 0 0 (length bytes - 12) (control ∷ [])
  unfolding unpack get_bytes
  unpack_words =
      let ws = words_of status control bytes in
      let a = length (take 12 bytes) in
      let b = length bytes - 12 in
      let parts : min (length bytes) 16 ≡ a + b = omega (arith, length-take 12 bytes) in
      let low : get_bytes 1 0 a ws ≡ take 12 bytes = get_bytes-eq 1 0 (take 12 bytes) ws (λ k h.
        ap (λ n. byte_at 1 n ws) {x = 0 + k} {y = k} (omega arith)
        ∙ (byte_at-words k).0 (omega (arith, length-take 12 bytes))
        ∙ sym (get_or-take bytes 12 k 0 (omega (arith, length-take 12 bytes)))) in
      let high : get_bytes 1 (0 + a) b ws ≡ get_bytes 0 0 b (control ∷ []) =
        elim (Bool-cases (leb (length bytes) 12)) [
          | inl e ↦
              let none_left : b ≡ 0 = ground (arith, e) in
              ap (λ n. get_bytes 1 (0 + a) n ws) none_left
              ∙ sym (ap (λ n. get_bytes 0 0 n (control ∷ [])) none_left)
          | inr e ↦
              let twelve : a ≡ 12 = ground (arith, e, length-take 12 bytes) in
              control_bytes (0 + a) b (omega arith) (ground (arith, e, length-take 12 bytes))
              ∙ ap (λ k. get_bytes 0 k b (control ∷ [])) {x = 0 + a - 12} (omega arith)
        ] in
      ap (λ n. get_bytes 1 0 n ws) parts ∙ get_bytes-append 1 0 a b ws ∙ ap₂ ◌++◌ low high

module _ (q : Quad) where
  -- What the client makes of the server's answer to a read with the result `r` of its operation.
  abbrev pub outcome : ℕ → Rc × List ℕ × List QspiAct → Rc × Option (List ℕ) × List QspiAct
  outcome len (rc, bytes, s) =
      let after = s ++ rd sr ∷ rd cr ∷ [] in
      (
        rc,
        if is_ok rc
            then some (take 12 bytes ++ get_bytes 0 0 (len - 12) (q.val after ∷ []))
            else none,
        after,
      )

  is_ok-ok : (rc : Rc) → is_ok rc ≡ true → rc ≡ Rc.ok
  is_ok-ok rc h = ground (arith, h)

  abbrev pub unpacked : ℕ → Rc × List ℕ × List QspiAct → Rc × Option (List ℕ) × List QspiAct
  unpacked len (rc, words, s) = (rc, if is_ok rc then some (unpack words len) else none, s)

  pub read_reply-outcome :
      (len : ℕ) (old : List ℕ) (r : Rc × List ℕ × List QspiAct)
      → len ≤ 16
      → AllBytes r.1
      → (is_ok r.0 ≡ true → length r.1 ≡ len)
      → unpacked len (read_reply q len old r) ≡ outcome len r
  unfolding read_reply pack_reply
  read_reply-outcome len old (rc, bytes, s) few all full =
      let s1 = s ++ rd sr ∷ [] in
      let s2 = s1 ++ rd cr ∷ [] in
      let both : s2 ≡ s ++ rd sr ∷ rd cr ∷ [] = append_assoc s (rd sr ∷ []) (rd cr ∷ []) in
      elim (Bool-cases (is_ok rc)) [
        | inl e ↦
            let whole : take 16 (take len bytes) ≡ bytes =
              ap (take 16) (take_all len bytes (omega (arith, full e)))
              ∙ take_all 16 bytes (omega (arith, full e)) in
            rw e (
              ap₂ (λ x y. (rc, some x, y))
                (ap (λ t. unpack (words_of (q.val s1) (q.val s2) t) len) whole
                  ∙ ap (λ n. unpack (words_of (q.val s1) (q.val s2) bytes) n) (sym (full e))
                  ∙ unpack_words (q.val s1) (q.val s2) bytes (omega (arith, full e)) all
                  ∙ ap₂ (λ n t. take 12 bytes ++ get_bytes 0 0 (n - 12) (q.val t ∷ [])) (full e)
                      both)
                both)
        | inr e ↦ rw e (ap (λ y. (rc, none, y)) both)
      ]
