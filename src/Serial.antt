-- ===== src/Serial.antt =====
-- What a serial port promises a client that sends bytes one at a time, and what follows for a text:
-- shared by the drivers of witte_linum/drivers/uart and tc275_lite/drivers/asclin.
use ulmk_boards.Base.{
  ℕ, suc, ◌≤◌, ◌<◌, ◌≡◌, refl, ap, sym, ◌∙◌, inl, inr, true, false, List, [], ◌∷◌, ◌++◌,
  if◌then◌else◌, length, take, take-take, length-take, append_assoc, append-nil, arith, Bool-cases,
}
use ulmk_boards.Kernel.{Rc, is_ok}
use ulmk_boards.Wire.Pack.{AllBytes, AllBytes-take}

-- One byte either goes out as the next one, or the call reports an error and none does.
pub record Port (S : Type 0) : Type 0 where
  pub tx : ℕ → S → Rc × S
  pub sent : S → List ℕ
  pub tx_done :
      (b : ℕ) (s : S) → b < 256 → is_ok (tx b s).0 ≡ true → sent (tx b s).1 ≡ sent s ++ b ∷ []
  pub tx_failed : (b : ℕ) (s : S) → b < 256 → is_ok (tx b s).0 ≡ false → sent (tx b s).1 ≡ sent s

-- Sending a text up to the first error: the last result, how many bytes went, and the state.
pub record Run (S : Type 0) : Type 0 where
  pub rc : Rc
  pub count : ℕ
  pub state : S

module _ {S : Type 0} (p : Port S) where
  abbrev pub run : List ℕ → S → Run S
  run [] s = record { rc = Rc.ok; count = 0; state = s }
  run (b ∷ bs) s =
      let rest = run bs (p.tx b s).1 in
      if is_ok (p.tx b s).0
      then record rest { count = suc rest.count }
      else record { rc = (p.tx b s).0; count = 0; state = (p.tx b s).1 }

  pub run-sent :
      (bs : List ℕ) (s : S)
      → AllBytes bs
      → p.sent (run bs s).state ≡ p.sent s ++ take (run bs s).count bs
  run-sent [] s a = sym (append-nil (p.sent s))
  run-sent (b ∷ bs) s a = elim (Bool-cases (is_ok (p.tx b s).0)) [
    | inl e ↦ rw (
      e,
      run-sent bs (p.tx b s).1 a.1,
      p.tx_done b s a.0 e,
      append_assoc (p.sent s) (b ∷ []) (take (run bs (p.tx b s).1).count bs),
    )
    | inr e ↦ rw (e, p.tx_failed b s a.0 e, append-nil (p.sent s))
  ]

  pub run-done : (bs : List ℕ) (s : S) → is_ok (run bs s).rc ≡ true → (run bs s).count ≡ length bs
  run-done [] s h = refl
  run-done (b ∷ bs) s h = elim (Bool-cases (is_ok (p.tx b s).0)) [
    | inl e ↦ ground (arith, e, h, run-done bs (p.tx b s).1)
    | inr e ↦ ground (arith, e, h)
  ]

  pub run-failed :
      (bs : List ℕ) (s : S) → is_ok (run bs s).rc ≡ false → (run bs s).count < length bs
  run-failed [] s h = ground (arith, h)
  run-failed (b ∷ bs) s h = elim (Bool-cases (is_ok (p.tx b s).0)) [
    | inl e ↦ ground (arith, e, h, run-failed bs (p.tx b s).1)
    | inr e ↦ ground (arith, e, h)
  ]

  -- A run that fails before a byte has gone gives the result of its first call.
  pub run-first :
      (bs : List ℕ) (s : S)
      → AllBytes bs
      → is_ok (run bs s).rc ≡ false
      → (run bs s).count ≡ 0
      → (b : ℕ) × ((b < 256) × ((run bs s).rc ≡ (p.tx b s).0))
  run-first [] s a h none = absurd (cc h)
  run-first (b ∷ bs) s a h none = elim (Bool-cases (is_ok (p.tx b s).0)) [
    | inl e ↦ absurd (ground (arith, e, none))
    | inr e ↦ (b, (a.0, rw e refl))
  ]

  -- A run on the first bytes of a buffer sends them, or fewer and reports an error.
  pub run-take :
      (buf : List ℕ) (len : ℕ) (s : S)
      → len ≤ length buf
      → AllBytes buf
      → (p.sent (run (take len buf) s).state ≡ p.sent s ++ take (run (take len buf) s).count buf)
        × ((is_ok (run (take len buf) s).rc ≡ true → (run (take len buf) s).count ≡ len)
            × (is_ok (run (take len buf) s).rc ≡ false → (run (take len buf) s).count < len))
  run-take buf len s enough a =
      let bs = take len buf in
      let most : (run bs s).count ≤ len = elim (Bool-cases (is_ok (run bs s).rc)) [
        | inl e ↦ omega (arith, run-done bs s e, length-take len buf)
        | inr e ↦ omega (arith, run-failed bs s e, length-take len buf)
      ] in
      (
        run-sent bs s (AllBytes-take len buf a)
            ∙ ap (λ t. p.sent s ++ t) (take-take (run bs s).count len buf most),
        (
          λ e. omega (arith, run-done bs s e, length-take len buf),
          λ e. omega (arith, run-failed bs s e, length-take len buf),
        ),
      )
