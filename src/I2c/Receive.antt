-- ===== src/I2c/Receive.antt =====
-- A read through both sides of esp32p4_ev_function/drivers/i2c: the client gets what the server took
-- out of the controller.
use ulmk_boards.Base.{
  ℕ, zero, suc, ◌+◌, ◌/◌, ◌≤◌, ◌<◌, ◌≡◌, refl, ap, ap₂, sym, ◌∙◌, inl, inr, Bool, true, false, not,
  ◌||◌, List, [], ◌∷◌, ◌++◌, if◌then◌else◌, length, get_or, take, take_all, arith, Bool-cases,
  Option, some, none, ltb, ◌==◌,
}
use ulmk_boards.Base.Word.{u8}
use ulmk_boards.Kernel.{Rc, is_ok}
use ulmk_boards.Wire.Pack.{or_bytes, get_bytes, AllBytes, get_bytes-or_bytes, byte_at-zero}
use ulmk_boards.I2c.Server.{I2cAct, i2c_data, rd, Bus, i2c_do_read, rd_bytes, i2c_server}
use ulmk_boards.I2c.Client.{i2c_call, i2c_read}
use ulmk_boards.I2c.Transfer.{deliver}

read_free : (j : ℕ) → ◌≡◌ {A = ℕ} (get_or (0 ∷ 0 ∷ 0 ∷ []) j 0) 0
read_free zero = refl
read_free (suc zero) = refl
read_free (suc (suc zero)) = refl
read_free (suc (suc (suc j))) = refl

read_words :
    (buf : List ℕ)
    → length buf ≤ 12
    → AllBytes buf
    → get_bytes 0 0 (length buf) (or_bytes 0 0 buf (0 ∷ 0 ∷ 0 ∷ [])) ≡ buf
read_words buf short bytes =
    get_bytes-or_bytes 0 buf (0 ∷ 0 ∷ 0 ∷ []) bytes (λ k. omega (arith, read_free k)) (omega arith)
      (λ k. byte_at-zero 0 k (0 ∷ 0 ∷ 0 ∷ []) (read_free (0 + k / 4)))

is_ok-ok : (rc : Rc) → is_ok rc ≡ true → rc ≡ Rc.ok
is_ok-ok rc h = ground (arith, h)

module _ (bus : Bus) where
  length-rd_bytes : (left : ℕ) (s : List I2cAct) → length (rd_bytes bus left s).0 ≡ left
  unfolding rd_bytes
  length-rd_bytes zero s = refl
  length-rd_bytes (suc left) s = ap suc (length-rd_bytes left (s ++ rd i2c_data ∷ []))

  rd_bytes-AllBytes : (left : ℕ) (s : List I2cAct) → AllBytes (rd_bytes bus left s).0
  unfolding rd_bytes
  rd_bytes-AllBytes zero s = tt
  rd_bytes-AllBytes (suc left) s = (omega arith, rd_bytes-AllBytes left (s ++ rd i2c_data ∷ []))

  -- What holds of the bytes read holds of those of a read that ends well.
  reading :
      (bad : Bool) (rc : Rc) (bytes : List ℕ) (s s2 s3 : List I2cAct) (P : List ℕ → Type 0)
      → P bytes
      → let r : Rc × List ℕ × List I2cAct =
          (if bad
            then (Rc.einval, [], s)
            else if not (is_ok rc)
            then (Rc.einval, [], s2)
            else (Rc.ok, bytes, s3)) in
        is_ok r.0 ≡ true → P r.1
  reading true rc bytes s s2 s3 P p h = ground (arith, h)
  reading false rc bytes s s2 s3 P p h = elim (Bool-cases (is_ok rc)) [
    | inl e ↦ rw e p
    | inr e ↦ ground (arith, e, h)
  ]

  -- The bytes of a read that ends well.
  i2c_do_read-bytes :
      (hw_ok : Bool) (addr7 len : ℕ) (s : List I2cAct)
      → is_ok (i2c_do_read bus hw_ok addr7 len s).0 ≡ true
      → (length (i2c_do_read bus hw_ok addr7 len s).1 ≡ len)
        × AllBytes (i2c_do_read bus hw_ok addr7 len s).1
  unfolding i2c_do_read
  i2c_do_read-bytes false addr7 len s h = ground (arith, h)
  i2c_do_read-bytes true addr7 len s h =
      reading _ _ _ _ _ _ (λ t. (length t ≡ len) × AllBytes t)
        (length-rd_bytes len _, rd_bytes-AllBytes len _) h

  -- For an address of seven bits and a length from 1 to 12, whatever the hardware and the kernel
  -- answer, i2c_read through the server has the result and the acts of the server's operation, and
  -- gives the client the bytes that the operation took out of the controller if it succeeds, and
  -- none otherwise.
  pub i2c_read-do_read :
      (hw_ok : Bool) (addr7 len : ℕ) (s : List I2cAct)
      → addr7 < 128
      → 1 ≤ len
      → len ≤ 12
      → let r = i2c_do_read bus hw_ok addr7 len s in
        i2c_read true (deliver bus hw_ok) addr7 true len s
        ≡ (r.0, if is_ok r.0 then some r.1 else none, r.2)
  unfolding i2c_read i2c_call i2c_server
  i2c_read-do_read hw_ok addr7 len s small some_bytes few =
      let r = i2c_do_read bus hw_ok addr7 len s in
      let zeros : List ℕ = 0 ∷ 0 ∷ 0 ∷ [] in
      let guard : (len == 0 || ltb 12 len) ≡ false = ground (arith, some_bytes, few) in
      let address : u8 addr7 ≡ addr7 = omega arith in
      let top : ltb 12 len ≡ false = ground (arith, few) in
      let count : (if ltb 12 len then 12 else len) ≡ len = ap (λ b. if b then 12 else len) top in
      let client : Bool → ℕ → Rc × List ℕ × List I2cAct → Rc × Option (List ℕ) × List I2cAct =
        λ g l q.
          (if g then (Rc.einval, none, s) else if not (is_ok q.0) then (q.0, none, q.2) else (
            Rc.ok,
            some (get_bytes 0 0 len (if is_ok q.0 then or_bytes 0 0 (take l q.1) zeros else zeros)),
            q.2,
          )) in
      let ended : client false len r ≡ (r.0, (if is_ok r.0 then some r.1 else none), r.2) =
        elim (Bool-cases (is_ok r.0)) [
          | inl e ↦
              let (long, bytes) = i2c_do_read-bytes hw_ok addr7 len s e in
              let whole : get_bytes 0 0 len (or_bytes 0 0 (take len r.1) zeros) ≡ r.1 =
                ap (λ t. get_bytes 0 0 len (or_bytes 0 0 t zeros)) (take_all len r.1 (omega arith))
                ∙ ap (λ n. get_bytes 0 0 n (or_bytes 0 0 r.1 zeros)) (sym long)
                ∙ read_words r.1 (omega arith) bytes in
              rw (e, whole, is_ok-ok r.0 e)
          | inr e ↦ rw e
        ] in
      ap
        (λ g.
          client g (if ltb 12 len then 12 else len)
            (i2c_do_read bus hw_ok (u8 addr7) (if ltb 12 len then 12 else len) s))
        guard
      ∙ ap₂ (λ a l. client false l (i2c_do_read bus hw_ok a l s)) address count
      ∙ ended
