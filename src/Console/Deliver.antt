-- ===== src/Console/Deliver.antt =====
-- A client's text through the console's server: what reaches the log and the RTT channel.
use ulmk_boards.Base.{
  take-split, ℕ, zero, suc, ◌-◌, ◌≤◌, ◌<◌, ◌≡◌, refl, sym, subst, ap, ◌∙◌, inl, inr, true, false,
  ◌||◌, Option, none, some, List, ◌++◌, arith, min, ltb, ◌==◌, if◌then◌else◌, Bool-cases, length,
  take, drop, take_all, length-take, length-drop,
}
use ulmk_boards.Kernel.{Rc}
use ulmk_boards.Console.Buffer.{length-take_le}
use ulmk_boards.Console.Server.{write, Rtt, Console}
use native.Mathlib.Decide.{dec_lt}
use ulmk_boards.Console.Printf.{Arg, done, undefined, out_of_fuel, board_console_printf}
use ulmk_boards.Console.Cut.{Ends, within, board_console_printf-Ends}
use ulmk_boards.Console.Client.{write_from, console_write, board_console_puts, printf_out}
use ulmk_boards.Console.Written.{
  Written, deliver, after_write, server-write, Written-none, Written-more,
}

capped : (text : List ℕ) → take (min (min (length text) 256) 256) text ≡ take 256 text
capped text = elim (dec_lt (length text) 256) [
  | yes short ↦
      take_all (min (min (length text) 256) 256) text (omega arith)
      ∙ sym (take_all 256 text (omega arith))
  | no long ↦ ap (λ k. take k text) {y = 256} (omega arith)
]

printed-le :
    (fmt : List ℕ) (args : List Arg) (a : List ℕ)
    → board_console_printf fmt args ≡ done a
    → length a ≤ 160
printed-le fmt args a e = within (subst (Ends 160) e (board_console_printf-Ends fmt args))

module _ (t : Rtt) (chunk_max : ℕ) where
  open t use {R, write_skip}

  write_from-step :
      (fuel n len : ℕ) (buf : List ℕ) (s : Console R)
      → 0 < len
      → (if ltb len chunk_max then len else chunk_max) ≡ n
      → (deliver t chunk_max) (write n (take n buf)) s
        ≡ (Rc.ok, Rc.ok, s.second, after_write t chunk_max (take n buf) s)
      → write_from chunk_max true (deliver t chunk_max) (suc fuel) buf len s
        ≡ write_from chunk_max true
            (deliver t chunk_max)
            fuel
            (drop n buf)
            (len - n)
            (after_write t chunk_max (take n buf) s)
  unfolding write_from
  write_from-step fuel n len buf s pos size e =
      let more : ltb 0 len ≡ true = ground arith in
      rw more (
        ap
          (λ k.
            let (rc, reply, word, s') = (deliver t chunk_max) (write k (take k buf)) s in
            write_from chunk_max true (deliver t chunk_max) fuel (drop k buf) (len - k) s')
          size
        ∙ ap
            (λ r.
              let (rc, reply, word, s') = r in
              write_from chunk_max true (deliver t chunk_max) fuel (drop n buf) (len - n) s')
            e)

  write_from-Written :
      (fuel len : ℕ) (buf : List ℕ) (s : Console R)
      → 0 < chunk_max
      → len ≤ length buf
      → len ≤ 256
      → len < fuel
      → s.ready ≡ true
      → length s.log ≤ 2047
      → (s' : Console R) × (write_from chunk_max true (deliver t chunk_max) fuel buf len s
          ≡ some s')
        × Written t chunk_max (take len buf) s s'
  write_from-Written zero len buf s room size small enough ready h = absurd (omega arith)
  write_from-Written (suc fuel) zero buf s room size small enough ready h =
      (s, unfold write_from in refl, Written-none t chunk_max s ready h)
  write_from-Written (suc fuel) (suc len) buf s room size small enough ready h =
      let n = (if ltb (suc len) chunk_max then suc len else chunk_max) in
      let bound : (0 < n) × (n ≤ suc len) × (n ≤ chunk_max) = ground arith in
      let piece : length (take n buf) ≡ n = omega (arith, length-take n buf, bound) in
      let (s', e, w) =
        write_from-Written fuel (suc len - n) (drop n buf) (after_write t chunk_max (take n buf) s)
          room (omega (arith, length-drop n buf)) (omega arith) (omega (arith, bound)) ready
          (length-take_le 2047 (s.log ++ take n buf)) in
      (
        s',
        write_from-step fuel n (suc len) buf s (omega arith) refl (
              server-write t chunk_max n (take n buf) s piece bound.0 bound.2 (omega (arith, bound))
                ready h)
            ∙ e,
        subst (λ k. Written t chunk_max k s s') (take-split n (suc len) buf bound.1)
            (Written-more t chunk_max (take n buf) (take (suc len - n) (drop n buf)) s s'
              (omega (arith, piece, bound)) (omega (arith, piece, bound)) w),
      )

  console_write-Written :
      (buf : List ℕ) (len : ℕ) (s : Console R)
      → 0 < chunk_max
      → len ≤ length buf
      → s.ready ≡ true
      → length s.log ≤ 2047
      → (s' : Console R) × (console_write chunk_max true (deliver t chunk_max) buf len s ≡ some s')
        × Written t chunk_max (take (min len 256) buf) s s'
  console_write-Written buf len s room size ready h = elim (Bool-cases (len == 0 || false)) [
    | inl nothing ↦ (
      s,
      unfold console_write in rw nothing refl,
      subst (λ k. Written t chunk_max (take k buf) s s) {x = 0} (ground arith)
          (Written-none t chunk_max s ready h),
    )
    | inr something ↦
        let capped = (if ltb 256 len then 256 else len) in
        let same : capped ≡ min len 256 = ground arith in
        let (s', e, w) =
          write_from-Written (suc capped) capped buf s room (ground arith) (ground arith)
            (omega arith) ready h in
        (
          s',
          unfold console_write in rw something e,
          subst (λ k. Written t chunk_max (take k buf) s s') same w,
        )
  ]

  -- A text of any length goes through the server, with messages that hold at least one byte, a
  -- channel that is set up and a log of at most 2047 bytes: the loop ends; the first 256 bytes of
  -- the text come in non-empty pieces that fit a message; the channel gets the pieces in order,
  -- and the log their bytes, as far as its 2047 bytes have room.
  pub board_console_puts-Written :
      (text : List ℕ) (s : Console R)
      → 0 < chunk_max
      → s.ready ≡ true
      → length s.log ≤ 2047
      → (s' : Console R) × (board_console_puts chunk_max true (deliver t chunk_max) (some text) s
          ≡ some s')
        × Written t chunk_max (take 256 text) s s'
  unfolding board_console_puts
  board_console_puts-Written text s room ready h =
      let (s', e, w) =
        console_write-Written text (min (length text) 256) s room (omega arith) ready h in
      (s', e, subst (λ k. Written t chunk_max k s s') (capped text) w)

  -- Where the format and its arguments fit, messages hold at least one byte, the channel is set up
  -- and the log has at most 2047 bytes, what board_console_printf puts into its buffer reaches the
  -- server whole: the channel gets it in pieces that fit a message, in order, and the log its
  -- bytes, as far as its 2047 bytes have room.
  pub printf_out-Written :
      (fmt : List ℕ) (args : List Arg) (a : List ℕ) (s : Console R)
      → 0 < chunk_max
      → s.ready ≡ true
      → length s.log ≤ 2047
      → board_console_printf fmt args ≡ done a
      → (s' : Console R) × (printf_out chunk_max true (deliver t chunk_max) fmt args s ≡ some s')
        × Written t chunk_max a s s'
  unfolding printf_out
  printf_out-Written fmt args a s room ready h e =
      let short = printed-le fmt args a e in
      let (s', sent, w) = console_write-Written a (length a) s room (omega arith) ready h in
      (
        s',
        ap
              (λ r. elim r as (λ x. Option (Console R)) [
                | done text ↦
                    console_write chunk_max true (deliver t chunk_max) text (length text) s
                | undefined ↦ none
                | out_of_fuel ↦ none
              ])
              e
            ∙ sent,
        subst (λ k. Written t chunk_max k s s') (take_all (min (length a) 256) a (omega arith)) w,
      )
