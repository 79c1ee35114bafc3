-- ===== src/Console/Cut.antt =====
-- The result of `board_console_printf`: it is always there, and the buffer only cuts it.
use ulmk_boards.Base.{
  take-take, ℕ, zero, suc, ◌≤◌, ◌<◌, ◌≡◌, refl, sym, subst, ap, ◌∙◌, inl, inr, true, none, some,
  List, [], ◌∷◌, ◌++◌, arith, leb, leb→gt, leb→le, Bool-cases, length, take, take_all, length-take,
  length-append,
}
use ulmk_boards.Console.Printf.{Arg, Printed, done, undefined, print_from, board_console_printf}
use ulmk_boards.Console.Buffer.{length-take_le}
use ulmk_boards.Console.Step.{Next, continue_with, ShorterThan, next-Round}

-- What a print can end in, with `cap` bytes of room.
pub data Ends (cap : ℕ) : Printed → Type 0 where
  undef : Ends cap undefined
  prints : (a : List ℕ) → length a ≤ cap → Ends cap (done a)

pub within : {cap : ℕ} {a : List ℕ} → Ends cap (done a) → length a ≤ cap
within {cap} {a} e = bound e refl
  where
    bound : {p : Printed} → Ends cap p → p ≡ done a → length a ≤ cap
    bound undef q = absurd (cc q)
    bound (prints b h) q = subst (λ k. length k ≤ cap) (cc q) h

print_from-full :
    (fuel cap : ℕ) (fmt : List ℕ) (args : List Arg) (out : List ℕ)
    → cap ≤ length out
    → print_from (suc fuel) cap fmt args out ≡ done out
unfolding print_from
print_from-full fuel cap [] args out h = refl
print_from-full fuel cap (c ∷ fmt) args out h =
    let full : leb cap (length out) ≡ true = ground arith in rw full refl

continue-Ends :
    (fuel cap n : ℕ) (out : List ℕ) (next : Next)
    → ShorterThan n next
    → n < fuel
    → ((fmt : List ℕ) (args : List Arg) (out : List ℕ)
        → length fmt < fuel
        → length out ≤ cap
        → Ends cap (print_from fuel cap fmt args out))
    → Ends cap (continue_with fuel cap out next)
continue-Ends fuel cap n out none s f ih = undef
continue-Ends fuel cap n out (some (fmt, args, t)) s f ih =
    ih fmt args (take cap (out ++ t)) (omega arith) (length-take_le cap (out ++ t))

print_from-Ends :
    (fuel cap : ℕ) (fmt : List ℕ) (args : List Arg) (out : List ℕ)
    → length fmt < fuel
    → length out ≤ cap
    → Ends cap (print_from fuel cap fmt args out)
print_from-Ends zero cap fmt args out f h = absurd (omega arith)
print_from-Ends (suc fuel) cap [] args out f h = unfold print_from in prints out h
print_from-Ends (suc fuel) cap (c ∷ fmt) args out f h = elim (Bool-cases (leb cap (length out))) [
  | inl full ↦
      subst (Ends cap)
        (sym (print_from-full fuel cap (c ∷ fmt) args out (leb→le cap (length out) full)))
        (prints out h)
  | inr room ↦
      let r = next-Round c fmt args in
      subst (Ends cap) (sym (r.runs fuel cap out (leb→gt cap (length out) room))) (
        continue-Ends fuel cap (length fmt) out r.next r.shorter (omega arith)
          (λ fmt' args' out' f' h'. print_from-Ends fuel cap fmt' args' out' f' h'))
]

-- Whatever the format and the arguments, the loop of board_console_printf ends within its fuel:
-- either the code reads past the end of the format or of the arguments, or takes an argument for
-- what it is not, or it prints at most the 160 bytes that the buffer holds.
pub board_console_printf-Ends :
    (fmt : List ℕ) (args : List Arg) → Ends 160 (board_console_printf fmt args)
unfolding board_console_printf
board_console_printf-Ends fmt args =
    print_from-Ends (suc (length fmt)) 160 fmt args [] (omega arith) (omega arith)

take-append_left : (k : ℕ) (xs ys : List ℕ) → k ≤ length xs → take k (xs ++ ys) ≡ take k xs
take-append_left zero xs ys h = refl
take-append_left (suc k) [] ys h = absurd (omega arith)
take-append_left (suc k) (x ∷ xs) ys h = ap (λ t. x ∷ t) (take-append_left k xs ys (omega arith))

done-injective : (a b : List ℕ) → done a ≡ done b → a ≡ b
done-injective a b e = cc e

take-append_room :
    (k cap : ℕ) (out t : List ℕ)
    → k ≤ length out
    → length out ≤ cap
    → take k (take cap (out ++ t)) ≡ take k out
take-append_room k cap out t le h =
    take-take k cap (out ++ t) (omega arith) ∙ take-append_left k out t le

continue-grows :
    (fuel cap k : ℕ) (out b : List ℕ) (next : Next)
    → length out ≤ cap
    → k ≤ length out
    → ((fmt : List ℕ) (args : List Arg) (out' : List ℕ)
        → length out' ≤ cap
        → k ≤ length out'
        → print_from fuel cap fmt args out' ≡ done b
        → take k b ≡ take k out')
    → continue_with fuel cap out next ≡ done b
    → take k b ≡ take k out
continue-grows fuel cap k out b none h le ih e = absurd (cc e)
continue-grows fuel cap k out b (some (fmt, args, t)) h le ih e =
    ih fmt args (take cap (out ++ t)) (length-take_le cap (out ++ t))
      (omega (arith, length-take cap (out ++ t), length-append out t)) e
    ∙ take-append_room k cap out t le h

-- What is written stays.
print_from-grows :
    (fuel cap k : ℕ) (fmt : List ℕ) (args : List Arg) (out b : List ℕ)
    → length out ≤ cap
    → k ≤ length out
    → print_from fuel cap fmt args out ≡ done b
    → take k b ≡ take k out
print_from-grows zero cap k fmt args out b h le e = unfold print_from in absurd (cc e)
print_from-grows (suc fuel) cap k [] args out b h le e =
    ap (take k) (unfold print_from in done-injective b out (sym e))
print_from-grows (suc fuel) cap k (c ∷ fmt) args out b h le e =
    elim (Bool-cases (leb cap (length out))) [
      | inl full ↦ ap (take k) (
          done-injective b out
            (sym e ∙ print_from-full fuel cap (c ∷ fmt) args out (leb→le cap (length out) full)))
      | inr room ↦
          let r = next-Round c fmt args in
          continue-grows fuel cap k out b r.next h le
            (λ fmt' args' out' h' le' e'. print_from-grows fuel cap k fmt' args' out' b h' le' e')
            (sym (r.runs fuel cap out (leb→gt cap (length out) room)) ∙ e)
    ]

continue-cut :
    (fuel cap room : ℕ) (out b : List ℕ) (next : Next)
    → cap ≤ room
    → ((fmt : List ℕ) (args : List Arg) (out' : List ℕ)
        → length out' ≤ room
        → print_from fuel room fmt args out' ≡ done b
        → print_from fuel cap fmt args (take cap out') ≡ done (take cap b))
    → continue_with fuel room out next ≡ done b
    → continue_with fuel cap out next ≡ done (take cap b)
continue-cut fuel cap room out b none le ih e = absurd (cc e)
continue-cut fuel cap room out b (some (fmt, args, t)) le ih e =
    ap (print_from fuel cap fmt args) (sym (take-take cap room (out ++ t) le))
    ∙ ih fmt args (take room (out ++ t)) (length-take_le room (out ++ t)) e

print_from-cut :
    (fuel cap room : ℕ) (fmt : List ℕ) (args : List Arg) (out b : List ℕ)
    → cap ≤ room
    → length out ≤ room
    → print_from fuel room fmt args out ≡ done b
    → print_from fuel cap fmt args (take cap out) ≡ done (take cap b)
print_from-cut zero cap room fmt args out b le h e = unfold print_from in absurd (cc e)
print_from-cut (suc fuel) cap room [] args out b le h e =
    unfold print_from in ap (λ t. done (take cap t)) (done-injective out b e)
print_from-cut (suc fuel) cap room (c ∷ fmt) args out b le h e =
    elim (Bool-cases (leb cap (length out))) [
      | inl full ↦
          print_from-full fuel cap (c ∷ fmt) args (take cap out)
            (omega (arith, length-take cap out, leb→le cap (length out) full))
          ∙ ap done (
              sym (
                print_from-grows (suc fuel) room cap (c ∷ fmt) args out b h
                  (leb→le cap (length out) full) e))
      | inr short ↦
          let r = next-Round c fmt args in
          let below = leb→gt cap (length out) short in
          ap (print_from (suc fuel) cap (c ∷ fmt) args) (take_all cap out (omega arith))
          ∙ r.runs fuel cap out below
          ∙ continue-cut fuel cap room out b r.next le
              (λ fmt' args' out' h' e'. print_from-cut fuel cap room fmt' args' out' b le h' e')
              (sym (r.runs fuel room out (omega arith)) ∙ e)
    ]

-- Where the loop with a buffer of at least 160 bytes prints a text, board_console_printf prints
-- the first 160 bytes of that text.
pub board_console_printf-cut :
    (room : ℕ) (fmt : List ℕ) (args : List Arg) (b : List ℕ)
    → 160 ≤ room
    → print_from (suc (length fmt)) room fmt args [] ≡ done b
    → board_console_printf fmt args ≡ done (take 160 b)
unfolding board_console_printf
board_console_printf-cut room fmt args b le e =
    print_from-cut (suc (length fmt)) 160 room fmt args [] b le (omega arith) e
