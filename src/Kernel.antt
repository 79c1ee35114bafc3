-- ===== src/Kernel.antt =====
-- What the drivers share of the kernel's interface: result codes and messages. The codes are
-- constants of the kernel's headers, which the drivers only return and compare, so each is a
-- constructor. A message's words are 32-bit numbers; word 0 of a reply carries a result code and
-- nothing else, and is the reply's field `rc`.
use ulmk_boards.Base.{ℕ, List, Bool, true, false}

pub data Rc : Type 0 where
  ok einval esrch enomem enospc etimeout enotsup : Rc
  -- A non-negative result that is a count.
  count : ℕ → Rc

abbrev pub is_ok : Rc → Bool
is_ok Rc.ok = true
is_ok _ = false

-- A negative result: neither OK nor a count.
abbrev pub is_error : Rc → Bool
is_error Rc.ok = false
is_error (Rc.count n) = false
is_error _ = true

pub record Msg : Type 0 where
  pub label : ℕ
  pub words : List ℕ

pub record Reply : Type 0 where
  pub rc : Rc
  pub words : List ℕ
