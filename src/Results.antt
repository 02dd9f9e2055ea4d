-- ===== src/Results.antt =====
-- What a Go function gives: a value, an error, or a panic; or it waits for what never comes.
use coalago.Base.{Option, none, some}
use coalago.Constants.{Error}

pub data Result (A : Type 0) : Type 0 where
  ok : A → Result A
  err : Error → Result A
  panic : Result A
  blocked : Result A

infixl 5 ◌>>=◌
abbrev pub ◌>>=◌ : {A B : Type 0} → Result A → (A → Result B) → Result B
Result.ok a >>= f = f a
Result.err e >>= f = Result.err e
Result.panic >>= f = Result.panic
Result.blocked >>= f = Result.blocked

-- `none` is the error `e`.
abbrev pub or_fail : {A : Type 0} → Option A → Error → Result A
or_fail none e = Result.err e
or_fail (some a) e = Result.ok a
