-- ===== src/Transport/Sound.antt =====
-- transport.go and security.go: a transport whose sessions all have their ciphers stays so, and none
-- of its operations panics.
pub mod Securing
pub mod Receiving
pub mod Arriving
pub mod Rounds
pub mod Hello
pub mod Exchanging
pub mod Transfers
use coalago.Base.{◌≡◌, refl, Bool, true, false, Option, none, some, List, [], ◌∷◌, if◌then◌else◌}
use coalago.Constants.{Error}
use coalago.Results.{Result}
use coalago.Session.{Primitives, SecuredSession}
use coalago.Session.Ready.{Gives, IsReady, Anything}
use coalago.Storage.Contents.{StoresOnly}
use coalago.Transport.{
  Host, M, ◌>>=◌, bind_result, give, return, fail, ignoring_error, forget_result,
}

module _ {p : Primitives} where
  abbrev pub IsReadySession : SecuredSession p → Type 0
  IsReadySession s = IsReady p s.aead

  -- Every session that is stored has both ciphers.
  pub record IsSound (h : Host p) : Type 0 where
    pub ready : StoresOnly IsReadySession h.sessions

  -- A result that is no panic, and a sound state.
  pub data Ends {A : Type 0} (Q : A → Type 0) : Result A × Host p → Type 0 where
    done : (a : A) (h : Host p) → IsSound h → Q a → Ends Q (Result.ok a, h)
    failed : (e : Error) (h : Host p) → IsSound h → Ends Q (Result.err e, h)
    waits : (h : Host p) → IsSound h → Ends Q (Result.blocked, h)

  pub record Safe {A : Type 0} (Q : A → Type 0) (m : M p A) : Type 0 where
    pub from_host : (h : Host p) → IsSound h → Ends Q (m h)

  module _ {A : Type 0} (Q : A → Type 0) where
    pub Safe-return : (a : A) → Q a → Safe Q (return a)
    unfolding return
    Safe-return a q = record { from_host = λ h s. Ends.done a h s q }

    pub Safe-fail : (e : Error) → Safe Q (fail e)
    unfolding fail
    Safe-fail e = record { from_host = λ h s. Ends.failed e h s }

    Ends-given : (r : Result A) (h : Host p) → IsSound h → Gives Q r → Ends Q (r, h)
    Ends-given _ h s (Gives.given a q) = Ends.done a h s q
    Ends-given _ h s (Gives.refused e) = Ends.failed e h s

    pub Safe-give : (r : Result A) → Gives Q r → Safe Q (give r)
    unfolding give
    Safe-give r g = record { from_host = λ h s. Ends-given r h s g }

    pub Safe-if : (b : Bool) (m n : M p A) → Safe Q m → Safe Q n → Safe Q (if b then m else n)
    Safe-if true m n k l = k
    Safe-if false m n k l = l

    pub Safe-when :
        (b : Bool) (m n : M p A) → (b ≡ true → Safe Q m) → Safe Q n → Safe Q (if b then m else n)
    Safe-when true m n k l = k refl
    Safe-when false m n k l = l

    forgotten : (r : Result A × Host p) → Ends Q r → Ends Anything (forget_result r)
    forgotten _ (Ends.done a h s q) = Ends.done tt h s tt
    forgotten _ (Ends.failed e h s) = Ends.done tt h s tt
    forgotten _ (Ends.waits h s) = Ends.waits h s

    pub Safe-ignoring_error : (m : M p A) → Safe Q m → Safe Anything (ignoring_error m)
    unfolding ignoring_error
    Safe-ignoring_error m k = record { from_host = λ h s. forgotten (m h) (k.from_host h s) }

  module _ {A B : Type 0} (Q : A → Type 0) (R : B → Type 0) where
    Ends-bind :
        (r : Result A × Host p) (f : A → M p B)
        → Ends Q r
        → ((a : A) → Q a → Safe R (f a))
        → Ends R (bind_result r f)
    Ends-bind _ f (Ends.done a h s q) k = (k a q).from_host h s
    Ends-bind _ f (Ends.failed e h s) k = Ends.failed e h s
    Ends-bind _ f (Ends.waits h s) k = Ends.waits h s

    pub Safe-bind :
        (m : M p A) (f : A → M p B) → Safe Q m → ((a : A) → Q a → Safe R (f a)) → Safe R (m >>= f)
    unfolding ◌>>=◌
    Safe-bind m f k l = record { from_host = λ h s. Ends-bind (m h) f (k.from_host h s) l }

  -- Where nothing is known of the first result.
  pub Safe-then :
      {A B : Type 0} (R : B → Type 0) (m : M p A) (f : A → M p B)
      → Safe Anything m
      → ((a : A) → Safe R (f a))
      → Safe R (m >>= f)
  Safe-then R m f k l = Safe-bind Anything R m f k (λ a _. l a)

pub ruleset safe_rules = (Safe-return, Safe-fail, Safe-if, Safe-then)
