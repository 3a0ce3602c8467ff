-- ===== src/Action/Returns.antt =====
-- Calls that end: they return a value or an error, or panic, but neither loop nor wait for ever.
use atomic_swap.Base.{Bytes, Bool, true, false, Option, none, some, ◌≢◌, refl, if◌then◌else◌}
use atomic_swap.Base.Outcome.{Outcome, ok, err, panic, blocked}
use atomic_swap.Errors.{Err}
use atomic_swap.Action.{
  Action, pure, fail, crash, gets, or_fail, deref, wrap, wrap_outcome, handle, handle_outcome,
  ◌>>=◌, modify, fail_if,
}

pub record Returns {S A : Type 0} (m : Action S A) : Type 0 where
  pub from : (s : S) → (m s).0 ≢ blocked

wrapped_blocked :
    {A : Type 0} (t : Bytes) (r : Outcome Err A) → r ≢ blocked → wrap_outcome t r ≢ blocked
wrapped_blocked t (ok a) k h = cc
wrapped_blocked t (err e) k h = cc
wrapped_blocked t panic k h = cc
wrapped_blocked t blocked k h = k refl

module _ {S A : Type 0} where
  pub Returns-pure : (a : A) → Returns {S = S} (pure a)
  unfolding pure
  Returns-pure a = record { from = λ s h. cc }

  pub Returns-fail : (e : Err) → Returns {S = S} (fail {A = A} e)
  unfolding fail
  Returns-fail e = record { from = λ s h. cc }

  pub Returns-crash : Returns {S = S} (crash {A = A})
  unfolding crash
  Returns-crash = record { from = λ s h. cc }

  pub Returns-gets : (f : S → A) → Returns (gets f)
  unfolding gets
  Returns-gets f = record { from = λ s h. cc }

  pub Returns-or_fail : (o : Option A) (e : Err) → Returns {S = S} (or_fail o e)
  unfolding or_fail
  Returns-or_fail none e = record { from = λ s h. cc }
  Returns-or_fail (some a) e = record { from = λ s h. cc }

  pub Returns-deref : (o : Option A) → Returns {S = S} (deref o)
  unfolding deref
  Returns-deref none = record { from = λ s h. cc }
  Returns-deref (some a) = record { from = λ s h. cc }

  pub Returns-wrap : (t : Bytes) (m : Action S A) → Returns m → Returns (wrap t m)
  unfolding wrap
  Returns-wrap t m k = record { from = λ s. wrapped_blocked t (m s).0 (k.from s) }

  pub Returns-if :
      (b : Bool) (m n : Action S A) → Returns m → Returns n → Returns (if b then m else n)
  Returns-if true m n km kn = km
  Returns-if false m n km kn = kn

module _ {S A B : Type 0} where
  handled :
      (r : Outcome Err A) (f : A → Action S B) (g : Err → Action S B) (s : S)
      → r ≢ blocked
      → ((a : A) → Returns (f a))
      → ((e : Err) → Returns (g e))
      → (handle_outcome r f g s).0 ≢ blocked
  handled (ok a) f g s k kf kg = (kf a).from s
  handled (err e) f g s k kf kg = (kg e).from s
  handled panic f g s k kf kg = λ h. cc
  handled blocked f g s k kf kg = λ h. k refl

  pub Returns-handle :
      (m : Action S A) (f : A → Action S B) (g : Err → Action S B)
      → Returns m
      → ((a : A) → Returns (f a))
      → ((e : Err) → Returns (g e))
      → Returns (handle m f g)
  unfolding handle
  Returns-handle m f g km kf kg = record {
    from = λ s. handled (m s).0 f g (m s).1 (km.from s) kf kg;
  }

  pub Returns-bind :
      (m : Action S A) (f : A → Action S B)
      → Returns m
      → ((a : A) → Returns (f a))
      → Returns (m >>= f)
  unfolding ◌>>=◌
  Returns-bind m f km kf = record {
    from = λ s. handled (m s).0 f fail (m s).1 (km.from s) kf Returns-fail;
  }

module _ {S : Type 0} where
  pub Returns-modify : (f : S → S) → Returns (modify f)
  unfolding modify
  Returns-modify f = record { from = λ s h. cc }

  pub Returns-fail_if : (b : Bool) (e : Err) → Returns {S = S} (fail_if b e)
  unfolding fail_if
  Returns-fail_if true e = record { from = λ s h. cc }
  Returns-fail_if false e = record { from = λ s h. cc }

pub ruleset returns = (
  Returns-pure, Returns-fail, Returns-crash, Returns-gets, Returns-or_fail, Returns-deref,
  Returns-wrap, Returns-if, Returns-handle, Returns-bind, Returns-modify, Returns-fail_if,
)
