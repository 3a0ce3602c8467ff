-- ===== src/Action/Keeps.antt =====
-- Invariants of calls, one rule for each way to build a call: whatever the call returns, it keeps
-- what held of the state.
use atomic_swap.Base.{Bytes, Bool, true, false, Option, none, some, if◌then◌else◌}
use atomic_swap.Base.Outcome.{Outcome, ok, err, panic, blocked}
use atomic_swap.Errors.{Err}
use atomic_swap.Action.{
  Action, pure, fail, crash, hang, gets, or_fail, deref, wrap, handle, handle_outcome, ◌>>=◌,
  modify, fail_if, ignore,
}

pub record Keeps {S A : Type 0} (P : S → Type 0) (m : Action S A) : Type 0 where
  pub kept : (s : S) → P s → P (m s).1

module _ {S A : Type 0} {P : S → Type 0} where
  pub Keeps-fail : (e : Err) → Keeps P (fail {A = A} e)
  unfolding fail
  Keeps-fail e = record { kept = λ _ h. h }

  pub Keeps-crash : Keeps P (crash {A = A})
  unfolding crash
  Keeps-crash = record { kept = λ _ h. h }

  pub Keeps-hang : Keeps P (hang {A = A})
  unfolding hang
  Keeps-hang = record { kept = λ _ h. h }

  pub Keeps-pure : (a : A) → Keeps P (pure a)
  unfolding pure
  Keeps-pure a = record { kept = λ _ h. h }

  pub Keeps-gets : (f : S → A) → Keeps P (gets f)
  unfolding gets
  Keeps-gets f = record { kept = λ _ h. h }

  pub Keeps-or_fail : (o : Option A) (e : Err) → Keeps P (or_fail o e)
  unfolding or_fail
  Keeps-or_fail none e = record { kept = λ _ h. h }
  Keeps-or_fail (some a) e = record { kept = λ _ h. h }

  pub Keeps-deref : (o : Option A) → Keeps P (deref o)
  unfolding deref
  Keeps-deref none = record { kept = λ _ h. h }
  Keeps-deref (some a) = record { kept = λ _ h. h }

  pub Keeps-wrap : (t : Bytes) (m : Action S A) → Keeps P m → Keeps P (wrap t m)
  unfolding wrap
  Keeps-wrap t m k = record { kept = λ s h. k.kept s h }

  pub Keeps-if :
      (b : Bool) (m n : Action S A) → Keeps P m → Keeps P n → Keeps P (if b then m else n)
  Keeps-if true m n km kn = km
  Keeps-if false m n km kn = kn

module _ {S A B : Type 0} {P : S → Type 0} where
  handled :
      (r : Outcome Err A) (f : A → Action S B) (g : Err → Action S B) (s : S)
      → ((a : A) → Keeps P (f a))
      → ((e : Err) → Keeps P (g e))
      → P s
      → P (handle_outcome r f g s).1
  handled (ok a) f g s kf kg h = (kf a).kept s h
  handled (err e) f g s kf kg h = (kg e).kept s h
  handled panic f g s kf kg h = h
  handled blocked f g s kf kg h = h

  pub Keeps-handle :
      (m : Action S A) (f : A → Action S B) (g : Err → Action S B)
      → Keeps P m
      → ((a : A) → Keeps P (f a))
      → ((e : Err) → Keeps P (g e))
      → Keeps P (handle m f g)
  unfolding handle
  Keeps-handle m f g km kf kg = record {
    kept = λ s h. handled (m s).0 f g (m s).1 kf kg (km.kept s h);
  }

  pub Keeps-bind :
      (m : Action S A) (f : A → Action S B)
      → Keeps P m
      → ((a : A) → Keeps P (f a))
      → Keeps P (m >>= f)
  unfolding ◌>>=◌
  Keeps-bind m f km kf = record {
    kept = λ s h. handled (m s).0 f fail (m s).1 kf Keeps-fail (km.kept s h);
  }

module _ {S : Type 0} {P : S → Type 0} where
  pub Keeps-modify : (f : S → S) → ((s : S) → P s → P (f s)) → Keeps P (modify f)
  unfolding modify
  Keeps-modify f k = record { kept = k }

  pub Keeps-fail_if : (b : Bool) (e : Err) → Keeps P (fail_if b e)
  unfolding fail_if
  Keeps-fail_if true e = record { kept = λ _ h. h }
  Keeps-fail_if false e = record { kept = λ _ h. h }

  pub Keeps-ignore : {A : Type 0} (m : Action S A) → Keeps P m → Keeps P (ignore m)
  unfolding ignore
  Keeps-ignore m k =
      Keeps-handle m (λ _. pure tt) (λ _. pure tt) k (λ a. Keeps-pure tt) (λ e. Keeps-pure tt)

pub ruleset keeps = (
  Keeps-pure, Keeps-fail, Keeps-crash, Keeps-hang, Keeps-gets, Keeps-or_fail, Keeps-deref,
  Keeps-wrap, Keeps-if, Keeps-handle, Keeps-bind, Keeps-fail_if, Keeps-ignore,
)
