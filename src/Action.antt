-- ===== src/Action.antt =====
-- A Go call that works on a state and may fail: the state comes back after an error too, since what
-- was written stays written.
pub mod Keeps
pub mod Returns
pub mod Inversion
use atomic_swap.Base.{Bytes, Bool, true, false, Option, none, some}
use atomic_swap.Base.Outcome.{Outcome, ok, err, panic, blocked}
use atomic_swap.Errors.{Err, wrapped}

abbrev pub Action : Type 0 → Type 0 → Type 0
Action S A = S → Outcome Err A × S

abbrev wrap_outcome : {A : Type 0} → Bytes → Outcome Err A → Outcome Err A
wrap_outcome t (ok a) = ok a
wrap_outcome t (err e) = err (wrapped t e)
wrap_outcome t panic = panic
wrap_outcome t blocked = blocked

module _ {S A : Type 0} where
  unfoldable pub pure : A → Action S A
  pure a s = (ok a, s)

  unfoldable pub fail : Err → Action S A
  fail e s = (err e, s)

  -- A nil pointer dereference, a failed type assertion, a channel closed twice.
  unfoldable pub crash : Action S A
  crash s = (panic, s)

  -- A loop that does not end, or a lock that is never free.
  unfoldable pub hang : Action S A
  hang s = (blocked, s)

  unfoldable pub gets : (S → A) → Action S A
  gets f s = (ok (f s), s)

  -- `none` is an error, or a nil pointer that is dereferenced.
  unfoldable pub or_fail : Option A → Err → Action S A
  or_fail none e s = (err e, s)
  or_fail (some a) e s = (ok a, s)

  unfoldable pub deref : Option A → Action S A
  deref none s = (panic, s)
  deref (some a) s = (ok a, s)

  -- `fmt.Errorf("t: %w", err)`
  unfoldable pub wrap : Bytes → Action S A → Action S A
  wrap t m s = let (r, s') = m s in (wrap_outcome t r, s')

module _ {S A B : Type 0} where
  abbrev pub handle_outcome : Outcome Err A → (A → Action S B) → (Err → Action S B) → Action S B
  handle_outcome (ok a) f g s = f a s
  handle_outcome (err e) f g s = g e s
  handle_outcome panic f g s = (panic, s)
  handle_outcome blocked f g s = (blocked, s)

  -- `a, err := m; if err != nil { g } f`
  unfoldable pub handle : Action S A → (A → Action S B) → (Err → Action S B) → Action S B
  handle m f g s = let (r, s') = m s in handle_outcome r f g s'

  infixl 5 ◌>>=◌ ◌>>◌
  -- Opening this opens the primitives above too.
  unfoldable pub ◌>>=◌ : Action S A → (A → Action S B) → Action S B
  unfolding pure fail crash hang gets or_fail deref wrap handle
  ◌>>=◌ m f s = let (r, s') = m s in handle_outcome r f fail s'

  abbrev pub ◌>>◌ : Action S A → Action S B → Action S B
  m >> k = m >>= λ _. k

module _ {S : Type 0} where
  unfoldable pub modify : (S → S) → Action S (Unit {0})
  modify f s = (ok tt, f s)

  unfoldable pub fail_if : Bool → Err → Action S (Unit {0})
  fail_if true e s = (err e, s)
  fail_if false e s = (ok tt, s)

  -- `_ = m`: an error is dropped.
  unfoldable pub ignore : {A : Type 0} → Action S A → Action S (Unit {0})
  unfolding pure handle
  ignore m = handle m (λ _. pure tt) (λ _. pure tt)
