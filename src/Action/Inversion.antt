-- ===== src/Action/Inversion.antt =====
-- What a call that succeeded tells of its parts.
use atomic_swap.Base.{Bytes, Bool, true, false, Option, none, some, ◌≡◌, ◌≢◌, refl, ap}
use atomic_swap.Base.Outcome.{Outcome, ok, err, panic, blocked}
use atomic_swap.Errors.{Err}
use atomic_swap.Action.Keeps.{Keeps}
use atomic_swap.Action.{
  Action, pure, fail, gets, or_fail, deref, wrap, wrap_outcome, handle_outcome, ◌>>=◌, ◌>>◌,
  fail_if,
}

module _ {S A B : Type 0} where
  outcome_ok :
      (r : Outcome Err A) (f : A → Action S B) (s' : S) (b : B)
      → (handle_outcome r f fail s').0 ≡ ok b
      → (a : A) × (r ≡ ok a) × ((f a s').0 ≡ ok b)
  unfolding fail
  outcome_ok (ok a) f s' b h = (a, refl, h)
  outcome_ok (err e) f s' b h = cc
  outcome_ok panic f s' b h = cc
  outcome_ok blocked f s' b h = cc

  -- If a chain succeeds, its first call succeeds and the rest succeeds from the state after it.
  pub >>=-ok :
      (m : Action S A) (f : A → Action S B) (s : S) {b : B}
      → ((m >>= f) s).0 ≡ ok b
      → (a : A) × ((m s).0 ≡ ok a) × ((f a (m s).1).0 ≡ ok b)
  unfolding ◌>>=◌
  >>=-ok m f s {b} h = outcome_ok (m s).0 f (m s).1 b h

wrap_outcome-ok :
    {A : Type 0} (t : Bytes) (r : Outcome Err A) (a : A) → wrap_outcome t r ≡ ok a → r ≡ ok a
wrap_outcome-ok t (ok b) a h = h
wrap_outcome-ok t (err e) a h = cc
wrap_outcome-ok t panic a h = cc
wrap_outcome-ok t blocked a h = cc

module _ {S A : Type 0} where
  pub wrap-ok :
      (t : Bytes) (m : Action S A) (s : S) {a : A} → (wrap t m s).0 ≡ ok a → (m s).0 ≡ ok a
  unfolding wrap
  wrap-ok t m s {a} h = wrap_outcome-ok t (m s).0 a h

  pub or_fail-ok : (o : Option A) (e : Err) (s : S) {a : A} → (or_fail o e s).0 ≡ ok a → o ≡ some a
  unfolding or_fail
  or_fail-ok none e s h = cc
  or_fail-ok (some b) e s h = cc

module _ {S : Type 0} where
  pub fail_if-ok :
      (b : Bool) (e : Err) (s : S) {u : Unit {0}} → (fail_if b e s).0 ≡ ok u → b ≡ false
  unfolding fail_if
  fail_if-ok true e s h = cc
  fail_if-ok false e s h = refl

module _ {S A : Type 0} where
  pub past_fail_if :
      (b : Bool) (e : Err) (m : Action S A) (s : S) {a : A}
      → ((fail_if b e >> m) s).0 ≡ ok a
      → (b ≡ false) × ((m s).0 ≡ ok a)
  unfolding ◌>>=◌ fail_if
  past_fail_if true e m s h = cc
  past_fail_if false e m s h = (refl, h)

  pub deref-ok : (o : Option A) (s : S) {a : A} → (deref o s).0 ≡ ok a → o ≡ some a
  unfolding deref
  deref-ok none s h = cc
  deref-ok (some b) s h = cc

module _ {S A B : Type 0} where
  -- A chain whose first call is known goes on from there.
  pub >>=-known :
      (m : Action S A) (f : A → Action S B) (s s' : S) (a : A)
      → m s ≡ (ok a, s')
      → (m >>= f) s ≡ f a s'
  unfolding ◌>>=◌
  >>=-known m f s s' a e = rw e refl

  -- What follows from the rest of a chain that succeeds.
  pub passed :
      {Q : Type 0} (m : Action S A) (f : A → Action S B) (s : S) {b : B}
      → ((m >>= f) s).0 ≡ ok b
      → ((a : A) (s' : S) → (m s).0 ≡ ok a → (f a s').0 ≡ ok b → Q)
      → Q
  passed m f s e next = let (a, e1, e2) = >>=-ok m f s e in next a (m s).1 e1 e2

  -- The same with an invariant of the first call.
  pub stepped :
      {P : S → Type 0} {Q : Type 0} (m : Action S A) (f : A → Action S B) (s : S) {b : B}
      → Keeps P m
      → P s
      → ((m >>= f) s).0 ≡ ok b
      → ((a : A) (s' : S) → (m s).0 ≡ ok a → P s' → (f a s').0 ≡ ok b → Q)
      → Q
  stepped m f s keep h e next =
      let (a, e1, e2) = >>=-ok m f s e in next a (m s).1 e1 (keep.kept s h) e2

  went_on :
      (P : S → Type 0) (r : Outcome Err A) (f : A → Action S B) (s : S)
      → P s
      → ¬ P (handle_outcome r f fail s).1
      → (a : A) × (r ≡ ok a) × (¬ P (f a s).1)
  unfolding fail
  went_on P (ok a) f s h d = (a, refl, d)
  went_on P (err x) f s h d = absurd (d h)
  went_on P panic f s h d = absurd (d h)
  went_on P blocked f s h d = absurd (d h)

  -- If the first call of a chain keeps what the chain does not keep, then it succeeded, and
  -- the rest does not keep it.
  pub reached :
      {P : S → Type 0} (m : Action S A) (f : A → Action S B) (s : S)
      → Keeps P m
      → P s
      → ¬ P ((m >>= f) s).1
      → (a : A) × ((m s).0 ≡ ok a) × (¬ P (f a (m s).1).1)
  unfolding ◌>>=◌
  reached {P = P} m f s keep h d = went_on P (m s).0 f (m s).1 (keep.kept s h) d

  field_known :
      (o : Option A) (k : A → Action S B) (s : S) {b : B}
      → ((deref o >>= k) s).0 ≡ ok b
      → (a : A) × (o ≡ some a) × ((k a s).0 ≡ ok b)
  unfolding ◌>>=◌ deref
  field_known none k s h = cc
  field_known (some a) k s h = (a, refl, h)

  -- A chain that begins with the dereference of a field, and succeeds, goes on with what is there.
  pub field-ok :
      (f : S → Option A) (k : A → Action S B) (s : S) {b : B}
      → ((gets f >>= λ o. deref o >>= k) s).0 ≡ ok b
      → (a : A) × (f s ≡ some a) × ((k a s).0 ≡ ok b)
  unfolding ◌>>=◌ gets
  field-ok f k s h = field_known (f s) k s h

module _ {S A B : Type 0} where
  outcome_whole :
      {Q : Type 0} (f : A → Action S B) (s s' : S) (r : Outcome Err A) (m : Action S A) {b : B}
      {t : S}
      → m s ≡ (r, s')
      → handle_outcome r f fail s' ≡ (ok b, t)
      → ((a : A) (s' : S) → m s ≡ (ok a, s') → f a s' ≡ (ok b, t) → Q)
      → Q
  unfolding fail
  outcome_whole f s s' (ok a) m k h next = next a s' k h
  outcome_whole f s s' (err e) m k h next = cc (ap (λ x. x.0) h)
  outcome_whole f s s' panic m k h next = cc (ap (λ x. x.0) h)
  outcome_whole f s s' blocked m k h next = cc (ap (λ x. x.0) h)

  -- The same as `passed`, with the states.
  pub chained :
      {Q : Type 0} (m : Action S A) (f : A → Action S B) (s : S) {b : B} {t : S}
      → (m >>= f) s ≡ (ok b, t)
      → ((a : A) (s' : S) → m s ≡ (ok a, s') → f a s' ≡ (ok b, t) → Q)
      → Q
  unfolding ◌>>=◌
  chained m f s h next = outcome_whole f s (m s).1 (m s).0 m refl h next

  -- The same with an invariant of the first call.
  pub followed :
      {P : S → Type 0} {Q : Type 0} (m : Action S A) (f : A → Action S B) (s : S) {b : B} {t : S}
      → Keeps P m
      → P s
      → (m >>= f) s ≡ (ok b, t)
      → ((a : A) (s' : S) → m s ≡ (ok a, s') → P s' → f a s' ≡ (ok b, t) → Q)
      → Q
  followed m f s keep h e next =
      chained m f s e (λ a s' e1 e2. next a s' e1 (rw (← ap (λ z. z.1) e1) (keep.kept s h)) e2)

  -- If the first call of a chain never succeeds where the invariant holds, then the chain keeps it.
  pub Keeps-stop :
      {P : S → Type 0} (m : Action S A) (f : A → Action S B)
      → Keeps P m
      → ((s : S) (a : A) → P s → (m s).0 ≢ ok a)
      → Keeps P (m >>= f)
  unfolding ◌>>=◌ fail
  Keeps-stop {P = P} m f keep never = record {
    kept = λ s h. stopped (m s).0 (m s).1 (λ a. never s a h) (keep.kept s h);
  }
    where
      stopped :
          (r : Outcome Err A) (s' : S)
          → ((a : A) → r ≢ ok a)
          → P s'
          → P (handle_outcome r f fail s').1
      stopped (ok a) s' n k = absurd (n a refl)
      stopped (err e) s' n k = k
      stopped panic s' n k = k
      stopped blocked s' n k = k

paired : {S A : Type 0} (r : Outcome Err A × S) (a : A) → r.0 ≡ ok a → r ≡ (ok a, r.1)
paired (x, t) a e = rw e refl

-- A call whose result is known, with its state.
pub with_state :
    {S A : Type 0} (m : Action S A) (s : S) {a : A} → (m s).0 ≡ ok a → m s ≡ (ok a, (m s).1)
with_state m s {a} e = paired (m s) a e

wrap_whole :
    {S A : Type 0} (t : Bytes) (r : Outcome Err A) (s s' : S) (a : A)
    → let x : Outcome Err A × S = (wrap_outcome t r, s) in
      let y : Outcome Err A × S = (r, s) in x ≡ (ok a, s') → y ≡ (ok a, s')
wrap_whole t (ok b) s s' a e = e
wrap_whole t (err x) s s' a e = cc (ap (λ z. z.0) e)
wrap_whole t panic s s' a e = cc (ap (λ z. z.0) e)
wrap_whole t blocked s s' a e = cc (ap (λ z. z.0) e)

pub ok-injective : {E A : Type 0} {a b : A} → let x : Outcome E A = ok a in x ≡ ok b → a ≡ b
ok-injective h = cc

-- What a part that succeeded tells, with its states.
module _ {S : Type 0} where
  pub wrap-state :
      {A : Type 0} (t : Bytes) (m : Action S A) (s : S) {s' : S} {a : A}
      → wrap t m s ≡ (ok a, s')
      → m s ≡ (ok a, s')
  unfolding wrap
  wrap-state t m s {s'} {a} e = wrap_whole t (m s).0 (m s).1 s' a e

  pub fail_if-state :
      (b : Bool) (x : Err) (s : S) {t : S} {u : Unit {0}}
      → fail_if b x s ≡ (ok u, t)
      → (b ≡ false) × (s ≡ t)
  unfolding fail_if
  fail_if-state true x s e = cc (ap (λ z. z.0) e)
  fail_if-state false x s e = (refl, ap (λ z. z.1) e)

  pub or_fail-state :
      {A : Type 0} (o : Option A) (x : Err) (s : S) {t : S} {a : A}
      → or_fail o x s ≡ (ok a, t)
      → (o ≡ some a) × (s ≡ t)
  unfolding or_fail
  or_fail-state none x s e = cc (ap (λ z. z.0) e)
  or_fail-state (some b) x s e = (ap some (ok-injective (ap (λ z. z.0) e)), ap (λ z. z.1) e)

  pub deref-state :
      {A : Type 0} (o : Option A) (s : S) {t : S} {a : A}
      → deref o s ≡ (ok a, t)
      → (o ≡ some a) × (s ≡ t)
  unfolding deref
  deref-state none s e = cc (ap (λ z. z.0) e)
  deref-state (some b) s e = (ap some (ok-injective (ap (λ z. z.0) e)), ap (λ z. z.1) e)

  pub pure-state :
      {A : Type 0} (a : A) (s : S) {t : S} {b : A} → pure a s ≡ (ok b, t) → (a ≡ b) × (s ≡ t)
  unfolding pure
  pure-state a s e = (ok-injective (ap (λ z. z.0) e), ap (λ z. z.1) e)
