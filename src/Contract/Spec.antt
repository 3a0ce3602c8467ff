-- ===== src/Contract/Spec.antt =====
-- What SwapFactory.sol promises: an abstract machine of swaps, in which every swap goes from absent
-- over pending, perhaps ready, to settled, and the ether goes to whose turn it is.
use atomic_swap.Base.{
  ℕ, ◌+◌, ◌*◌, ◌≤◌, ◌<◌, ◌≡◌, true, Option, none, some, List, [], ◌∷◌, ◌==◌, lookup, if◌then◌else◌,
}
use atomic_swap.Contract.{Contract, Swap, Msg, Log, new, ready, claimed, refunded, mul_verify}

-- What a swap is about, which never changes.
pub record Terms : Type 0 where
  pub owner : ℕ
  pub claimer : ℕ
  pub pub_key_claim : ℕ
  pub pub_key_refund : ℕ
  pub timeout_0 : ℕ
  pub timeout_1 : ℕ
  pub value : ℕ

pub data Phase : Type 0 where
  absent : Phase
  pending : Terms → Phase
  is_set_ready : Terms → Phase
  settled : Terms → Phase

-- `paid` lists the payments, newest first.
pub record Machine : Type 0 where
  pub phase : ℕ → Phase
  pub paid : List (ℕ × ℕ)

abbrev pub update : ℕ → Phase → (ℕ → Phase) → ℕ → Phase
update id x f j = if id == j then x else f j

abbrev pub terms_of : Swap → Terms
terms_of s = record {
  owner = s.owner;
  claimer = s.claimer;
  pub_key_claim = s.pub_key_claim;
  pub_key_refund = s.pub_key_refund;
  timeout_0 = s.timeout_0;
  timeout_1 = s.timeout_1;
  value = s.value;
}

abbrev pub phase_of : Option Swap → Phase
phase_of none = absent
phase_of (some s) =
    if s.completed
    then settled (terms_of s)
    else (if s.is_ready then is_set_ready (terms_of s) else pending (terms_of s))

-- The abstract view of the contract: it forgets the order of the mapping, the counter, the balance
-- and the logs.
abbrev pub view : Contract → Machine
view c = record { phase = λ id. phase_of (lookup id c.swaps); paid = c.paid }

-- The window of the claimer: from the first timeout, or from when the swap is ready, to the second.
pub data CanClaim (now : ℕ) : Phase → Terms → Type 0 where
  after_timeout : (t : Terms) → t.timeout_0 ≤ now → now < t.timeout_1 → CanClaim now (pending t) t
  when_ready : (t : Terms) → now < t.timeout_1 → CanClaim now (is_set_ready t) t

-- The window of the owner: before the first timeout if the swap is not ready, and from the second.
pub data CanRefund (now : ℕ) : Phase → Terms → Type 0 where
  before_timeout : (t : Terms) → now < t.timeout_0 → CanRefund now (pending t) t
  pending_late : (t : Terms) → t.timeout_1 ≤ now → CanRefund now (pending t) t
  ready_late : (t : Terms) → t.timeout_1 ≤ now → CanRefund now (is_set_ready t) t

module _ (ecrecover : ℕ → ℕ → ℕ → ℕ → ℕ) where
  -- A step of the machine, with what is logged of it.
  pub data Step (msg : Msg) (m : Machine) : Log → Machine → Type 0 where
    begin :
        (id duration : ℕ) (t : Terms)
        → m.phase id ≡ absent
        → t.owner ≡ msg.sender
        → t.value ≡ msg.value
        → t.timeout_0 ≡ msg.timestamp + duration
        → t.timeout_1 ≡ msg.timestamp + duration * 2
        → Step msg m
            (new id t.pub_key_claim t.pub_key_refund)
            (record m { phase = update id (pending t) m.phase })
    say_ready :
        (id : ℕ) (t : Terms)
        → m.phase id ≡ pending t
        → t.owner ≡ msg.sender
        → Step msg m (ready id) (record m { phase = update id (is_set_ready t) m.phase })
    claim :
        (id s : ℕ) (t : Terms)
        → CanClaim msg.timestamp (m.phase id) t
        → t.claimer ≡ msg.sender
        → mul_verify ecrecover s t.pub_key_claim ≡ true
        → Step msg m
            (claimed id s)
            (record { phase = update id (settled t) m.phase; paid = (t.claimer, t.value) ∷ m.paid })
    refund :
        (id s : ℕ) (t : Terms)
        → CanRefund msg.timestamp (m.phase id) t
        → t.owner ≡ msg.sender
        → mul_verify ecrecover s t.pub_key_refund ≡ true
        → Step msg m
            (refunded id s)
            (record { phase = update id (settled t) m.phase; paid = (t.owner, t.value) ∷ m.paid })

  abbrev pub initial : Machine
  initial = record { phase = λ id. absent; paid = [] }

  -- The machine is in this state after steps that logged this, newest first.
  pub data Reach : List Log → Machine → Type 0 where
    start : Reach [] initial
    next :
        {logs : List Log} {m m' : Machine} {l : Log} (msg : Msg)
        → Reach logs m
        → Step msg m l m'
        → Reach (l ∷ logs) m'
