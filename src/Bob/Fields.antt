-- ===== src/Bob/Fields.antt =====
-- Fields of Bob's swap state that calls leave alone (protocol/bob).
use atomic_swap.Base.{Bytes, Option, List, [], ◌∷◌, ◌≡◌, ◌∙◌}
use atomic_swap.Action.{modify}
use atomic_swap.Action.Keeps.{Keeps, keeps, Keeps-fail}
use atomic_swap.Message.{SendKeysMessage}
use atomic_swap.World.{Platform, History, Io, EthLog}
use atomic_swap.World.Logs.{get_secret_from_log-Keeps}
use atomic_swap.Crypto.Keys.{PrivateSpendKey}
use atomic_swap.Bob.{Config, State, io}
use atomic_swap.Bob.Settle.{reclaim_by_keys, reclaim_monero}
use atomic_swap.Bob.Handler.{accept_keys, reclaim_from, handle_refund}

-- A field has a value.
pub record Holds {p : Platform} {X : Type 0} (f : State p → X) (x : X) (s : State p) : Type 0 where
  pub held : f s ≡ x

module _ (p : Platform) (cfg : Config) {X : Type 0} (f : State p → X) (x : X)
    (apart : (s : State p) (h : History) → f (record s { history = h }) ≡ f s) where
  pub Holds-io : {A : Type 0} (m : Io A) → Keeps (Holds f x) (io p m)
  unfolding io
  Holds-io m = record { kept = λ s h. record { held = apart s _ ∙ h.held } }

  pub Holds-set :
      (g : State p → State p) → ((s : State p) → f (g s) ≡ f s) → Keeps (Holds f x) (modify g)
  unfolding modify
  Holds-set g e = record { kept = λ s h. record { held = e s ∙ h.held } }

  reclaim_monero-Holds :
      (sk : PrivateSpendKey p.curve) → Keeps (Holds f x) (reclaim_monero p cfg sk)
  unfolding reclaim_monero reclaim_by_keys
  reclaim_monero-Holds sk = search (keeps, Holds-io) depth 40 fits 3000

  reclaim_from-Holds : (logs : List EthLog) → Keeps (Holds f x) (reclaim_from p cfg logs)
  unfolding reclaim_from
  reclaim_from-Holds [] = Keeps-fail _
  reclaim_from-Holds (log ∷ logs) =
      search (keeps, get_secret_from_log-Keeps, reclaim_monero-Holds) depth 20 fits 3000

  -- Reclaiming the monero changes no field but the calls made.
  pub handle_refund-Holds : (tx : Bytes) → Keeps (Holds f x) (handle_refund p cfg tx)
  unfolding handle_refund
  handle_refund-Holds tx = search (keeps, Holds-io, reclaim_from-Holds) depth 20 fits 3000

  -- Taking in Alice's keys changes no other field.
  pub accept_keys-Holds :
      ((s : State p) (a : Option _) (b : Option _)
        → f (record s { alice_public_keys = a; alice_secp256k1_public_key = b }) ≡ f s)
      → (msg : SendKeysMessage p.float.Carrier) → Keeps (Holds f x) (accept_keys p cfg msg)
  unfolding accept_keys
  accept_keys-Holds e msg = search (keeps, Holds-io, Holds-set) depth 40 fits 3000
