-- ===== src/Bob/Checks.antt =====
-- What follows for the contract from the checks that Bob makes of it (protocol/bob/swap_state.go and
-- utils.go).
use atomic_swap.Base.{
  ℕ, Bytes, Bool, true, false, not, bytes_eq, bytes_eq_iff, some, List, [], ◌∷◌, ◌≡◌, refl, sym,
  ◌∙◌, ◌≤◌, ltb, ==_iff, get_elem?, arith,
}
use atomic_swap.Base.Outcome.{ok}
use atomic_swap.Action.{fail, ◌>>=◌}
use atomic_swap.Action.Keeps.{Keeps, keeps, Keeps-fail, Keeps-wrap}
use atomic_swap.Action.Inversion.{
  passed, stepped, wrap-ok, or_fail-ok, deref-ok, past_fail_if, fail_if-ok, field-ok,
}
use atomic_swap.Crypto.Secp256k1.{PublicKey, keccak}
use atomic_swap.Manager.{Info}
use atomic_swap.World.{
  Platform, History, Io, value, EthLog, NewEvent, SwapInfo, code_at, swaps, ask, Call, Answer,
}
use atomic_swap.World.Receipts.{Receipt, from_answer-ok, wait_for_receipt-ok}
use atomic_swap.Bob.{Config, State, io}
use atomic_swap.Bob.Chain.{
  slice, slice_from, info_of, swaps_view, compare_code, check_contract_code, first_event,
  check_event, check_value, check_contract,
}

not-false : (b : Bool) → not b ≡ false → b ≡ true
not-false true h = refl
not-false false h = cc

le_of-ltb : (a b : ℕ) → ltb a b ≡ false → b ≤ a
le_of-ltb a b h = ground (arith, h)

module _ (p : Platform) (cfg : Config) where
  -- What stays as it was while the contract is checked.
  pub record Same (s0 s : State p) : Type 0 where
    pub manager : s.manager ≡ s0.manager
    pub info : s.info ≡ s0.info
    pub ours : s.secp256k1_pub ≡ s0.secp256k1_pub
    pub theirs : s.alice_secp256k1_public_key ≡ s0.alice_secp256k1_public_key
    pub swap_id : s.contract_swap_id ≡ s0.contract_swap_id

  pub same : (s : State p) → Same s s
  same s = record { manager = refl; info = refl; ours = refl; theirs = refl; swap_id = refl }

  module _ {s0 : State p} where
    pub Same-io : {A : Type 0} (m : Io A) → Keeps (Same s0) (io p m)
    unfolding io
    Same-io m = record {
      kept = λ s h. record {
        manager = h.manager;
        info = h.info;
        ours = h.ours;
        theirs = h.theirs;
        swap_id = h.swap_id;
      };
    }

    compare_code-Same : (code : Bytes) → Keeps (Same s0) (compare_code p cfg code)
    unfolding compare_code
    compare_code-Same code = search keeps depth 40 fits 3000

    pub check_contract_code-Same : (addr : Bytes) → Keeps (Same s0) (check_contract_code p cfg addr)
    unfolding check_contract_code
    check_contract_code-Same addr = search (keeps, Same-io, compare_code-Same) depth 30 fits 3000

    first_event-Same : (logs : List EthLog) → Keeps (Same s0) (first_event p cfg logs)
    unfolding first_event
    first_event-Same [] = Keeps-fail _
    first_event-Same (log ∷ logs) = search keeps depth 20

    check_event-Same : (event : NewEvent) → Keeps (Same s0) (check_event p cfg event)
    unfolding check_event
    check_event-Same event = search keeps depth 60 fits 5000

    swaps_view-Same : Keeps (Same s0) (swaps_view p cfg)
    unfolding swaps_view
    swaps_view-Same = search (keeps, Same-io) depth 30 fits 3000

  -- The node answered for the code at the contract's address, and it is that of the contract but for
  -- the bytes that the deployment changes.
  pub record HasCode (addr : Bytes) : Type 0 where
    pub code : Bytes
    pub before : History
    pub answered : p.code_at_answer (code_at addr ∷ before) ≡ value code
    pub swap_part : Bytes
    pub lib_part : Bytes
    pub swap_expected : slice 154 3474 p.expected_code ≡ some swap_part
    pub swap_found : slice 0 3320 code ≡ some swap_part
    pub lib_expected : slice 3494 6149 p.expected_code ≡ some lib_part
    pub lib_found : slice_from 3340 code ≡ some lib_part

  equal : (a b : Bytes) → not (bytes_eq a b) ≡ false → a ≡ b
  equal a b h = (bytes_eq_iff a b).0 (not-false _ h)

  ask-ok :
      {A : Type 0} (c : Call) (answer : History → Answer A) (s : State p) {a : A}
      → (io p (ask c answer) s).0 ≡ ok a
      → answer (c ∷ s.history) ≡ value a
  unfolding io ask
  ask-ok c answer s {a} e = from_answer-ok _ a e

  compare_code-ok :
      (code : Bytes) (s : State p) (u : Unit {0})
      → (compare_code p cfg code s).0 ≡ ok u
      → (a : Bytes) × (c : Bytes) × (slice 154 3474 p.expected_code ≡ some a)
        × (slice 0 3320 code ≡ some a)
        × (slice 3494 6149 p.expected_code ≡ some c)
        × (slice_from 3340 code ≡ some c)
  unfolding compare_code
  compare_code-ok code s u e = passed _ _ s e (λ a s1 ka e1. passed _ _ s1 e1 (λ b s2 kb e2.
      let (eq, e3) = past_fail_if _ _ _ s2 e2 in
      passed _ _ s2 e3 (λ c s3 kc e4. passed _ _ s3 e4 (λ d s4 kd e5.
        let eq' = fail_if-ok _ _ s4 e5 in
        (
          a,
          c,
          deref-ok _ s ka,
          rw (equal a b eq) (deref-ok _ s1 kb),
          deref-ok _ s2 kc,
          rw (equal c d eq') (deref-ok _ s3 kd),
        )))))

  pub check_contract_code-ok :
      (addr : Bytes) (s : State p) (u : Unit {0})
      → (check_contract_code p cfg addr s).0 ≡ ok u
      → HasCode addr
  unfolding check_contract_code
  check_contract_code-ok addr s u e =
      passed (io p (ask (code_at addr) p.code_at_answer)) _ s e (λ code s1 k e1.
        let (a, c, e2, e3, e4, e5) = compare_code-ok code s1 u e1 in
        record {
          code = code;
          before = s.history;
          answered = ask-ok _ p.code_at_answer s k;
          swap_part = a;
          lib_part = c;
          swap_expected = e2;
          swap_found = e3;
          lib_expected = e4;
          lib_found = e5;
        })

  -- The keys of the event are those of the swap state: Bob claims with his key, Alice refunds with
  -- hers.
  pub record HasKeys (event : NewEvent) (s : State p) : Type 0 where
    pub ours : PublicKey
    pub theirs : PublicKey
    pub known : s.secp256k1_pub ≡ some ours
    pub sent : s.alice_secp256k1_public_key ≡ some theirs
    pub claim_key : event.claim_key ≡ keccak p.curve.keccak_256 ours
    pub refund_key : event.refund_key ≡ keccak p.curve.keccak_256 theirs
    pub of_swap : s.contract_swap_id ≡ some event.swap_id

  check_event-ok :
      (event : NewEvent) (s : State p) (u : Unit {0})
      → (check_event p cfg event s).0 ≡ ok u
      → HasKeys event s
  unfolding check_event
  check_event-ok event s u e =
      let (id, k1, e1) = field-ok (λ s. s.contract_swap_id) _ s e in
      let (g1, e2) = past_fail_if _ _ _ s e1 in
      let (ours, k2, e3) = field-ok (λ s. s.secp256k1_pub) _ s e2 in
      let (g2, e4) = past_fail_if _ _ _ s e3 in
      let (theirs, k3, e5) = field-ok (λ s. s.alice_secp256k1_public_key) _ s e4 in
      let g3 = fail_if-ok _ _ s e5 in
      record {
        ours = ours;
        theirs = theirs;
        known = k2;
        sent = k3;
        claim_key = equal _ _ g2;
        refund_key = equal _ _ g3;
        of_swap = rw ((==_iff event.swap_id id).0 (not-false _ g1)) k1;
      }

  -- The contract holds for the swap what its info says that Bob receives.
  pub record HasValue (s : State p) : Type 0 where
    pub swap_id : ℕ
    pub swap : SwapInfo
    pub before : History
    pub info : Info p.float.Carrier
    pub of_state : s.contract_swap_id ≡ some swap_id
    pub answered : p.swaps_answer (swaps swap_id ∷ before) ≡ value swap
    pub of_swap : get_elem? s.manager.heap s.info ≡ some info
    pub enough : p.float.ether_to_wei info.received_amount ≤ swap.value

  info_of-ok :
      (s : State p) (info : Info p.float.Carrier)
      → (info_of p cfg s).0 ≡ ok info
      → get_elem? s.manager.heap s.info ≡ some info
  unfolding info_of ◌>>=◌
  info_of-ok s info e = deref-ok (get_elem? s.manager.heap s.info) s e

  swaps_view-ok :
      (s : State p) (swap : SwapInfo)
      → (swaps_view p cfg s).0 ≡ ok swap
      → (id : ℕ) × (before : History) × (s.contract_swap_id ≡ some id)
        × (p.swaps_answer (swaps id ∷ before) ≡ value swap)
  unfolding swaps_view
  swaps_view-ok s swap e =
      let (_, _, e1) = field-ok (λ s. s.contract) _ s e in
      let (id, k, e2) = field-ok (λ s. s.contract_swap_id) _ s e1 in
      (id, s.history, k, ask-ok _ p.swaps_answer s e2)

  check_value-ok : (s : State p) (u : Unit {0}) → (check_value p cfg s).0 ≡ ok u → HasValue s
  unfolding check_value
  check_value-ok s u e =
      stepped {P = Same s} (swaps_view p cfg) _ s swaps_view-Same (same s) e (λ swap s1 k1 h1 e1.
        passed (info_of p cfg) _ s1 e1 (λ info s2 k2 e2.
          let (id, before, k3, k4) = swaps_view-ok s swap k1 in
          record {
            swap_id = id;
            swap = swap;
            before = before;
            info = info;
            of_state = k3;
            answered = k4;
            of_swap = rw (← h1.manager, ← h1.info) (info_of-ok s1 info k2);
            enough = le_of-ltb _ _ (fail_if-ok _ _ s2 e2);
          }))

  pub HasKeys-back :
      {event : NewEvent} {s0 s : State p} → Same s0 s → HasKeys event s → HasKeys event s0
  HasKeys-back h k = record {
    ours = k.ours;
    theirs = k.theirs;
    known = sym h.ours ∙ k.known;
    sent = sym h.theirs ∙ k.sent;
    claim_key = k.claim_key;
    refund_key = k.refund_key;
    of_swap = sym h.swap_id ∙ k.of_swap;
  }

  pub HasValue-back : {s0 s : State p} → Same s0 s → HasValue s → HasValue s0
  HasValue-back h v = record {
    swap_id = v.swap_id;
    swap = v.swap;
    before = v.before;
    info = v.info;
    of_state = sym h.swap_id ∙ v.of_state;
    answered = v.answered;
    of_swap = rw (← h.manager, ← h.info) v.of_swap;
    enough = v.enough;
  }

  io-ok :
      {A : Type 0} (m : Io A) (s : State p) {a : A} → (io p m s).0 ≡ ok a → (m s.history).0 ≡ ok a
  unfolding io
  io-ok m s e = e

  -- What was checked of the contract: the event of the transaction, and the value of the swap.
  pub record IsFunded (tx : Bytes) (s : State p) : Type 0 where
    pub log : EthLog
    pub logs : List EthLog
    pub receipt : Receipt p tx (log ∷ logs)
    pub event : NewEvent
    pub parsed : p.parse_new log.data_bytes ≡ some event
    pub keys : HasKeys event s
    pub value : HasValue s

  first_event-ok :
      (logs : List EthLog) (s : State p) (event : NewEvent)
      → (first_event p cfg logs s).0 ≡ ok event
      → (log : EthLog) × (rest : List EthLog) × (logs ≡ log ∷ rest)
        × (p.parse_new log.data_bytes ≡ some event)
  unfolding first_event fail
  first_event-ok [] s event e = cc
  first_event-ok (log ∷ logs) s event e =
      let (_, _, e1) = field-ok (λ s. s.contract) _ s e in (log, logs, refl, or_fail-ok _ _ s e1)

  pub check_contract-ok :
      (tx : Bytes) (s : State p) (u : Unit {0})
      → (check_contract p cfg tx s).0 ≡ ok u
      → IsFunded tx s
  unfolding check_contract
  check_contract-ok tx s u e =
      stepped {P = Same s} _ _ s (Keeps-wrap _ _ (Same-io _)) (same s) e (λ logs s1 k1 h1 e1.
        stepped {P = Same s} (first_event p cfg logs) _ s1 (first_event-Same logs) h1 e1
          (λ event s2 k2 h2 e2.
            stepped {P = Same s} (check_event p cfg event) _ s2 (check_event-Same event) h2 e2
              (λ v s3 k3 h3 e3.
                let (log, rest, k4, k5) = first_event-ok logs s1 event k2 in
                record {
                  log = log;
                  logs = rest;
                  receipt =
                      rw k4 at
                        (wait_for_receipt-ok p tx s.history logs (io-ok _ s (wrap-ok _ _ s k1)));
                  event = event;
                  parsed = k5;
                  keys = HasKeys-back h2 (check_event-ok event s2 v k3);
                  value = HasValue-back h3 (check_value-ok s3 u e3);
                })))
