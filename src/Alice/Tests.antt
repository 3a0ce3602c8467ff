-- ===== src/Alice/Tests.antt =====
-- A toy platform, on which keys and points are numbers, and Alice's operations on it.
use atomic_swap.Base.{
  length, ℕ, true, false, Option, none, some, [], ◌∷◌, ◌≡◌, ◌≢◌, refl, codes, replicate, bytes_eq,
}
use atomic_swap.Base.Outcome.{ok, blocked}
use atomic_swap.World.Toy.{curve, float}
use atomic_swap.Types.Environment.{development}
use atomic_swap.Types.Status.{expecting_keys, is_ongoing}
use atomic_swap.Types.Provides.{provides_eth}
use atomic_swap.Manager.{Manager, new_manager, new_info, add_swap, status_of}
use atomic_swap.Action.{◌>>=◌, fail_if, modify}
use atomic_swap.Crypto.Keys.{
  PrivateKeyPair, PublicKeyPair, PrivateSpendKey, public_key_pair, new_private_key_pair,
  sum_private_spend_keys, sum_private_view_keys, new_public_key_pair, sum_public_keys, public_view,
  private_hex,
}
use atomic_swap.Crypto.Hex.{encode_to_string}
use atomic_swap.Crypto.BigInt.{set_bytes}
use atomic_swap.Crypto.Base58.{
  encode_monero_base58, encode_rounds, encode_chunk, digits_loop, pad, character, or_zero,
}
use atomic_swap.Protocol.{get_status}
use atomic_swap.Message.{byte, Message, NotifyXmrLock, notify_xmr_lock_type}
use atomic_swap.World.{Platform, value, ask}
use atomic_swap.World.Ethereum.{wait_for_receipt, receipt_loop}
use atomic_swap.World.Monero.{create_monero_wallet}
use atomic_swap.World.Calls.{count, set_ready_kind}
use atomic_swap.Crypto.Address.{address, address_bytes, private_address}
use atomic_swap.Alice.{
  Config, State, io, expect, set_next_expected_message, clear_next_expected_message,
}
use atomic_swap.Alice.Chain.{ready, set_timeouts, timeouts_loop, refund_call, get_secret}
use atomic_swap.Alice.Settle.{claim_monero, exit}
use atomic_swap.Alice.Handler.{
  info_of, locked_balance, find_balance, close_xmr_locked, await_blocks, shared_keys,
  handle_notify_xmr_lock, check_locked_xmr, handle_protocol_message,
}
use atomic_swap.Alice.Watch.{t1_fires}
use atomic_swap.Alice.Guards.{IsLocked, set_ready_guarded}
use atomic_swap.Alice.Exits.{IsLeft, exit_leaves}
use atomic_swap.Alice.Deadlock.{t1_fires_stuck}
use atomic_swap.Alice.Start.{Instance, new_swap_state, initiate}
use atomic_swap.Alice.Started.{attempts, start_blocks}
use atomic_swap.Alice.Address.{claim_monero_address}

abbrev keys : PublicKeyPair curve
keys = record { sk = 7; vk = 9 }

abbrev platform : Platform
platform = record {
  float = float;
  curve = curve;
  unpack = λ e b. none;
  parse_new = λ b. none;
  hex_to_address = λ b. b;
  decompress_pubkey = λ b. none;
  hash_of = λ o. replicate 32 7;
  expected_code = [];
  balance_at_answer = λ h. value 100;
  code_at_answer = λ h. value [];
  receipt_answer = λ h. value [];
  filter_logs_answer = λ h. value [];
  transact_answer = λ h. value (codes "tx");
  is_ready_answer = λ h. value true;
  swaps_answer =
      λ h. value (record { timeout_0 = 10; timeout_1 = 20; is_ready = false; value = 3 });
  get_accounts_answer = λ h. value (some (address curve keys development) ∷ []);
  get_height_answer = λ h. value 1;
  get_address_answer = λ h. value [];
  get_balance_answer = λ h. value (record { balance = 50; unlocked_balance = 50 });
  transfer_answer = λ h. value [];
  sweep_all_answer = λ h. value [];
  done_answer = λ h. value tt;
  dleq_prove_answer = λ h. value ([], []);
  dleq_verify_answer = λ h. value ([], []);
  received_statuses = length;
  stream_is_free = λ h. true;
  clock = λ h. 5;
}

abbrev config : Config
config = record {
  env = development;
  transfer_back = false;
  wallet_address = [];
  contract = some (codes "contract");
  swap_timeout = 10;
  patience = 3;
}

abbrev manager : Manager ℕ
manager = (add_swap 0 (new_info provides_eth 3 40 1 expecting_keys 0 new_manager).1).1

abbrev ours : PrivateKeyPair curve
ours = record { sk = record { seed = []; key = 3 }; vk = 4 }

abbrev bob_key : PrivateSpendKey curve
bob_key = record { seed = []; key = 4 }

-- Alice has locked her ether, and Bob's keys are known.
abbrev swap_state : State platform
swap_state = record {
  history = [];
  locked = false;
  cancelled = false;
  current = true;
  manager = manager;
  info = 0;
  status_ch = none;
  dleq_proof = some (record { secret = replicate 32 1; proof = [] });
  secp256k1_pub = none;
  privkeys = some ours;
  pubkeys = some (record { sk = 3; vk = 4 });
  bob_public_spend_key = some 4;
  bob_private_view_key = some 5;
  bob_secp256k1_public_key = none;
  bob_address = [];
  contract_swap_id = some 0;
  t0 = some 10;
  t1 = some 20;
  tx_value = none;
  next_expected = some notify_xmr_lock_type;
  xmr_locked_ch = false;
  claimed_ch = false;
  t0_watch = true;
  t1_watch = false;
}

abbrev lock_message : NotifyXmrLock
lock_message = record { address = address curve keys development }

-- Here Alice says that she is ready.
set_ready_made :
    count set_ready_kind (handle_notify_xmr_lock platform config lock_message swap_state).1.history
    ≡ 1
unfolding count handle_notify_xmr_lock check_locked_xmr shared_keys info_of locked_balance
    find_balance close_xmr_locked ready set_timeouts timeouts_loop set_next_expected_message expect
    byte get_status ◌>>=◌ fail_if modify io ask wait_for_receipt receipt_loop address address_bytes
    encode_monero_base58 encode_rounds encode_chunk digits_loop pad character or_zero set_bytes
    bytes_eq new_public_key_pair sum_public_keys public_view sum_private_view_keys add_swap new_info
    new_manager is_ongoing private_hex encode_to_string await_blocks
set_ready_made = refl

set_ready_changed :
    count set_ready_kind (handle_notify_xmr_lock platform config lock_message swap_state).1.history
    ≢ count set_ready_kind []
unfolding count
set_ready_changed h = cc (set_ready_made)

set_ready_guarded_example : IsLocked platform config lock_message swap_state
set_ready_guarded_example =
    set_ready_guarded platform config lock_message swap_state set_ready_changed

exit_leaves_example :
    ((exit platform config swap_state).0 ≢ blocked)
    × IsLeft platform config (exit platform config swap_state).1
exit_leaves_example = exit_leaves platform config swap_state refl refl

t1_fires_stuck_example :
    ((t1_fires platform config swap_state).0 ≡ blocked)
    × ((t1_fires platform config swap_state).1.locked ≡ true)
    × ((msg : Option (Message ℕ))
        → (handle_protocol_message platform config msg (t1_fires platform config swap_state).1).0
          ≡ blocked)
unfolding is_ongoing status_of add_swap new_info new_manager ◌>>=◌ fail_if io ask refund_call
    get_secret wait_for_receipt receipt_loop clear_next_expected_message
t1_fires_stuck_example = t1_fires_stuck platform config swap_state (codes "tx") refl refl refl

claim_monero_address_example :
    (k : ℕ × PublicKeyPair curve) × ((shared_keys platform config swap_state).0 ≡ ok k)
    × (address curve k.1 development ≡ address curve keys development)
unfolding is_ongoing status_of add_swap new_info new_manager ◌>>=◌ fail_if io ask public_key_pair
    claim_monero create_monero_wallet address private_address new_private_key_pair
    sum_private_spend_keys sum_private_view_keys
claim_monero_address_example =
    claim_monero_address platform config swap_state ours bob_key 5 (address curve keys development)
      (λ a b. refl) refl refl refl refl refl

abbrev idle : Instance platform config
idle = record { history = []; running = false; manager = new_manager }

start_blocks_example :
    let after =
      attempts platform config ((3, 40, 1) ∷ []) (new_swap_state platform config 3 40 1 idle).1 in
    (after.manager.ongoing ≡ some 0)
    × ((wei : ℕ) (received rate : ℕ) (st : State platform)
        → (initiate platform config wei received rate after).0 ≢ ok st)
unfolding new_manager
start_blocks_example = start_blocks platform config 3 40 1 idle ((3, 40, 1) ∷ []) refl refl
