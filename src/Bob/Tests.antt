-- ===== src/Bob/Tests.antt =====
-- A toy platform, and Bob's operations on it.
use atomic_swap.Base.{
  arith, ◌-◌, leb, List, length, ℕ, Bytes, true, false, Option, none, some, [], ◌∷◌, ◌≡◌, ◌≢◌, refl,
  codes, replicate, bytes_eq,
}
use atomic_swap.Base.Outcome.{Outcome, err, ok, panic, blocked}
use atomic_swap.Errors.{Err}
use atomic_swap.Action.{◌>>=◌, fail_if, modify}
use atomic_swap.Types.Environment.{development}
use atomic_swap.Types.Status.{Status, expecting_keys, is_ongoing}
use atomic_swap.Types.Provides.{provides_xmr}
use atomic_swap.Types.Offer.{Offer, get_id, hex_to_hash}
use atomic_swap.Manager.{Manager, new_manager, new_info, add_swap, status_of}
use atomic_swap.Crypto.Keys.{PrivateKeyPair, PublicKeyPair, PrivateSpendKey, public_key_pair}
use atomic_swap.Crypto.Address.{address}
use atomic_swap.Crypto.Hex.{encode_to_string}
use atomic_swap.Crypto.Secp256k1.{new_public_key_from_big_int, to_string}
use atomic_swap.Message.{
  Message, SendKeysMessage, NotifyEthLocked, NotifyRefund, send_keys, notify_ready, notify_refund,
  notify_eth_locked_type, notify_ready_type, byte,
}
use atomic_swap.World.{Platform, value, ask, big_int, bytes_32}
use atomic_swap.World.Toy.{hashed_curve as curve, platform}
use atomic_swap.World.Calls.{count, claim_kind, transfer_kind}
use atomic_swap.Bob.{Config, State, is_full}
use atomic_swap.Bob.Offers.{
  remove, find, put_offer, get_and_delete_offer, new_extra, get_and_delete_offer-put_offer,
}
use atomic_swap.Bob.Chain.{lock_funds}
use atomic_swap.Bob.Settle.{exit, reclaim_monero}
use atomic_swap.Bob.Handler.{handle_protocol_message, handle_notify_eth_locked, accept_keys}
use atomic_swap.Bob.Claims.{IsDue, claim_guarded}
use atomic_swap.Bob.Guards.{IsChecked, lock_guarded}
use atomic_swap.Bob.Leave.{IsLeft, exit_leaves_offer}
use atomic_swap.Bob.Address.{reclaim_monero-lock_funds}
use atomic_swap.Bob.Refunded.{keys_after_refund}
use atomic_swap.Bob.Start.{Instance, initiate, handle_initiate_message}
use atomic_swap.Bob.Taken.{take_loses_offer}
use atomic_swap.Bob.Keyless.{attempts, provided, keyless_take_blocks}

abbrev config : Config
config = record { env = development; eth_address = codes "0x01" }

abbrev manager : Manager ℕ
manager = (add_swap 0 (new_info provides_xmr 3 40 1 expecting_keys 0 new_manager).1).1

abbrev offer : Offer ℕ
offer = record {
  id = replicate 32 9;
  provides = provides_xmr;
  minimum_amount = 1;
  maximum_amount = 100;
  exchange_rate = 1;
}

abbrev ours : PrivateKeyPair curve
ours = record { sk = record { seed = []; key = 3 }; vk = 5 }

abbrev alice_keys : PrivateKeyPair curve
alice_keys = record { sk = record { seed = []; key = 4 }; vk = 0 }

-- Bob has both sides' keys and waits for the ether.
abbrev swap_state : State platform
swap_state = record {
  history = [];
  locked = false;
  cancelled = false;
  current = true;
  manager = manager;
  offers = [];
  info = 0;
  offer = some offer;
  status_ch = none;
  dleq_proof = some (record { secret = replicate 32 1; proof = [] });
  secp256k1_pub = some (record { x = []; y = [] });
  privkeys = some ours;
  pubkeys = some (record { sk = 3; vk = 5 });
  contract = some (codes "contract");
  contract_swap_id = some 1;
  t0 = some 10;
  t1 = some 20;
  alice_public_keys = some (record { sk = 4; vk = 0 });
  alice_secp256k1_public_key = some (record { x = []; y = [] });
  next_expected = some notify_eth_locked_type;
  ready_ch = false;
  monero_reclaim_address = [];
  t0_watch = false;
}

sub_self : (n : ℕ) → leb 7 (n - n) ≡ false
sub_self n = ground arith

-- Whoever reads the channel of the toy platform has received all.
has_room : (o : Option (List Status)) → is_full platform o ≡ false
unfolding is_full
has_room none = refl
has_room (some sent) = sub_self (length sent)

exit_leaves_offer_example :
    ((exit platform config swap_state).0 ≢ blocked)
    × IsLeft platform config offer [] (exit platform config swap_state).1
    × ((exit platform config swap_state).1.locked ≡ false)
exit_leaves_offer_example = exit_leaves_offer platform config has_room swap_state offer refl refl

-- The monero is locked, and Alice says that the contract is ready.
abbrev waiting : State platform
waiting = record swap_state { next_expected = some notify_ready_type }

abbrev ready_message : Option (Message ℕ)
ready_message = some (notify_ready (some (record {})))

claim_made :
    count claim_kind (handle_protocol_message platform config ready_message waiting).1.history ≡ 1
unfolding count handle_protocol_message atomic_swap.Bob.with_lock ◌>>=◌ fail_if
    atomic_swap.Bob.check_message_type byte atomic_swap.Message.type_of
    atomic_swap.Bob.Handler.handle_notify_ready modify atomic_swap.Bob.Chain.claim_funds
    atomic_swap.Bob.io ask atomic_swap.Bob.Chain.get_secret
    atomic_swap.World.Ethereum.wait_for_receipt atomic_swap.World.Ethereum.receipt_loop
    atomic_swap.Bob.clear_next_expected_message atomic_swap.World.Ethereum.reverse_bytes add_swap
    new_info new_manager is_ongoing atomic_swap.Manager.set_status is_full
claim_made = refl

claim_changed :
    count claim_kind (handle_protocol_message platform config ready_message waiting).1.history
    ≢ count claim_kind []
unfolding count
claim_changed h = cc (claim_made)

claim_guarded_example : IsDue platform config ready_message waiting
claim_guarded_example = claim_guarded platform config ready_message waiting claim_changed

abbrev locked_message : NotifyEthLocked
locked_message = record { address = codes "0x02"; tx_hash = []; contract_swap_id = some 1 }

transfer_made :
    count transfer_kind
      (handle_notify_eth_locked platform config locked_message swap_state).1.history
    ≡ 1
unfolding count handle_notify_eth_locked ◌>>=◌ atomic_swap.Bob.Handler.check_eth_locked fail_if
    modify atomic_swap.Bob.Chain.check_contract_code atomic_swap.Bob.io ask bytes_eq
    atomic_swap.Bob.Chain.check_contract atomic_swap.World.Ethereum.wait_for_receipt
    atomic_swap.World.Ethereum.receipt_loop atomic_swap.Crypto.Secp256k1.keccak add_swap new_info
    new_manager atomic_swap.Bob.Handler.lock_provided lock_funds
    atomic_swap.Bob.set_next_expected_message atomic_swap.Bob.expect
    atomic_swap.Crypto.Address.address atomic_swap.Crypto.Address.address_bytes
    atomic_swap.Crypto.Base58.character atomic_swap.Crypto.Base58.digits_loop
    atomic_swap.Crypto.Base58.encode_chunk atomic_swap.Crypto.Base58.encode_monero_base58
    atomic_swap.Crypto.Base58.encode_rounds atomic_swap.Crypto.Base58.or_zero
    atomic_swap.Crypto.Base58.pad atomic_swap.Crypto.BigInt.set_bytes
    atomic_swap.Crypto.Keys.sum_public_keys atomic_swap.Crypto.Keys.sum_spend_and_view_keys byte
    atomic_swap.Protocol.get_status atomic_swap.Types.Coins.monero_to_piconero is_ongoing
    atomic_swap.Bob.Chain.set_timeouts atomic_swap.Action.ignore is_full
transfer_made = refl

transfer_changed :
    count transfer_kind
      (handle_notify_eth_locked platform config locked_message swap_state).1.history
    ≢ count transfer_kind []
unfolding count
transfer_changed h = cc (transfer_made)

lock_guarded_example : IsChecked platform config locked_message swap_state
lock_guarded_example = lock_guarded platform config locked_message swap_state transfer_changed

-- The address of both sides' keys.
abbrev shared_address : Bytes
shared_address = address curve (record { sk = 7; vk = 5 }) development

reclaim_monero-lock_funds_example : shared_address ≡ shared_address
unfolding ◌>>=◌ fail_if modify public_key_pair lock_funds atomic_swap.Bob.io ask
    atomic_swap.Bob.Chain.shared_keys atomic_swap.Bob.Chain.await_block reclaim_monero
    atomic_swap.Crypto.Keys.view atomic_swap.Action.ignore
    atomic_swap.Crypto.Keys.sum_spend_and_view_keys atomic_swap.World.Monero.create_monero_wallet
    address atomic_swap.Crypto.Address.private_address atomic_swap.Crypto.Keys.new_private_key_pair
    atomic_swap.Crypto.Keys.sum_private_spend_keys atomic_swap.Crypto.Keys.sum_private_view_keys
reclaim_monero-lock_funds_example =
    reclaim_monero-lock_funds platform config 3 swap_state waiting alice_keys ours shared_address
      shared_address (λ a b. refl) refl refl refl refl refl refl

get_and_delete_offer-put_offer_example :
    let (got, rest) =
      get_and_delete_offer (replicate 32 9) (put_offer (λ o. replicate 32 7) offer []).1 in
    (got ≡ some (record { offer = offer; extra = new_extra })) × (find (replicate 32 9) rest ≡ none)
unfolding get_id bytes_eq find
get_and_delete_offer-put_offer_example =
    get_and_delete_offer-put_offer (λ o. replicate 32 7) offer [] refl

abbrev idle : Instance platform config
idle = record {
  history = [];
  running = false;
  manager = new_manager;
  offers = (replicate 32 9, record { offer = offer; extra = new_extra }) ∷ [];
  announced = [];
}

abbrev keyless : SendKeysMessage ℕ
keyless = record {
  offer_id = encode_to_string (replicate 32 9);
  provided_amount = 3;
  public_spend_key = [];
  public_view_key = [];
  private_view_key = [];
  dleq_proof = [];
  secp256k1_public_key = [];
  eth_address = [];
}

take_loses_offer_example :
    find (replicate 32 9) (handle_initiate_message platform config keyless idle).1.offers ≡ none
unfolding hex_to_hash atomic_swap.Crypto.Hex.decode_string encode_to_string
take_loses_offer_example = take_loses_offer platform config keyless (replicate 32 9) idle refl

abbrev state_of : {A : Type 0} → Outcome Err A → A → A
state_of (ok a) b = a
state_of (err e) b = b
state_of panic b = b
state_of blocked b = b

-- The swap that the take without keys begins.
abbrev keyless_state : State platform
keyless_state =
    state_of
      (initiate platform config offer new_extra
        (atomic_swap.Types.Coins.monero_to_piconero platform.float
          (provided platform config offer keyless))
        (platform.float.ether_to_wei 3) (record idle { offers = [] })).0
      swap_state

keyless_take_blocks_example :
    let (result, after) = handle_initiate_message platform config keyless idle in
    ((r : SendKeysMessage ℕ × State platform) → result ≢ ok r)
    × (after.running ≡ true)
    × ((next : SendKeysMessage ℕ) (r : SendKeysMessage ℕ × State platform)
        → (handle_initiate_message platform config next
            (attempts platform config (keyless ∷ []) after)).0
          ≢ ok r)
unfolding hex_to_hash atomic_swap.Crypto.Hex.decode_string encode_to_string find bytes_eq provided
    initiate ◌>>=◌ fail_if atomic_swap.Types.Offer.to_xmr ask
    atomic_swap.Types.Coins.monero_to_piconero add_swap new_info new_manager is_ongoing modify
    remove
keyless_take_blocks_example =
    keyless_take_blocks platform config keyless (replicate 32 9)
      (record { offer = offer; extra = new_extra }) idle keyless_state (keyless ∷ []) refl refl refl
      refl refl refl

abbrev refund_message : NotifyRefund
refund_message = record { tx_hash = [] }

abbrev keys_message : SendKeysMessage ℕ
keys_message = record keyless {
  public_spend_key = codes "04";
  public_view_key = codes "00";
  secp256k1_public_key = to_string (new_public_key_from_big_int 1 2);
}

keys_after_refund_example :
    (handle_protocol_message platform config
      (some (send_keys (some keys_message)))
      (handle_protocol_message platform config
        (some (notify_refund (some refund_message)))
        swap_state).1).0
    ≡ panic
unfolding handle_protocol_message ◌>>=◌ fail_if atomic_swap.Bob.with_lock
    atomic_swap.Bob.check_message_type atomic_swap.Bob.Handler.handle_refund atomic_swap.Bob.io ask
    atomic_swap.World.Ethereum.get_secret_from_log bytes_eq
    atomic_swap.Crypto.Keys.new_private_spend_key atomic_swap.World.Ethereum.reverse_bytes
    reclaim_monero atomic_swap.Crypto.Keys.view atomic_swap.World.Monero.create_monero_wallet
    atomic_swap.Bob.clear_next_expected_message accept_keys modify
    atomic_swap.Protocol.verify_keys_and_proof atomic_swap.Crypto.Hex.decode_string encode_to_string
    to_string new_public_key_from_big_int atomic_swap.Crypto.BigInt.bytes
    atomic_swap.Crypto.Keys.new_public_key_pair_from_hex
    atomic_swap.Crypto.Secp256k1.new_public_key_from_hex is_full
keys_after_refund_example =
    keys_after_refund platform config refund_message keys_message swap_state refl refl
