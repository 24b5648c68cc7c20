-- ===== src/Payout/Examples.antt =====
-- Runs and instances for the payouts.
use wbob_bridge.Prelude.{
  ℕ, ◌<◌, ◌≡◌, refl, ◌⊎◌, Bool, true, false, none, some, List, [], ◌∷◌, arith, length,
}
use wbob_bridge.Prelude.Int.{negsuc}
use wbob_bridge.Prelude.Text.{
  Text, codes, text_eq, starts_with, to_lower_case, contains, contains_word, contains_any,
}
use wbob_bridge.Shared.Result.{Result, ok, err}
use wbob_bridge.Shared.Outbound.{
  OutboundState, payout_queued, payout_signed, payout_broadcast, completed, can_transition_outbound,
}
use wbob_bridge.TxBuilder.{
  UtxoInput, TxOutputSpec, TxError, SignedTx, estimate_fee, select_utxos, finish_payout,
  build_payout_tx,
}
use wbob_bridge.TxBuilder.RawTx.{RawTx}
use wbob_bridge.Gnosis.Destination.{is_unpayable_destination}
use wbob_bridge.Gnosis.BurnVerifier.{BurnClaim, BurnVerdict, backed}
use wbob_bridge.Payout.Node.{
  Node, rpc_call_error, sendrawtransaction, getrawtransaction, get_confirmations, node_has,
  is_safe_rejection, is_unsafe_hint, is_definite_rejection,
}
use wbob_bridge.Payout.Tables.{
  WithdrawalRequest, BridgeUtxo, Db, Write, available, reserved, transition_generic,
}
use wbob_bridge.Payout.Checks.{
  QueuedPayoutRow, queued_row, queued_rows_of, unpayable_reason, signed_for, check_earlier,
  check_unpaid, check_burn,
}
use wbob_bridge.Payout.Signing.{
  next_change_index, reserve_inputs, payout_row, record_signature, commit_signature,
  build_and_sign_payout,
}
use wbob_bridge.Payout.Queue.{
  retry_of, check_resign, check_signable, sign_row, queue_row, queue_rows, process_queued,
}
use wbob_bridge.Payout.Broadcast.{
  SignedPayoutRow, signed_rows_of, history_of, record_refusal, ingest_change, commit_in_state,
  commit_broadcast, park_and_release, after_refusal, after_failure, send_row, broadcast_row,
  broadcast_rows, broadcast_signed,
}
use wbob_bridge.Payout.Confirm.{
  BroadcastPayoutRow, PollState, insert_by_time, broadcast_rows_of, confirm_payout, confirm_row,
  confirm_rows, confirm_broadcast, poll_payouts,
}
use wbob_bridge.Payout.Release.{DbKeepsTaken, FreedOnRefusal, broadcast_row-Freed}
use wbob_bridge.Payout.Signatures.{signatures, IsJustified, queue_row-IsJustified}
use wbob_bridge.Payout.Moves.{WalkTo, state_in}
use wbob_bridge.Payout.Completion.{IsConfirmed, confirm_row_completes-IsConfirmed}
use wbob_bridge.Payout.PollMoves.{poll_payouts-Walks}

-- A fee that is too low was not relayed; a double spend may have been.
low_fee_is_definite :
    is_definite_rejection
      (rpc_call_error sendrawtransaction (negsuc 25) (codes "66: Min relay fee not met"))
    ≡ true
unfolding is_definite_rejection is_safe_rejection is_unsafe_hint to_lower_case contains
    contains_word contains_any
low_fee_is_definite = refl

spent_inputs_are_not_definite :
    is_definite_rejection
      (rpc_call_error sendrawtransaction (negsuc 25) (codes "bad-txns-inputs-spent"))
    ≡ false
unfolding is_definite_rejection is_safe_rejection is_unsafe_hint to_lower_case contains
    contains_word contains_any
spent_inputs_are_not_definite = refl

abbrev healthy : Write → ℕ → Bool
healthy write order_id = false

abbrev txid_of : RawTx → ℕ
txid_of hex = length hex

abbrev change_address_of : ℕ → Text
change_address_of index = codes "8change"

-- A signer that accepts everything.
abbrev signer : List UtxoInput → List TxOutputSpec → Result TxError SignedTx
signer inputs outputs = ok (record { raw_hex = 1 ∷ 2 ∷ 3 ∷ []; txid = 3 })

abbrev trusting : BurnClaim → BurnVerdict
trusting claim = backed

-- A node that mines what it is sent at once.
abbrev miner : Node
miner = record {
  send_raw_transaction = λ hex. ok 3;
  get_raw_transaction = λ txid. ok 3;
  get_raw_mempool = ok [];
  get_tx_out = λ txid vout. ok true;
}

-- A node that decodes nothing and knows nothing.
abbrev refusing_node : Node
refusing_node = record {
  send_raw_transaction = λ hex. err (rpc_call_error sendrawtransaction (negsuc 21) []);
  get_raw_transaction = λ txid. err (rpc_call_error getrawtransaction (negsuc 4) []);
  get_raw_mempool = ok [];
  get_tx_out = λ txid vout. ok true;
}

abbrev withdrawal : WithdrawalRequest
withdrawal = record {
  id = 20;
  order_id = 10;
  withdrawal_id = 4;
  burn_tx_hash = some (codes "0xab");
  sender_address = 60;
  amount_sat = 5000;
  dobbscoin_address = codes "8abc";
}

abbrev coin : BridgeUtxo
coin = record {
  order_id = 1;
  txid = 500;
  vout = 0;
  amount_sat = 90000;
  address = codes "8dep";
  hd_index = 7;
  is_change = false;
  status = available;
  spent_payout_id = none;
  spent_refund_id = none;
}

-- One queued withdrawal and one coin to pay it from.
abbrev bank : Db
bank = record {
  bridge_orders =
      record {
        id = 10;
        state = payout_queued;
        user_dobbscoin_address = codes "8abc";
        amount_sat = 5000;
      }
      ∷ [];
  withdrawal_requests = withdrawal ∷ [];
  payouts = [];
  bridge_utxos = coin ∷ [];
  audit_events = [];
  deposit_refunds = [];
  refund_events = [];
  next_audit_id = 1;
  next_payout_id = 30;
}

abbrev queued : QueuedPayoutRow
queued = record {
  order_id = 10;
  dobbscoin_address = codes "8abc";
  amount_sat = 5000;
  payout_id = none;
  payout_txid = none;
  held_utxos = 0;
  spent_utxos = 0;
  withdrawal = some withdrawal;
  same_burn_rows = 0;
}

queued_is_read : queued_rows_of bank bank.bridge_orders ≡ queued ∷ []
unfolding queued_rows_of queued_row
queued_is_read = refl

abbrev after_queued : Db × Bool
after_queued =
    queue_row refusing_node txid_of trusting signer change_address_of 2 1000 healthy queued bank

one_signature : signatures after_queued.0 ≡ 1
unfolding queue_row unpayable_reason is_unpayable_destination starts_with retry_of sign_row
    check_signable check_resign check_unpaid signed_for check_earlier check_burn text_eq
    build_and_sign_payout next_change_index build_payout_tx select_utxos estimate_fee finish_payout
    commit_signature payout_row record_signature reserve_inputs
one_signature = refl

more_signatures : (a b : ℕ) → a ≡ 0 → b ≡ 1 → a < b
more_signatures a b e f = omega arith

queue_row-IsJustified_example :
    IsJustified refusing_node txid_of trusting signer change_address_of 2 1000 healthy queued bank
queue_row-IsJustified_example =
    queue_row-IsJustified refusing_node txid_of trusting signer change_address_of 2 1000 healthy
      queued bank (more_signatures (signatures bank) (signatures after_queued.0) refl one_signature)

abbrev start : PollState
start = record { db = bank; resend_state = [] }

-- With a node that mines at once, one poll takes the order to its end.
one_poll_completes :
    state_in 10
      (poll_payouts miner txid_of healthy 800 trusting signer change_address_of 2 1000
        start).0.db.bridge_orders
    ≡ some completed
unfolding poll_payouts process_queued queue_rows queued_rows_of queued_row queue_row
    unpayable_reason is_unpayable_destination starts_with retry_of sign_row check_signable
    check_resign check_unpaid signed_for check_earlier check_burn text_eq build_and_sign_payout
    next_change_index build_payout_tx select_utxos estimate_fee finish_payout commit_signature
    payout_row record_signature reserve_inputs broadcast_signed signed_rows_of broadcast_rows
    broadcast_row history_of send_row commit_broadcast commit_in_state ingest_change
    confirm_broadcast broadcast_rows_of insert_by_time confirm_rows confirm_row get_confirmations
    confirm_payout transition_generic can_transition_outbound
one_poll_completes = refl

poll_payouts-Walks_example :
    (to : OutboundState) × ((state_in 10
          (poll_payouts miner txid_of healthy 800 trusting signer change_address_of 2 1000
            start).0.db.bridge_orders
        ≡ some to)
      × WalkTo payout_queued to)
poll_payouts-Walks_example =
    poll_payouts-Walks miner txid_of healthy 800 trusting signer change_address_of 2 1000 start 10
      payout_queued refl

-- The same order, signed, with its coin held.
abbrev signed_bank : Db
signed_bank = record bank {
  bridge_orders =
      record {
        id = 10;
        state = payout_signed;
        user_dobbscoin_address = codes "8abc";
        amount_sat = 5000;
      }
      ∷ [];
  bridge_utxos = record coin { status = reserved; spent_payout_id = some 30 } ∷ [];
}

abbrev signed_row : SignedPayoutRow
signed_row = record {
  order_id = 10;
  payout_id = 30;
  signed_hex = some (1 ∷ 2 ∷ 3 ∷ []);
  change_sat = 0;
  change_address = none;
  change_index = none;
}

first_refusal_frees_the_coin :
    (broadcast_row refusing_node txid_of healthy 800 signed_row signed_bank).bridge_utxos
    ≡ coin ∷ []
unfolding broadcast_row history_of send_row after_failure node_has get_confirmations
    is_definite_rejection record_refusal after_refusal park_and_release
first_refusal_frees_the_coin = refl

broadcast_row-Freed_example :
    DbKeepsTaken signed_bank
      (broadcast_row refusing_node txid_of healthy 800 signed_row signed_bank)
    ⊎ ((hex : RawTx) × ((signed_row.signed_hex ≡ some hex)
          × FreedOnRefusal refusing_node txid_of healthy 800 signed_row
              (history_of 10 30 (txid_of hex) signed_bank)
              hex))
broadcast_row-Freed_example =
    broadcast_row-Freed refusing_node txid_of healthy 800 signed_row signed_bank

-- The same order, sent.
abbrev sent_state : PollState
sent_state = record {
  db = record bank {
    bridge_orders =
        record {
          id = 10;
          state = payout_broadcast;
          user_dobbscoin_address = codes "8abc";
          amount_sat = 5000;
        }
        ∷ [];
  };
  resend_state = [];
}

abbrev sent_row : BroadcastPayoutRow
sent_row = record { order_id = 10; payout_id = 30; txid = 3; broadcast_at = none }

sent_order_completes :
    state_in 10 (confirm_row miner txid_of healthy 800 sent_row sent_state).0.db.bridge_orders
    ≡ some completed
unfolding confirm_row get_confirmations confirm_payout transition_generic can_transition_outbound
sent_order_completes = refl

confirm_row_completes-IsConfirmed_example :
    (state_in 10 sent_state.db.bridge_orders ≡ some completed)
    ⊎ ((sent_row.order_id ≡ 10) × IsConfirmed miner txid_of healthy 800 sent_row)
confirm_row_completes-IsConfirmed_example =
    confirm_row_completes-IsConfirmed miner txid_of healthy 800 sent_row sent_state 10
      sent_order_completes
