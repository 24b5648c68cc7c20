-- ===== src/Refund/Examples.antt =====
-- Runs and instances for the refunds.
use wbob_bridge.Prelude.{ℕ, ◌≡◌, refl, Bool, true, false, none, some, List, [], ◌∷◌, ◌==◌}
use wbob_bridge.Prelude.Text.{Text, codes, text_eq, has_text, to_lower_case}
use wbob_bridge.Prelude.Tables.{select_one}
use wbob_bridge.Shared.Result.{Result, ok}
use wbob_bridge.TxBuilder.{
  UtxoInput, TxOutputSpec, TxError, SignedTx, OutPoint, estimate_fee, plan_refund, refund_order,
  take_until, settle_refund, sort_largest,
}
use wbob_bridge.Deposits.Matching.{after_prefix, after_hex}
use wbob_bridge.Refund.Rows.{RefundStatus, RefundRow, queued, confirmed, refund_is}
use wbob_bridge.Refund.Sender.{
  RpcOutput, RpcVerboseTx, resolved, unresolved, from_coinbase, hash160_of, hash160_to_p2pkh,
  from_hex, check_script, check_outpoint, resolve_sender, detail_of, detect_deposit_sender,
}
use wbob_bridge.Refund.SenderLaws.{IsSender, resolve_sender-IsSender}
use wbob_bridge.Refund.Signing.{
  RefundWrite, BuildRefundResult, build_refund_tx, reserve_refund_inputs, commit_refund, sign_one,
  sign_refunds, sign_queued,
}
use wbob_bridge.Refund.Sending.{
  sent_as, ingest_refund_change, commit_sent, send_refund, send_refunds, broadcast_refunds,
  sort_signed, insert_signed, confirm_refund, watch_refund, watch_refunds, confirm_refunds,
}
use wbob_bridge.Refund.Poll.{
  announce_all, announce_splits, resolve_all, resolve_senders, poll_refunds,
}
use wbob_bridge.Refund.Steps.{RefundWalk}
use wbob_bridge.Refund.PollMoves.{poll_refunds-Steps}
use wbob_bridge.Refund.Amounts.{Refunds, build_refund_tx-Refunds}
use wbob_bridge.Payout.Node.{Node, get_confirmations, RpcError}
use wbob_bridge.Payout.Tables.{Db, available}
use wbob_bridge.Payout.Signing.{next_change_index}

-- What the encoding below makes of the sender's hash.
abbrev sender_text : Text
sender_text = 56 ∷ 1 ∷ []

-- The sender's output, 40 hex digits in its script.
abbrev sender_output : RpcOutput
sender_output = record {
  n = 1;
  script = record {
    hex = codes "76a9140123456789abcdef0123456789abcdef0123456788ac";
    script_type = codes "pubkeyhash";
    addresses = some (sender_text ∷ []);
    address = none;
  };
}

abbrev deposit_tx : RpcVerboseTx
deposit_tx = record {
  txid = some 600;
  vin = record { coinbase = false; txid = some 599; vout = some 1 } ∷ [];
  vout = [];
}

abbrev prev_tx : RpcVerboseTx
prev_tx = record { txid = some 599; vin = []; vout = sender_output ∷ [] }

-- An encoding that shows the version byte and the hash's first byte.
abbrev encode : List ℕ → Text
encode [] = []
encode (version ∷ []) = []
encode (version ∷ b ∷ bs) = version ∷ b ∷ []

abbrev sender_address : Text → Text
sender_address = hash160_to_p2pkh encode 56

abbrev ours : List Text
ours = codes "8bridge" ∷ []

sender_is_found :
    resolve_sender sender_address ours deposit_tx (some prev_tx)
    ≡ resolved (sender_text) (detail_of deposit_tx (some (codes "pubkeyhash")))
unfolding resolve_sender check_outpoint check_script hash160_to_p2pkh from_hex hash160_of
    to_lower_case after_prefix after_hex text_eq has_text
sender_is_found = refl

mined_coins_have_no_sender :
    resolve_sender sender_address ours
      (record deposit_tx { vin = record { coinbase = true; txid = none; vout = none } ∷ [] })
      none
    ≡ unresolved from_coinbase (record {
      input_count = 1;
      prev_txid = none;
      prev_vout = none;
      script_type = none;
      multi_input = false;
    })
unfolding resolve_sender
mined_coins_have_no_sender = refl

resolve_sender-IsSender_example :
    IsSender sender_address ours deposit_tx (some prev_tx) (sender_text)
resolve_sender-IsSender_example =
    resolve_sender-IsSender sender_address ours deposit_tx (some prev_tx) (sender_text)
      (detail_of deposit_tx (some (codes "pubkeyhash"))) sender_is_found

-- A signer that accepts everything.
abbrev signer : List UtxoInput → List TxOutputSpec → Result TxError SignedTx
signer inputs outputs = ok (record { raw_hex = 1 ∷ 2 ∷ 3 ∷ []; txid = 3 })

abbrev deposit_coin : UtxoInput
deposit_coin = record { txid = 600; vout = 0; amount_sat = 90000; hd_index = 7; is_change = false }

abbrev deposit_point : OutPoint
deposit_point = record { txid = 600; vout = 0 }

-- 20000 over the cap, at 2 sat a byte.
abbrev built : BuildRefundResult
built = record {
  raw_hex = 1 ∷ 2 ∷ 3 ∷ [];
  txid = 3;
  input_amount_sat = 90000;
  fee_sat = 452;
  change_sat = 70000;
  inputs = deposit_coin ∷ [];
  recipient_sat = 19548;
  bridge_fee_sat = 0;
}

refund_is_built :
    build_refund_tx signer
      (deposit_coin ∷ [])
      20000
      (sender_text)
      (codes "8change")
      2
      (some deposit_point)
    ≡ ok built
unfolding build_refund_tx plan_refund refund_order take_until settle_refund estimate_fee
    sort_largest
refund_is_built = refl

build_refund_tx-Refunds_example : Refunds signer 20000 (sender_text) 2 built
build_refund_tx-Refunds_example =
    build_refund_tx-Refunds signer (deposit_coin ∷ []) 20000 (sender_text) (codes "8change") 2
      (some deposit_point) built refund_is_built

abbrev refund : RefundRow
refund = record {
  id = 40;
  order_id = 10;
  deposit_txid = 600;
  deposit_vout = 0;
  excess_sat = 20000;
  refund_address = none;
  status = queued;
  split_alerted = false;
  amount_sat = none;
  fee_sat = none;
  bridge_fee_sat = none;
  signed_hex = none;
  txid = none;
  change_sat = none;
  change_address = none;
  change_index = none;
  signed_at = 0;
  confirmations = 0;
}

-- The deposit's coin, and a refund of a part of it.
abbrev bank : Db
bank = record {
  bridge_orders = [];
  withdrawal_requests = [];
  payouts = [];
  bridge_utxos =
      record {
        order_id = 10;
        txid = 600;
        vout = 0;
        amount_sat = 90000;
        address = codes "8dep";
        hd_index = 7;
        is_change = false;
        status = available;
        spent_payout_id = none;
        spent_refund_id = none;
      }
      ∷ [];
  audit_events = [];
  deposit_refunds = refund ∷ [];
  refund_events = [];
  next_audit_id = 1;
  next_payout_id = 1;
}

abbrev healthy : RefundWrite → ℕ → Bool
healthy write refund_id = false

abbrev lookup : ℕ → Result RpcError RpcVerboseTx
lookup txid = elim (txid == 600) [ true ↦ ok deposit_tx | false ↦ ok prev_tx ]

-- A node that mines what it is sent at once.
abbrev miner : Node
miner = record {
  send_raw_transaction = λ hex. ok 3;
  get_raw_transaction = λ txid. ok 3;
  get_raw_mempool = ok [];
  get_tx_out = λ txid vout. ok true;
}

abbrev after_poll : Db
after_poll =
    poll_refunds healthy sender_address ours lookup miner signer (λ code. true)
      (λ index. codes "8change") 2 800 true bank

abbrev status_of : ℕ → Db → List RefundStatus
status_of i db = elim (select_one (refund_is i) db.deposit_refunds) [
  | none ↦ []
  | some r ↦ r.status ∷ []
]

one_poll_refunds : status_of 40 after_poll ≡ confirmed ∷ []
unfolding poll_refunds resolve_senders resolve_all detect_deposit_sender resolve_sender
    check_outpoint check_script hash160_to_p2pkh from_hex hash160_of to_lower_case after_prefix
    after_hex text_eq has_text announce_splits announce_all sign_queued sign_refunds sign_one
    next_change_index build_refund_tx plan_refund refund_order take_until settle_refund estimate_fee
    sort_largest commit_refund reserve_refund_inputs broadcast_refunds sort_signed insert_signed
    send_refunds send_refund sent_as commit_sent ingest_refund_change confirm_refunds watch_refunds
    watch_refund get_confirmations confirm_refund
one_poll_refunds = refl

poll_refunds-Steps_example :
    (r' : RefundRow) × ((select_one (refund_is 40) after_poll.deposit_refunds ≡ some r')
      × RefundWalk queued r'.status)
poll_refunds-Steps_example =
    poll_refunds-Steps healthy sender_address ours lookup miner signer (λ code. true)
      (λ index. codes "8change") 2 800 true bank 40 refund refl
