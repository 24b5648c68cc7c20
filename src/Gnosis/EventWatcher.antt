-- ===== src/Gnosis/EventWatcher.antt =====
-- backend/src/gnosis/event-watcher.ts, `processNewWithdrawals` and `_createWithdrawalOrder`: burns become
-- withdrawals, and the watermark moves past a block only when its burns are recorded. `get_logs` and
-- the current block are the Gnosis node, `fails` tells where the database throws.
use wbob_bridge.Prelude.{
  ℕ, zero, suc, ◌+◌, ◌-◌, Bool, true, false, ◌&&◌, ◌||◌, Option, none, some, List, [], ◌∷◌, ◌++◌,
  ◌==◌, ltb, leb, if◌then◌else◌, min,
}
use wbob_bridge.Prelude.Text.{Text}
use wbob_bridge.Prelude.Tables.{any_row}
use wbob_bridge.Shared.Result.{Result, ok, err}
use wbob_bridge.Shared.Outbound.{OutboundState, burn_tx_seen, withdraw_request_created}
use wbob_bridge.Gnosis.Destination.{sanitize_dobbscoin_destination}

-- A WithdrawalRequested log. The logs that are asked for are mined, so block, index and hash are there.
pub record EventLog : Type 0 where
  pub block_number : ℕ
  pub log_index : ℕ
  pub transaction_hash : ℕ
  pub withdrawal_id : ℕ
  pub sender : ℕ
  pub amount : ℕ
  pub dobbscoin_address : Text
  pub nonce : ℕ

pub record OutboundOrder : Type 0 where
  pub id : ℕ
  pub state : OutboundState
  pub user_gnosis_address : ℕ
  pub user_dobbscoin_address : Text
  pub amount_sat : ℕ

pub record WithdrawalRow : Type 0 where
  pub order_id : ℕ
  pub withdrawal_id : ℕ
  pub sender_address : ℕ
  pub dobbscoin_address : Text
  pub amount_sat : ℕ
  pub user_nonce : ℕ
  pub burn_tx_hash : ℕ
  pub burn_block_number : ℕ

-- An ORDER_CREATED row of audit_events.
pub record OrderCreated : Type 0 where
  pub order_id : ℕ
  pub from_state : OutboundState
  pub to_state : OutboundState
  pub withdrawal_id : ℕ
  pub burn_tx_hash : ℕ
  pub burn_block_number : ℕ
  pub invalid_destination : Bool

-- The keys gnosis_scan_halt_… of bridge_state, without the error's text.
pub record ScanHalt : Type 0 where
  pub block : ℕ
  pub count : ℕ
  pub withdrawal_id : ℕ

-- `gnosis_last_block` is the watermark.
pub record WatchDb : Type 0 where
  pub bridge_orders : List OutboundOrder
  pub withdrawal_requests : List WithdrawalRow
  pub audit_events : List OrderCreated
  pub gnosis_last_block : ℕ
  pub scan_halt : Option ScanHalt
  pub next_order_id : ℕ

-- Where the database may throw, with the withdrawal or the block that it is about.
pub data WatchWrite : Type 0 where
  creating saving halting clearing : WatchWrite

abbrev pub requests_withdrawal : ℕ → WithdrawalRow → Bool
requests_withdrawal id w = w.withdrawal_id == id

abbrev pub order_for : EventLog → ℕ → OutboundOrder
order_for e id = record {
  id = id;
  state = burn_tx_seen;
  user_gnosis_address = e.sender;
  user_dobbscoin_address = (sanitize_dobbscoin_destination (some e.dobbscoin_address)).value;
  amount_sat = e.amount;
}

abbrev pub request_for : EventLog → ℕ → WithdrawalRow
request_for e id = record {
  order_id = id;
  withdrawal_id = e.withdrawal_id;
  sender_address = e.sender;
  dobbscoin_address = (sanitize_dobbscoin_destination (some e.dobbscoin_address)).value;
  amount_sat = e.amount;
  user_nonce = e.nonce;
  burn_tx_hash = e.transaction_hash;
  burn_block_number = e.block_number;
}

abbrev pub created_for : EventLog → ℕ → OrderCreated
created_for e id = record {
  order_id = id;
  from_state = withdraw_request_created;
  to_state = burn_tx_seen;
  withdrawal_id = e.withdrawal_id;
  burn_tx_hash = e.transaction_hash;
  burn_block_number = e.block_number;
  invalid_destination = (sanitize_dobbscoin_destination (some e.dobbscoin_address)).invalid;
}

-- The three inserts of `_createWithdrawalOrder`.
abbrev pub insert_withdrawal : EventLog → WatchDb → WatchDb
insert_withdrawal e db = record db {
  bridge_orders = db.bridge_orders ++ order_for e db.next_order_id ∷ [];
  withdrawal_requests = db.withdrawal_requests ++ request_for e db.next_order_id ∷ [];
  audit_events = db.audit_events ++ created_for e db.next_order_id ∷ [];
  next_order_id = db.next_order_id + 1;
}

-- `_createWithdrawalOrder`; the flag says that it did not throw.
unfoldable pub create_withdrawal_order :
    (WatchWrite → ℕ → Bool) → EventLog → WatchDb → WatchDb × Bool
create_withdrawal_order fails e db =
    if fails creating e.withdrawal_id
    then (db, false)
    else if any_row (requests_withdrawal e.withdrawal_id) db.withdrawal_requests
    then (db, true)
    else (insert_withdrawal e db, true)

-- The comparison of the defensive sort: by block, then by index.
abbrev pub is_before : EventLog → EventLog → Bool
is_before a b =
    ltb a.block_number b.block_number
    || ((a.block_number == b.block_number) && ltb a.log_index b.log_index)

unfoldable pub insert_log : EventLog → List EventLog → List EventLog
insert_log x [] = x ∷ []
insert_log x (y ∷ ys) = if is_before y x then y ∷ insert_log x ys else x ∷ y ∷ ys

unfoldable pub sort_logs : List EventLog → List EventLog
unfolding insert_log
sort_logs [] = []
sort_logs (x ∷ xs) = insert_log x (sort_logs xs)

-- The loop over the logs of a window, up to the first that fails.
unfoldable pub ingest_logs :
    (WatchWrite → ℕ → Bool) → List EventLog → WatchDb → WatchDb × Option EventLog
unfolding create_withdrawal_order
ingest_logs fails [] db = (db, none)
ingest_logs fails (e ∷ es) db =
    let (db', returned) = create_withdrawal_order fails e db in
    elim returned [ false ↦ (db', some e) | true ↦ ingest_logs fails es db' ]

-- The count of a halt at a block, given the one before.
abbrev pub halt_count : ℕ → Option ScanHalt → ℕ
halt_count block none = 1
halt_count block (some h) = if h.block == block then h.count + 1 else 1

abbrev pub set_last_block : ℕ → WatchDb → WatchDb
set_last_block block db = record db { gnosis_last_block = block }

-- `_recordScanHalt`.
abbrev pub record_scan_halt : EventLog → WatchDb → WatchDb
record_scan_halt e db = record db {
  scan_halt = some (record {
    block = e.block_number;
    count = halt_count e.block_number db.scan_halt;
    withdrawal_id = e.withdrawal_id;
  });
}

-- The catch: the watermark moves up to the block before the failed one, and never back.
unfoldable pub halt_at : (WatchWrite → ℕ → Bool) → ℕ → EventLog → WatchDb → WatchDb × Bool
halt_at fails from_block e db =
    if fails halting e.block_number
    then (db, false)
    else if leb (from_block + 1) e.block_number
    then (if fails saving (e.block_number - 1)
        then (record_scan_halt e db, false)
        else (set_last_block (e.block_number - 1) (record_scan_halt e db), true))
    else (record_scan_halt e db, true)

-- `_clearScanHalt`.
unfoldable pub clear_scan_halt : (WatchWrite → ℕ → Bool) → WatchDb → WatchDb × Bool
clear_scan_halt fails db =
    if fails clearing 0 then (db, false) else (record db { scan_halt = none }, true)

module _ {ℓ} {E : Type ℓ} (get_logs : ℕ → ℕ → Result E (List EventLog)) (chunk : ℕ)
    (fails : WatchWrite → ℕ → Bool) where
  abbrev pub window_end : ℕ → ℕ → ℕ
  window_end safe_tip start = min (start + chunk - 1) safe_tip

  -- The loop over the windows. A window has a block at least where `chunk` is positive, and then
  -- `fuel` above the number of blocks left is enough.
  unfoldable pub scan_windows : ℕ → ℕ → ℕ → ℕ → WatchDb → WatchDb × Bool
  unfolding ingest_logs sort_logs halt_at clear_scan_halt
  scan_windows zero from_block safe_tip start db = (db, false)
  scan_windows (suc fuel) from_block safe_tip start db =
      let end = window_end safe_tip start in
      let later = λ (d : WatchDb). scan_windows fuel from_block safe_tip (end + 1) d in
      elim (ltb safe_tip start) [
        | true ↦ clear_scan_halt fails db
        | false ↦ elim (get_logs start end) [
          | err e ↦ (db, false)
          | ok logs ↦
              let (db', failed) = ingest_logs fails (sort_logs logs) db in
              elim failed [
                | some e ↦ halt_at fails from_block e db'
                | none ↦ elim (fails saving end) [
                  | true ↦ (db', false)
                  | false ↦ later (set_last_block end db')
                ]
              ]
        ]
      ]

  -- `processNewWithdrawals`. Below the confirmation depth there is nothing to scan.
  unfoldable pub process_new_withdrawals : ℕ → ℕ → WatchDb → WatchDb × Bool
  unfolding scan_windows
  process_new_withdrawals current_block confirmation_depth db =
      let from_block = db.gnosis_last_block + 1 in
      let safe_tip = current_block - confirmation_depth in
      if ltb safe_tip from_block
      then (db, true)
      else scan_windows (safe_tip + 2) from_block safe_tip from_block db
