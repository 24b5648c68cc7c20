-- ===== src/Deposits/Examples.antt =====
-- Runs and instances for the deposit half of the watcher.
use wbob_bridge.Prelude.{
  ℕ, ◌+◌, ◌≡◌, refl, ◌⊎◌, Bool, false, true, Option, none, some, [], ◌∷◌, arith, All,
}
use wbob_bridge.Shared.Result.{Result, ok}
use wbob_bridge.Shared.Inbound.{
  quote_created, deposit_seen_mempool, deposit_confirmed, deposit_finalized,
}
use wbob_bridge.Deposits.Confirmations.{
  default_confirmation_config, compute_confirmation_transition,
}
use wbob_bridge.Deposits.Matching.{RpcBlock, DepositMatch}
use wbob_bridge.Deposits.Tables.{order_created, DepositOrder, SourceDeposit, TrackedAddress, Store}
use wbob_bridge.Deposits.Ingest.{Commit, committed, auto_ingest, record_deposits}
use wbob_bridge.Deposits.Entered.{Recorded}
use wbob_bridge.Deposits.Entry.{record_deposits-Recorded}
use wbob_bridge.Prelude.Text.{codes, text_eq, to_lower_case}
use wbob_bridge.Deposits.Advance.{
  AdvanceRow, DbFailures, TxChainStatus, confirm_deposit, advance_rows, handle_orphan,
}
use wbob_bridge.Deposits.Handler.{handle_block}
use wbob_bridge.Deposits.Finality.{state_of, SomeVerified, advance_rows_finalize_verified}
use wbob_bridge.Deposits.Progress.{confirm_finalizes}
use wbob_bridge.Deposits.Replay.{IsUnique, Settled, auto_ingest-IsUnique, complete_loses_nothing}

abbrev order : DepositOrder
order = record {
  id = 1;
  is_inbound = true;
  state = deposit_seen_mempool;
  user_gnosis_address = 50;
  amount_sat = some 700;
}

abbrev deposit : SourceDeposit
deposit = record {
  order_id = 1;
  deposit_address = 40;
  hd_index = some 3;
  source_chain_name = 9;
  txid = some 60;
  vout = some 0;
  amount_sat = some 700;
  deposit_id = some 5;
  block_hash = some 10;
  block_height = some 100;
  confirmations = 1;
}

abbrev address : TrackedAddress
address = record {
  recipient_gnosis_address = 50;
  source_chain_name = 9;
  dobbscoin_address = 40;
  hd_index = 3;
}

abbrev tables : Store
tables = record {
  bridge_orders = order ∷ [];
  source_deposits = deposit ∷ [];
  deposit_addresses = address ∷ [];
  audit_events = [];
  next_id = 2;
}

abbrev row : AdvanceRow
row = record {
  order_id = 1;
  state = deposit_seen_mempool;
  block_height = 100;
  block_hash = some 10;
  txid = some 60;
}

abbrev no_failure : DbFailures
no_failure = record { relocating = λ i. false; confirming = λ i. false }

abbrev node : ℕ → Result (Unit {0}) (Option TxChainStatus)
node t = ok (
    some
      (record { confirmations = 8; block_hash = some 10; block_height = some 100; outputs = none }))

-- Five blocks on top make six confirmations, and the order goes through CONFIRMED.
node_advances :
    state_of 1 (advance_rows default_confirmation_config no_failure node 105 (row ∷ []) tables)
    ≡ some deposit_finalized
unfolding advance_rows compute_confirmation_transition
    wbob_bridge.Shared.Inbound.assert_inbound_transition
    wbob_bridge.Shared.Inbound.can_transition_inbound wbob_bridge.Deposits.Tables.update_deposit
node_advances = refl

advance_rows_finalize_verified_example :
    (state_of 1 tables ≡ some deposit_finalized)
    ⊎ SomeVerified default_confirmation_config no_failure node 105 1 (row ∷ [])
advance_rows_finalize_verified_example =
    advance_rows_finalize_verified default_confirmation_config no_failure node 105 (row ∷ []) tables
      1 node_advances

confirm_finalizes_example :
    state_of 1 (confirm_deposit default_confirmation_config no_failure 6 row tables)
    ≡ some deposit_finalized
confirm_finalizes_example =
    confirm_finalizes default_confirmation_config no_failure 6 row tables refl refl refl
      (omega arith) (omega arith)

abbrev hash_of : ℕ → ℕ → ℕ → ℕ → ℕ → ℕ → ℕ
hash_of chain txid vout a amount recipient = txid + vout

abbrev all_commit : DepositMatch → Commit
all_commit m = committed

abbrev block : RpcBlock
block = record { hash = 11; height = 101; txs = [] }

abbrev paid : DepositMatch
paid = record {
  txid = 61;
  vout = 2;
  amount_sat = 900;
  deposit_address = 40;
  block_hash = some 11;
  block_height = some 101;
}

abbrev ingested : Store × Bool
ingested = auto_ingest hash_of all_commit block (address ∷ []) (paid ∷ paid ∷ []) tables true

auto_ingest-IsUnique_example : IsUnique ingested.0.source_deposits
auto_ingest-IsUnique_example =
    auto_ingest-IsUnique hash_of all_commit block (address ∷ []) (paid ∷ paid ∷ []) tables true
      ((λ t v h. refl), tt)

-- A replayed output is not recorded again, and the pass is complete.
ingest_completes : ingested.1 ≡ true
unfolding auto_ingest wbob_bridge.Deposits.Ingest.ingest_new
ingest_completes = refl

complete_loses_nothing_example :
    All (λ (m : DepositMatch). Settled all_commit (address ∷ []) m ingested.0) (paid ∷ paid ∷ [])
complete_loses_nothing_example =
    complete_loses_nothing hash_of all_commit block (address ∷ []) (paid ∷ paid ∷ []) tables
      ingest_completes

-- A block without transactions records nothing and still advances what it buries.
empty_block_completes :
    (handle_block hash_of all_commit default_confirmation_config no_failure node block tables).1
    ≡ true
unfolding handle_block wbob_bridge.Deposits.Ingest.record_deposits
    wbob_bridge.Deposits.Matching.paying_matches
empty_block_completes = refl

-- An orphaned block takes a confirmed deposit back to SEEN_MEMPOOL.
orphan_rolls_back :
    state_of 1 (
      handle_orphan default_confirmation_config no_failure 10
        (record tables { bridge_orders = (record order { state = deposit_confirmed }) ∷ [] }))
    ≡ some deposit_seen_mempool
unfolding handle_orphan wbob_bridge.Deposits.Confirmations.compute_reorg_rollback
orphan_rolls_back = refl

-- A block with an output of 900 satoshis to the tracked address.
abbrev paying_block : RpcBlock
paying_block = record {
  hash = 11;
  height = 101;
  txs =
      record {
        txid = 61;
        vouts =
            record {
              n = 2;
              value_sat = 900;
              script_type = codes "pubkeyhash";
              script_hex = codes "76a914000102030405060708090a0b0c0d0e0f1011121388ac";
              address = some 40;
              addresses = none;
            }
            ∷ [];
      }
      ∷ [];
}

abbrev after_block : Store
after_block = (record_deposits hash_of all_commit paying_block tables).0

record_deposits-Recorded_example : Recorded tables after_block
record_deposits-Recorded_example =
    record_deposits-Recorded hash_of paying_block all_commit tables (omega arith, tt, tt)

-- The new order is logged as created, out of a state that it never was in.
creation_is_logged :
    after_block.audit_events
    ≡ record {
      order_id = 2;
      event_type = order_created;
      from_state = quote_created;
      to_state = deposit_seen_mempool;
    }
      ∷ []
unfolding record_deposits wbob_bridge.Deposits.Ingest.ingest_new
    wbob_bridge.Deposits.Matching.paying_matches wbob_bridge.Deposits.Matching.is_p2pkh_script
    wbob_bridge.Deposits.Matching.output_address text_eq to_lower_case
creation_is_logged = refl
