-- ===== src/Deposits/Handler.antt =====
-- watcher/src/deposits/block-handler.ts, `handleBlock` as a whole.
use wbob_bridge.Prelude.{ℕ, Bool, Option}
use wbob_bridge.Shared.Result.{Result}
use wbob_bridge.Deposits.Confirmations.{ConfirmationConfig}
use wbob_bridge.Deposits.Matching.{RpcBlock, DepositMatch}
use wbob_bridge.Deposits.Tables.{Store}
use wbob_bridge.Deposits.Ingest.{Commit, record_deposits}
use wbob_bridge.Deposits.Advance.{TxChainStatus, DbFailures, advance_deposits}

-- Passes A and A2 decide the result; pass B then runs over what they left.
unfoldable pub handle_block :
    (ℕ → ℕ → ℕ → ℕ → ℕ → ℕ → ℕ)
    → (DepositMatch → Commit)
    → ConfirmationConfig
    → DbFailures
    → (ℕ → Result (Unit {0}) (Option TxChainStatus))
    → RpcBlock
    → Store
    → Store × Bool
handle_block deposit_id_of commits config fails tx_status block s =
    let (s', complete) = record_deposits deposit_id_of commits block s in
    (advance_deposits config fails tx_status block s', complete)
