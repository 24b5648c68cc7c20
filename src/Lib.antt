-- ===== src/Lib.antt =====
-- The wBOB bridge: Dobbscoin deposits become wBOB on Gnosis, burned wBOB becomes Dobbscoin payouts.
--
-- The backend keeps each order in Postgres, moves it along a state machine (shared/), sizes and
-- submits mints, and builds the Dobbscoin transactions that pay withdrawals and refunds. The watchers
-- follow the Dobbscoin chain, record deposits and their confirmations in the same tables, and sign
-- mint authorizations. The parts meet in the tables and in the state machine.
--
-- Files:
--   Prelude            names, tests, lists, texts and tables that the other files share
--   Shared             shared/src: order states, transition tables (Inbound, Outbound) and walks
--                      through them (InboundPaths, OutboundPaths); Result is a call that may throw
--   Engine             backend/src/state-machine/engine.ts: FSMEngine's transitions as functions of the
--                      tables; Engine/Journal relates the audit rows to the stored states
--   Capacity           backend/src/executor/mint-capacity.ts: the daily cap window, the split of a
--                      deposit and the reservations, each with its laws below Capacity/
--   TxBuilder          backend/src/dobbscoin/tx-builder.ts: fee estimate, coin selection, refund plan and
--                      payout. `sign` is _signAndSerialize: its bytes and its txid are a parameter, so
--                      keys and scripts are not modelled. RawTx is txInputsFromRawHex on the bytes of a
--                      transaction; RawTxLaws writes the legacy serialization out. The Sorting, Selection,
--                      FirstPaying, Refunds and Payouts files below TxBuilder/ prove its laws
--   Deposits           watcher/src/deposits: Confirmations (confirmation-tracker.ts), Matching
--                      (address-watcher.ts), and block-handler.ts over the Tables: Ingest is passes A and
--                      A2 of handleBlock, Advance is pass B and handleOrphan, Handler is handleBlock.
--                      Targets, Finality, Progress, Replay, Entered and Entry prove their laws.
--                      Parameters: `deposit_id_of` (computeDepositId), `commits` and `fails` (which
--                      transactions the database refuses) and `tx_status` (the watcher's own node)
--   Chain              watcher/src/chain: ReorgDetector's window and computeDiff; Chain/Poller is
--                      BlockPoller's advanceTo, poll and catchUp. Fork and Replay prove their laws.
--                      Parameters: `fetch_header` and `best_hash` (the node), `takes_block` and
--                      `takes_orphan` (whether a handler returns). The walk of computeDiff runs on fuel; an
--                      honest node's heights fall by one at each step, so two more than the
--                      new tip's height is enough
--   Gnosis             backend/src/gnosis: Destination (destination.ts), BurnVerifier (burn-verifier.ts),
--                      and EventWatcher, BurnConfirm and Recount (event-watcher.ts). Backing is about the
--                      verdict on a burn, Watermark, LogOrder, Scan and Reach about the scan, RecountLaws
--                      about the recount. `read` is the Gnosis client: a hash's receipt, with its
--                      events already decoded, or the message of its error; `get_logs` answers a range
--                      of blocks with its events. Scan and recount run on fuel of two more than their
--                      last block, which is enough since each window has a block at least
--   Payout             backend/src/executor/payout-executor.ts over the Tables: Node classifies what the
--                      node answers (also backend/src/dobbscoin/rpc.ts), Checks, Signing and Queue are
--                      processQueued, Broadcast is broadcastSigned, Confirm is confirmBroadcast and poll.
--                      Coins and Release are about the coins, Evidence and Signatures about what a
--                      signature rests on, Moves, SigningMoves, BroadcastMoves and PollMoves about the
--                      states of the orders, Completion about their end. Parameters: `node` (its answers
--                      to the four calls, the same throughout one poll), `txid_of` (txidFromRawHex, a
--                      hash), `verify` (the burn verifier), `sign` and `change_address_of` (the wallet),
--                      `fails` (which transactions the database refuses) and `now`
--   Refund             backend/src/executor/refund-executor.ts over the tables of Payout/Tables: Sender is
--                      dobbscoin/sender.ts (SenderLaws its law), Signing is signQueued and buildRefundTx,
--                      Sending is broadcastSigned and confirmBroadcast, Poll the other jobs and poll. Steps,
--                      SigningMoves, SendingMoves and PollMoves are about the statuses, Amounts about what a
--                      refund pays. Parameters beyond those of Payout: `get_verbose` (the node),
--                      `p2pkh_address` (hash160ToP2PKH), `bridge_addresses` (the addresses in the tables)
--                      and `is_network` (which of the signer's errors are an unreachable node)
--   NodeCheck          watcher/src/signing/node-check.ts: the check before a mint is signed.
--                      `deposit_id_of` (computeDepositId) is a parameter and may throw
--   Monitor            backend/src/monitor/checks.ts: the checks and the alerts they raise, without their
--                      texts
--
-- Conventions. An id, an address or a hash that the code only compares is a number; a string whose
-- spelling matters is a list of character codes (Prelude/Text). A bigint or number that cannot be
-- negative is a native ℕ, and a difference whose sign is tested is an integer (Prelude/Int). A throw
-- is the error case of a result. A database table is a list of rows, and a transaction is a function
-- of the tables that runs as one step, since the code locks the rows that it reads.
-- A text that is absent or empty, which the code treats alike, is `none`.
-- Every loop but the walk in Chain and the scans in Gnosis goes over a list or counts a bound down.
--
-- Not modelled: logging, timers, alerts and their delivery, process start-up, HTTP and RPC transport,
-- the schema beyond the columns named in the records, cryptography, the mint executor, the
-- API's routes and the portal's pages.
pub mod Prelude
pub mod Shared
pub mod Engine
pub mod Capacity
pub mod TxBuilder
pub mod Deposits
pub mod Chain
pub mod NodeCheck
pub mod Monitor
pub mod Gnosis
pub mod Refund
pub mod Payout
