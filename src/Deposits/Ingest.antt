-- ===== src/Deposits/Ingest.antt =====
-- watcher/src/deposits/block-handler.ts, passes A and A2: a deposit seen for the first time.
-- `deposit_id_of` is computeDepositId, a hash that only has to be stored; `commits` says how the
-- database took the transaction of a match, which is not for the watcher to decide.
use wbob_bridge.Prelude.{
  ℕ, ◌+◌, Bool, true, false, ◌&&◌, Option, none, some, List, [], ◌∷◌, ◌++◌, ◌==◌, if◌then◌else◌,
  map,
}
use wbob_bridge.Prelude.Tables.{select_one, any_row}
use wbob_bridge.Shared.Inbound.{
  quote_created, deposit_address_assigned, deposit_seen_mempool, same_inbound,
}
use wbob_bridge.Deposits.Matching.{RpcBlock, DepositMatch, paying_matches}
use wbob_bridge.Deposits.Tables.{
  DepositOrder, SourceDeposit, TrackedAddress, Store, state_transition, order_created, order_is,
  move_order, update_deposit,
}

-- How a transaction ended: `duplicate` is a unique violation (23505), `failed` any other error.
pub data Commit : Type 0 where
  committed duplicate failed : Commit

abbrev pub same_option : Option ℕ → ℕ → Bool
same_option none b = false
same_option (some a) b = a == b

abbrev pub is_none : Option ℕ → Bool
is_none none = true
is_none (some a) = false

-- WHERE txid = … AND vout = ….
abbrev pub at_outpoint : ℕ → ℕ → SourceDeposit → Bool
at_outpoint txid vout d = same_option d.txid txid && same_option d.vout vout

abbrev pub is_recorded : ℕ → ℕ → Store → Bool
is_recorded txid vout s = any_row (at_outpoint txid vout) s.source_deposits

-- A row of `pendingFirst`: an inbound order that waits for its first sighting.
pub record PendingFirst : Type 0 where
  pub order_id : ℕ
  pub deposit_address : ℕ
  pub source_chain_name : ℕ
  pub user_gnosis_address : ℕ

abbrev pub waits : DepositOrder → Bool
waits o = o.is_inbound && same_inbound o.state deposit_address_assigned

abbrev pub pending_first : List DepositOrder → List SourceDeposit → List PendingFirst
pending_first orders [] = []
pending_first orders (d ∷ ds) =
    let rest = pending_first orders ds in
    elim (select_one (order_is d.order_id) orders) [
      | none ↦ rest
      | some o ↦
          if waits o && is_none d.txid
          then record {
            order_id = o.id;
            deposit_address = d.deposit_address;
            source_chain_name = d.source_chain_name;
            user_gnosis_address = o.user_gnosis_address;
          }
            ∷ rest
          else rest
    ]

-- A `Map` filled in order: of two rows with one address the later one stays.
abbrev pub last_with {ℓ} : {A : Type ℓ} → (A → Bool) → List A → Option A
last_with p [] = none
last_with p (x ∷ xs) = elim (last_with p xs) [
  | some y ↦ some y
  | none ↦ if p x then some x else none
]

module _ (deposit_id_of : ℕ → ℕ → ℕ → ℕ → ℕ → ℕ → ℕ) where
  -- The columns that a first sighting fills in.
  abbrev pub sighted : RpcBlock → DepositMatch → PendingFirst → SourceDeposit → SourceDeposit
  sighted block m p d = record d {
    txid = some m.txid;
    vout = some m.vout;
    amount_sat = some m.amount_sat;
    deposit_id = some (
        deposit_id_of p.source_chain_name m.txid m.vout m.deposit_address m.amount_sat
          p.user_gnosis_address);
    block_hash = some block.hash;
    block_height = some block.height;
    confirmations = 1;
  }

  -- The transaction of pass A.
  unfoldable pub record_first : RpcBlock → DepositMatch → PendingFirst → Store → Store
  unfolding move_order update_deposit
  record_first block m p s = elim (select_one (order_is p.order_id) s.bridge_orders) [
    | none ↦ s
    | some o ↦
        if same_inbound o.state deposit_address_assigned
        then move_order p.order_id state_transition deposit_address_assigned deposit_seen_mempool
            (update_deposit p.order_id (sighted block m p) s)
        else s
  ]

  -- The transaction of pass A2.
  unfoldable pub ingest_new : RpcBlock → DepositMatch → TrackedAddress → Store → Store
  ingest_new block m a s = if is_recorded m.txid m.vout s then s else record {
    bridge_orders =
        s.bridge_orders
        ++ record {
          id = s.next_id;
          is_inbound = true;
          state = deposit_seen_mempool;
          user_gnosis_address = a.recipient_gnosis_address;
          amount_sat = some m.amount_sat;
        }
          ∷ [];
    source_deposits =
        s.source_deposits
        ++ record {
          order_id = s.next_id;
          deposit_address = m.deposit_address;
          hd_index = some a.hd_index;
          source_chain_name = a.source_chain_name;
          txid = some m.txid;
          vout = some m.vout;
          amount_sat = some m.amount_sat;
          deposit_id = some (
              deposit_id_of a.source_chain_name m.txid m.vout m.deposit_address m.amount_sat
                a.recipient_gnosis_address);
          block_hash = some block.hash;
          block_height = some block.height;
          confirmations = 1;
        }
          ∷ [];
    deposit_addresses = s.deposit_addresses;
    audit_events =
        s.audit_events
        ++ record {
          order_id = s.next_id;
          event_type = order_created;
          from_state = quote_created;
          to_state = deposit_seen_mempool;
        }
          ∷ [];
    next_id = s.next_id + 1;
  }

  module _ (commits : DepositMatch → Commit) where
    -- The loop of pass A. The flag is `complete`.
    unfoldable pub first_sightings :
        RpcBlock → List PendingFirst → List DepositMatch → Store → Bool → Store × Bool
    unfolding record_first
    first_sightings block pending [] s complete = (s, complete)
    first_sightings block pending (m ∷ ms) s complete =
        elim (last_with (λ p. p.deposit_address == m.deposit_address) pending) [
          | none ↦ first_sightings block pending ms s complete
          | some p ↦ elim (commits m) [
            | committed ↦ first_sightings block pending ms (record_first block m p s) complete
            | duplicate ↦ first_sightings block pending ms s false
            | failed ↦ first_sightings block pending ms s false
          ]
        ]

    -- One match of pass A2.
    unfoldable pub ingest_match :
        RpcBlock → List TrackedAddress → DepositMatch → Store → Bool → Store × Bool
    ingest_match block tracked m s complete =
        elim (last_with (λ a. a.dobbscoin_address == m.deposit_address) tracked) [
          | none ↦ (s, complete)
          | some a ↦ elim (is_recorded m.txid m.vout s) [
            | true ↦ (s, complete)
            | false ↦ elim (commits m) [
              | committed ↦ (ingest_new block m a s, complete)
              | duplicate ↦ (s, complete)
              | failed ↦ (s, false)
            ]
          ]
        ]

    -- The loop of pass A2.
    unfoldable pub auto_ingest :
        RpcBlock → List TrackedAddress → List DepositMatch → Store → Bool → Store × Bool
    unfolding ingest_match
    auto_ingest block tracked [] s complete = (s, complete)
    auto_ingest block tracked (m ∷ ms) s complete =
        let (s', complete') = ingest_match block tracked m s complete in
        auto_ingest block tracked ms s' complete'

    -- Passes A and A2 of `handleBlock`; the result is what `complete` is after them.
    unfoldable pub record_deposits : RpcBlock → Store → Store × Bool
    unfolding first_sightings auto_ingest
    record_deposits block s =
        let pending = pending_first s.bridge_orders s.source_deposits in
        let (s', complete) =
          first_sightings block pending
            (paying_matches block (map (λ p. p.deposit_address) pending)) s true in
        auto_ingest block s'.deposit_addresses
          (paying_matches block (map (λ a. a.dobbscoin_address) s'.deposit_addresses)) s' complete
