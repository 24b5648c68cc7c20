-- ===== src/Deposits/Entry.antt =====
-- Where orders enter the watched part of the inbound graph: passes A and A2 of
-- watcher/src/deposits/block-handler.ts against shared/src/state-machine/inbound.ts.
use wbob_bridge.Prelude.{
  ℕ, refl, Bool, true, false, List, [], ◌∷◌, ◌==◌, inl, inr, Bool-cases, Option-cases, map,
}
use wbob_bridge.Prelude.Tables.{select_one}
use wbob_bridge.Shared.Inbound.{
  deposit_address_assigned, same_inbound, same_inbound_iff, can_transition_inbound,
}
use wbob_bridge.Deposits.Matching.{RpcBlock, DepositMatch, paying_matches}
use wbob_bridge.Deposits.Tables.{TrackedAddress, Store, order_is, move_order, update_deposit}
use wbob_bridge.Deposits.Ingest.{
  Commit, PendingFirst, pending_first, is_recorded, last_with, record_first, ingest_new,
  ingest_match, first_sightings, auto_ingest, record_deposits,
}
use wbob_bridge.Deposits.Replay.{Commit-cases, Handled, handled, passed, added, lost}
use wbob_bridge.Deposits.Entered.{
  IsKeyed, Recorded, Recorded-refl, Recorded-trans, Entered-append, Entered-update, IsKeyed-update,
  IsKeyed-append,
}

module _ (deposit_id_of : ℕ → ℕ → ℕ → ℕ → ℕ → ℕ → ℕ) (block : RpcBlock) where
  record_first-Recorded :
      (m : DepositMatch) (p : PendingFirst) (s : Store)
      → IsKeyed s.bridge_orders s.next_id
      → Recorded s (record_first deposit_id_of block m p s)
  unfolding record_first move_order update_deposit can_transition_inbound
  record_first-Recorded m p s key =
      elim (Option-cases (select_one (order_is p.order_id) s.bridge_orders)) [
        | inl missing ↦ rw (record_first, missing) (Recorded-refl s key)
        | inr (o, there) ↦ elim (Bool-cases (same_inbound o.state deposit_address_assigned)) [
          | inr moved ↦ rw (record_first, there, moved) (Recorded-refl s key)
          | inl waiting ↦
              rw (record_first, there, waiting)
                (record {
                  rows = _ ∷ [];
                  appended = refl;
                  entries = (record { enters = refl; way = inl (refl, refl, refl) }, tt);
                  orders =
                      Entered-update p.order_id s.next_id o s.bridge_orders key there
                        ((same_inbound_iff o.state deposit_address_assigned).0 waiting);
                  keyed = IsKeyed-update p.order_id s.next_id s.bridge_orders key;
                })
        ]
      ]

  ingest_new-Recorded :
      (m : DepositMatch) (a : TrackedAddress) (s : Store)
      → IsKeyed s.bridge_orders s.next_id
      → Recorded s (ingest_new deposit_id_of block m a s)
  unfolding ingest_new can_transition_inbound
  ingest_new-Recorded m a s key = elim (Bool-cases (is_recorded m.txid m.vout s)) [
    | inl old ↦ rw (ingest_new, old) (Recorded-refl s key)
    | inr new ↦
        rw (ingest_new, new)
          (record {
            rows = _ ∷ [];
            appended = refl;
            entries = (record { enters = refl; way = inr (refl, refl, refl) }, tt);
            orders = Entered-append s.bridge_orders _ refl;
            keyed = IsKeyed-append s.next_id s.bridge_orders _ refl key;
          })
  ]

  module _ (commits : DepositMatch → Commit) where
    first_sightings-Recorded :
        (pending : List PendingFirst) (ms : List DepositMatch) (s : Store) (complete : Bool)
        → IsKeyed s.bridge_orders s.next_id
        → Recorded s (first_sightings deposit_id_of commits block pending ms s complete).0
    unfolding first_sightings
    first_sightings-Recorded pending [] s complete key = Recorded-refl s key
    first_sightings-Recorded pending (m ∷ ms) s complete key =
        elim (Option-cases
          (last_with (λ (p : PendingFirst). p.deposit_address == m.deposit_address) pending)) [
            | inl stranger ↦
                rw (first_sightings, stranger) (first_sightings-Recorded pending ms s complete key)
            | inr (p, waiting) ↦ elim (Commit-cases (commits m)) [
              | inl good ↦
                  let s' = record_first deposit_id_of block m p s in
                  let entry = record_first-Recorded m p s key in
                  rw (first_sightings, waiting, good)
                    (Recorded-trans s s' _ entry
                      (first_sightings-Recorded pending ms s' complete entry.keyed))
              | inr (inl twice) ↦
                  rw (first_sightings, waiting, twice)
                    (first_sightings-Recorded pending ms s false key)
              | inr (inr bad) ↦
                  rw (first_sightings, waiting, bad)
                    (first_sightings-Recorded pending ms s false key)
            ]
          ]

    auto_ingest-Recorded :
        (tracked : List TrackedAddress) (ms : List DepositMatch) (s : Store) (complete : Bool)
        → IsKeyed s.bridge_orders s.next_id
        → Recorded s (auto_ingest deposit_id_of commits block tracked ms s complete).0
    unfolding auto_ingest
    auto_ingest-Recorded tracked [] s complete key = Recorded-refl s key
    auto_ingest-Recorded tracked (m ∷ ms) s complete key =
        let r = ingest_match deposit_id_of commits block tracked m s complete in
        let entry = one (handled deposit_id_of commits block tracked m s complete) in
        Recorded-trans s r.0 _ entry (auto_ingest-Recorded tracked ms r.0 r.1 entry.keyed)
      where
        one :
            {r : Store × Bool}
            → Handled commits deposit_id_of block tracked m s complete r
            → Recorded s r.0
        one (passed e h) = rw e (Recorded-refl s key)
        one (added a e) = rw e (ingest_new-Recorded m a s key)
        one (lost e) = rw e (Recorded-refl s key)

    -- If the orders' ids are a key and new ids are larger, then however the database takes the
    -- transactions, the passes that record a block's deposits leave every order in its state or
    -- bring it from DEPOSIT_ADDRESS_ASSIGNED to DEPOSIT_SEEN_MEMPOOL, where every order that they
    -- add begins, and ids stay a key. They log nothing but such entries: the allowed move, and for
    -- a new order a move from QUOTE_CREATED, which the inbound graph does not have.
    pub record_deposits-Recorded :
        (s : Store)
        → IsKeyed s.bridge_orders s.next_id
        → Recorded s (record_deposits deposit_id_of commits block s).0
    unfolding record_deposits
    record_deposits-Recorded s key =
        let pending = pending_first s.bridge_orders s.source_deposits in
        let first = paying_matches block (map (λ (p : PendingFirst). p.deposit_address) pending) in
        let r = first_sightings deposit_id_of commits block pending first s true in
        let entries = first_sightings-Recorded pending first s true key in
        Recorded-trans s r.0 _ entries (
          auto_ingest-Recorded r.0.deposit_addresses
            (paying_matches block
              (map (λ (a : TrackedAddress). a.dobbscoin_address) r.0.deposit_addresses))
            r.0 r.1 entries.keyed)
