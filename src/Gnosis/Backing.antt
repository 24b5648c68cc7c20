-- ===== src/Gnosis/Backing.antt =====
-- What a burn that is found backed rests on (backend/src/gnosis/burn-verifier.ts).
use wbob_bridge.Prelude.{
  ℕ, ◌+◌, ◌≤◌, ◌≡◌, refl, inl, inr, Option-cases, Bool-cases, arith, true, false, some, List, [],
  ◌∷◌, ◌++◌, ◌==◌, All, ◌⊎◌, sym, ap, subst, ◌∙◌, Option, none,
}
use wbob_bridge.Prelude.Text.{Text, text_eq, eq_of_text_eq}
use wbob_bridge.Gnosis.BurnVerifier.{
  BurnClaim, BurnFault, BurnRead, BurnLog, Receipt, WithdrawalEvent, backed, refused, deferred,
  found, failed_read, is_burn_tx_hash, says_no_such_tx, matching_events, stored_destination,
  compare_event, check_events, check_read, verify_burn,
}

-- The log is the controller's, and announces this event, which has the id.
pub record Announces (controller id : ℕ) (event : WithdrawalEvent) (log : BurnLog) : Type 0 where
  pub by_controller : log.address ≡ controller
  pub decodes : log.event ≡ some event
  pub has_id : event.withdrawal_id ≡ id

-- The log announces no event of the controller with the id.
abbrev pub IsSilent : ℕ → ℕ → BurnLog → Type 0
IsSilent controller id log = ¬ ((event : WithdrawalEvent) × Announces controller id event log)

-- Exactly one of the logs announces an event with the id, and it is this one.
pub record OnlyEvent (controller id : ℕ) (event : WithdrawalEvent) (logs : List BurnLog)
    : Type 0 where
  pub before : List BurnLog
  pub log : BurnLog
  pub after : List BurnLog
  pub split : logs ≡ before ++ log ∷ after
  pub announces : Announces controller id event log
  pub silent_before : All (IsSilent controller id) before
  pub silent_after : All (IsSilent controller id) after

eq_of_test : {a b : ℕ} → (a == b) ≡ true → a ≡ b
eq_of_test h = ground arith

test_of_eq : {a b : ℕ} → a ≡ b → (a == b) ≡ false → ⊥
test_of_eq e h = ground arith

same_some : {e e' : WithdrawalEvent} → ◌≡◌ {A = Option WithdrawalEvent} (some e) (some e') → e ≡ e'
same_some h = cc

none_is_no_event : {e : WithdrawalEvent} → ◌≡◌ {A = Option WithdrawalEvent} none (some e) → ⊥
none_is_no_event h = cc

module _ (controller id : ℕ) where
  -- The loop passes over a silent log, and takes the event of any other.
  log_cases :
      (log : BurnLog) (logs : List BurnLog)
      → (IsSilent controller id log
          × (matching_events controller id (log ∷ logs) ≡ matching_events controller id logs))
        ⊎ ((event : WithdrawalEvent) × Announces controller id event log
            × (matching_events controller id (log ∷ logs)
                ≡ event ∷ matching_events controller id logs))
  unfolding matching_events
  log_cases log logs = elim (Bool-cases (log.address == controller)) [
    | inr foreign ↦
        inl ((λ a. test_of_eq a.1.by_controller foreign), rw (matching_events, foreign) refl)
    | inl own ↦ elim (Option-cases log.event) [
      | inl opaque ↦ inl (
        (λ a. none_is_no_event (sym opaque ∙ a.1.decodes)),
        rw (matching_events, own, opaque) refl,
      )
      | inr (event, read) ↦ elim (Bool-cases (event.withdrawal_id == id)) [
        | inr other ↦ inl (
          (λ a.
              test_of_eq
                (ap (λ (e : WithdrawalEvent). e.withdrawal_id) (same_some (sym read ∙ a.1.decodes))
                  ∙ a.1.has_id)
                other),
          rw (matching_events, own, read, other) refl,
        )
        | inl same ↦ inr (
          event,
          record { by_controller = eq_of_test own; decodes = read; has_id = eq_of_test same },
          rw (matching_events, own, read, same) refl,
        )
      ]
    ]
  ]

  no_event-IsSilent :
      (logs : List BurnLog)
      → matching_events controller id logs ≡ []
      → All (IsSilent controller id) logs
  no_event-IsSilent [] h = tt
  no_event-IsSilent (log ∷ logs) h = elim (log_cases log logs) [
    | inl (silent, same) ↦ (silent, no_event-IsSilent logs (sym same ∙ h))
    | inr (event, announces, more) ↦ absurd (nothing_is_no_event (sym h ∙ more))
  ]
    where
      nothing_is_no_event :
          {e : WithdrawalEvent} {es : List WithdrawalEvent}
          → ◌≡◌ {A = List WithdrawalEvent} [] (e ∷ es)
          → ⊥
      nothing_is_no_event h = cc

  only_event :
      (event : WithdrawalEvent) (logs : List BurnLog)
      → matching_events controller id logs ≡ event ∷ []
      → OnlyEvent controller id event logs
  unfolding matching_events
  only_event event [] h = absurd (cc)
  only_event event (log ∷ logs) h = elim (log_cases log logs) [
    | inl (silent, same) ↦
        let rest = only_event event logs (sym same ∙ h) in
        record {
          before = log ∷ rest.before;
          log = rest.log;
          after = rest.after;
          split = ap (◌∷◌ log) rest.split;
          announces = rest.announces;
          silent_before = (silent, rest.silent_before);
          silent_after = rest.silent_after;
        }
    | inr (first, announces, more) ↦
        let (same, nothing) = only_head (sym more ∙ h) in
        record {
          before = [];
          log = log;
          after = logs;
          split = refl;
          announces = subst (λ (e : WithdrawalEvent). Announces controller id e log) same announces;
          silent_before = tt;
          silent_after = no_event-IsSilent logs nothing;
        }
  ]
    where
      only_head :
          {e f : WithdrawalEvent} {es : List WithdrawalEvent}
          → e ∷ es ≡ f ∷ []
          → (e ≡ f) × (es ≡ [])
      only_head h = (cc, cc)

refused_is_no_backing : {f : BurnFault} → refused f ≡ backed → ⊥
refused_is_no_backing h = cc

module _ (read : Text → BurnRead) (controller confirmation_depth : ℕ) where
  -- What a backed claim rests on.
  pub record IsBacked (c : BurnClaim) : Type 0 where
    pub hash : Text
    pub receipt : Receipt
    pub tip : ℕ
    pub event : WithdrawalEvent
    pub names : c.burn_tx_hash ≡ some hash
    pub well_formed : is_burn_tx_hash hash ≡ true
    pub answered : read hash ≡ found receipt tip
    pub succeeded : receipt.success ≡ true
    pub only : OnlyEvent controller c.withdrawal_id event receipt.logs
    pub sender_agrees : event.sender ≡ c.sender_address
    pub amount_agrees : event.amount ≡ c.amount_sat
    pub destination_agrees : stored_destination event ≡ c.dobbscoin_address
    pub is_deep : receipt.block_number + confirmation_depth ≤ tip + 1

  compare_event-backed :
      (c : BurnClaim) (rc : Receipt) (tip : ℕ) (e : WithdrawalEvent)
      → compare_event confirmation_depth c rc tip e ≡ backed
      → (e.sender ≡ c.sender_address)
        × ((e.amount ≡ c.amount_sat)
            × ((text_eq (stored_destination e) c.dobbscoin_address ≡ true)
                × (rc.block_number + confirmation_depth ≤ tip + 1)))
  unfolding compare_event
  compare_event-backed c rc tip e h = ground arith

  only_one :
      (c : BurnClaim) (rc : Receipt) (tip : ℕ) (es : List WithdrawalEvent)
      → check_events confirmation_depth c rc tip es ≡ backed
      → (e : WithdrawalEvent) × ((es ≡ e ∷ [])
          × (compare_event confirmation_depth c rc tip e ≡ backed))
  unfolding check_events
  only_one c rc tip [] h = cc
  only_one c rc tip (e ∷ []) h = (e, (refl, h))
  only_one c rc tip (e ∷ f ∷ more) h = cc

  failed_read_not_backed :
      (c : BurnClaim) (message : Text)
      → check_read read controller confirmation_depth c (failed_read message) ≡ backed
      → ⊥
  unfolding check_read
  failed_read_not_backed c message h = elim (Bool-cases (says_no_such_tx message)) [
    | inl e ↦ refused_is_no_backing (rw (check_read, e) at h)
    | inr e ↦ deferred_is_no_backing (rw (check_read, e) at h)
  ]
    where
      deferred_is_no_backing : {f : BurnFault} → deferred f ≡ backed → ⊥
      deferred_is_no_backing h = cc

  found_succeeded :
      (c : BurnClaim) (rc : Receipt) (tip : ℕ)
      → check_read read controller confirmation_depth c (found rc tip) ≡ backed
      → (rc.success ≡ true)
        × (check_events confirmation_depth c rc tip
              (matching_events controller c.withdrawal_id rc.logs)
            ≡ backed)
  unfolding check_read
  found_succeeded c rc tip h = elim (Bool-cases rc.success) [
    | inr bad ↦ absurd (refused_is_no_backing (rw (bad, check_read) at h))
    | inl good ↦ (good, rw (good, check_read) at h)
  ]

  evident :
      (c : BurnClaim) (hash : Text) (r : BurnRead)
      → c.burn_tx_hash ≡ some hash
      → is_burn_tx_hash hash ≡ true
      → read hash ≡ r
      → check_read read controller confirmation_depth c r ≡ backed
      → IsBacked c
  evident c hash (failed_read message) named formed answer h =
      absurd (failed_read_not_backed c message h)
  evident c hash (found rc tip) named formed answer h =
      let (good, checked) = found_succeeded c rc tip h in
      let events = matching_events controller c.withdrawal_id rc.logs in
      let (e, (single, compared)) = only_one c rc tip events checked in
      let (sender, (amount, (destination, deep))) = compare_event-backed c rc tip e compared in
      record {
        hash = hash;
        receipt = rc;
        tip = tip;
        event = e;
        names = named;
        well_formed = formed;
        answered = answer;
        succeeded = good;
        only = only_event controller c.withdrawal_id e rc.logs single;
        sender_agrees = sender;
        amount_agrees = amount;
        destination_agrees = eq_of_text_eq (stored_destination e) c.dobbscoin_address destination;
        is_deep = deep;
      }

  -- A claim that is found backed is backed: its hash is well formed and names a transaction that
  -- succeeded and is deep enough. Exactly one of the transaction's logs comes from the controller
  -- and decodes to an event with the claim's id; that event has the claim's sender, amount and
  -- destination.
  pub verify_burn-IsBacked :
      (c : BurnClaim) → verify_burn read controller confirmation_depth c ≡ backed → IsBacked c
  unfolding verify_burn
  verify_burn-IsBacked c h = elim (Option-cases c.burn_tx_hash) [
    | inl unnamed ↦ absurd (refused_is_no_backing (rw (verify_burn, unnamed) at h))
    | inr (hash, named) ↦ elim (Bool-cases (is_burn_tx_hash hash)) [
      | inr malformed ↦ absurd (refused_is_no_backing (rw (verify_burn, named, malformed) at h))
      | inl formed ↦
          evident c hash (read hash) named formed refl (rw (verify_burn, named, formed) at h)
    ]
  ]
