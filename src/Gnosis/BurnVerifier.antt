-- ===== src/Gnosis/BurnVerifier.antt =====
-- backend/src/gnosis/burn-verifier.ts: a burn re-read from Gnosis before its payout is signed. The
-- chain reader answers with the receipt and the tip, or throws an error with a message; the logs are
-- decoded by viem, so a log comes with its decoded event, `none` where decoding throws. Addresses are
-- numbers, so the comparison ignores the case of their letters.
use wbob_bridge.Prelude.{
  ℕ, ◌+◌, Bool, true, false, ◌&&◌, ◌||◌, not, Option, none, some, List, [], ◌∷◌, ◌==◌, leb, length,
  if◌then◌else◌,
}
use wbob_bridge.Prelude.Int.{pos, sub_ℕ, ltb_ℤ}
use wbob_bridge.Prelude.Text.{Text, text_eq, codes, contains_any, to_lower_case}
use wbob_bridge.Gnosis.Destination.{sanitize_dobbscoin_destination}

pub record BurnClaim : Type 0 where
  pub withdrawal_id : ℕ
  pub burn_tx_hash : Option Text
  pub sender_address : ℕ
  pub amount_sat : ℕ
  pub dobbscoin_address : Text

pub data BurnFault : Type 0 where
  no_burn_tx_hash no_such_tx node_unreachable reverted : BurnFault
  wrong_log_count sender_differs amount_differs destination_differs too_shallow : BurnFault

-- `deferred` is asked again later, `refused` is never paid by the machine.
pub data BurnVerdict : Type 0 where
  backed : BurnVerdict
  deferred : BurnFault → BurnVerdict
  refused : BurnFault → BurnVerdict

pub record WithdrawalEvent : Type 0 where
  pub withdrawal_id : ℕ
  pub sender : ℕ
  pub amount : ℕ
  pub dobbscoin_address : Text

pub record BurnLog : Type 0 where
  pub address : ℕ
  pub event : Option WithdrawalEvent

pub record Receipt : Type 0 where
  pub success : Bool
  pub block_number : ℕ
  pub logs : List BurnLog

-- What the two calls of the reader come to: a receipt and the tip, or the message of the error.
pub data BurnRead : Type 0 where
  found : Receipt → ℕ → BurnRead
  failed_read : Text → BurnRead

-- `[0-9a-fA-F]`.
unfoldable pub is_hex_char : ℕ → Bool
is_hex_char c =
    (leb b'0' c && leb c b'9') || ((leb b'a' c && leb c b'f') || (leb b'A' c && leb c b'F'))

unfoldable pub all_hex : Text → Bool
unfolding is_hex_char
all_hex [] = true
all_hex (c ∷ cs) = is_hex_char c && all_hex cs

-- `/^0x[0-9a-fA-F]{64}$/`.
unfoldable pub is_burn_tx_hash : Text → Bool
unfolding all_hex
is_burn_tx_hash [] = false
is_burn_tx_hash (z ∷ []) = false
is_burn_tx_hash (z ∷ x ∷ digits) =
    ((z == b'0') && (x == b'x')) && ((length digits == 64) && all_hex digits)

-- `/could not be found|not found/i`, and none of `/fetch|timeout|ECONN|network/i`.
unfoldable pub says_no_such_tx : Text → Bool
unfolding contains_any to_lower_case
says_no_such_tx message =
    let lower = to_lower_case message in
    contains_any (codes "could not be found" ∷ codes "not found" ∷ []) lower
    && not (
        contains_any (codes "fetch" ∷ codes "timeout" ∷ codes "econn" ∷ codes "network" ∷ []) lower)

-- The events of the controller with this id, in the order of the logs.
unfoldable pub matching_events : ℕ → ℕ → List BurnLog → List WithdrawalEvent
matching_events controller id [] = []
matching_events controller id (log ∷ logs) =
    let rest = matching_events controller id logs in
    if log.address == controller
    then elim log.event [ none ↦ rest | some e ↦ if e.withdrawal_id == id then e ∷ rest else rest ]
    else rest

abbrev pub stored_destination : WithdrawalEvent → Text
stored_destination e = (sanitize_dobbscoin_destination (some e.dobbscoin_address)).value

-- `depth = tip - blockNumber + 1`, which may be negative.
unfoldable pub compare_event : ℕ → BurnClaim → Receipt → ℕ → WithdrawalEvent → BurnVerdict
compare_event confirmation_depth c rc tip e =
    if not (e.sender == c.sender_address)
    then refused sender_differs
    else if not (e.amount == c.amount_sat)
    then refused amount_differs
    else if not (text_eq (stored_destination e) c.dobbscoin_address)
    then refused destination_differs
    else if ltb_ℤ (sub_ℕ (tip + 1) rc.block_number) (pos confirmation_depth)
    then deferred too_shallow
    else backed

unfoldable pub check_events : ℕ → BurnClaim → Receipt → ℕ → List WithdrawalEvent → BurnVerdict
unfolding compare_event
check_events depth c rc tip [] = refused wrong_log_count
check_events depth c rc tip (e ∷ []) = compare_event depth c rc tip e
check_events depth c rc tip (e ∷ f ∷ more) = refused wrong_log_count

module _ (read : Text → BurnRead) (controller confirmation_depth : ℕ) where
  unfoldable pub check_read : BurnClaim → BurnRead → BurnVerdict
  unfolding check_events matching_events says_no_such_tx
  check_read c (failed_read message) =
      if says_no_such_tx message then refused no_such_tx else deferred node_unreachable
  check_read c (found rc tip) =
      if not rc.success
      then refused reverted
      else check_events confirmation_depth c rc tip
          (matching_events controller c.withdrawal_id rc.logs)

  -- `verify`.
  unfoldable pub verify_burn : BurnClaim → BurnVerdict
  unfolding check_read is_burn_tx_hash
  verify_burn c = elim c.burn_tx_hash [
    | none ↦ refused no_burn_tx_hash
    | some hash ↦
        if not (is_burn_tx_hash hash) then refused no_burn_tx_hash else check_read c (read hash)
  ]
