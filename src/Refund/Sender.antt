-- ===== src/Refund/Sender.antt =====
-- backend/src/dobbscoin/sender.ts: whose address a refund goes to. `encode` is base58check,
-- `p2pkh_address` any decoding of a hash, which the code takes to be hash160ToP2PKH with the bridge's
-- version byte, and `get_verbose` the node's getrawtransaction. An absent or empty text is
-- `none`.
use wbob_bridge.Prelude.{
  ℕ, Bool, false, not, Option, none, some, List, [], ◌∷◌, ◌==◌, ltb, leb, ◌+◌, ◌*◌, ◌-◌,
  if◌then◌else◌, length, take,
}
use wbob_bridge.Prelude.Text.{Text, codes, text_eq, to_lower_case, has_text}
use wbob_bridge.Prelude.Tables.{select_one}
use wbob_bridge.Shared.Result.{Result, ok, err}
use wbob_bridge.Deposits.Matching.{after_prefix, after_hex}
use wbob_bridge.Payout.Node.{RpcError, has_code}

-- An input; `coinbase` says that the key is there.
pub record RpcVin : Type 0 where
  pub coinbase : Bool
  pub txid : Option ℕ
  pub vout : Option ℕ

pub record ScriptPubKey : Type 0 where
  pub hex : Text
  pub script_type : Text
  pub addresses : Option (List Text)
  pub address : Option Text

pub record RpcOutput : Type 0 where
  pub n : ℕ
  pub script : ScriptPubKey

pub record RpcVerboseTx : Type 0 where
  pub txid : Option ℕ
  pub vin : List RpcVin
  pub vout : List RpcOutput

pub record SenderDetail : Type 0 where
  pub input_count : ℕ
  pub prev_txid : Option ℕ
  pub prev_vout : Option ℕ
  pub script_type : Option Text
  pub multi_input : Bool

pub data SenderFault : Type 0 where
  no_inputs from_coinbase no_outpoint prev_not_found wrong_prev : SenderFault
  no_such_output not_p2pkh odd_script not_one_address addresses_differ own_address : SenderFault

pub data SenderResult : Type 0 where
  resolved : Text → SenderDetail → SenderResult
  unresolved : SenderFault → SenderDetail → SenderResult

-- The group of /^76a914([0-9a-f]{40})88ac$/, on a text in lower case.
unfoldable pub hash160_of : Text → Option Text
hash160_of hex = elim (after_prefix (codes "76a914") hex) [
  | none ↦ none
  | some rest ↦ elim (after_hex 40 rest) [
    | none ↦ none
    | some tail ↦ if text_eq tail (codes "88ac") then some (take 40 rest) else none
  ]
]

abbrev pub digit_value : ℕ → ℕ
digit_value c = if leb b'a' c then c - b'a' + 10 else c - b'0'

-- `Buffer.from(hex, 'hex')` of digits in lower case.
unfoldable pub from_hex : Text → List ℕ
from_hex [] = []
from_hex (c ∷ []) = []
from_hex (c ∷ d ∷ s) = (16 * digit_value c + digit_value d) ∷ from_hex s

-- `hash160ToP2PKH`, for a hash of 20 bytes, which it checks and `hash160_of` gives.
unfoldable pub hash160_to_p2pkh : (List ℕ → Text) → ℕ → Text → Text
unfolding from_hex
hash160_to_p2pkh encode version hash = encode (version ∷ from_hex hash)

abbrev pub detail_of : RpcVerboseTx → Option Text → SenderDetail
detail_of tx script_type = elim tx.vin [
  | [] ↦ record {
    input_count = 0;
    prev_txid = none;
    prev_vout = none;
    script_type = script_type;
    multi_input = false;
  }
  | first ∷ more ↦ record {
    input_count = length tx.vin;
    prev_txid = first.txid;
    prev_vout = first.vout;
    script_type = script_type;
    multi_input = ltb 1 (length tx.vin);
  }
]

-- `addresses ?? (address ? [address] : [])`.
abbrev pub node_addresses : ScriptPubKey → List Text
node_addresses s = elim s.addresses [
  | some as' ↦ as'
  | none ↦ elim s.address [ none ↦ [] | some a ↦ a ∷ [] ]
]

abbrev pub names_other : Option ℕ → ℕ → Bool
names_other none t = false
names_other (some u) t = not (u == t)

module _ (p2pkh_address : Text → Text) (bridge_addresses : List Text) where
  abbrev pub check_address : Text → List Text → SenderDetail → SenderResult
  check_address decoded [] d = unresolved not_one_address d
  check_address decoded (a ∷ []) d =
      if not (text_eq a decoded)
      then unresolved addresses_differ d
      else if has_text bridge_addresses decoded
      then unresolved own_address d
      else resolved decoded d
  check_address decoded (a ∷ b ∷ more) d = unresolved not_one_address d

  -- The part that decodes the output's script.
  unfoldable pub check_script : ScriptPubKey → SenderDetail → SenderResult
  unfolding hash160_of
  check_script s d =
      if not (text_eq s.script_type (codes "pubkeyhash"))
      then unresolved not_p2pkh d
      else elim (hash160_of (to_lower_case s.hex)) [
        | none ↦ unresolved odd_script d
        | some hash ↦ check_address (p2pkh_address hash) (node_addresses s) d
      ]

  -- The part that follows the first input's outpoint.
  unfoldable pub check_outpoint : RpcVerboseTx → ℕ → ℕ → Option RpcVerboseTx → SenderResult
  unfolding check_script
  check_outpoint tx txid vout prev = elim prev [
    | none ↦ unresolved prev_not_found (detail_of tx none)
    | some p ↦
        if names_other p.txid txid
        then unresolved wrong_prev (detail_of tx none)
        else elim (select_one (λ (o : RpcOutput). o.n == vout) p.vout) [
          | none ↦ unresolved no_such_output (detail_of tx none)
          | some o ↦ check_script o.script (detail_of tx (some o.script.script_type))
        ]
  ]

  unfoldable pub resolve_sender : RpcVerboseTx → Option RpcVerboseTx → SenderResult
  unfolding check_outpoint
  resolve_sender tx prev = elim tx.vin [
    | [] ↦ unresolved no_inputs (detail_of tx none)
    | first ∷ more ↦
        if first.coinbase then unresolved from_coinbase (detail_of tx none) else elim first.txid [
          | none ↦ unresolved no_outpoint (detail_of tx none)
          | some txid ↦ elim first.vout [
            | none ↦ unresolved no_outpoint (detail_of tx none)
            | some vout ↦ check_outpoint tx txid vout prev
          ]
        ]
  ]

  module _ (get_verbose : ℕ → Result RpcError RpcVerboseTx) where
    -- An answer -5 is definite; any other error is thrown.
    abbrev pub with_prev :
        RpcVerboseTx → Result RpcError RpcVerboseTx → Result RpcError SenderResult
    with_prev tx (ok prev) = ok (resolve_sender tx (some prev))
    with_prev tx (err e) = if has_code 5 e then ok (resolve_sender tx none) else err e

    abbrev pub fetch_prev : RpcVerboseTx → Result RpcError SenderResult
    fetch_prev tx = elim tx.vin [
      | [] ↦ ok (resolve_sender tx none)
      | first ∷ more ↦ if first.coinbase then ok (resolve_sender tx none) else elim first.txid [
        | none ↦ ok (resolve_sender tx none)
        | some txid ↦ with_prev tx (get_verbose txid)
      ]
    ]

    unfoldable pub detect_deposit_sender : ℕ → Result RpcError SenderResult
    unfolding resolve_sender
    detect_deposit_sender deposit_txid = elim (get_verbose deposit_txid) [
      | err e ↦ err e
      | ok tx ↦ fetch_prev tx
    ]
