-- ===== src/Payout/Node.antt =====
-- The Dobbscoin node as backend/src/executor/payout-executor.ts sees it (backend/src/dobbscoin/rpc.ts):
-- the calls enter as a parameter, their errors are classified as the source does. A message is the
-- whole `err.message`.
use wbob_bridge.Prelude.{
  ℕ, ◌+◌, Bool, true, false, ◌&&◌, ◌||◌, not, Option, none, some, List, [], ◌∷◌, ◌==◌, ltb,
  if◌then◌else◌,
}
use wbob_bridge.Prelude.Int.{ℤ, pos, negsuc}
use wbob_bridge.Prelude.Text.{Text, codes, to_lower_case, contains, contains_word, contains_any}
use wbob_bridge.Shared.Result.{Result, ok, err}
use wbob_bridge.TxBuilder.RawTx.{RawTx}

pub data RpcMethod : Type 0 where
  sendrawtransaction getrawtransaction getrawmempool gettxout : RpcMethod

abbrev pub is_send : RpcMethod → Bool
is_send sendrawtransaction = true
is_send getrawtransaction = false
is_send getrawmempool = false
is_send gettxout = false

-- `rpc_call_error` is the node's own refusal, `rpc_network_error` an unreachable node.
pub data RpcError : Type 0 where
  rpc_call_error : RpcMethod → ℤ → Text → RpcError
  rpc_network_error : RpcMethod → RpcError

-- getrawtransaction answers with the confirmations of a known transaction.
pub record Node : Type 0 where
  pub send_raw_transaction : RawTx → Result RpcError ℕ
  pub get_raw_transaction : ℕ → Result RpcError ℕ
  pub get_raw_mempool : Result RpcError (List ℕ)
  pub get_tx_out : ℕ → ℕ → Result RpcError Bool

-- The code is -n.
abbrev pub is_code : ℕ → ℤ → Bool
is_code n (pos m) = false
is_code n (negsuc m) = m + 1 == n

abbrev pub has_code : ℕ → RpcError → Bool
has_code n (rpc_call_error method code message) = is_code n code
has_code n (rpc_network_error method) = false

abbrev pub is_network : RpcError → Bool
is_network (rpc_call_error method code message) = false
is_network (rpc_network_error method) = true

-- `getConfirmations`: `none` is -1, a transaction that the node does not know.
unfoldable pub get_confirmations : Node → ℕ → Result RpcError (Option ℕ)
get_confirmations node txid = elim (node.get_raw_transaction txid) [
  | ok n ↦ ok (some n)
  | err e ↦ if has_code 5 e then ok none else err e
]

abbrev pub includes_txid : ℕ → List ℕ → Bool
includes_txid txid [] = false
includes_txid txid (t ∷ ts) = if t == txid then true else includes_txid txid ts

unfoldable pub is_in_mempool : Node → ℕ → Result RpcError Bool
is_in_mempool node txid = elim node.get_raw_mempool [
  | ok pool ↦ ok (includes_txid txid pool)
  | err e ↦ err e
]

pub data NodeHas : Type 0 where
  in_mempool in_chain nowhere unreachable : NodeHas

-- `_nodeHas`; `unreachable` is null.
unfoldable pub node_has : Node → ℕ → NodeHas
unfolding get_confirmations is_in_mempool
node_has node txid = elim (get_confirmations node txid) [
  | err e ↦ unreachable
  | ok none ↦ nowhere
  | ok (some n) ↦ if ltb 0 n then in_chain else elim (is_in_mempool node txid) [
    | err e ↦ unreachable
    | ok true ↦ in_mempool
    | ok false ↦ nowhere
  ]
]

abbrev safe_rejections : List Text
safe_rejections =
    codes "min relay fee not met"
    ∷ codes "insufficient priority"
    ∷ codes "mempool min fee not met"
    ∷ codes "rate limited free transaction"
    ∷ codes "non-mandatory-script-verify-flag"
    ∷ codes "mandatory-script-verify-flag-failed"
    ∷ codes "scriptsig-size"
    ∷ codes "scriptsig-not-pushonly"
    ∷ codes "scriptpubkey"
    ∷ codes "bare-multisig"
    ∷ codes "multi-op-return"
    ∷ codes "tx-size"
    ∷ codes "absurdly-high-fee"
    ∷ codes "bad-txns-vout-negative"
    ∷ codes "bad-txns-vout-toolarge"
    ∷ codes "bad-txns-oversize"
    ∷ codes "bad-txns-txouttotal-toolarge"
    ∷ codes "non-final"
    ∷ []

-- SAFE_REJECTION, on a message in lower case.
unfoldable pub is_safe_rejection : Text → Bool
unfolding contains_any
is_safe_rejection message =
    contains_word (codes "dust") false message
    || (contains_word (codes "version") false message || contains_any safe_rejections message)

abbrev unsafe_hints : List Text
unsafe_hints =
    codes "replace"
    ∷ codes "conflict"
    ∷ codes "missing"
    ∷ codes "spent"
    ∷ codes "already"
    ∷ codes "known"
    ∷ codes "exists"
    ∷ []

-- UNSAFE_HINT.
unfoldable pub is_unsafe_hint : Text → Bool
unfolding contains_any
is_unsafe_hint message = contains_any unsafe_hints message

unfoldable pub is_definite_rejection : RpcError → Bool
unfolding is_safe_rejection is_unsafe_hint to_lower_case
is_definite_rejection (rpc_network_error method) = false
is_definite_rejection (rpc_call_error method code message) =
    if not (is_send method)
    then false
    else if is_code 22 code
    then true
    else if not (is_code 26 code)
    then false
    else is_safe_rejection (to_lower_case message) && not (is_unsafe_hint (to_lower_case message))

unfoldable pub is_transient : RpcError → Bool
unfolding contains to_lower_case
is_transient (rpc_network_error method) = true
is_transient (rpc_call_error method code message) =
    if is_code 28 code
    then true
    else if is_send method && is_code 25 code
    then true
    else is_send method
      && (is_code 26 code
          && (contains (codes "too-long-mempool-chain") (to_lower_case message)
              || contains (codes "mempool full") (to_lower_case message)))
