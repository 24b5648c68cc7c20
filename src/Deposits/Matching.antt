-- ===== src/Deposits/Matching.antt =====
-- watcher/src/deposits/address-watcher.ts: which outputs of a block pay a watched address.
-- An output's value is given in satoshis: the conversion from the node's decimal is not modelled.
use wbob_bridge.Prelude.{
  ℕ, zero, suc, Bool, true, false, ◌&&◌, ◌||◌, not, Option, none, some, List, [], ◌∷◌, ◌++◌, ltb,
  leb, ◌==◌, if◌then◌else◌,
}
use wbob_bridge.Prelude.Tables.{select_all}
use wbob_bridge.Prelude.Text.{Text, text_eq, to_lower_case}

pub record RpcVout : Type 0 where
  pub n : ℕ
  pub value_sat : ℕ
  pub script_type : Text
  pub script_hex : Text
  pub address : Option ℕ
  pub addresses : Option (List ℕ)

pub record RpcTransaction : Type 0 where
  pub txid : ℕ
  pub vouts : List RpcVout

pub record RpcBlock : Type 0 where
  pub hash : ℕ
  pub height : ℕ
  pub txs : List RpcTransaction

pub record DepositMatch : Type 0 where
  pub txid : ℕ
  pub vout : ℕ
  pub amount_sat : ℕ
  pub deposit_address : ℕ
  pub block_hash : Option ℕ
  pub block_height : Option ℕ

abbrev pub pubkeyhash_text : Text
pubkeyhash_text = b'p' ∷ b'u' ∷ b'b' ∷ b'k' ∷ b'e' ∷ b'y' ∷ b'h' ∷ b'a' ∷ b's' ∷ b'h' ∷ []

abbrev pub is_hex_digit : ℕ → Bool
is_hex_digit c = (leb b'0' c && leb c b'9') || (leb b'a' c && leb c b'f')

-- What stands behind `n` hex digits that come first.
unfoldable pub after_hex : ℕ → Text → Option Text
after_hex zero s = some s
after_hex (suc n) [] = none
after_hex (suc n) (c ∷ s) = if is_hex_digit c then after_hex n s else none

-- What stands behind a prefix.
unfoldable pub after_prefix : Text → Text → Option Text
after_prefix [] s = some s
after_prefix (p ∷ ps) [] = none
after_prefix (p ∷ ps) (c ∷ s) = if p == c then after_prefix ps s else none

-- /^76a914[0-9a-f]{40}88ac$/i
unfoldable pub is_p2pkh_script : Text → Bool
unfolding after_prefix after_hex
is_p2pkh_script hex =
    elim (after_prefix (b'7' ∷ b'6' ∷ b'a' ∷ b'9' ∷ b'1' ∷ b'4' ∷ []) (to_lower_case hex)) [
      | none ↦ false
      | some rest ↦ elim (after_hex 40 rest) [
        | none ↦ false
        | some tail ↦ text_eq tail (b'8' ∷ b'8' ∷ b'a' ∷ b'c' ∷ [])
      ]
    ]

abbrev pub only_address : Option (List ℕ) → Option ℕ
only_address none = none
only_address (some []) = none
only_address (some (a ∷ [])) = some a
only_address (some (a ∷ b ∷ more)) = none

unfoldable pub output_address : RpcVout → Option ℕ
output_address out =
    if not (text_eq out.script_type pubkeyhash_text) || not (is_p2pkh_script out.script_hex)
    then none
    else elim out.address [ some a ↦ some a | none ↦ only_address out.addresses ]

abbrev pub has_address : List ℕ → ℕ → Bool
has_address [] a = false
has_address (x ∷ xs) a = if x == a then true else has_address xs a

abbrev pub paid_to : List ℕ → Option ℕ → Option ℕ
paid_to watched none = none
paid_to watched (some a) = if has_address watched a then some a else none

unfoldable pub match_outputs : ℕ → List ℕ → Option ℕ → Option ℕ → List RpcVout → List DepositMatch
match_outputs txid watched block_hash block_height [] = []
match_outputs txid watched block_hash block_height (out ∷ outs) =
    let rest = match_outputs txid watched block_hash block_height outs in
    elim (paid_to watched (output_address out)) [
      | none ↦ rest
      | some a ↦
          record {
            txid = txid;
            vout = out.n;
            amount_sat = out.value_sat;
            deposit_address = a;
            block_hash = block_hash;
            block_height = block_height;
          }
          ∷ rest
    ]

unfoldable pub match_transaction : RpcTransaction → List ℕ → Option ℕ → Option ℕ → List DepositMatch
unfolding match_outputs
match_transaction tx watched block_hash block_height =
    match_outputs tx.txid watched block_hash block_height tx.vouts

unfoldable pub match_transactions : List RpcTransaction → List ℕ → ℕ → ℕ → List DepositMatch
unfolding match_transaction
match_transactions [] watched hash height = []
match_transactions (tx ∷ txs) watched hash height =
    match_transaction tx watched (some hash) (some height)
    ++ match_transactions txs watched hash height

unfoldable pub match_block : RpcBlock → List ℕ → List DepositMatch
unfolding match_transactions
match_block block watched = match_transactions block.txs watched block.hash block.height

-- `payingMatches` of block-handler.ts: outputs of no value are left out.
unfoldable pub paying_matches : RpcBlock → List ℕ → List DepositMatch
unfolding match_block
paying_matches block watched = select_all (λ m. ltb 0 m.amount_sat) (match_block block watched)
