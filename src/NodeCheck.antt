-- ===== src/NodeCheck.antt =====
-- watcher/src/signing/node-check.ts: what a signer asks of its own node before it signs a mint.
-- `deposit_id_of` is computeDepositId, which may throw; it gets the row and the output.
use wbob_bridge.Prelude.{
  ℕ, ◌≤◌, ◌<◌, ◌≡◌, refl, Bool, true, false, not, Option, none, some, List, [], ◌∷◌, arith, ltb,
  leb, ◌==◌, if◌then◌else◌, Bool-cases, Option-cases, inl, inr,
}
use wbob_bridge.Prelude.Tables.{select_one}
use wbob_bridge.Prelude.Text.{Text, text_eq, to_lower_case}
use wbob_bridge.Deposits.Advance.{TxChainStatus, TxOutput}
mod Examples

pub record MintCheckRow : Type 0 where
  pub txid : ℕ
  pub vout : ℕ
  pub deposit_address : ℕ
  pub source_chain_name : ℕ
  pub recipient_address : ℕ
  pub amount_sat : ℕ
  pub deposit_id_hex : Text
  pub expected_deposit_address : Option ℕ

-- The reasons to refuse.
pub data Refusal : Type 0 where
  unknown_tx : Refusal
  few_confirmations : ℕ → Refusal
  underivable_address : Refusal
  foreign_address : ℕ → Refusal
  missing_output : Refusal
  pays_another : Option ℕ → Refusal
  non_positive_amount : Refusal
  output_too_small : ℕ → Refusal
  unrecomputable_id : Refusal
  wrong_deposit_id : Text → Refusal

abbrev pays : Option ℕ → ℕ → Bool
pays none a = false
pays (some b) a = b == a

abbrev output_at : ℕ → Option (List TxOutput) → Option TxOutput
output_at vout none = none
output_at vout (some outs) = select_one (λ (o : TxOutput). o.n == vout) outs

module _ (deposit_id_of : MintCheckRow → TxOutput → Option Text) where
  unfoldable pub check_deposit_id : MintCheckRow → TxOutput → Option Refusal
  check_deposit_id row out = elim (deposit_id_of row out) [
    | none ↦ some unrecomputable_id
    | some expected ↦
        if text_eq (to_lower_case expected) (to_lower_case row.deposit_id_hex)
        then none
        else some (wrong_deposit_id expected)
  ]

  unfoldable pub check_output : MintCheckRow → TxOutput → Option Refusal
  unfolding check_deposit_id
  check_output row out =
      if not (pays out.address row.deposit_address)
      then some (pays_another out.address)
      else if leb row.amount_sat 0
      then some non_positive_amount
      else if ltb out.value_sat row.amount_sat
      then some (output_too_small out.value_sat)
      else check_deposit_id row out

  -- `checkMintAgainstNode`; `none` is null, safe to sign.
  unfoldable pub check_mint_against_node : MintCheckRow → Option TxChainStatus → ℕ → Option Refusal
  unfolding check_output
  check_mint_against_node row none final_confirmations = some unknown_tx
  check_mint_against_node row (some st) final_confirmations =
      if ltb st.confirmations final_confirmations
      then some (few_confirmations st.confirmations)
      else elim row.expected_deposit_address [
        | none ↦ some underivable_address
        | some expected ↦
            if not (row.deposit_address == expected)
            then some (foreign_address expected)
            else elim (output_at row.vout st.outputs) [
              | none ↦ some missing_output
              | some out ↦ check_output row out
            ]
      ]

  -- What a signer may rely on.
  pub record Evident (row : MintCheckRow) (st : TxChainStatus) (final : ℕ) : Type 0 where
    pub out : TxOutput
    pub id : Text
    pub is_deep : final ≤ st.confirmations
    pub is_ours : row.expected_deposit_address ≡ some row.deposit_address
    pub is_output : output_at row.vout st.outputs ≡ some out
    pub pays_us : out.address ≡ some row.deposit_address
    pub amount_positive : 0 < row.amount_sat
    pub backs_amount : row.amount_sat ≤ out.value_sat
    pub id_recomputed : deposit_id_of row out ≡ some id
    pub id_matches : text_eq (to_lower_case id) (to_lower_case row.deposit_id_hex) ≡ true

  -- A row that passes is evident from the node: its transaction is deep enough, and the named output
  -- pays the bridge's own address at least the amount, under the recomputed deposit id.
  pub check_mint-Evident :
      (row : MintCheckRow) (st : TxChainStatus) (final : ℕ)
      → check_mint_against_node row (some st) final ≡ none
      → Evident row st final
  unfolding check_mint_against_node
  check_mint-Evident row st final h = elim (Option-cases row.expected_deposit_address) [
    | inl e ↦ absurd (ground arith)
    | inr (a, e) ↦ elim (Option-cases (output_at row.vout st.outputs)) [
      | inl missing ↦ absurd (ground arith)
      | inr (out, found) ↦ elim (Option-cases (deposit_id_of row out)) [
        | inl thrown ↦ absurd (ground arith)
        | inr (id, known) ↦ record {
          out = out;
          id = id;
          is_deep = ground arith;
          is_ours = ground arith;
          is_output = found;
          pays_us = ground arith;
          amount_positive = ground arith;
          backs_amount = ground arith;
          id_recomputed = known;
          id_matches = ground arith;
        }
      ]
    ]
  ]
