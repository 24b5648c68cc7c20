-- ===== src/NodeCheck/Examples.antt =====
-- An instance for the check before signing.
use wbob_bridge.Prelude.{ℕ, ◌≡◌, refl, Option, none, some, List, [], ◌∷◌}
use wbob_bridge.Prelude.Text.{Text}
use wbob_bridge.Deposits.Advance.{TxChainStatus, TxOutput}
use wbob_bridge.NodeCheck.{MintCheckRow, Evident, check_mint_against_node, check_mint-Evident}

abbrev id_of : MintCheckRow → TxOutput → Option Text
id_of row out = some (b'0' ∷ b'a' ∷ [])

abbrev row : MintCheckRow
row = record {
  txid = 60;
  vout = 1;
  deposit_address = 40;
  source_chain_name = 9;
  recipient_address = 50;
  amount_sat = 700;
  deposit_id_hex = b'0' ∷ b'A' ∷ [];
  expected_deposit_address = some 40;
}

abbrev status : TxChainStatus
status = record {
  confirmations = 8;
  block_hash = some 10;
  block_height = some 100;
  outputs = some (record { n = 1; address = some 40; value_sat = 900 } ∷ []);
}

row_passes : check_mint_against_node id_of row (some status) 6 ≡ none
unfolding check_mint_against_node wbob_bridge.Prelude.Text.text_eq
    wbob_bridge.Prelude.Text.to_lower_case
row_passes = refl

check_mint-Evident_example : Evident id_of row status 6
check_mint-Evident_example = check_mint-Evident id_of row status 6 row_passes
