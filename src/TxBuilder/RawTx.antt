-- ===== src/TxBuilder/RawTx.antt =====
-- backend/src/dobbscoin/tx-builder.ts, `txInputsFromRawHex`: the outpoints that a serialized
-- transaction spends. A transaction is the list of its bytes (Buffer.from of the hex), the offset is
-- what is left of it, and a txid is the number whose little-endian bytes the transaction holds.
use wbob_bridge.Prelude.{
  ℕ, zero, suc, ◌+◌, ◌*◌, Option, none, some, List, [], ◌∷◌, ltb, ◌==◌, if◌then◌else◌,
}

-- Where an outpoint points.
pub record TxInput : Type 0 where
  pub txid : ℕ
  pub vout : ℕ

abbrev pub RawTx : Type 0
RawTx = List ℕ

-- `o += n`, which may leave the buffer.
unfoldable pub skip : ℕ → RawTx → RawTx
skip zero b = b
skip (suc n) [] = []
skip (suc n) (x ∷ b) = skip n b

-- The number in the next `n` little-endian bytes, and what follows.
unfoldable pub read_le : ℕ → RawTx → Option (ℕ × RawTx)
read_le zero b = some (0, b)
read_le (suc n) [] = none
read_le (suc n) (x ∷ b) = elim (read_le n b) [
  | none ↦ none
  | some (v, rest) ↦ some (x + 256 * v, rest)
]

unfoldable pub read_varint : RawTx → Option (ℕ × RawTx)
read_varint [] = none
read_varint (f ∷ b) =
    if ltb f 253
    then some (f, b)
    else if f == 253
    then read_le 2 b
    else if f == 254
    then read_le 4 b
    else none

-- One turn of the loop: txid, vout, then scriptSig and sequence are passed over.
unfoldable pub read_input : RawTx → Option (TxInput × RawTx)
read_input b = elim (read_le 32 b) [
  | none ↦ none
  | some (txid, b1) ↦ elim (read_le 4 b1) [
    | none ↦ none
    | some (vout, b2) ↦ elim (read_varint b2) [
      | none ↦ none
      | some (length, b3) ↦ some (record { txid = txid; vout = vout }, skip (length + 4) b3)
    ]
  ]
]

unfoldable pub read_inputs : ℕ → RawTx → Option (List TxInput)
read_inputs zero b = some []
read_inputs (suc n) b = elim (read_input b) [
  | none ↦ none
  | some (i, rest) ↦ elim (read_inputs n rest) [ none ↦ none | some is ↦ some (i ∷ is) ]
]

-- `none` is a throw.
unfoldable pub tx_inputs_from_raw_hex : RawTx → Option (List TxInput)
tx_inputs_from_raw_hex b = elim (read_varint (skip 4 b)) [
  | none ↦ none
  | some (n, rest) ↦ if n == 0 then none else read_inputs n rest
]
