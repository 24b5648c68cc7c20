-- ===== src/TxBuilder/RawTxLaws.antt =====
-- Reading back the inputs of a serialized transaction (backend/src/dobbscoin/tx-builder.ts,
-- `txInputsFromRawHex`), against the legacy serialization written out here.
use wbob_bridge.Prelude.{
  ℕ, zero, suc, ◌+◌, ◌/◌, ◌%◌, ◌<◌, ◌≡◌, refl, false, ◌∙◌, sym, ap, some, List, [], ◌∷◌, ◌++◌, map,
  arith, ltb, ◌==◌, if◌then◌else◌, length, All, Bool-cases, inl, inr,
}
use wbob_bridge.TxBuilder.RawTx.{
  TxInput, RawTx, skip, read_le, read_varint, read_input, read_inputs, tx_inputs_from_raw_hex,
}

-- The number has `n` bytes at most.
abbrev pub Fits : ℕ → ℕ → Type 0
Fits zero v = v ≡ 0
Fits (suc n) v = Fits n (v / 256)

unfoldable pub write_le : ℕ → ℕ → RawTx
write_le zero v = []
write_le (suc n) v = (v % 256) ∷ write_le n (v / 256)

unfoldable pub write_varint : ℕ → RawTx
unfolding write_le
write_varint v =
    if ltb v 253 then v ∷ [] else if ltb v 65536 then 253 ∷ write_le 2 v else 254 ∷ write_le 4 v

pub record SerializedInput : Type 0 where
  pub outpoint : TxInput
  pub script : List ℕ
  pub sequence : List ℕ

unfoldable pub write_input : SerializedInput → RawTx → RawTx
write_input i rest =
    write_le 32 i.outpoint.txid
    ++ (write_le 4 i.outpoint.vout
        ++ (write_varint (length i.script) ++ (i.script ++ (i.sequence ++ rest))))

unfoldable pub write_inputs : List SerializedInput → RawTx → RawTx
write_inputs [] rest = rest
write_inputs (i ∷ is) rest = write_input i (write_inputs is rest)

-- Version, inputs, and whatever follows them.
unfoldable pub write_tx : List ℕ → List SerializedInput → RawTx → RawTx
write_tx version is rest = version ++ (write_varint (length is) ++ write_inputs is rest)

pub record IsWritable (i : SerializedInput) : Type 0 where
  pub txid_fits : Fits 32 i.outpoint.txid
  pub vout_fits : Fits 4 i.outpoint.vout
  pub script_fits : length i.script < 4294967296
  pub sequence_length : length i.sequence ≡ 4

skip-append : (xs rest : RawTx) → skip (length xs) (xs ++ rest) ≡ rest
unfolding skip
skip-append [] rest = refl
skip-append (x ∷ xs) rest = skip-append xs rest

skip-add : (n : ℕ) (xs rest : RawTx) → skip (length xs + n) (xs ++ rest) ≡ skip n rest
unfolding skip
skip-add n [] rest = ap (λ k. skip k rest) (omega arith)
skip-add n (x ∷ xs) rest =
    let e : suc (length xs) + n ≡ suc (length xs + n) = omega arith in rw e (skip-add n xs rest)

read-write_le :
    (n v : ℕ) (rest : RawTx) → Fits n v → read_le n (write_le n v ++ rest) ≡ some (v, rest)
unfolding read_le write_le
read-write_le zero v rest h = ground arith
read-write_le (suc n) v rest h = ground (arith, read-write_le n (v / 256) rest)

read-write_varint :
    (v : ℕ) (rest : RawTx) → v < 4294967296 → read_varint (write_varint v ++ rest) ≡ some (v, rest)
unfolding read_varint write_varint
read-write_varint v rest h = elim (Bool-cases (ltb v 253)) [
  | inl one ↦ rw one (rw one refl)
  | inr more ↦ elim (Bool-cases (ltb v 65536)) [
    | inl two ↦ rw (more, two) (read-write_le 2 v rest (ground arith))
    | inr four ↦ rw (more, four) (read-write_le 4 v rest (omega arith))
  ]
]

append_assoc : (xs ys zs : RawTx) → (xs ++ ys) ++ zs ≡ xs ++ (ys ++ zs)
append_assoc [] ys zs = refl
append_assoc (x ∷ xs) ys zs = ap (λ l. x ∷ l) (append_assoc xs ys zs)

read-write_input :
    (i : SerializedInput) (rest : RawTx)
    → IsWritable i
    → read_input (write_input i rest) ≡ some (i.outpoint, rest)
unfolding read_input write_input
read-write_input i rest w =
    let tail : RawTx = i.script ++ (i.sequence ++ rest) in
    let e1 =
      read-write_le 32 i.outpoint.txid
        (write_le 4 i.outpoint.vout ++ (write_varint (length i.script) ++ tail)) w.txid_fits in
    let e2 = read-write_le 4 i.outpoint.vout (write_varint (length i.script) ++ tail) w.vout_fits in
    let e3 = read-write_varint (length i.script) tail w.script_fits in
    let e4 : skip (length i.script + 4) tail ≡ rest =
      skip-add 4 i.script (i.sequence ++ rest)
      ∙ (ap (λ k. skip k (i.sequence ++ rest)) (sym w.sequence_length)
          ∙ skip-append i.sequence rest) in
    rw (e1, read_input, e2, e3, e4) refl

read-write_inputs :
    (is : List SerializedInput) (rest : RawTx)
    → All IsWritable is
    → read_inputs (length is) (write_inputs is rest)
      ≡ some (map (λ (i : SerializedInput). i.outpoint) is)
unfolding read_inputs write_inputs
read-write_inputs [] rest w = refl
read-write_inputs (i ∷ is) rest w =
    rw (read-write_input i (write_inputs is rest) w.0, read_inputs, read-write_inputs is rest w.1)
      refl

-- From a serialized transaction with at least one input the outpoints are read back, in order,
-- whatever stands in the scripts and behind the inputs.
pub tx_inputs-write_tx :
    (version : List ℕ) (is : List SerializedInput) (rest : RawTx)
    → length version ≡ 4
    → 0 < length is
    → length is < 4294967296
    → All IsWritable is
    → tx_inputs_from_raw_hex (write_tx version is rest)
      ≡ some (map (λ (i : SerializedInput). i.outpoint) is)
unfolding tx_inputs_from_raw_hex write_tx
tx_inputs-write_tx version is rest four some_input fits w =
    let tail : RawTx = write_varint (length is) ++ write_inputs is rest in
    let e1 : skip 4 (version ++ tail) ≡ tail =
      ap (λ k. skip k (version ++ tail)) (sym four) ∙ skip-append version tail in
    let e2 = read-write_varint (length is) (write_inputs is rest) fits in
    let e3 : (length is == 0) ≡ false = ground arith in
    rw (e1, tx_inputs_from_raw_hex, e2, e3) (read-write_inputs is rest w)
