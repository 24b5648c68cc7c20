-- ===== src/Capacity/Reservations.antt =====
-- What the bridge has promised and the chain does not show yet
-- (backend/src/executor/mint-capacity.ts, `outstandingReservedSat`).
use wbob_bridge.Prelude.{
  ℕ, ◌+◌, ◌≡◌, refl, ◌∙◌, sym, ap, Bool, true, false, Option, none, some, List, [], ◌∷◌, arith,
  if◌then◌else◌, Bool-cases, inl, inr, All, ◌⊎◌,
}
use wbob_bridge.Prelude.Tables.{select_all}
use wbob_bridge.Prelude.Text.{
  Text, to_lower_case, has_text, has_text-cons, has_text-head, has_text-split,
}
use wbob_bridge.Capacity.{
  MintCapChainState, Reservation, counted_in_state, sum_outstanding_from, add_mined, mined_hashes,
  is_other_order, MintOrder, is_reserving, reserving_rows, outstanding_of_rows,
  outstanding_reserved_sat,
}

-- The sum without an accumulator.
abbrev sum_unless : (Reservation → Bool) → List Reservation → ℕ
sum_unless skip [] = 0
sum_unless skip (r ∷ rs) = (if skip r then 0 else r.amount_sat) + sum_unless skip rs

sum_outstanding_from-eq :
    (total : ℕ) (mined : List Text) (rs : List Reservation)
    → sum_outstanding_from total mined rs
      ≡ total + sum_unless (λ r. counted_in_state mined r.gnosis_tx_hash) rs
unfolding sum_outstanding_from
sum_outstanding_from-eq total mined [] = omega arith
sum_outstanding_from-eq total mined (r ∷ rs) = ground (
  arith,
  sum_outstanding_from-eq
      (if counted_in_state mined r.gnosis_tx_hash then total else total + r.amount_sat) mined rs,
)

sum_unless-cong :
    (p q : Reservation → Bool) (rs : List Reservation)
    → All (λ (r : Reservation). p r ≡ q r) rs
    → sum_unless p rs ≡ sum_unless q rs
sum_unless-cong p q [] h = refl
sum_unless-cong p q (r ∷ rs) h = rw (h.0, sum_unless-cong p q rs h.1) refl

bool_eq : (a b : Bool) → (a ≡ true → b ≡ true) → (b ≡ true → a ≡ true) → a ≡ b
bool_eq a b f g = ground arith

-- Whether the chain shows the hash of a reservation at or below the block.
abbrev pub is_on_chain : (Text → ℕ → Bool) → ℕ → Option Text → Bool
is_on_chain mined_at_or_before block none = false
is_on_chain mined_at_or_before block (some []) = false
is_on_chain mined_at_or_before block (some (c ∷ h)) = mined_at_or_before (c ∷ h) block

module _ (mined_at_or_before : Text → ℕ → Bool)
    (any_case : (g h : Text) (block : ℕ)
      → to_lower_case g ≡ to_lower_case h
      → mined_at_or_before g block ≡ mined_at_or_before h block)
    (block : ℕ) where
  -- The set grows with every row.
  add_mined-keeps :
      (o : Option Text) (t : Text) (ms : List Text)
      → has_text ms t ≡ true
      → has_text (add_mined mined_at_or_before block o ms) t ≡ true
  unfolding add_mined
  add_mined-keeps none t ms h = h
  add_mined-keeps (some []) t ms h = h
  add_mined-keeps (some (c ∷ k)) t ms h = elim (Bool-cases (mined_at_or_before (c ∷ k) block)) [
    | inl e ↦ rw e (has_text-cons (to_lower_case (c ∷ k)) t ms h)
    | inr e ↦ rw e h
  ]

  counted-keeps :
      (o o' : Option Text) (ms : List Text)
      → counted_in_state ms o ≡ true
      → counted_in_state (add_mined mined_at_or_before block o' ms) o ≡ true
  unfolding counted_in_state
  counted-keeps none o' ms h = h
  counted-keeps (some []) o' ms h = h
  counted-keeps (some (c ∷ k)) o' ms h = add_mined-keeps o' (to_lower_case (c ∷ k)) ms h

  counted-head :
      (o : Option Text) (ms : List Text)
      → is_on_chain mined_at_or_before block o ≡ true
      → counted_in_state (add_mined mined_at_or_before block o ms) o ≡ true
  unfolding counted_in_state add_mined
  counted-head none ms h = h
  counted-head (some []) ms h = h
  counted-head (some (c ∷ k)) ms h = rw h (has_text-head (to_lower_case (c ∷ k)) ms)

  -- What stands in the set was mined.
  add_mined_sound :
      (o : Option Text) (ms : List Text) (x : Text)
      → has_text (add_mined mined_at_or_before block o ms) (to_lower_case x) ≡ true
      → (has_text ms (to_lower_case x) ≡ true) ⊎ (mined_at_or_before x block ≡ true)
  unfolding add_mined
  add_mined_sound none ms x h = inl h
  add_mined_sound (some []) ms x h = inl h
  add_mined_sound (some (c ∷ k)) ms x h = elim (Bool-cases (mined_at_or_before (c ∷ k) block)) [
    | inr e ↦ inl (rw e at h)
    | inl e ↦ elim (has_text-split (to_lower_case (c ∷ k)) (to_lower_case x) ms (rw e at h)) [
      | inl same ↦ inr (sym (any_case (c ∷ k) x block same) ∙ e)
      | inr later ↦ inl later
    ]
  ]

  mined_hashes_sound :
      (rs : List Reservation) (x : Text)
      → has_text (mined_hashes mined_at_or_before block rs) (to_lower_case x) ≡ true
      → mined_at_or_before x block ≡ true
  unfolding mined_hashes has_text
  mined_hashes_sound [] x h = cc
  mined_hashes_sound (r ∷ rs) x h =
      elim (add_mined_sound r.gnosis_tx_hash (mined_hashes mined_at_or_before block rs) x h) [
        | inl earlier ↦ mined_hashes_sound rs x earlier
        | inr e ↦ e
      ]

  counted_sound :
      (rs : List Reservation) (o : Option Text)
      → counted_in_state (mined_hashes mined_at_or_before block rs) o ≡ true
      → is_on_chain mined_at_or_before block o ≡ true
  unfolding counted_in_state
  counted_sound rs none h = h
  counted_sound rs (some []) h = h
  counted_sound rs (some (c ∷ k)) h = mined_hashes_sound rs (c ∷ k) h

  abbrev Complete : List Text → List Reservation → Type 0
  Complete ms = All (λ (r : Reservation).
      is_on_chain mined_at_or_before block r.gnosis_tx_hash ≡ true
      → counted_in_state ms r.gnosis_tx_hash ≡ true)

  Complete-keeps :
      (o : Option Text) (ms : List Text) (rs : List Reservation)
      → Complete ms rs
      → Complete (add_mined mined_at_or_before block o ms) rs
  Complete-keeps o ms [] h = tt
  Complete-keeps o ms (r ∷ rs) h =
      ((λ p. counted-keeps r.gnosis_tx_hash o ms (h.0 p)), Complete-keeps o ms rs h.1)

  mined_hashes-Complete :
      (rs : List Reservation) → Complete (mined_hashes mined_at_or_before block rs) rs
  unfolding mined_hashes
  mined_hashes-Complete [] = tt
  mined_hashes-Complete (r ∷ rs) = (
    counted-head r.gnosis_tx_hash (mined_hashes mined_at_or_before block rs),
    Complete-keeps r.gnosis_tx_hash (mined_hashes mined_at_or_before block rs) rs
        (mined_hashes-Complete rs),
  )

  exact_on :
      (all rs : List Reservation)
      → Complete (mined_hashes mined_at_or_before block all) rs
      → All
          (λ (r : Reservation).
            counted_in_state (mined_hashes mined_at_or_before block all) r.gnosis_tx_hash
            ≡ is_on_chain mined_at_or_before block r.gnosis_tx_hash)
          rs
  exact_on all [] h = tt
  exact_on all (r ∷ rs) h =
      (bool_eq _ _ (counted_sound all r.gnosis_tx_hash) h.0, exact_on all rs h.1)

-- The sum of the rows that are another order's than the excluded one, unless the chain shows their
-- transaction at or below the block that the cap was read at.
abbrev sum_of_rows : (Text → ℕ → Bool) → ℕ → Option ℕ → List Reservation → ℕ
sum_of_rows mined_at_or_before block excluded [] = 0
sum_of_rows mined_at_or_before block excluded (r ∷ rs) =
    (if is_other_order excluded r
      then (if is_on_chain mined_at_or_before block r.gnosis_tx_hash then 0 else r.amount_sat)
      else 0)
    + sum_of_rows mined_at_or_before block excluded rs

sum_of_rows-eq :
    (mined_at_or_before : Text → ℕ → Bool) (block : ℕ) (excluded : Option ℕ)
    (rows : List Reservation)
    → sum_unless
        (λ r. is_on_chain mined_at_or_before block r.gnosis_tx_hash)
        (select_all (is_other_order excluded) rows)
      ≡ sum_of_rows mined_at_or_before block excluded rows
sum_of_rows-eq m block excluded [] = refl
sum_of_rows-eq m block excluded (r ∷ rows) = elim (Bool-cases (is_other_order excluded r)) [
  | inl e ↦ rw e (
      ap (λ (n : ℕ). (if is_on_chain m block r.gnosis_tx_hash then 0 else r.amount_sat) + n)
        (sum_of_rows-eq m block excluded rows))
  | inr e ↦ rw e (omega (arith, sum_of_rows-eq m block excluded rows))
]

-- On any rows, the set of mined hashes and the loop over it come to that sum, if the chain reader
-- does not care about the case in which a hash is spelled.
outstanding-eq-sum_of_rows :
    (mined_at_or_before : Text → ℕ → Bool)
    → ((g h : Text) (block : ℕ)
        → to_lower_case g ≡ to_lower_case h
        → mined_at_or_before g block ≡ mined_at_or_before h block)
    → (rows : List Reservation) (state : MintCapChainState) (excluded : Option ℕ)
    → outstanding_of_rows mined_at_or_before rows state excluded
      ≡ sum_of_rows mined_at_or_before state.block_number excluded rows
unfolding outstanding_of_rows
outstanding-eq-sum_of_rows m any_case rows state excluded =
    let others = select_all (is_other_order excluded) rows in
    let block = state.block_number in
    sum_outstanding_from-eq 0 (mined_hashes m block others) others
    ∙ (omega arith)
    ∙ sum_unless-cong _ _ others
        (exact_on m any_case block others others (mined_hashes-Complete m any_case block others))
    ∙ sum_of_rows-eq m block excluded rows

-- The sum of what a new deposit must leave alone: every mint request but the excluded order's whose
-- order is in MINT_AUTH_CREATED or MINT_SUBMITTED, unless the chain shows its transaction at or
-- below the block that the cap was read at.
abbrev pub reserved_sum : (Text → ℕ → Bool) → ℕ → Option ℕ → List MintOrder → List Reservation → ℕ
reserved_sum mined_at_or_before block excluded orders [] = 0
reserved_sum mined_at_or_before block excluded orders (r ∷ rs) =
    (if is_reserving orders r
      then (if is_other_order excluded r
          then (if is_on_chain mined_at_or_before block r.gnosis_tx_hash then 0 else r.amount_sat)
          else 0)
      else 0)
    + reserved_sum mined_at_or_before block excluded orders rs

reserved_sum-eq :
    (mined_at_or_before : Text → ℕ → Bool) (block : ℕ) (excluded : Option ℕ)
    (orders : List MintOrder) (rs : List Reservation)
    → sum_of_rows mined_at_or_before block excluded (reserving_rows orders rs)
      ≡ reserved_sum mined_at_or_before block excluded orders rs
unfolding reserving_rows
reserved_sum-eq m block excluded orders [] = refl
reserved_sum-eq m block excluded orders (r ∷ rs) = elim (Bool-cases (is_reserving orders r)) [
  | inl e ↦ rw e (
      ap
        (λ (n : ℕ).
          (if is_other_order excluded r
            then (if is_on_chain m block r.gnosis_tx_hash then 0 else r.amount_sat)
            else 0)
          + n)
        (reserved_sum-eq m block excluded orders rs))
  | inr e ↦ rw e (omega (arith, reserved_sum-eq m block excluded orders rs))
]

-- If the chain reader does not care about the case in which a hash is spelled, the query, the set of
-- mined hashes and the loop over it come to the sum of the mint requests of orders in
-- MINT_AUTH_CREATED or MINT_SUBMITTED, other than the excluded one, whose transaction the chain does
-- not show at or below the block.
pub outstanding-eq-reserved_sum :
    (mined_at_or_before : Text → ℕ → Bool)
    → ((g h : Text) (block : ℕ)
        → to_lower_case g ≡ to_lower_case h
        → mined_at_or_before g block ≡ mined_at_or_before h block)
    → (orders : List MintOrder) (mint_requests : List Reservation) (state : MintCapChainState)
      (excluded : Option ℕ)
    → outstanding_reserved_sat mined_at_or_before orders mint_requests state excluded
      ≡ reserved_sum mined_at_or_before state.block_number excluded orders mint_requests
unfolding outstanding_reserved_sat
outstanding-eq-reserved_sum m any_case orders rs state excluded =
    outstanding-eq-sum_of_rows m any_case (reserving_rows orders rs) state excluded
    ∙ reserved_sum-eq m state.block_number excluded orders rs
