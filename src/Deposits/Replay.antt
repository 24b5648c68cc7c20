-- ===== src/Deposits/Replay.antt =====
-- Replaying a block's deposits (watcher/src/deposits/block-handler.ts, pass A2).
use wbob_bridge.Prelude.{
  ℕ, ◌≡◌, refl, sym, subst, ◌⊎◌, inl, inr, Bool, true, false, ◌&&◌, none, List, [], ◌∷◌, ◌++◌,
  arith, ◌==◌, Bool-cases, Option-cases, All,
}
use wbob_bridge.Prelude.Tables.{any_row}
use wbob_bridge.Deposits.Matching.{RpcBlock, DepositMatch}
use wbob_bridge.Deposits.Tables.{SourceDeposit, TrackedAddress, Store}
use wbob_bridge.Deposits.Ingest.{
  Commit, committed, duplicate, failed, at_outpoint, is_recorded, last_with, ingest_new,
  ingest_match, auto_ingest,
}

clash : {b : Bool} → b ≡ true → b ≡ false → ⊥
clash t f = cc

any-append_right :
    (p : SourceDeposit → Bool) (xs : List SourceDeposit) (d : SourceDeposit)
    → p d ≡ true
    → any_row p (xs ++ d ∷ []) ≡ true
any-append_right p [] d h = ground arith
any-append_right p (x ∷ xs) d h = ground (arith, any-append_right p xs d h)

any-append_left :
    (p : SourceDeposit → Bool) (xs : List SourceDeposit) (d : SourceDeposit)
    → any_row p xs ≡ true
    → any_row p (xs ++ d ∷ []) ≡ true
any-append_left p [] d h = cc
any-append_left p (x ∷ xs) d h = ground (arith, any-append_left p xs d)

-- No two rows name one output.
abbrev pub IsUnique : List SourceDeposit → Type 0
IsUnique [] = Unit
IsUnique (d ∷ ds) =
    ((t v : ℕ) → at_outpoint t v d ≡ true → any_row (at_outpoint t v) ds ≡ false) × IsUnique ds

any-append_false :
    (p : SourceDeposit → Bool) (xs : List SourceDeposit) (d : SourceDeposit)
    → any_row p xs ≡ false
    → p d ≡ false
    → any_row p (xs ++ d ∷ []) ≡ false
any-append_false p [] d h k = ground arith
any-append_false p (x ∷ xs) d h k = ground (arith, any-append_false p xs d)

head_differs :
    (p : SourceDeposit → Bool) (x d : SourceDeposit) (ds : List SourceDeposit)
    → (p d ≡ true → any_row p (x ∷ ds) ≡ false)
    → p x ≡ true
    → p d ≡ false
head_differs p x d ds h k = ground arith

IsUnique-append :
    (ds : List SourceDeposit) (d : SourceDeposit)
    → IsUnique ds
    → ((t v : ℕ) → at_outpoint t v d ≡ true → any_row (at_outpoint t v) ds ≡ false)
    → IsUnique (ds ++ d ∷ [])
IsUnique-append [] d u new = ((λ t v h. refl), tt)
IsUnique-append (x ∷ ds) d u new = (
  (λ t v h.
      any-append_false (at_outpoint t v) ds d (u.0 t v h)
        (head_differs (at_outpoint t v) x d ds (new t v) h)),
  IsUnique-append ds d u.1 (λ t v h. ground (arith, new t v h)),
)

only_outpoint : (t v t' v' : ℕ) → ((t == t') && (v == v')) ≡ true → (t ≡ t') × (v ≡ v')
only_outpoint t v t' v' h = ground arith

module _ (deposit_id_of : ℕ → ℕ → ℕ → ℕ → ℕ → ℕ → ℕ) (block : RpcBlock) (m : DepositMatch)
    (a : TrackedAddress) (s : Store) where
  -- After its transaction an output is recorded.
  ingest_new-records : is_recorded m.txid m.vout (ingest_new deposit_id_of block m a s) ≡ true
  unfolding ingest_new
  ingest_new-records = elim (Bool-cases (is_recorded m.txid m.vout s)) [
    | inl old ↦ rw (ingest_new, old) old
    | inr new ↦
        rw (ingest_new, new)
          (any-append_right (at_outpoint m.txid m.vout) s.source_deposits _ (ground arith))
  ]

  -- What was recorded stays recorded.
  ingest_new-keeps :
      (t v : ℕ)
      → is_recorded t v s ≡ true
      → is_recorded t v (ingest_new deposit_id_of block m a s) ≡ true
  unfolding ingest_new
  ingest_new-keeps t v h = elim (Bool-cases (is_recorded m.txid m.vout s)) [
    | inl old ↦ rw (ingest_new, old) h
    | inr new ↦ rw (ingest_new, new) (any-append_left (at_outpoint t v) s.source_deposits _ h)
  ]

  ingest_new-IsUnique :
      IsUnique s.source_deposits → IsUnique (ingest_new deposit_id_of block m a s).source_deposits
  unfolding ingest_new
  ingest_new-IsUnique u = elim (Bool-cases (is_recorded m.txid m.vout s)) [
    | inl old ↦ rw (ingest_new, old) u
    | inr new ↦
        rw (ingest_new, new)
          (IsUnique-append s.source_deposits _ u λ t v h.
            let (et, ev) = only_outpoint m.txid m.vout t v h in
            subst (λ t'. any_row (at_outpoint t' v) s.source_deposits ≡ false) et
              (subst (λ v'. any_row (at_outpoint m.txid v') s.source_deposits ≡ false) ev new))
  ]

-- Why a match can be passed over for good: it pays no tracked address, it is recorded, or another
-- watcher has just recorded it.
abbrev pub Settled : (DepositMatch → Commit) → List TrackedAddress → DepositMatch → Store → Type 0
Settled commits tracked m s =
    (last_with (λ (a : TrackedAddress). a.dobbscoin_address == m.deposit_address) tracked ≡ none)
    ⊎ (is_recorded m.txid m.vout s ≡ true)
    ⊎ (commits m ≡ duplicate)

pub Commit-cases : (c : Commit) → (c ≡ committed) ⊎ (c ≡ duplicate) ⊎ (c ≡ failed)
Commit-cases committed = inl refl
Commit-cases duplicate = inr (inl refl)
Commit-cases failed = inr (inr refl)

-- What one match has come to.
pub data Handled (commits : DepositMatch → Commit) (deposit_id_of : ℕ → ℕ → ℕ → ℕ → ℕ → ℕ → ℕ)
    (block : RpcBlock) (tracked : List TrackedAddress) (m : DepositMatch) (s : Store)
    (complete : Bool) (r : Store × Bool) : Type 0 where
  passed :
      r ≡ (s, complete)
      → Settled commits tracked m s
      → Handled commits deposit_id_of block tracked m s complete r
  added :
      (a : TrackedAddress)
      → r ≡ (ingest_new deposit_id_of block m a s, complete)
      → Handled commits deposit_id_of block tracked m s complete r
  lost : r ≡ (s, false) → Handled commits deposit_id_of block tracked m s complete r

module _ (deposit_id_of : ℕ → ℕ → ℕ → ℕ → ℕ → ℕ → ℕ) (commits : DepositMatch → Commit)
    (block : RpcBlock) (tracked : List TrackedAddress) where
  pub handled :
      (m : DepositMatch) (s : Store) (complete : Bool)
      → Handled commits deposit_id_of block tracked m s complete
          (ingest_match deposit_id_of commits block tracked m s complete)
  unfolding ingest_match
  handled m s complete =
      elim (Option-cases
        (last_with (λ (a : TrackedAddress). a.dobbscoin_address == m.deposit_address) tracked)) [
          | inl stranger ↦ passed (rw (stranger, ingest_match) refl) (inl stranger)
          | inr (a, known) ↦ elim (Bool-cases (is_recorded m.txid m.vout s)) [
            | inl old ↦ passed (rw (known, ingest_match, old) refl) (inr (inl old))
            | inr new ↦ elim (Commit-cases (commits m)) [
              | inl good ↦ added a (rw (known, ingest_match, new, good) refl)
              | inr (inl twice) ↦
                  passed (rw (known, ingest_match, new, twice) refl) (inr (inr twice))
              | inr (inr bad) ↦ lost (rw (known, ingest_match, new, bad) refl)
            ]
          ]
        ]

  -- Pass A2 never records one output twice, whatever the database does with its transactions.
  pub auto_ingest-IsUnique :
      (ms : List DepositMatch) (s : Store) (complete : Bool)
      → IsUnique s.source_deposits
      → IsUnique (auto_ingest deposit_id_of commits block tracked ms s complete).0.source_deposits
  unfolding auto_ingest
  auto_ingest-IsUnique [] s complete u = u
  auto_ingest-IsUnique (m ∷ ms) s complete u =
      let r = ingest_match deposit_id_of commits block tracked m s complete in
      auto_ingest-IsUnique ms r.0 r.1 (kept (handled m s complete))
    where
      kept :
          {r : Store × Bool}
          → Handled commits deposit_id_of block tracked m s complete r
          → IsUnique r.0.source_deposits
      kept (passed e h) = rw e u
      kept (added a e) = rw e (ingest_new-IsUnique deposit_id_of block m a s u)
      kept (lost e) = rw e u

  keeps_recorded :
      (ms : List DepositMatch) (s : Store) (complete : Bool) (t v : ℕ)
      → is_recorded t v s ≡ true
      → is_recorded t v (auto_ingest deposit_id_of commits block tracked ms s complete).0 ≡ true
  unfolding auto_ingest
  keeps_recorded [] s complete t v h = h
  keeps_recorded (m ∷ ms) s complete t v h =
      let r = ingest_match deposit_id_of commits block tracked m s complete in
      keeps_recorded ms r.0 r.1 t v (kept (handled m s complete))
    where
      kept :
          {r : Store × Bool}
          → Handled commits deposit_id_of block tracked m s complete r
          → is_recorded t v r.0 ≡ true
      kept (passed e _) = rw e h
      kept (added a e) = rw e (ingest_new-keeps deposit_id_of block m a s t v h)
      kept (lost e) = rw e h

  stays_incomplete :
      (ms : List DepositMatch) (s : Store)
      → (auto_ingest deposit_id_of commits block tracked ms s false).1 ≡ false
  unfolding auto_ingest
  stays_incomplete [] s = refl
  stays_incomplete (m ∷ ms) s =
      let r = ingest_match deposit_id_of commits block tracked m s false in
      subst (λ c. (auto_ingest deposit_id_of commits block tracked ms r.0 c).1 ≡ false)
        (sym (still (handled m s false))) (stays_incomplete ms r.0)
    where
      still :
          {r : Store × Bool} → Handled commits deposit_id_of block tracked m s false r → r.1 ≡ false
      still (passed e _) = rw e refl
      still (added a e) = rw e refl
      still (lost e) = rw e refl

  Settled-later :
      (m : DepositMatch) (ms : List DepositMatch) (s : Store) (complete : Bool)
      → Settled commits tracked m s
      → Settled commits tracked m (auto_ingest deposit_id_of commits block tracked ms s complete).0
  Settled-later m ms s complete (inl stranger) = inl stranger
  Settled-later m ms s complete (inr (inl old)) =
      inr (inl (keeps_recorded ms s complete m.txid m.vout old))
  Settled-later m ms s complete (inr (inr twice)) = inr (inr twice)

  Settled-head :
      (m : DepositMatch) (ms : List DepositMatch) (s : Store) (r : Store × Bool)
      → Handled commits deposit_id_of block tracked m s true r
      → (auto_ingest deposit_id_of commits block tracked ms r.0 r.1).1 ≡ true
      → (r.1 ≡ true)
        × Settled commits tracked m (auto_ingest deposit_id_of commits block tracked ms r.0 r.1).0
  Settled-head m ms s r (passed e h) k = rw e (refl, Settled-later m ms s true h)
  Settled-head m ms s r (added a e) k = rw e (
    refl,
    Settled-later m ms (ingest_new deposit_id_of block m a s) true
        (inr (inl (ingest_new-records deposit_id_of block m a s))),
  )
  Settled-head m ms s r (lost e) k = absurd (
      clash
        (subst
          (λ (q : Store × Bool).
            (auto_ingest deposit_id_of commits block tracked ms q.0 q.1).1 ≡ true)
          e k)
        (stays_incomplete ms s))

  -- When pass A2 reports completeness, every match that pays a tracked address is recorded, unless
  -- another watcher had just recorded it: only then may the block be marked as processed.
  pub complete_loses_nothing :
      (ms : List DepositMatch) (s : Store)
      → (auto_ingest deposit_id_of commits block tracked ms s true).1 ≡ true
      → All
          (λ (m : DepositMatch).
            Settled commits tracked m (auto_ingest deposit_id_of commits block tracked ms s true).0)
          ms
  unfolding auto_ingest
  complete_loses_nothing [] s h = tt
  complete_loses_nothing (m ∷ ms) s h =
      let r = ingest_match deposit_id_of commits block tracked m s true in
      let (on, head) = Settled-head m ms s r (handled m s true) h in
      (
        head,
        subst
            (λ c.
              All
                (λ (m : DepositMatch).
                  Settled commits tracked m
                    (auto_ingest deposit_id_of commits block tracked ms r.0 c).0)
                ms)
            (sym on)
            (complete_loses_nothing ms r.0 (
              subst (λ c. (auto_ingest deposit_id_of commits block tracked ms r.0 c).1 ≡ true) on
                h)),
      )
