-- ===== src/Deposits/Entered.antt =====
-- How recording deposits moves the orders of the watcher's tables, and what it logs
-- (passes A and A2 of watcher/src/deposits/block-handler.ts).
use wbob_bridge.Prelude.{
  ℕ, ◌+◌, ◌<◌, ◌≡◌, refl, sym, ap, subst, ◌∙◌, ◌⊎◌, true, false, Option, some, List, [], ◌∷◌, ◌++◌,
  ◌==◌, inl, inr, Bool-cases, All, All-append, arith,
}
use wbob_bridge.Prelude.Tables.{select_one, update_where}
use wbob_bridge.Shared.Inbound.{
  quote_created, deposit_address_assigned, deposit_seen_mempool, can_transition_inbound,
}
use wbob_bridge.Deposits.Tables.{
  DepositOrder, WatcherAudit, Store, state_transition, order_created, order_is, set_state,
}

-- An audit row of an entry: into DEPOSIT_SEEN_MEMPOOL, either along the allowed edge from
-- DEPOSIT_ADDRESS_ASSIGNED, or as the creation of an order, which no edge of the graph allows.
pub record IsEntry (row : WatcherAudit) : Type 0 where
  pub enters : row.to_state ≡ deposit_seen_mempool
  pub way :
      ((row.event_type ≡ state_transition)
        × (row.from_state ≡ deposit_address_assigned)
        × (can_transition_inbound row.from_state row.to_state ≡ true))
      ⊎ ((row.event_type ≡ order_created)
          × (row.from_state ≡ quote_created)
          × (can_transition_inbound row.from_state row.to_state ≡ false))

abbrev pub IsSeen : DepositOrder → Type 0
IsSeen o = o.state ≡ deposit_seen_mempool

-- Every order is still there, in its state or brought from DEPOSIT_ADDRESS_ASSIGNED to
-- DEPOSIT_SEEN_MEMPOOL, and the new ones are in that.
abbrev pub Entered : List DepositOrder → List DepositOrder → Type 0
Entered [] after = All (λ (o : DepositOrder). o.state ≡ deposit_seen_mempool) after
Entered (o ∷ before) [] = ⊥
Entered (o ∷ before) (p ∷ after) =
    (p.id ≡ o.id)
    × ((p.state ≡ o.state)
        ⊎ ((o.state ≡ deposit_address_assigned) × (p.state ≡ deposit_seen_mempool)))
    × Entered before after

-- Ids are a key, and the ones still to be handed out are new.
abbrev pub IsKeyed : List DepositOrder → ℕ → Type 0
IsKeyed [] next = Unit
IsKeyed (o ∷ os) next =
    (o.id < next) × All (λ (p : DepositOrder). (p.id == o.id) ≡ false) os × IsKeyed os next

-- What recording deposits does to the orders and to their audit rows.
pub record Recorded (s t : Store) : Type 0 where
  pub rows : List WatcherAudit
  pub appended : t.audit_events ≡ s.audit_events ++ rows
  pub entries : All IsEntry rows
  pub orders : Entered s.bridge_orders t.bridge_orders
  pub keyed : IsKeyed t.bridge_orders t.next_id

Entered-refl : (os : List DepositOrder) → Entered os os
Entered-refl [] = tt
Entered-refl (o ∷ os) = (refl, inl refl, Entered-refl os)

Entered-IsSeen : (os ps : List DepositOrder) → All IsSeen os → Entered os ps → All IsSeen ps
Entered-IsSeen [] ps h e = e
Entered-IsSeen (o ∷ os) [] h e = absurd e
Entered-IsSeen (o ∷ os) (p ∷ ps) h (i, inl same, e) = (same ∙ h.0, Entered-IsSeen os ps h.1 e)
Entered-IsSeen (o ∷ os) (p ∷ ps) h (i, inr moved, e) = (moved.1, Entered-IsSeen os ps h.1 e)

Entered-trans : (os ps qs : List DepositOrder) → Entered os ps → Entered ps qs → Entered os qs
Entered-trans [] ps qs h k = Entered-IsSeen ps qs h k
Entered-trans (o ∷ os) [] qs h k = absurd h
Entered-trans (o ∷ os) (p ∷ ps) [] h k = absurd k
Entered-trans (o ∷ os) (p ∷ ps) (q ∷ qs) (i, a, h) (j, b, k) =
    (j ∙ i, both a b, Entered-trans os ps qs h k)
  where
    both :
        (p.state ≡ o.state)
          ⊎ ((o.state ≡ deposit_address_assigned) × (p.state ≡ deposit_seen_mempool))
        → (q.state ≡ p.state)
          ⊎ ((p.state ≡ deposit_address_assigned) × (q.state ≡ deposit_seen_mempool))
        → (q.state ≡ o.state)
          ⊎ ((o.state ≡ deposit_address_assigned) × (q.state ≡ deposit_seen_mempool))
    both (inl e) (inl e') = inl (e' ∙ e)
    both (inl e) (inr (waits, seen)) = inr (sym e ∙ waits, seen)
    both (inr (waits, seen)) (inl e) = inr (waits, e ∙ seen)
    both (inr (waits, _)) (inr (_, seen)) = inr (waits, seen)

pub Entered-append :
    (os : List DepositOrder) (o : DepositOrder) → IsSeen o → Entered os (os ++ o ∷ [])
Entered-append [] o h = (h, tt)
Entered-append (p ∷ os) o h = (refl, inl refl, Entered-append os o h)

update_no_row :
    (i : ℕ) (f : DepositOrder → DepositOrder) (os : List DepositOrder)
    → All (λ (p : DepositOrder). (p.id == i) ≡ false) os
    → update_where (order_is i) f os ≡ os
update_no_row i f [] h = refl
update_no_row i f (o ∷ os) h = rw h.0 (ap (◌∷◌ o) (update_no_row i f os h.1))

found_first : {a b : DepositOrder} → ◌≡◌ {A = Option DepositOrder} (some a) (some b) → a ≡ b
found_first h = cc

pub Entered-update :
    (i n : ℕ) (o : DepositOrder) (os : List DepositOrder)
    → IsKeyed os n
    → select_one (order_is i) os ≡ some o
    → o.state ≡ deposit_address_assigned
    → Entered os (update_where (order_is i) (set_state deposit_seen_mempool) os)
Entered-update i n o [] key there waits = absurd (cc)
Entered-update i n o (x ∷ os) key there waits = elim (Bool-cases (x.id == i)) [
  | inr e ↦ rw e (refl, inl refl, Entered-update i n o os key.2 (rw e at there) waits)
  | inl e ↦ rw e (
    refl,
    inr (ap (λ (a : DepositOrder). a.state) (found_first (rw e at there)) ∙ waits, refl),
    subst (Entered os)
        (sym (
          update_no_row i (set_state deposit_seen_mempool) os
            (subst (λ k. All (λ (p : DepositOrder). (p.id == k) ≡ false) os) (same_id e) key.1)))
        (Entered-refl os),
  )
]
  where
    same_id : {a b : ℕ} → (a == b) ≡ true → a ≡ b
    same_id h = ground arith

-- Updates and new rows keep the key.
updated_key :
    (i k : ℕ) (f : DepositOrder → DepositOrder) (os : List DepositOrder)
    → ((o : DepositOrder) → (f o).id ≡ o.id)
    → All (λ (p : DepositOrder). (p.id == k) ≡ false) os
    → All (λ (p : DepositOrder). (p.id == k) ≡ false) (update_where (order_is i) f os)
updated_key i k f [] same h = tt
updated_key i k f (o ∷ os) same h = elim (Bool-cases (o.id == i)) [
  | inl e ↦ rw (e, same o) (h.0, updated_key i k f os same h.1)
  | inr e ↦ rw e (h.0, updated_key i k f os same h.1)
]

pub IsKeyed-update :
    (i n : ℕ) (os : List DepositOrder)
    → IsKeyed os n
    → IsKeyed (update_where (order_is i) (set_state deposit_seen_mempool) os) n
IsKeyed-update i n [] h = tt
IsKeyed-update i n (o ∷ os) h = elim (Bool-cases (o.id == i)) [
  | inl e ↦ rw e (h.0, updated_key i o.id _ os (λ a. refl) h.1, IsKeyed-update i n os h.2)
  | inr e ↦ rw e (h.0, updated_key i o.id _ os (λ a. refl) h.1, IsKeyed-update i n os h.2)
]

larger_differs : (a b : ℕ) → a < b → (b == a) ≡ false
larger_differs a b h = ground arith

pub IsKeyed-append :
    (n : ℕ) (os : List DepositOrder) (o : DepositOrder)
    → o.id ≡ n
    → IsKeyed os n
    → IsKeyed (os ++ o ∷ []) (n + 1)
IsKeyed-append n [] o e h = (omega arith, tt, tt)
IsKeyed-append n (p ∷ os) o e h = (
  omega (arith, h.0),
  All-append (λ (q : DepositOrder). (q.id == p.id) ≡ false) os (o ∷ []) h.1
      (larger_differs p.id o.id (omega (arith, h.0, e)), tt),
  IsKeyed-append n os o e h.2,
)

append_assoc : (xs ys zs : List WatcherAudit) → (xs ++ ys) ++ zs ≡ xs ++ (ys ++ zs)
append_assoc [] ys zs = refl
append_assoc (x ∷ xs) ys zs = ap (◌∷◌ x) (append_assoc xs ys zs)

append_nil : (xs : List WatcherAudit) → xs ≡ xs ++ []
append_nil [] = refl
append_nil (x ∷ xs) = ap (◌∷◌ x) (append_nil xs)

pub Recorded-refl : (s : Store) → IsKeyed s.bridge_orders s.next_id → Recorded s s
Recorded-refl s key = record {
  rows = [];
  appended = append_nil s.audit_events;
  entries = tt;
  orders = Entered-refl s.bridge_orders;
  keyed = key;
}

pub Recorded-trans : (s t u : Store) → Recorded s t → Recorded t u → Recorded s u
Recorded-trans s t u h k = record {
  rows = h.rows ++ k.rows;
  appended =
      k.appended ∙ ap (λ l. l ++ k.rows) h.appended ∙ append_assoc s.audit_events h.rows k.rows;
  entries = All-append IsEntry h.rows k.rows h.entries k.entries;
  orders = Entered-trans s.bridge_orders t.bridge_orders u.bridge_orders h.orders k.orders;
  keyed = k.keyed;
}
