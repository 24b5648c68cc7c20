-- ===== src/Refund/SenderLaws.antt =====
-- On what a resolved sender rests (backend/src/dobbscoin/sender.ts).
use wbob_bridge.Prelude.{
  ℕ, ◌≡◌, refl, true, false, Option, none, some, List, [], ◌∷◌, ◌==◌, sym, subst, inl, inr,
  Bool-cases, Option-cases,
}
use wbob_bridge.Prelude.Text.{Text, codes, text_eq, to_lower_case, has_text}
use wbob_bridge.Prelude.Tables.{select_one}
use wbob_bridge.Refund.Sender.{
  RpcVin, ScriptPubKey, RpcOutput, RpcVerboseTx, SenderDetail, SenderFault, resolved, unresolved,
  hash160_of, detail_of, node_addresses, names_other, check_address, check_script, check_outpoint,
  resolve_sender,
}

module _ (p2pkh_address : Text → Text) (bridge_addresses : List Text) where
  -- On what a resolved sender rests.
  pub record IsSender (tx : RpcVerboseTx) (prev : Option RpcVerboseTx) (address : Text)
      : Type 0 where
    pub first : RpcVin
    pub more : List RpcVin
    pub txid : ℕ
    pub vout : ℕ
    pub prev_tx : RpcVerboseTx
    pub output : RpcOutput
    pub hash : Text
    pub node_address : Text
    pub first_input : tx.vin ≡ first ∷ more
    pub not_mined : first.coinbase ≡ false
    pub spends : (first.txid ≡ some txid) × (first.vout ≡ some vout)
    pub found : prev ≡ some prev_tx
    pub right_tx : names_other prev_tx.txid txid ≡ false
    pub right_output : select_one (λ (o : RpcOutput). o.n == vout) prev_tx.vout ≡ some output
    pub is_p2pkh : hash160_of (to_lower_case output.script.hex) ≡ some hash
    pub decodes : address ≡ p2pkh_address hash
    pub node_says : node_addresses output.script ≡ node_address ∷ []
    pub node_agrees : text_eq node_address address ≡ true
    pub not_ours : has_text bridge_addresses address ≡ false

  unresolved_is_none :
      {f : SenderFault} {d d' : SenderDetail} {a : Text} → unresolved f d ≡ resolved a d' → ⊥
  unresolved_is_none e = cc

  same_sender : {a b : Text} {d d' : SenderDetail} → resolved a d ≡ resolved b d' → a ≡ b
  same_sender e = cc

  address-checked :
      (decoded : Text) (addresses : List Text) (d d' : SenderDetail) (a : Text)
      → check_address p2pkh_address bridge_addresses decoded addresses d ≡ resolved a d'
      → (a ≡ decoded)
        × ((n : Text) × ((addresses ≡ n ∷ [])
              × ((text_eq n decoded ≡ true) × (has_text bridge_addresses decoded ≡ false))))
  address-checked decoded [] d d' a h = absurd (unresolved_is_none h)
  address-checked decoded (n ∷ m ∷ more) d d' a h = absurd (unresolved_is_none h)
  address-checked decoded (n ∷ []) d d' a h = elim (Bool-cases (text_eq n decoded)) [
    | inr differ ↦ absurd (unresolved_is_none (rw differ at h))
    | inl agree ↦ elim (Bool-cases (has_text bridge_addresses decoded)) [
      | inl ours ↦ absurd (unresolved_is_none (rw (agree, ours) at h))
      | inr other ↦ (sym (same_sender (rw (agree, other) at h)), (n, (refl, (agree, other))))
    ]
  ]

  script-checked :
      (s : ScriptPubKey) (d d' : SenderDetail) (a : Text)
      → check_script p2pkh_address bridge_addresses s d ≡ resolved a d'
      → (hash : Text) × ((hash160_of (to_lower_case s.hex) ≡ some hash)
          × (check_address p2pkh_address bridge_addresses (p2pkh_address hash) (node_addresses s) d
              ≡ resolved a d'))
  unfolding check_script
  script-checked s d d' a h = elim (Bool-cases (text_eq s.script_type (codes "pubkeyhash"))) [
    | inr other ↦ absurd (unresolved_is_none (rw (check_script, other) at h))
    | inl named ↦ elim (Option-cases (hash160_of (to_lower_case s.hex))) [
      | inl odd ↦ absurd (unresolved_is_none (rw (check_script, named, odd) at h))
      | inr (hash, standard) ↦ (hash, (standard, rw (check_script, named, standard) at h))
    ]
  ]

  outpoint-checked :
      (tx : RpcVerboseTx) (txid vout : ℕ) (prev : Option RpcVerboseTx) (d' : SenderDetail)
      (a : Text)
      → check_outpoint p2pkh_address bridge_addresses tx txid vout prev ≡ resolved a d'
      → (p : RpcVerboseTx) × ((o : RpcOutput) × ((prev ≡ some p)
            × ((names_other p.txid txid ≡ false)
                × ((select_one (λ (o : RpcOutput). o.n == vout) p.vout ≡ some o)
                    × (check_script p2pkh_address bridge_addresses o.script
                          (detail_of tx (some o.script.script_type))
                        ≡ resolved a d')))))
  unfolding check_outpoint
  outpoint-checked tx txid vout none d' a h = absurd (unresolved_is_none h)
  outpoint-checked tx txid vout (some p) d' a h = elim (Bool-cases (names_other p.txid txid)) [
    | inl other ↦ absurd (unresolved_is_none (rw (check_outpoint, other) at h))
    | inr right ↦ elim (Option-cases (select_one (λ (o : RpcOutput). o.n == vout) p.vout)) [
      | inl missing ↦ absurd (unresolved_is_none (rw (check_outpoint, right, missing) at h))
      | inr (o, there) ↦ (p, (o, (refl, (right, (there, rw (check_outpoint, right, there) at h)))))
    ]
  ]

  -- A sender that is resolved owned the output that the deposit's first input spends: that input is no
  -- coinbase, the output stands in the transaction that it names and is plain P2PKH, its script and the
  -- node agree on the address, the only one, and it is none of the bridge's own.
  pub resolve_sender-IsSender :
      (tx : RpcVerboseTx) (prev : Option RpcVerboseTx) (address : Text) (d : SenderDetail)
      → resolve_sender p2pkh_address bridge_addresses tx prev ≡ resolved address d
      → IsSender tx prev address
  unfolding resolve_sender
  resolve_sender-IsSender tx prev address d h = of_inputs tx.vin refl
    where
      from_outpoint :
          (first : RpcVin) (more : List RpcVin) (txid vout : ℕ)
          → tx.vin ≡ first ∷ more
          → first.coinbase ≡ false
          → first.txid ≡ some txid
          → first.vout ≡ some vout
          → check_outpoint p2pkh_address bridge_addresses tx txid vout prev ≡ resolved address d
          → IsSender tx prev address
      from_outpoint first more txid vout e mined t v h' =
          let (p, (o, (found, (right, (there, scripted))))) =
            outpoint-checked tx txid vout prev d address h' in
          let (hash, (standard, addressed)) =
            script-checked o.script (detail_of tx (some o.script.script_type)) d address scripted in
          let (same, (n, (only, (agree, other)))) =
            address-checked (p2pkh_address hash) (node_addresses o.script)
              (detail_of tx (some o.script.script_type)) d address addressed in
          record {
            first = first;
            more = more;
            txid = txid;
            vout = vout;
            prev_tx = p;
            output = o;
            hash = hash;
            node_address = n;
            first_input = e;
            not_mined = mined;
            spends = (t, v);
            found = found;
            right_tx = right;
            right_output = there;
            is_p2pkh = standard;
            decodes = same;
            node_says = only;
            node_agrees = subst (λ x. text_eq n x ≡ true) (sym same) agree;
            not_ours = subst (λ x. has_text bridge_addresses x ≡ false) (sym same) other;
          }

      of_inputs : (vin : List RpcVin) → tx.vin ≡ vin → IsSender tx prev address
      of_inputs [] e = absurd (unresolved_is_none (rw (e, resolve_sender) at h))
      of_inputs (first ∷ more) e = elim (Bool-cases first.coinbase) [
        | inl mined ↦ absurd (unresolved_is_none (rw (e, resolve_sender, mined) at h))
        | inr spending ↦ elim (Option-cases first.txid) [
          | inl unnamed ↦
              absurd (unresolved_is_none (rw (e, resolve_sender, spending, unnamed) at h))
          | inr (txid, t) ↦ elim (Option-cases first.vout) [
            | inl unnamed ↦
                absurd (unresolved_is_none (rw (e, resolve_sender, spending, t, unnamed) at h))
            | inr (vout, v) ↦
                from_outpoint first more txid vout e spending t v
                  (rw (e, resolve_sender, spending, t, v) at h)
          ]
        ]
      ]
