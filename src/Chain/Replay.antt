-- ===== src/Chain/Replay.antt =====
-- What a poll hands to the handlers, and what a failing handler leaves behind
-- (watcher/src/chain/block-poller.ts).
use wbob_bridge.Prelude.{
  ℕ, ◌-◌, ◌≡◌, refl, Bool, true, false, Option, none, some, List, [], ◌∷◌, ◌++◌, map, arith, leb,
  Bool-cases, inl, inr, ap, ◌⊎◌,
}
use wbob_bridge.Prelude.Tables.{select_all}
use wbob_bridge.Shared.Result.{ok}
use wbob_bridge.Chain.{
  BlockHeader, ReorgResult, has_hash, get_header, set_header, prune, add_block, compute_diff,
}
use wbob_bridge.Chain.Poller.{
  PollerState, Polled, orphaned_block, new_block, handler_failed, emit_orphans, emit_blocks,
  apply_diff, advance_to,
}

set_header-none :
    (c : ℕ) (h : BlockHeader) (w : List BlockHeader)
    → has_hash c h ≡ false
    → get_header c w ≡ none
    → get_header c (set_header h w) ≡ none
unfolding set_header
set_header-none c h [] other e = ground arith
set_header-none c h (x ∷ w) other e = ground (arith, set_header-none c h w other)

select_all-none :
    (c : ℕ) (p : BlockHeader → Bool) (w : List BlockHeader)
    → get_header c w ≡ none
    → get_header c (select_all p w) ≡ none
select_all-none c p [] e = refl
select_all-none c p (x ∷ w) e = ground (arith, select_all-none c p w)

add_block-none :
    (depth c : ℕ) (h : BlockHeader) (w : List BlockHeader)
    → has_hash c h ≡ false
    → get_header c w ≡ none
    → get_header c (add_block depth h w) ≡ none
unfolding add_block prune
add_block-none depth c h w other e =
    select_all-none c (λ x. leb (h.height - depth) x.height) (set_header h w)
      (set_header-none c h w other e)

abbrev pub Advanced : ℕ → ReorgResult → PollerState → Polled → Type 0
Advanced new_tip d s r =
    ((r.thrown ≡ none)
      × ((r.state.tip_hash ≡ some new_tip)
          × (r.events ≡ map orphaned_block d.orphaned ++ map new_block d.added)))
    ⊎ ((r.thrown ≡ some handler_failed) × (r.state.tip_hash ≡ s.tip_hash))

module _ (fetch_header : ℕ → Option BlockHeader) (best_hash : Option ℕ)
    (takes_block takes_orphan : BlockHeader → Bool) (fuel reorg_depth : ℕ) where
  emit_orphans_done :
      (hs w : List BlockHeader)
      → (emit_orphans fetch_header best_hash takes_block takes_orphan fuel reorg_depth hs
          w).completed
        ≡ true
      → (emit_orphans fetch_header best_hash takes_block takes_orphan fuel reorg_depth hs w).events
        ≡ map orphaned_block hs
  unfolding emit_orphans
  emit_orphans_done [] w e = refl
  emit_orphans_done (h ∷ hs) w e = elim (Bool-cases (takes_orphan h)) [
    | inl good ↦
        rw (good, emit_orphans)
          (ap (λ es. orphaned_block h ∷ es)
            (emit_orphans_done hs (add_block reorg_depth h w) (rw (good, emit_orphans) at e)))
    | inr bad ↦ absurd (ground arith)
  ]

  emit_blocks_done :
      (hs w : List BlockHeader)
      → (emit_blocks fetch_header best_hash takes_block takes_orphan fuel reorg_depth hs
          w).completed
        ≡ true
      → (emit_blocks fetch_header best_hash takes_block takes_orphan fuel reorg_depth hs w).events
        ≡ map new_block hs
  unfolding emit_blocks
  emit_blocks_done [] w e = refl
  emit_blocks_done (h ∷ hs) w e = elim (Bool-cases (takes_block h)) [
    | inl good ↦
        rw (good, emit_blocks)
          (ap (λ es. new_block h ∷ es)
            (emit_blocks_done hs (add_block reorg_depth h w) (rw (good, emit_blocks) at e)))
    | inr bad ↦ absurd (ground arith)
  ]

  -- A block that its handler refuses does not join the window, so a later poll fetches it again.
  pub refused_block_stays_unknown :
      (c : ℕ) (hs w : List BlockHeader)
      → ((h : BlockHeader) → has_hash c h ≡ true → takes_block h ≡ false)
      → get_header c w ≡ none
      → get_header c
          (emit_blocks fetch_header best_hash takes_block takes_orphan fuel reorg_depth hs w).window
        ≡ none
  unfolding emit_blocks
  refused_block_stays_unknown c [] w refuses new = new
  refused_block_stays_unknown c (h ∷ hs) w refuses new = elim (Bool-cases (takes_block h)) [
    | inr bad ↦ rw (bad, emit_blocks) new
    | inl good ↦
        rw (good, emit_blocks)
          (refused_block_stays_unknown c hs (add_block reorg_depth h w) refuses
            (add_block-none reorg_depth c h w (other_hash good) new))
  ]
    where
      other_hash : takes_block h ≡ true → has_hash c h ≡ false
      other_hash good = ground (arith, refuses h)

  apply_diff-Advanced :
      (new_tip : ℕ) (d : ReorgResult) (s : PollerState)
      → Advanced new_tip d s
          (apply_diff fetch_header best_hash takes_block takes_orphan fuel reorg_depth new_tip d s)
  unfolding apply_diff
  apply_diff-Advanced new_tip d s =
      let down =
        emit_orphans fetch_header best_hash takes_block takes_orphan fuel reorg_depth d.orphaned
          s.window in
      let up =
        emit_blocks fetch_header best_hash takes_block takes_orphan fuel reorg_depth d.added
          down.window in
      elim (Bool-cases down.completed) [
        | inr bad ↦ rw (apply_diff, bad) (inr (refl, refl))
        | inl good ↦ elim (Bool-cases up.completed) [
          | inr bad ↦ rw (apply_diff, good, bad) (inr (refl, refl))
          | inl all ↦
              rw (apply_diff, good, all)
                (inl (
                  refl,
                  (
                    refl,
                    rw
                        (
                          emit_orphans_done d.orphaned s.window good,
                          emit_blocks_done d.added down.window all,
                        )
                        refl,
                  ),
                ))
        ]
      ]

  -- An advance to another branch either handles the orphans first, then the new blocks, each list
  -- whole and in its order, and records the new tip, or throws the handler's error and keeps the
  -- recorded tip.
  pub advance_to-Advanced :
      (tip new_tip : ℕ) (max_walk : Option ℕ) (s : PollerState) {d : ReorgResult}
      → compute_diff fetch_header s.window max_walk fuel new_tip tip ≡ ok (some d)
      → Advanced new_tip d s (
          advance_to fetch_header best_hash takes_block takes_orphan fuel reorg_depth tip new_tip
            max_walk s)
  unfolding advance_to
  advance_to-Advanced tip new_tip max_walk s {d} diff =
      rw (advance_to, diff) (apply_diff-Advanced new_tip d s)
