-- ===== src/Chain.antt =====
-- watcher/src/chain: following the active chain. This file is reorg-detector.ts, the window of
-- recent headers and `computeDiff`. A hash is a number; an empty `previousblockhash` is `none`.
-- `fetch_header` is the node, which may fail to answer.
use wbob_bridge.Prelude.{
  ℕ, zero, suc, ◌+◌, ◌-◌, Bool, true, false, Option, none, some, List, [], ◌∷◌, ltb, leb, ◌==◌,
  if◌then◌else◌,
}
use wbob_bridge.Prelude.Tables.{select_one, select_all}
use wbob_bridge.Shared.Result.{Result, ok, err}
pub mod Fork
pub mod Poller
pub mod Replay
mod Examples

pub record BlockHeader : Type 0 where
  pub hash : ℕ
  pub height : ℕ
  pub previousblockhash : Option ℕ

-- `too_far`, `at_genesis`: the two errors of `computeDiff`; `not_fetched`: the node's own;
-- `unfinished`: the walk's fuel is used up.
pub data DiffError : Type 0 where
  too_far at_genesis not_fetched unfinished : DiffError

pub record ReorgResult : Type 0 where
  pub orphaned : List BlockHeader
  pub added : List BlockHeader
  pub common_ancestor : BlockHeader

abbrev pub has_hash : ℕ → BlockHeader → Bool
has_hash hash h = h.hash == hash

-- `Map.set`: an entry that is there keeps its place.
unfoldable pub set_header : BlockHeader → List BlockHeader → List BlockHeader
set_header h [] = h ∷ []
set_header h (x ∷ xs) = if x.hash == h.hash then h ∷ xs else x ∷ set_header h xs

-- A cutoff below zero prunes nothing, and so does the cutoff zero.
unfoldable pub prune : ℕ → ℕ → List BlockHeader → List BlockHeader
prune depth tip_height window = select_all (λ h. leb (tip_height - depth) h.height) window

unfoldable pub add_block : ℕ → BlockHeader → List BlockHeader → List BlockHeader
unfolding set_header prune
add_block depth h window = prune depth h.height (set_header h window)

-- `window.get(hash)`; `knows` asks whether it is there.
abbrev pub get_header : ℕ → List BlockHeader → Option BlockHeader
get_header hash window = select_one (has_hash hash) window

unfoldable pub insert_desc : BlockHeader → List BlockHeader → List BlockHeader
insert_desc h [] = h ∷ []
insert_desc h (x ∷ xs) = if ltb h.height x.height then x ∷ insert_desc h xs else h ∷ x ∷ xs

unfoldable pub sort_desc : List BlockHeader → List BlockHeader
unfolding insert_desc
sort_desc [] = []
sort_desc (h ∷ hs) = insert_desc h (sort_desc hs)

unfoldable pub insert_asc : BlockHeader → List BlockHeader → List BlockHeader
insert_asc h [] = h ∷ []
insert_asc h (x ∷ xs) = if ltb x.height h.height then x ∷ insert_asc h xs else h ∷ x ∷ xs

unfoldable pub sort_asc : List BlockHeader → List BlockHeader
unfolding insert_asc
sort_asc [] = []
sort_asc (h ∷ hs) = insert_asc h (sort_asc hs)

-- `added.length >= maxWalk`; `none` is Infinity.
abbrev pub walked_enough : Option ℕ → ℕ → Bool
walked_enough none n = false
walked_enough (some most) n = leb most n

abbrev pub with_header :
    BlockHeader
    → Result DiffError (List BlockHeader × BlockHeader)
    → Result DiffError (List BlockHeader × BlockHeader)
with_header h (ok (hs, ancestor)) = ok (h ∷ hs, ancestor)
with_header h (err e) = err e

module _ (fetch_header : ℕ → Option BlockHeader) (window : List BlockHeader)
    (max_walk : Option ℕ) where
  -- The loop of `computeDiff`, on fuel: the headers fetched, newest first, and the known block.
  unfoldable pub walk_back : ℕ → ℕ → ℕ → Result DiffError (List BlockHeader × BlockHeader)
  walk_back zero n cursor = err unfinished
  walk_back (suc fuel) n cursor = elim (get_header cursor window) [
    | some ancestor ↦ ok ([], ancestor)
    | none ↦ elim (walked_enough max_walk n) [
      | true ↦ err too_far
      | false ↦ elim (fetch_header cursor) [
        | none ↦ err not_fetched
        | some h ↦ elim h.previousblockhash [
          | none ↦ err at_genesis
          | some p ↦ with_header h (walk_back fuel (n + 1) p)
        ]
      ]
    ]
  ]

  abbrev pub orphans_above : BlockHeader → List BlockHeader
  orphans_above ancestor = sort_desc (select_all (λ h. ltb ancestor.height h.height) window)

  abbrev pub diff_of :
      Result DiffError (List BlockHeader × BlockHeader) → Result DiffError (Option ReorgResult)
  diff_of (err e) = err e
  diff_of (ok (hs, ancestor)) = ok (
      some (record {
        orphaned = orphans_above ancestor;
        added = sort_asc hs;
        common_ancestor = ancestor;
      }))

  -- `computeDiff`; `none` is null.
  unfoldable pub compute_diff : ℕ → ℕ → ℕ → Result DiffError (Option ReorgResult)
  unfolding walk_back sort_asc sort_desc
  compute_diff fuel new_tip old_tip =
      if new_tip == old_tip then ok none else diff_of (walk_back fuel 0 new_tip)
