-- ===== src/Chain/Examples.antt =====
-- Runs and instances for the chain follower.
use wbob_bridge.Prelude.{
  ℕ, ◌≡◌, ◌≢◌, refl, Bool, true, false, Option, none, some, List, [], ◌∷◌, arith, ◌==◌,
  if◌then◌else◌,
}
use wbob_bridge.Shared.Result.{ok, err}
use wbob_bridge.Chain.{
  BlockHeader, DiffError, ReorgResult, unfinished, has_hash, get_header, compute_diff,
}
use wbob_bridge.Chain.Fork.{Chained, IsHonest, Remembers, compute_diff-Chained, compute_diff_ends}
use wbob_bridge.Chain.Poller.{
  PollerState, new_block, orphaned_block, emit_blocks, advance_to, poll, catch_up,
}
use wbob_bridge.Chain.Replay.{Advanced, refused_block_stays_unknown, advance_to-Advanced}

-- Block 1 at the bottom; 2 and 3 grow on it, 3 has the child 4.
abbrev block_1 : BlockHeader
block_1 = record { hash = 1; height = 0; previousblockhash = none }

abbrev block_2 : BlockHeader
block_2 = record { hash = 2; height = 1; previousblockhash = some 1 }

abbrev block_3 : BlockHeader
block_3 = record { hash = 3; height = 1; previousblockhash = some 1 }

abbrev block_4 : BlockHeader
block_4 = record { hash = 4; height = 2; previousblockhash = some 3 }

abbrev node : ℕ → Option BlockHeader
node c =
    if c == 1
    then some block_1
    else if c == 2
    then some block_2
    else if c == 3
    then some block_3
    else if c == 4
    then some block_4
    else none

node-IsHonest : IsHonest node
node-IsHonest = record { names = λ c got. ground arith; steps = λ c p got prev at. ground arith }

abbrev window : List BlockHeader
window = block_1 ∷ block_2 ∷ []

node-Remembers : Remembers node window
node-Remembers c h known = ground arith

abbrev reorganised : ReorgResult
reorganised = record {
  orphaned = block_2 ∷ [];
  added = block_3 ∷ block_4 ∷ [];
  common_ancestor = block_1;
}

reorg_found : compute_diff node window none 9 4 2 ≡ ok (some reorganised)
unfolding compute_diff
reorg_found = refl

compute_diff-Chained_example :
    (tip : BlockHeader) × ((node 4 ≡ some tip) × Chained block_1 (block_3 ∷ block_4 ∷ []) tip)
compute_diff-Chained_example =
    compute_diff-Chained node window none node-IsHonest 9 4 2 {d = reorganised} node-Remembers
      reorg_found

compute_diff_ends_example : compute_diff node window none 4 4 2 ≢ err unfinished
compute_diff_ends_example =
    compute_diff_ends node window none node-IsHonest 4 4 2 block_4 refl (omega arith)

abbrev takes_all : BlockHeader → Bool
takes_all h = true

abbrev refuses_4 : BlockHeader → Bool
refuses_4 h = if h.hash == 4 then false else true

abbrev on_2 : PollerState
on_2 = record { window = window; tip_hash = some 2 }

advance_to-Advanced_example :
    Advanced 4 reorganised on_2 (advance_to node (some 4) takes_all takes_all 9 200 2 4 none on_2)
advance_to-Advanced_example =
    advance_to-Advanced node (some 4) takes_all takes_all 9 200 2 4 none on_2 {d = reorganised}
      reorg_found

refused_block_stays_unknown_example :
    get_header 4
      (emit_blocks node (some 4) refuses_4 takes_all 9 200 (block_3 ∷ block_4 ∷ []) window).window
    ≡ none
refused_block_stays_unknown_example =
    refused_block_stays_unknown node (some 4) refuses_4 takes_all 9 200 4 (block_3 ∷ block_4 ∷ [])
      window (λ h same. ground arith) refl

-- From block 2 a poll orphans it and replays 3 and 4.
poll_follows_reorg :
    (poll node (some 4) takes_all takes_all 9 200 on_2).events
    ≡ orphaned_block block_2 ∷ new_block block_3 ∷ new_block block_4 ∷ []
unfolding poll
poll_follows_reorg = refl

-- Back on block 2, an orphan that is still in the window, nothing is replayed.
poll_back_replays_nothing :
    (poll node
      (some 2)
      takes_all
      takes_all
      9
      200
      (poll node (some 4) takes_all takes_all 9 200 on_2).state).events
    ≡ orphaned_block block_4 ∷ []
unfolding poll wbob_bridge.Chain.add_block
poll_back_replays_nothing = refl

-- A watcher that starts at the bottom catches up with the tip.
catch_up_replays :
    (catch_up node
      (some 4)
      takes_all
      takes_all
      9
      200
      (some (record { height = 0; hash = 1 }))
      5).events
    ≡ new_block block_3 ∷ new_block block_4 ∷ []
unfolding catch_up wbob_bridge.Chain.add_block
catch_up_replays = refl
