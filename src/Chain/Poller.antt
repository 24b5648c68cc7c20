-- ===== src/Chain/Poller.antt =====
-- watcher/src/chain/block-poller.ts: `advanceTo`, `poll` and `catchUp`. `fetch_header` is
-- getBlockHeader, `best_hash` is getBestBlockHash; `takes_block` and `takes_orphan` say of which
-- blocks the handlers return and do not throw, fetching the block included.
use wbob_bridge.Prelude.{
  ℕ, zero, suc, ◌+◌, ◌-◌, Bool, true, false, ◌&&◌, Option, none, some, List, [], ◌∷◌, ◌++◌, ltb,
  if◌then◌else◌,
}
use wbob_bridge.Shared.Result.{ok, err}
use wbob_bridge.Chain.{BlockHeader, DiffError, ReorgResult, get_header, add_block, compute_diff}

pub record BlockCursor : Type 0 where
  pub height : ℕ
  pub hash : ℕ

pub record PollerState : Type 0 where
  pub window : List BlockHeader
  pub tip_hash : Option ℕ

pub data PollEvent : Type 0 where
  orphaned_block new_block : BlockHeader → PollEvent

pub data PollError : Type 0 where
  diff_failed : DiffError → PollError
  rpc_failed handler_failed : PollError
  catch_up_too_far : ℕ → PollError
  node_behind_cursor : ℕ → PollError

-- What a call leaves behind: the state, the events that were handled, and the error if it threw.
pub record Polled : Type 0 where
  pub state : PollerState
  pub events : List PollEvent
  pub thrown : Option PollError

pub record Emitted : Type 0 where
  pub window : List BlockHeader
  pub events : List PollEvent
  pub completed : Bool

abbrev after_event : PollEvent → Emitted → Emitted
after_event event e = record e { events = event ∷ e.events }

module _ (fetch_header : ℕ → Option BlockHeader) (best_hash : Option ℕ)
    (takes_block takes_orphan : BlockHeader → Bool) (fuel reorg_depth : ℕ) where
  unfoldable pub emit_orphans : List BlockHeader → List BlockHeader → Emitted
  emit_orphans [] window = record { window = window; events = []; completed = true }
  emit_orphans (h ∷ hs) window = elim (takes_orphan h) [
    | false ↦ record { window = window; events = []; completed = false }
    | true ↦ after_event (orphaned_block h) (emit_orphans hs (add_block reorg_depth h window))
  ]

  -- A block joins the window only after its handler.
  unfoldable pub emit_blocks : List BlockHeader → List BlockHeader → Emitted
  emit_blocks [] window = record { window = window; events = []; completed = true }
  emit_blocks (h ∷ hs) window = elim (takes_block h) [
    | false ↦ record { window = window; events = []; completed = false }
    | true ↦ after_event (new_block h) (emit_blocks hs (add_block reorg_depth h window))
  ]

  abbrev pub failed_at : Option ℕ → Emitted → List PollEvent → Polled
  failed_at tip e before = record {
    state = record { window = e.window; tip_hash = tip };
    events = before ++ e.events;
    thrown = some handler_failed;
  }

  -- `advanceTo` once the difference is known.
  unfoldable pub apply_diff : ℕ → ReorgResult → PollerState → Polled
  unfolding emit_orphans emit_blocks
  apply_diff new_tip diff s =
      let down = emit_orphans diff.orphaned s.window in
      let up = emit_blocks diff.added down.window in
      if down.completed
      then (if up.completed
          then record {
            state = record { window = up.window; tip_hash = some new_tip };
            events = down.events ++ up.events;
            thrown = none;
          }
          else failed_at s.tip_hash up down.events)
      else failed_at s.tip_hash down []

  -- `advanceTo`, from the tip that is recorded.
  unfoldable pub advance_to : ℕ → ℕ → Option ℕ → PollerState → Polled
  unfolding apply_diff compute_diff
  advance_to tip new_tip max_walk s =
      elim (compute_diff fetch_header s.window max_walk fuel new_tip tip) [
        | err e ↦ record { state = s; events = []; thrown = some (diff_failed e) }
        | ok none ↦ record { state = s; events = []; thrown = none }
        | ok (some diff) ↦ apply_diff new_tip diff s
      ]

  unfoldable pub poll : PollerState → Polled
  unfolding advance_to
  poll s = elim best_hash [
    | none ↦ record { state = s; events = []; thrown = some rpc_failed }
    | some new_tip ↦ elim s.tip_hash [
      | some tip ↦ advance_to tip new_tip none s
      | none ↦ elim (fetch_header new_tip) [
        | none ↦ record { state = s; events = []; thrown = some rpc_failed }
        | some header ↦ record {
          state = record {
            window = add_block reorg_depth header s.window;
            tip_hash = some new_tip;
          };
          events = [];
          thrown = none;
        }
      ]
    ]
  ]

  -- The loop that seeds the window; the flag says that no header failed to come.
  unfoldable pub seed_window : ℕ → BlockHeader → List BlockHeader → List BlockHeader × Bool
  seed_window zero header window = (window, true)
  seed_window (suc left) header window =
      let window' = add_block reorg_depth header window in
      elim header.previousblockhash [
        | none ↦ (window', true)
        | some p ↦ elim (fetch_header p) [
          | none ↦ (window', false)
          | some parent ↦ seed_window left parent window'
        ]
      ]

  abbrev pub is_known : ℕ → List BlockHeader → Bool
  is_known hash window = elim (get_header hash window) [ none ↦ false | some h ↦ true ]

  -- `catchUp` from a cursor, once the window is seeded.
  unfoldable pub replay : BlockCursor → ℕ → BlockHeader → List BlockHeader × Bool → Polled
  unfolding advance_to
  replay cursor tip_hash tip (window, false) = record {
    state = record { window = window; tip_hash = none };
    events = [];
    thrown = some rpc_failed;
  }
  replay cursor tip_hash tip (window, true) =
      if ltb tip.height cursor.height && is_known tip_hash window
      then record {
        state = record { window = window; tip_hash = none };
        events = [];
        thrown = some (node_behind_cursor tip.height);
      }
      else advance_to cursor.hash tip_hash (some (tip.height - cursor.height + reorg_depth))
          (record { window = window; tip_hash = some cursor.hash })

  abbrev pub reset : PollerState
  reset = record { window = []; tip_hash = none }

  abbrev pub throw_reset : PollError → Polled
  throw_reset e = record { state = reset; events = []; thrown = some e }

  -- `catchUp`. More than `max_blocks` pending throws before anything is replayed.
  unfoldable pub catch_up : Option BlockCursor → ℕ → Polled
  unfolding replay seed_window
  catch_up start max_blocks = elim best_hash [
    | none ↦ throw_reset rpc_failed
    | some tip_hash ↦ elim (fetch_header tip_hash) [
      | none ↦ throw_reset rpc_failed
      | some tip ↦ elim start [
        | none ↦ record {
          state = record { window = add_block reorg_depth tip []; tip_hash = some tip_hash };
          events = [];
          thrown = none;
        }
        | some cursor ↦
            if ltb (cursor.height + max_blocks) tip.height
            then throw_reset (catch_up_too_far (tip.height - cursor.height))
            else elim (fetch_header cursor.hash) [
              | none ↦ throw_reset rpc_failed
              | some header ↦ replay cursor tip_hash tip (seed_window reorg_depth header [])
            ]
      ]
    ]
  ]
