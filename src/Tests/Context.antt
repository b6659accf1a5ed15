-- ===== src/Tests/Context.antt =====
-- A context with one tool.
use dcp.Base.{ℕ, ◌+◌, ◌%◌, ◌^◌, ◌<◌, ◌≡◌, ◌⊎◌, refl, true, replicate, ok, err, arith}
use dcp.Error.{out_of_bounds}
use dcp.Context.{
  ToolState, new, new_layout, layout_as_bytes, states_as_bytes, as_bytes, new_state, from_shared,
  conversation_id, message_count, increment_message_count, get_tool_state, owns, set_tool_state,
}
use dcp.Base.Slices.{write_at}
use dcp.Context.Slots.{IsState, IsContext}
use dcp.Context.Laws.{HasState, IsFull, set_tool_state_lem, increment_message_count_lem, new_lem}

abbrev tool : ToolState
tool = record { tool_id = 7; flags = 1; last_invoked = 99; data_bytes = replicate 24 5 }

tool-IsState : IsState tool
tool-IsState = record {
  tool_id = omega arith;
  flags = omega arith;
  last_invoked = omega arith;
  filled = refl;
  bytes = omega arith;
}

new-IsContext : IsContext (new 3)
unfolding new new_layout layout_as_bytes states_as_bytes as_bytes new_state write_at
new-IsContext = omega arith

set_tool_state_lem_example :
    ((k : ℕ) × (k < 25)
      × ((set_tool_state (new 3) tool).0 ≡ ok k)
      × HasState (new 3) tool (set_tool_state (new 3) tool).1)
    ⊎ (IsFull (new 3) new-IsContext tool tool-IsState
        × (set_tool_state (new 3) tool ≡ (err out_of_bounds, new 3)))
set_tool_state_lem_example = set_tool_state_lem (new 3) new-IsContext tool tool-IsState

increment_message_count_lem_example :
    ((increment_message_count (new 3)).0 ≡ (message_count (new 3) + 1) % 2 ^ 64)
    × (message_count (increment_message_count (new 3)).1 ≡ (increment_message_count (new 3)).0)
    × (conversation_id (increment_message_count (new 3)).1 ≡ conversation_id (new 3))
    × ((j : ℕ) → get_tool_state (increment_message_count (new 3)).1 j ≡ get_tool_state (new 3) j)
increment_message_count_lem_example = increment_message_count_lem (new 3) new-IsContext

new_lem_example :
    (conversation_id (new 3) ≡ 3)
    × (message_count (new 3) ≡ 0)
    × (from_shared (new 3).buffer ≡ ok (new 3))
    × ((j : ℕ) → j < 25 → owns 0 (get_tool_state (new 3) j) ≡ true)
new_lem_example = new_lem 3 (omega arith)
