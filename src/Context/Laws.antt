-- ===== src/Context/Laws.antt =====
-- Setting and finding the states of tools, the message counter, and a new context.
use dcp.Base.{
  ℕ, ◌+◌, ◌*◌, ◌≤◌, ◌<◌, ◌^◌, ◌%◌, ◌≡◌, ◌≢◌, ◌⊎◌, inl, inr, refl, ap, ◌∙◌, Bool-cases, Option-cases,
  true, false, Option, none, some, List, length, ok, err, arith, if◌then◌else◌, ◌==◌, ==_iff, leb,
  holds_below, at-holds_below,
}
use dcp.Base.Bytes.{to_le, from_le, slice, from_le-to_le, length-to_le}
use dcp.Base.Slices.{write_at, slice-write_at, slice-write_at_before, slice-write_at_after}
use dcp.Error.{out_of_bounds}
use dcp.Context.{
  ToolState, DcpContext, new, new_layout, layout_as_bytes, states_as_bytes, as_bytes, new_state,
  from_shared, conversation_id, message_count, increment_message_count, get_tool_state, owns,
  find_tool_state, update_tool_state, slot_from, placed, set_tool_state, tool_state_offset, cast,
}
use dcp.Context.Slots.{
  IsState, IsContext, written, update_in, written-IsContext, written_same, written_other,
  written_header, slot_from-some, slot_from-none, find_from-first, find_from-ext,
}

owns_other : (a b : ℕ) (o : Option ToolState) → owns a o ≡ true → a ≢ b → owns b o ≡ false
unfolding owns
owns_other a b none own other = cc
owns_other a b (some s) own other = ground arith

-- What a write of the state of a tool promises.
pub record HasState (c : DcpContext) (s : ToolState) (d : DcpContext) : Type 0 where
  pub kept : IsContext d
  pub found : find_tool_state d s.tool_id ≡ some s
  pub others : (id : ℕ) → id ≢ s.tool_id → id ≢ 0 → find_tool_state d id ≡ find_tool_state c id
  pub conversation : conversation_id d ≡ conversation_id c
  pub messages : message_count d ≡ message_count c

module _ (c : DcpContext) (v : IsContext c) (s : ToolState) (w : IsState s) where
  -- Into a slot that is the first of this tool, or that is free while the tool has none.
  written-HasState :
      (k owner : ℕ)
      → (low : k < 25) → owns owner (get_tool_state c k) ≡ true
      → (owner ≡ s.tool_id) ⊎ (owner ≡ 0)
      → ((j : ℕ) → j < k → owns s.tool_id (get_tool_state c j) ≡ false)
      → HasState c s (written c v k s w low)
  written-HasState k owner low own whose before =
      let d = written c v k s w low in
      let same : get_tool_state d k ≡ some s = written_same c v k s w low in
      let mine : owns s.tool_id (get_tool_state d k) ≡ true =
        rw same (unfold owns in ground arith) in
      let header = written_header c v k s w low in
      record {
        kept = written-IsContext c v k s w low;
        found =
            unfold find_tool_state in
            (find_from-first d s.tool_id 25 0 k mine (omega arith) (omega (arith, low)) (λ j le lt.
                ap (owns s.tool_id) (written_other c v k s w low j (λ e. omega (arith, e, lt)))
                ∙ before j lt)
              ∙ same);
        others = λ id other nonzero.
            unfold find_tool_state in
            find_from-ext d c id 25 0 (λ j. elim (Bool-cases (j == k)) [
              | inl here ↦
                  let is = (==_iff j k).0 here in
                  let old : owns id (get_tool_state c j) ≡ false =
                    owns_other owner id (get_tool_state c j)
                      (ap (λ (i : ℕ). owns owner (get_tool_state c i)) is ∙ own)
                      (λ e. ground (arith, whose, e, other, nonzero)) in
                  let now : owns id (get_tool_state d j) ≡ false =
                    ap (λ (i : ℕ). owns id (get_tool_state d i)) is
                    ∙ ap (owns id) same
                    ∙ unfold owns in ground (arith, other) in
                  inr (now, old)
              | inr away ↦ inl (written_other c v k s w low j (λ e. ground (arith, e, away)))
            ]);
        conversation = header.0;
        messages = header.1;
      }

  set_at :
      (k : ℕ) → (low : k < 25) → placed k (update_tool_state c k s) ≡ (ok k, written c v k s w low)
  set_at k low = ap (placed k) (update_in c v k s w low) ∙ unfold placed in refl

  -- Neither a slot of this tool nor a free one.
  abbrev pub IsFull : Type 0
  IsFull =
      (j : ℕ)
      → j < 25
      → (owns s.tool_id (get_tool_state c j) ≡ false) × (owns 0 (get_tool_state c j) ≡ false)

  -- On a context with room for its layout, `set_tool_state` with a state of the widths of its fields
  -- either answers the number of a slot, and then the tool is found with this state, every other tool
  -- with a number other than 0 is found as before, and the conversation and the message count are the
  -- same; or no slot belongs to the tool and none is free, and then it answers `OutOfBounds` and
  -- changes nothing.
  pub set_tool_state_lem :
      ((k : ℕ) × (k < 25) × ((set_tool_state c s).0 ≡ ok k) × HasState c s (set_tool_state c s).1)
      ⊎ (IsFull × (set_tool_state c s ≡ (err out_of_bounds, c)))
  set_tool_state_lem = elim (Option-cases (slot_from c s.tool_id 25 0)) [
    | inr (k, mine) ↦
        let (own, le, low, before) = slot_from-some c s.tool_id 25 0 k mine in
        let done : set_tool_state c s ≡ (ok k, written c v k s w low) =
          unfold set_tool_state in rw (mine, set_tool_state) (set_at k low) in
        inl (
          rw done (
            k,
            low,
            refl,
            written-HasState k s.tool_id low own (inl refl) (λ j lt. before j (omega arith) lt),
          ))
    | inl gone ↦ elim (Option-cases (slot_from c 0 25 0)) [
      | inr (k, free) ↦
          let (own, le, low, before) = slot_from-some c 0 25 0 k free in
          let done : set_tool_state c s ≡ (ok k, written c v k s w low) =
            unfold set_tool_state in rw (gone, free, set_tool_state) (set_at k low) in
          inl (
            rw done (
              k,
              low,
              refl,
              written-HasState k 0 low own (inr refl) (λ j lt.
                  slot_from-none c s.tool_id 25 0 gone j (omega arith) (omega (arith, lt, low))),
            ))
      | inl full ↦ inr (
        λ j lt. (
          slot_from-none c s.tool_id 25 0 gone j (omega arith) (omega (arith, lt)),
          slot_from-none c 0 25 0 full j (omega arith) (omega (arith, lt)),
        ),
        unfold set_tool_state in rw (gone, full, set_tool_state) refl,
      )
    ]
  ]

-- `increment_message_count` answers the new count, which is one more until the u64 wraps; every tool
-- state and the conversation stay.
pub increment_message_count_lem :
    (c : DcpContext)
    → IsContext c
    → ((increment_message_count c).0 ≡ (message_count c + 1) % 2 ^ 64)
      × (message_count (increment_message_count c).1 ≡ (increment_message_count c).0)
      × (conversation_id (increment_message_count c).1 ≡ conversation_id c)
      × ((j : ℕ) → get_tool_state (increment_message_count c).1 j ≡ get_tool_state c j)
unfolding increment_message_count
increment_message_count_lem c v =
    let count = (message_count c + 1) % 2 ^ 64 in
    let field = to_le 8 count in
    let fits : 16 + length field ≤ length c.buffer = omega (arith, v, length-to_le 8 count) in
    (
      refl,
      unfold message_count in
          (ap from_le (slice-write_at 16 (to_le 8 count) c.buffer fits)
            ∙ from_le-to_le 8 count (omega arith)),
      unfold conversation_id in
          ap from_le (slice-write_at_before 16 field c.buffer fits 8 8 (omega arith)),
      λ j.
          unfold get_tool_state tool_state_offset in
          ap (λ (t : List ℕ). if leb 25 j then none else some (cast t))
            (slice-write_at_after 16 field c.buffer fits (24 + j * 40) 40
              (omega (arith, length-to_le 8 count))),
    )

free_table : (id : ℕ) → holds_below (λ j. owns 0 (get_tool_state (new id) j)) 25 ≡ true
unfolding holds_below owns get_tool_state new new_layout layout_as_bytes states_as_bytes as_bytes
    new_state tool_state_offset cast slice write_at
free_table id = refl

conversation_new : (id : ℕ) → id < 2 ^ 64 → conversation_id (new id) ≡ id
unfolding conversation_id new new_layout layout_as_bytes slice write_at
conversation_new id small = from_le-to_le 8 id small

messages_new : (id : ℕ) → message_count (new id) ≡ 0
unfolding message_count new new_layout layout_as_bytes slice write_at
messages_new id = refl

shared_new : (id : ℕ) → from_shared (new id).buffer ≡ ok (new id)
unfolding from_shared new new_layout layout_as_bytes states_as_bytes as_bytes new_state slice
    write_at
shared_new id = refl

-- A new context holds its conversation, no messages and no tool, and is accepted as shared memory.
pub new_lem :
    (id : ℕ)
    → id < 2 ^ 64
    → (conversation_id (new id) ≡ id)
      × (message_count (new id) ≡ 0)
      × (from_shared (new id).buffer ≡ ok (new id))
      × ((j : ℕ) → j < 25 → owns 0 (get_tool_state (new id) j) ≡ true)
new_lem id small = (
  conversation_new id small,
  messages_new id,
  shared_new id,
  λ j lt. at-holds_below (λ k. owns 0 (get_tool_state (new id) k)) j 25 lt (free_table id),
)
