-- ===== src/Context/Slots.antt =====
-- Reading and writing the slots of tools.
use mathlib.Core.Path.{subst}
use dcp.Base.{
  ℕ, zero, suc, ◌+◌, ◌≤◌, ◌<◌, ◌^◌, ◌≡◌, ◌≢◌, ◌⊎◌, inl, inr, refl, ap, ap₂, sym, ◌∙◌, Bool-cases,
  true, false, none, some, List, length, take, take_all, ok, arith, ◌==◌, ==_iff, leb, ltb,
}
use dcp.Base.Bytes.{IsBytes, from_le, from_le-to_le, slice}
use dcp.Base.Slices.{
  write_at, length-write_at, slice-write_at, slice-write_at_before, slice-write_at_after,
}
use dcp.Context.{
  ToolState, cast, as_bytes, DcpContext, tool_state_offset, get_tool_state, owns, find_from,
  update_tool_state, slot_from, conversation_id, message_count,
}

pub record IsState (s : ToolState) : Type 0 where
  pub tool_id : s.tool_id < 2 ^ 32
  pub flags : s.flags < 2 ^ 32
  pub last_invoked : s.last_invoked < 2 ^ 64
  pub filled : length s.data_bytes ≡ 24
  pub bytes : IsBytes s.data_bytes

-- Room for the layout.
abbrev pub IsContext : DcpContext → Type 0
IsContext c = 1024 ≤ length c.buffer

pub cast-as_bytes : (s : ToolState) → IsState s → cast (as_bytes s) ≡ s
unfolding cast as_bytes slice
cast-as_bytes s v =
    let data_part : take 24 s.data_bytes ≡ s.data_bytes =
      take_all 24 s.data_bytes (omega (arith, v.filled)) in
    ap₂
      (λ (x : ℕ × ℕ × ℕ) (d : List ℕ). record {
        tool_id = x.0;
        flags = x.1;
        last_invoked = x.2;
        data_bytes = d;
      })
      (ap₂ (λ (a : ℕ) (b : ℕ × ℕ). (a, b.0, b.1))
        (from_le-to_le 4 s.tool_id (omega (arith, v.tool_id)))
        (ap₂ (λ (a b : ℕ). (a, b)) (from_le-to_le 4 s.flags (omega (arith, v.flags)))
          (from_le-to_le 8 s.last_invoked (omega (arith, v.last_invoked)))))
      data_part

pub length-as_bytes : (s : ToolState) → IsState s → length (as_bytes s) ≡ 40
unfolding as_bytes
length-as_bytes s v = omega (arith, v.filled)

module _ (c : DcpContext) (v : IsContext c) (index : ℕ) (s : ToolState) (w : IsState s)
    (low : index < 25) where
  place : tool_state_offset index + length (as_bytes s) ≤ length c.buffer
  unfolding tool_state_offset
  place = omega (arith, v, low, length-as_bytes s w)

  -- The context with the slot written.
  unfoldable pub written : DcpContext
  written = record c { buffer = write_at (tool_state_offset index) (as_bytes s) c.buffer }

  pub update_in : update_tool_state c index s ≡ (ok tt, written)
  unfolding update_tool_state written
  update_in = ground (arith, low)

  pub written-IsContext : IsContext written
  unfolding written
  written-IsContext =
      omega (arith, v, length-write_at (tool_state_offset index) (as_bytes s) c.buffer place)

  pub written_same : get_tool_state written index ≡ some s
  unfolding get_tool_state written
  written_same =
      let there : leb 25 index ≡ false = ground (arith, low) in
      let slot : slice (tool_state_offset index) 40
            (write_at (tool_state_offset index) (as_bytes s) c.buffer)
          ≡ as_bytes s =
        subst
          (λ (n : ℕ).
            slice (tool_state_offset index) n
              (write_at (tool_state_offset index) (as_bytes s) c.buffer)
            ≡ as_bytes s)
          (length-as_bytes s w)
          (slice-write_at (tool_state_offset index) (as_bytes s) c.buffer place) in
      rw (there, slot, cast-as_bytes s w) refl

  slot_other :
      (j : ℕ)
      → j ≢ index
      → slice (tool_state_offset j) 40 (write_at (tool_state_offset index) (as_bytes s) c.buffer)
        ≡ slice (tool_state_offset j) 40 c.buffer
  slot_other j other = elim (Bool-cases (ltb j index)) [
    | inl below ↦
        slice-write_at_before (tool_state_offset index) (as_bytes s) c.buffer place
          (tool_state_offset j) 40 (unfold tool_state_offset in ground arith)
    | inr above ↦
        slice-write_at_after (tool_state_offset index) (as_bytes s) c.buffer place
          (tool_state_offset j) 40 (unfold tool_state_offset in ground (arith, length-as_bytes s w))
  ]

  pub written_other : (j : ℕ) → j ≢ index → get_tool_state written j ≡ get_tool_state c j
  unfolding get_tool_state written
  written_other j other = rw (slot_other j other) refl

  pub written_header :
      (conversation_id written ≡ conversation_id c) × (message_count written ≡ message_count c)
  unfolding conversation_id message_count written
  written_header = (
    ap from_le (
        slice-write_at_before (tool_state_offset index) (as_bytes s) c.buffer place 8 8
          (unfold tool_state_offset in omega arith)),
    ap from_le (
        slice-write_at_before (tool_state_offset index) (as_bytes s) c.buffer place 16 8
          (unfold tool_state_offset in omega arith)),
  )

-- The first slot of a tool, and the loop that finds it.
module _ (c : DcpContext) (tool_id : ℕ) where
  abbrev pub Owned : ℕ → Type 0
  Owned j = owns tool_id (get_tool_state c j) ≡ true

  slot_skip :
      (n index k : ℕ)
      → owns tool_id (get_tool_state c index) ≡ false
      → slot_from c tool_id (suc n) index ≡ some k
      → slot_from c tool_id n (index + 1) ≡ some k
  unfolding slot_from
  slot_skip n index k other is = ground (arith, other, is)

  slot_past :
      (n index : ℕ)
      → slot_from c tool_id (suc n) index ≡ none
      → (owns tool_id (get_tool_state c index) ≡ false) × (slot_from c tool_id n (index + 1) ≡ none)
  unfolding slot_from
  slot_past n index is = ground arith

  pub slot_from-some :
      (n index k : ℕ)
      → slot_from c tool_id n index ≡ some k
      → Owned k
        × (index ≤ k)
        × (k < index + n)
        × ((j : ℕ) → index ≤ j → j < k → owns tool_id (get_tool_state c j) ≡ false)
  slot_from-some zero index k is = absurd (unfold slot_from in cc)
  slot_from-some (suc n) index k is = elim (Bool-cases (owns tool_id (get_tool_state c index))) [
    | inl own ↦
        let here : index ≡ k = unfold slot_from in ground (arith, own, is) in
        (
          subst (λ (j : ℕ). Owned j) here own,
          omega (arith, here),
          omega (arith, here),
          λ j le lt. absurd (omega (arith, here)),
        )
    | inr other ↦
        let later : slot_from c tool_id n (index + 1) ≡ some k = slot_skip n index k other is in
        let r = slot_from-some n (index + 1) k later in
        (
          r.0,
          omega (arith, r.1),
          omega (arith, r.2),
          λ j le lt. elim (Bool-cases (j == index)) [
            | inl same ↦
                ap (λ (i : ℕ). owns tool_id (get_tool_state c i)) ((==_iff j index).0 same) ∙ other
            | inr after ↦ r.3 j (ground arith) lt
          ],
        )
  ]

  pub slot_from-none :
      (n index : ℕ)
      → slot_from c tool_id n index ≡ none
      → (j : ℕ) → index ≤ j
      → j < index + n
      → owns tool_id (get_tool_state c j) ≡ false
  slot_from-none zero index is j le lt = absurd (omega arith)
  slot_from-none (suc n) index is j le lt =
      let step = slot_past n index is in
      elim (Bool-cases (j == index)) [
        | inl here ↦
            ap (λ (i : ℕ). owns tool_id (get_tool_state c i)) ((==_iff j index).0 here) ∙ step.0
        | inr after ↦ slot_from-none n (index + 1) step.1 j (ground arith) (omega (arith, lt))
      ]

  -- The search finds the state of the first slot of the tool.
  pub find_from-first :
      (n index k : ℕ)
      → Owned k
      → index ≤ k
      → k < index + n
      → ((j : ℕ) → index ≤ j → j < k → owns tool_id (get_tool_state c j) ≡ false)
      → find_from c tool_id n index ≡ get_tool_state c k
  unfolding find_from
  find_from-first zero index k own le lt before = absurd (omega arith)
  find_from-first (suc n) index k own le lt before = elim (Bool-cases (k == index)) [
    | inl here ↦
        let is = (==_iff k index).0 here in
        let own_here : owns tool_id (get_tool_state c index) ≡ true =
          subst (λ (j : ℕ). Owned j) is own in
        rw own_here (ap (get_tool_state c) (sym is))
    | inr later ↦
        let up : index + 1 ≤ k = ground arith in
        rw (before index (omega arith) (omega (arith, up))) (
          find_from-first n (index + 1) k own up (omega arith)
            (λ j low high. before j (omega arith) high))
  ]

-- Contexts whose slots agree, but for slots of other tools, find the same.
pub find_from-ext :
    (c d : DcpContext) (tool_id n index : ℕ)
    → ((j : ℕ)
        → (get_tool_state c j ≡ get_tool_state d j)
          ⊎ ((owns tool_id (get_tool_state c j) ≡ false)
              × (owns tool_id (get_tool_state d j) ≡ false)))
    → find_from c tool_id n index ≡ find_from d tool_id n index
unfolding find_from
find_from-ext c d tool_id zero index agree = refl
find_from-ext c d tool_id (suc n) index agree =
    let rest = find_from-ext c d tool_id n (index + 1) agree in
    elim (agree index) [
      | inl same ↦ rw (same, rest) refl
      | inr (mine, yours) ↦ rw (mine, yours) rest
    ]
