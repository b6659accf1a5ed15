-- ===== src/Dispatch/Router/Registry.antt =====
-- What `register` does to the table of handlers and the map of names.
use Prim.Native.String.{String}
use dcp.Base.{
  ℕ, zero, suc, ◌+◌, ◌-◌, ◌≤◌, ◌<◌, ◌≡◌, ◌≢◌, ◌⊎◌, ◌↔◌, inl, inr, refl, ap, ◌∙◌, sym, false, Option,
  none, some, List, [], ◌∷◌, ◌++◌, ltb, ◌==◌, ==_iff, if◌then◌else◌, length, get_or, set,
  length-append, length-set, get_or-set_self, get_or-set_ne, ok, err, arith, Bool-cases,
}
use mathlib.Core.Path.{subst}
use dcp.Base.Map.{
  IsMap, find, contains_key, string_eq, find-insert, insert-IsMap, contains_key-of_find,
}
use dcp.Error.{DcpError}
use dcp.Capability.Manifest.{max_tools}
use dcp.Dispatch.Router.{
  ToolHandler, BinaryTrieRouter, new, dispatch, grow, insert_handler, register, resolve_name,
}

get_or-push :
    (hs : List (Option ToolHandler)) (j : ℕ) → get_or (hs ++ (none ∷ [])) j none ≡ get_or hs j none
get_or-push [] zero = refl
get_or-push [] (suc j) = refl
get_or-push (h ∷ hs) zero = refl
get_or-push (h ∷ hs) (suc j) = get_or-push hs j

get_or-grow :
    (left : ℕ) (hs : List (Option ToolHandler)) (j : ℕ)
    → get_or (grow left hs) j none ≡ get_or hs j none
unfolding grow
get_or-grow zero hs j = refl
get_or-grow (suc left) hs j = get_or-grow left (hs ++ (none ∷ [])) j ∙ get_or-push hs j

abbrev one_empty : List (Option ToolHandler)
one_empty = none ∷ []

length-grow : (left : ℕ) (hs : List (Option ToolHandler)) → length (grow left hs) ≡ length hs + left
unfolding grow
length-grow zero hs = omega arith
length-grow (suc left) hs =
    omega (arith, length-grow left (hs ++ (none ∷ [])), length-append hs one_empty)

length-insert_handler :
    (r : BinaryTrieRouter) (h : ToolHandler)
    → length (insert_handler r h).handlers
      ≡ (if ltb h.tool_id (length r.handlers) then length r.handlers else h.tool_id + 1)
unfolding insert_handler
length-insert_handler r h =
    let left = h.tool_id + 1 - length r.handlers in
    ground
      (arith, length-set (grow left r.handlers) h.tool_id (some h), length-grow left r.handlers)

dispatch-insert_handler :
    (r : BinaryTrieRouter) (h : ToolHandler) (j : ℕ)
    → dispatch (insert_handler r h) j ≡ (if j == h.tool_id then some h else dispatch r j)
unfolding dispatch insert_handler
dispatch-insert_handler r h j =
    let left = h.tool_id + 1 - length r.handlers in
    let grown = grow left r.handlers in
    let long : h.tool_id < length grown = omega (arith, length-grow left r.handlers) in
    elim (Bool-cases (j == h.tool_id)) [
      | inl e ↦
          let same : j ≡ h.tool_id = (==_iff j h.tool_id).0 e in
          rw e (
            ap (λ (k : ℕ). get_or (set grown h.tool_id (some h)) k none) same
            ∙ get_or-set_self grown h.tool_id (some h) none long)
      | inr n ↦ rw n (
          get_or-set_ne grown h.tool_id j (some h) none (ground arith)
          ∙ get_or-grow left r.handlers j)
    ]

-- The names and the table agree: each name leads to a handler of that name, and each handler stands
-- at its id, under its name.
pub record IsRouter (r : BinaryTrieRouter) : Type 0 where
  pub small : length r.handlers ≤ max_tools
  pub distinct : IsMap r.name_to_id
  pub named :
      (name : String) (id : ℕ)
      → find name r.name_to_id ≡ some id
      → (h : ToolHandler) × (dispatch r id ≡ some h) × (h.tool_name ≡ name)
  pub placed :
      (id : ℕ) (h : ToolHandler)
      → dispatch r id ≡ some h
      → (h.tool_id ≡ id) × (find h.tool_name r.name_to_id ≡ some id) × (id ≤ r.max_tool_id)

pub new-IsRouter : IsRouter new
unfolding new dispatch find
new-IsRouter = record {
  small = omega arith;
  distinct = tt;
  named = λ name id e. cc;
  placed = λ id h e. cc;
}

module _ (r : BinaryTrieRouter) (h : ToolHandler) where
  -- `register` accepts exactly a handler whose id is below 8192 and whose id and name are both free,
  -- and answers its id: then the id leads to the handler and the name to the id, and every other id
  -- and name is as before. Otherwise it answers `ValidationFailed` and leaves the router as it was.
  pub register_lem :
      (((register r h).0 ≡ ok h.tool_id) ↔ (
        (h.tool_id < max_tools)
        × (contains_key h.tool_name r.name_to_id ≡ false)
        × (dispatch r h.tool_id ≡ none)))
      × ((register r h).0 ≡ ok h.tool_id
          → ((j : ℕ)
              → dispatch (register r h).1 j ≡ (if j == h.tool_id then some h else dispatch r j))
            × ((name : String)
                → resolve_name (register r h).1 name ≡ (
                    if string_eq.beq h.tool_name name
                    then some h.tool_id
                    else resolve_name r name)))
      × ((register r h).0 ≢ ok h.tool_id → register r h ≡ (err DcpError.validation_failed, r))
  unfolding register
  register_lem = (
    ground arith,
    λ e. (
      λ j. ground (arith, dispatch-insert_handler r h j),
      λ name.
          unfold resolve_name insert_handler in
          ground (arith, find-insert h.tool_name name h.tool_id r.name_to_id),
    ),
    ground arith,
  )

  find_inserted :
      (name : String)
      → find name (insert_handler r h).name_to_id
        ≡ (if string_eq.beq h.tool_name name then some h.tool_id else find name r.name_to_id)
  unfolding insert_handler
  find_inserted name = find-insert h.tool_name name h.tool_id r.name_to_id

  named_inserted :
      IsRouter r
      → dispatch r h.tool_id ≡ none
      → (name : String) (id : ℕ) → find name (insert_handler r h).name_to_id ≡ some id
      → (g : ToolHandler) × (dispatch (insert_handler r h) id ≡ some g) × (g.tool_name ≡ name)
  named_inserted v free name id e = elim (Bool-cases (string_eq.beq h.tool_name name)) [
    | inl same ↦
        let here : h.tool_id ≡ id = ground (arith, find_inserted name) in
        (
          h,
          ground (arith, dispatch-insert_handler r h id),
          (string_eq.beq_iff h.tool_name name).0 same,
        )
    | inr other ↦
        let old : find name r.name_to_id ≡ some id = ground (arith, find_inserted name) in
        let (g, at, is) = v.named name id old in
        let apart : h.tool_id ≢ id = λ q. ground (arith, ap (dispatch r) q) in
        (g, ground (arith, dispatch-insert_handler r h id), is)
  ]

  placed_inserted :
      IsRouter r
      → contains_key h.tool_name r.name_to_id ≡ false
      → (id : ℕ) (g : ToolHandler) → dispatch (insert_handler r h) id ≡ some g
      → (g.tool_id ≡ id)
        × (find g.tool_name (insert_handler r h).name_to_id ≡ some id)
        × (id ≤ (insert_handler r h).max_tool_id)
  placed_inserted v fresh id g e = elim (Bool-cases (id == h.tool_id)) [
    | inl here ↦
        let is : h ≡ g = ground (arith, dispatch-insert_handler r h id) in
        let at_id : h.tool_id ≡ id = ground arith in
        (
          sym (ap (λ (x : ToolHandler). x.tool_id) is) ∙ at_id,
          ap (λ (x : ToolHandler). find x.tool_name (insert_handler r h).name_to_id) (sym is)
              ∙ ground
                  (arith, find_inserted h.tool_name, string_eq.beq_iff h.tool_name h.tool_name),
          unfold insert_handler in ground arith,
        )
    | inr other ↦
        let old : dispatch r id ≡ some g = ground (arith, dispatch-insert_handler r h id) in
        let (at, known, low) = v.placed id g old in
        let has = contains_key-of_find g.tool_name r.name_to_id id known in
        let apart : h.tool_name ≢ g.tool_name =
          λ q. ground (arith, ap (λ (n : String). contains_key n r.name_to_id) q) in
        (
          at,
          ground (arith, find_inserted g.tool_name, string_eq.beq_iff h.tool_name g.tool_name),
          unfold insert_handler in ground arith,
        )
  ]

  inserted :
      IsRouter r
      → h.tool_id < max_tools
      → contains_key h.tool_name r.name_to_id ≡ false
      → dispatch r h.tool_id ≡ none
      → IsRouter (insert_handler r h)
  inserted v lt fresh free = record {
    small = ground (arith, length-insert_handler r h, v.small);
    distinct = unfold insert_handler in insert-IsMap h.tool_name h.tool_id r.name_to_id v.distinct;
    named = λ name id e. named_inserted v free name id e;
    placed = λ id g e. placed_inserted v fresh id g e;
  }

  outcome :
      ((register r h).1 ≡ r)
      ⊎ ((h.tool_id < max_tools)
          × (contains_key h.tool_name r.name_to_id ≡ false)
          × (dispatch r h.tool_id ≡ none)
          × ((register r h).1 ≡ insert_handler r h))
  unfolding register
  outcome = ground arith

  -- `register` keeps the router well formed: at most 8192 slots, distinct names, each name leading to
  -- a handler of that name, and each handler standing at its own id, which is at most `max_tool_id`,
  -- under its own name.
  pub register-IsRouter : IsRouter r → IsRouter (register r h).1
  register-IsRouter v = elim outcome [
    | inl same ↦ subst IsRouter (sym same) v
    | inr (lt, fresh, free, done) ↦ subst IsRouter (sym done) (inserted v lt fresh free)
  ]
