-- ===== src/Multiplex/Connection/Delivery.antt =====
-- Messages that one connection sends and another receives.
use dcp.Base.{
  ℕ, zero, suc, ◌+◌, ◌-◌, ◌≤◌, ◌<◌, ◌^◌, ◌%◌, ◌≡◌, refl, ap, sym, ◌∙◌, true, false, none, some,
  List, [], ◌∷◌, ◌++◌, append_assoc, append-nil, map, length, length-append, Result, ok, err, arith,
}
use native.Mathlib.Nat.{mod-eq_of_lt}
use dcp.Base.Map.{nat_eq, find, find-insert}
use dcp.Multiplex.Header.{StreamHeader, data_header, new, is_control, is_syn, is_rst, is_fin}
use dcp.Multiplex.State.{MultiplexError, StreamState, can_send, can_receive, queue_recv}
use dcp.Multiplex.State.Laws.{queued}
use dcp.Multiplex.Connection.{MultiplexedConnection, update}
use dcp.Multiplex.Connection.Calls.{send, recv, take_frame}
use dcp.Multiplex.Connection.Frames.{
  validate_frame_shape, after_recv, on_data, on_stream, on_frame, count_received, checked_frame,
  process_frame,
}
use dcp.Multiplex.Connection.Shapes.{data_header-shaped}
use dcp.Multiplex.Connection.Invariant.{pushed}
use dcp.Multiplex.Connection.Sent.{loaded, send_lem}

-- All messages are sent on one stream.
unfoldable pub send_all : MultiplexedConnection → ℕ → List (List ℕ) → MultiplexedConnection
send_all c id [] = c
send_all c id (bytes ∷ rest) = send_all (send c id bytes).1 id rest

-- The next frames of one connection are processed by the other.
unfoldable pub transfer :
    ℕ
    → MultiplexedConnection
    → MultiplexedConnection
    → MultiplexedConnection × MultiplexedConnection
transfer zero a b = (a, b)
transfer (suc n) a b = elim (take_frame a).0 [
  | none ↦ (a, b)
  | some frame ↦ transfer n (take_frame a).1 (process_frame b frame.0 frame.1).1
]

-- At most `n` messages are read from a stream, until there is none.
unfoldable pub receive_all : ℕ → MultiplexedConnection → ℕ → List (List ℕ)
receive_all zero c id = []
receive_all (suc n) c id = elim (recv c id).0 [
  | ok (some bytes) ↦ bytes ∷ receive_all n (recv c id).1 id
  | ok none ↦ []
  | err error ↦ []
]

abbrev pub data_frame : ℕ → List ℕ → StreamHeader × List ℕ
data_frame id bytes = (data_header id (length bytes % 2 ^ 32), bytes)

abbrev pub IsMessage : List ℕ → Type 0
IsMessage bytes = (0 < length bytes) × (length bytes < 2 ^ 32)

pub find-update :
    (c : MultiplexedConnection) (id : ℕ) (s : StreamState)
    → find id (update c id s).streams ≡ some s
unfolding update
find-update c id s = ground (arith, find-insert id id s c.streams)

pub send_all_queue :
    (c : MultiplexedConnection) (id : ℕ) (s : StreamState) (messages : List (List ℕ))
    → c.closed ≡ false
    → find id c.streams ≡ some s
    → can_send s.status ≡ true
    → length c.send_queue + length messages ≤ c.max_send_queue_len
    → (send_all c id messages).send_queue ≡ c.send_queue ++ map (data_frame id) messages
unfolding send_all
send_all_queue c id s [] alive found sends room = sym (append-nil c.send_queue)
send_all_queue c id s (bytes ∷ rest) alive found sends room =
    let d = pushed (update c id (loaded s bytes)) (data_header id (length bytes % 2 ^ 32)) bytes in
    let sent : (send c id bytes).1 ≡ d =
      ap (λ (p : Result (Unit {0}) MultiplexError × MultiplexedConnection). p.1)
        ((send_lem c id s bytes alive found sends).0 (omega (arith, room))) in
    let longer : d.send_queue ≡ c.send_queue ++ (data_frame id bytes ∷ []) =
      unfold pushed update in refl in
    let limit : d.max_send_queue_len ≡ c.max_send_queue_len = unfold pushed update in refl in
    let later =
      send_all_queue d id (loaded s bytes) rest (unfold pushed update in alive)
        (unfold pushed in find-update c id (loaded s bytes)) (unfold loaded in sends)
        (omega (
          arith,
          room,
          ap length longer,
          length-append c.send_queue (data_frame id bytes ∷ []),
          limit,
        )) in
    ap (λ (x : MultiplexedConnection). (send_all x id rest).send_queue) sent
    ∙ later
    ∙ ap (λ (q : List (StreamHeader × List ℕ)). q ++ map (data_frame id) rest) longer
    ∙ append_assoc c.send_queue (data_frame id bytes ∷ []) (map (data_frame id) rest)

on_data_loaded :
    (c : MultiplexedConnection) (id : ℕ) (s : StreamState) (payload : List ℕ)
    → 0 < length payload
    → on_data c id s payload ≡ after_recv c id (queue_recv s payload c.max_recv_buffer_bytes)
unfolding on_data
on_data_loaded c id s [] some_bytes = absurd (omega arith)
on_data_loaded c id s (byte ∷ payload) some_bytes = refl

-- A data frame for a stream that receives.
module _ (c : MultiplexedConnection) (id : ℕ) (s : StreamState) (bytes : List ℕ) (pos : 0 < id)
    (alive : c.closed ≡ false) (found : find id c.streams ≡ some s)
    (receives : can_receive s.status ≡ true) (message : IsMessage bytes)
    (fits : s.recv_buffered_bytes + length bytes ≤ c.max_recv_buffer_bytes)
    (small : c.max_recv_buffer_bytes < 2 ^ 64 - 1) where
  abbrev counted : MultiplexedConnection
  counted = count_received c bytes

  abbrev header : StreamHeader
  header = data_header id (length bytes)

  checked :
      process_frame c header bytes
      ≡ checked_frame counted header bytes (validate_frame_shape header (length bytes))
  unfolding process_frame data_header new
  checked = ground (arith, alive)

  for_stream : on_frame counted header bytes ≡ on_stream counted header bytes s
  unfolding on_frame is_control is_syn data_header new count_received
  for_stream = ground (arith, pos, found)

  as_data : on_stream counted header bytes s ≡ on_data counted id s bytes
  unfolding on_stream is_rst is_fin data_header new
  as_data = refl

  taken : queue_recv s bytes counted.max_recv_buffer_bytes ≡ (ok tt, queued s bytes)
  unfolding queue_recv count_received queued
  taken = ground (arith, receives, fits, small)

  delivered : on_data counted id s bytes ≡ (ok tt, update counted id (queued s bytes))
  delivered =
      on_data_loaded counted id s bytes message.0
      ∙ ap (after_recv counted id) taken
      ∙ unfold after_recv in refl

  pub received :
      process_frame c (data_header id (length bytes % 2 ^ 32)) bytes
      ≡ (ok tt, update (count_received c bytes) id (queued s bytes))
  received = rw (mod-eq_of_lt message.1) (
      checked
      ∙ ap (checked_frame counted header bytes) (data_header-shaped id pos (length bytes))
      ∙ unfold checked_frame in (for_stream ∙ as_data ∙ delivered))
