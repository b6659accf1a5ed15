-- ===== src/Multiplex/State/Laws.antt =====
-- What stays true of one stream.
use Prim.Native.String.{String}
use dcp.Base.{
  ℕ, ◌+◌, ◌-◌, ◌≤◌, ◌<◌, ◌^◌, ◌≡◌, ◌≢◌, ◌⊎◌, inl, inr, ◌%◌, refl, ap, sym, ◌∙◌, true, false, Option,
  List, [], ◌∷◌, ◌++◌, length, ok, err, arith,
}
use dcp.Multiplex.State
use dcp.Multiplex.State.{
  MultiplexError, receive_buffer_full, stream_closed, saturating_add, StreamStatus, was_reset,
  local_closed, remote_closed, StreamState, queue_send, queue_recv, take_received, take_recv,
  close_local, close_remote, reset, can_send, can_receive,
}

-- The bytes of some messages.
abbrev pub total : List (List ℕ) → ℕ
total [] = 0
total (bytes ∷ rest) = length bytes + total rest

pub total-append :
    (xs : List (List ℕ)) (bytes : List ℕ) → total (xs ++ (bytes ∷ [])) ≡ total xs + length bytes
total-append [] bytes = omega arith
total-append (x ∷ xs) bytes = omega (arith, total-append xs bytes)

-- A stream that stands under `key` in a connection that buffers at most `limit` bytes for it.
pub record IsStream (limit key : ℕ) (s : StreamState) : Type 0 where
  pub own : s.id ≡ key
  pub numbered : 0 < key
  pub small : key < 2 ^ 16
  pub counted : s.recv_buffered_bytes ≡ total s.recv_buffer
  pub bounded : s.recv_buffered_bytes ≤ limit
  pub silent : s.status ≡ was_reset → s.send_buffer ≡ []

pub new-IsStream : (limit key : ℕ) → 0 < key → key < 2 ^ 16 → IsStream limit key (State.new key)
unfolding State.new
new-IsStream limit key pos small = record {
  own = refl;
  numbered = pos;
  small = small;
  counted = refl;
  bounded = omega arith;
  silent = λ _. refl;
}

local_closed-was_reset :
    (status : StreamStatus) → local_closed status ≡ was_reset → status ≡ was_reset
local_closed-was_reset status e = ground arith

remote_closed-was_reset :
    (status : StreamStatus) → remote_closed status ≡ was_reset → status ≡ was_reset
remote_closed-was_reset status e = ground arith

open_not_reset : (status : StreamStatus) → can_send status ≡ true → status ≢ was_reset
open_not_reset status sends r = ground arith

-- What `queue_send` does.
pub queue_send_cases :
    (s : StreamState) (bytes : List ℕ)
    → ((can_send s.status ≡ true)
        × (queue_send s bytes ≡ (ok tt, record s { send_buffer = s.send_buffer ++ (bytes ∷ []) })))
      ⊎ ((can_send s.status ≡ false) × (queue_send s bytes ≡ (err (stream_closed s.id), s)))
unfolding queue_send
queue_send_cases s bytes = ground arith

unfoldable pub queued : StreamState → List ℕ → StreamState
queued s bytes = record s {
  bytes_received = (s.bytes_received + length bytes) % 2 ^ 64;
  recv_buffered_bytes = saturating_add s.recv_buffered_bytes (length bytes);
  recv_buffer = s.recv_buffer ++ (bytes ∷ []);
}

-- What `queue_recv` does, branch by branch.
pub queue_recv_cases :
    (limit : ℕ) (s : StreamState) (bytes : List ℕ)
    → ((can_receive s.status ≡ true)
        × (saturating_add s.recv_buffered_bytes (length bytes) ≤ limit)
        × (queue_recv s bytes limit ≡ (ok tt, queued s bytes)))
      ⊎ ((can_receive s.status ≡ false)
          × (queue_recv s bytes limit ≡ (err (stream_closed s.id), s)))
      ⊎ ((limit < saturating_add s.recv_buffered_bytes (length bytes))
          × (queue_recv s bytes limit ≡ (err receive_buffer_full, s)))
unfolding queue_recv queued
queue_recv_cases limit s bytes = ground arith

module _ (limit key : ℕ) (s : StreamState) (v : IsStream limit key s) where
  -- A change of the sending side or the status.
  pub sending-IsStream :
      (t : StreamState)
      → t.id ≡ s.id
      → t.recv_buffered_bytes ≡ s.recv_buffered_bytes
      → t.recv_buffer ≡ s.recv_buffer
      → (t.status ≡ was_reset → t.send_buffer ≡ [])
      → IsStream limit key t
  sending-IsStream t own same buffer silent = record {
    own = own ∙ v.own;
    numbered = v.numbered;
    small = v.small;
    counted = same ∙ v.counted ∙ ap total (sym buffer);
    bounded = omega (arith, same, v.bounded);
    silent = silent;
  }

  pub close_local-IsStream : IsStream limit key (close_local s)
  unfolding close_local
  close_local-IsStream =
      sending-IsStream (close_local s) refl refl refl
        (λ r. v.silent (local_closed-was_reset s.status r))

  pub close_remote-IsStream : IsStream limit key (close_remote s)
  unfolding close_remote
  close_remote-IsStream =
      sending-IsStream (close_remote s) refl refl refl
        (λ r. v.silent (remote_closed-was_reset s.status r))

  pub reset-IsStream : (error : Option String) → IsStream limit key (reset s error)
  unfolding reset
  reset-IsStream error = sending-IsStream (reset s error) refl refl refl (λ _. refl)

  -- A stream that can send has no rule on its send buffer.
  pub sent-IsStream :
      (buffer : List (List ℕ))
      → can_send s.status ≡ true
      → IsStream limit key (record s { send_buffer = buffer })
  sent-IsStream buffer sends =
      sending-IsStream (record s { send_buffer = buffer }) refl refl refl
        (λ r. absurd (open_not_reset s.status sends r))

  pub queued-IsStream :
      (bytes : List ℕ)
      → limit < 2 ^ 64 - 1
      → saturating_add s.recv_buffered_bytes (length bytes) ≤ limit
      → can_receive s.status ≡ true
      → IsStream limit key (queued s bytes)
  unfolding queued
  queued-IsStream bytes small fits open_yet = record {
    own = v.own;
    numbered = v.numbered;
    small = v.small;
    counted = omega (arith, v.counted, total-append s.recv_buffer bytes);
    bounded = fits;
    silent = v.silent;
  }

  pub queue_recv-IsStream :
      (bytes : List ℕ) → limit < 2 ^ 64 - 1 → IsStream limit key (queue_recv s bytes limit).1
  queue_recv-IsStream bytes small = elim (queue_recv_cases limit s bytes) [
    | inl taken ↦ rw taken.2 (queued-IsStream bytes small taken.1 taken.0)
    | inr (inl closed) ↦ rw closed.1 v
    | inr (inr full) ↦ rw full.1 v
  ]

  taken-IsStream :
      (buffer : List (List ℕ))
      → s.recv_buffer ≡ buffer
      → IsStream limit key (take_received s buffer).1
  unfolding take_received
  taken-IsStream [] is = v
  taken-IsStream (bytes ∷ rest) is = record {
    own = v.own;
    numbered = v.numbered;
    small = v.small;
    counted = omega (arith, v.counted, ap total is);
    bounded = omega (arith, v.bounded);
    silent = v.silent;
  }

  pub take_recv-IsStream : IsStream limit key (take_recv s).1
  unfolding take_recv
  take_recv-IsStream = taken-IsStream s.recv_buffer refl
