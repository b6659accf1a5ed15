-- ===== src/Multiplex/Pipeline/Pending.antt =====
-- Requests in flight are counted, and none is answered twice.
use dcp.Base.{
  ℕ, ◌-◌, ◌≤◌, ◌<◌, ◌^◌, ◌≡◌, refl, true, false, some, List, [], ◌∷◌, length, Result, arith,
  if◌then◌else◌, ==_iff,
}
use dcp.Base.Map.{
  Map, nat_eq, contains_key, remove, IsMap, insert-IsMap, remove-IsMap, length-insert_new,
  length-remove, contains_key-insert, contains_key-remove,
}
use dcp.Multiplex.State.{MultiplexError}
use dcp.Multiplex.Connection.{MultiplexedConnection}
use dcp.Multiplex.Connection.Invariant.{IsConnection}
use dcp.Multiplex.Pipeline.{
  PipelinedClient, new, can_send, one_less, enlist, find_request, answer, drain, cancel_all,
}

-- The counter counts the pending requests, which keep to the limit; a request has at most one answer,
-- and none while it is pending; the numbers from `request_id` on are not used yet.
pub record IsClient (p : PipelinedClient) : Type 0 where
  pub connected : IsConnection p.connection
  pub keyed : IsMap p.pending
  pub counted : p.in_flight ≡ length p.pending
  pub limited : length p.pending ≤ p.max_in_flight
  pub usize : p.max_in_flight < 2 ^ 64
  pub once : IsMap p.answers
  pub apart : (id : ℕ) → contains_key id p.pending ≡ true → contains_key id p.answers ≡ false
  pub fresh :
      (id : ℕ)
      → p.request_id ≤ id
      → (contains_key id p.pending ≡ false) × (contains_key id p.answers ≡ false)

pub new-IsClient :
    (c : MultiplexedConnection) (max_in_flight : ℕ)
    → IsConnection c
    → max_in_flight < 2 ^ 64
    → IsClient (new c max_in_flight)
unfolding new
new-IsClient c max_in_flight v small = record {
  connected = v;
  keyed = tt;
  counted = refl;
  limited = omega arith;
  usize = small;
  once = tt;
  apart = λ id there. unfold contains_key in refl;
  fresh = λ id le. unfold contains_key in (refl, refl);
}

pub find_request-pending :
    (stream_id : ℕ) (pending : Map ℕ ℕ) (id : ℕ)
    → find_request stream_id pending ≡ some id
    → contains_key id pending ≡ true
unfolding find_request contains_key
find_request-pending stream_id [] id found = cc
find_request-pending stream_id (request ∷ requests) id found =
    ground (arith, find_request-pending stream_id requests id)

contains_key-drain :
    (id : ℕ) (pending : Map ℕ ℕ) (answers : Map ℕ (Result (List ℕ) MultiplexError))
    → contains_key id (drain pending answers)
      ≡ (if contains_key id pending then true else contains_key id answers)
unfolding drain contains_key
contains_key-drain id [] answers = refl
contains_key-drain id (request ∷ requests) answers =
    ground (arith, contains_key-drain id requests answers)

drain-IsMap :
    (pending : Map ℕ ℕ) (answers : Map ℕ (Result (List ℕ) MultiplexError))
    → IsMap pending
    → IsMap answers
    → ((id : ℕ) → contains_key id pending ≡ true → contains_key id answers ≡ false)
    → IsMap (drain pending answers)
unfolding drain contains_key
drain-IsMap [] answers k o a = o
drain-IsMap (request ∷ requests) answers k o a = (
  ground (arith, contains_key-drain request.0 requests answers, a request.0, k.0),
  drain-IsMap requests answers k.1 o (λ id there. ground (arith, a id)),
)

module _ (p : PipelinedClient) (v : IsClient p) where
  pub connection-IsClient :
      (c : MultiplexedConnection) → IsConnection c → IsClient (record p { connection = c })
  connection-IsClient c w = record {
    connected = w;
    keyed = v.keyed;
    counted = v.counted;
    limited = v.limited;
    usize = v.usize;
    once = v.once;
    apart = v.apart;
    fresh = v.fresh;
  }

  pub enlist-IsClient :
      (c : MultiplexedConnection) (stream_id : ℕ)
      → IsConnection c
      → can_send p ≡ true
      → p.request_id < 2 ^ 64 - 1
      → IsClient (enlist p c stream_id)
  unfolding enlist can_send
  enlist-IsClient c stream_id w room early =
      let id = p.request_id in
      let new_one = v.fresh id (omega arith) in
      let longer = length-insert_new id stream_id p.pending new_one.0 in
      record {
        connected = w;
        keyed = insert-IsMap id stream_id p.pending v.keyed;
        counted = ground (arith, v.counted, longer, v.limited, v.usize);
        limited = ground (arith, v.counted, longer);
        usize = v.usize;
        once = v.once;
        apart = λ j there. ground (
          arith,
          contains_key-insert id j stream_id p.pending,
          v.apart j,
          new_one.1,
          ==_iff id j,
        );
        fresh = λ j le.
            ground
              (arith, contains_key-insert id j stream_id p.pending, v.fresh j, early, ==_iff id j);
      }

  -- A request that is no longer pending.
  pub answer-IsClient :
      (id : ℕ) (result : Result (List ℕ) MultiplexError)
      → contains_key id p.pending ≡ true
      → IsClient (answer p id result)
  unfolding answer one_less
  answer-IsClient id result there =
      let less = length-remove id p.pending v.keyed there in
      record {
        connected = v.connected;
        keyed = remove-IsMap id p.pending v.keyed;
        counted = omega (arith, v.counted, less, v.limited, v.usize);
        limited = omega (arith, v.limited, less);
        usize = v.usize;
        once = (v.apart id there, v.once);
        apart = λ j there'.
            unfold contains_key in
            ground (arith, contains_key-remove id j p.pending, v.apart j, ==_iff id j);
        fresh = λ j le.
            unfold contains_key in
            ground (
              arith,
              contains_key-remove id j p.pending,
              v.fresh j,
              v.fresh id,
              there,
              ==_iff id j,
            );
      }

  pub forget-IsClient :
      (id : ℕ) (c : MultiplexedConnection)
      → contains_key id p.pending ≡ true
      → IsConnection c
      → IsClient (record p {
        connection = c;
        pending = remove id p.pending;
        in_flight = one_less p.in_flight;
      })
  unfolding one_less
  forget-IsClient id c there w =
      let less = length-remove id p.pending v.keyed there in
      record {
        connected = w;
        keyed = remove-IsMap id p.pending v.keyed;
        counted = omega (arith, v.counted, less, v.limited, v.usize);
        limited = omega (arith, v.limited, less);
        usize = v.usize;
        once = v.once;
        apart = λ j there'. ground (arith, contains_key-remove id j p.pending, v.apart j);
        fresh = λ j le. ground (arith, contains_key-remove id j p.pending, v.fresh j);
      }

  pub cancel_all-IsClient : IsClient (cancel_all p)
  unfolding cancel_all
  cancel_all-IsClient = record {
    connected = v.connected;
    keyed = tt;
    counted = refl;
    limited = omega arith;
    usize = v.usize;
    once = drain-IsMap p.pending p.answers v.keyed v.once v.apart;
    apart = λ j there. unfold contains_key in cc;
    fresh = λ j le.
        unfold contains_key in ground (arith, contains_key-drain j p.pending p.answers, v.fresh j);
  }
