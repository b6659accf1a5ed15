-- ===== src/Multiplex/Connection/Closed.antt =====
-- `close_stream`, and what becomes of a stream that is closed on both sides.
use dcp.Base.{ℕ, ◌≡◌, some}
use dcp.Base.Map.{nat_eq, find}
use dcp.Multiplex.State.{StreamState, close_local}
use dcp.Multiplex.Connection.{MultiplexedConnection, update}

module _ (c : MultiplexedConnection) (id : ℕ) (s : StreamState)
    (found : find id c.streams ≡ some s) where
  abbrev closed : MultiplexedConnection
  closed = update c id (close_local s)
