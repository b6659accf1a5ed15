-- ===== src/Lib.antt =====
-- DCP: a binary protocol between AI clients and tool servers.
--
-- The program, with paths from the repository's root, and the files here that model it:
--
--   src/error.rs: the errors and their codes on the wire. Error.
--   src/binary/: the fixed-size headers, each with a reader and a writer. Binary.Envelope (envelope.rs),
--     Binary.Hbtp (hbtp.rs, with a CRC), Binary.Chunk (stream.rs), Binary.Invocation (invocation.rs,
--     whose layout word packs sixteen argument types) and Binary.Signed (signed.rs).
--   src/protocol/parser.rs: a message is an envelope and its payload. Protocol.Parser.
--   src/protocol/schema.rs: a tool's schema and the validation of raw arguments. Protocol.Schema; its
--     children Fields and Mask follow the two loops and the presence mask.
--   src/security/signing.rs: Signer and Verifier. Security.Signing.
--   src/security/replay.rs: NonceStore. Security.Replay.
--   src/capability/manifest.rs: CapabilityManifest. Capability.Manifest, over Capability.Manifest.BitSet;
--     the bytes of a manifest are Capability.Manifest.Wire, with Layout and RoundTrip.
--   src/dispatch/handler.rs: SharedArgs, ToolResult and the ToolHandler trait. Dispatch.Args and
--     Dispatch.Router.
--   src/dispatch/router.rs: BinaryTrieRouter, which asks the verifier, the nonce store, the manifest and
--     the schema before it runs a handler. Dispatch.Router.
--   src/stream/ring_buffer.rs: StreamRingBuffer, whose index mask and wrapping copies implement a queue of
--     bytes while the capacity is below 2 ^ 32, the range of its u32 counter, and the write position below
--     2 ^ 64. Stream.RingBuffer; the backpressure counter is its field `available`. Backpressure on its own,
--     with the threads that share it, is Stream.Backpressure.
--   src/stream/dcp_stream.rs: DcpStream, numbered chunks with a checksum in a ring buffer.
--     Stream.DcpStream; Pending and Written follow a read and a write, Calls states what each does, and
--     Trace and Order are about any sequence of them.
--   src/transport/framing.rs: FrameCodec. Transport.Framing; Wire and Decode follow one frame, Drain a
--     receiver that is fed the bytes of many frames in chunks.
--   src/multiplex/header.rs: StreamHeader and its flags. Multiplex.Header.
--   src/multiplex/connection.rs: StreamState is Multiplex.State; MultiplexedConnection is
--     Multiplex.Connection, with the calls of a client in Calls and process_frame in Frames. Invariant
--     holds the parts that Opened, Preserved, Sent and Received put together for each operation, History
--     any sequence of them, Delivery and Ordered the way of messages from one connection to another.
--   src/multiplex/pipeline.rs: PipelinedClient, one stream for each request. Multiplex.Pipeline.
--   src/context/mod.rs: DcpContext, a buffer with 25 slots for the states of tools. Context.
--   src/sync/delta.rs: XorDelta and its run-length encoding. Sync.Delta.
--
-- A file keeps the names of the Rust functions. A struct is a record, an enum a data type, a slice or an
-- array of bytes a list of numbers, a HashMap an association list (Base.Map), `?` the bind of a do block
-- over Result (Base.Res). A method that writes through `&mut self` answers the new state. A loop is
-- recursion over the rounds that are left; rle_compress recurs on fuel, the length of its input, which
-- its round trip shows to be enough, and next_power_of_two on sixty-four rounds, one for each power of
-- two that a usize holds; past the last it wraps to 0.
--
-- The machine: a 64-bit little-endian target in a release build. The pointer casts of the packed structs
-- are the little-endian fields at their offsets. Sums and differences of u64 values wrap. Slices are shorter
-- than 2 ^ 64.
--
-- Each async method of a connection is one step: what happens between its awaits when two calls
-- interleave is not modelled, and neither is a handle on a stream that outlives its place in the
-- map. The channel that a request waits on is known by the number of the request, and what is sent
-- into it is a log.
--
-- Parameters: the growable buffer of the crate bytes is the record BytesMut, whose laws say what
-- each call does to the bytes; a running hash is the record Hasher. The CRC of crc32fast and the
-- hash of blake3 are functions; Ed25519 and Blake3 together are the record Crypto, whose laws are
-- that a signature verifies under its key and the lengths of keys, signatures and hashes. Forging
-- is outside the model. The clock is an argument of each call that reads it. A tool handler is a
-- function of its arguments.
--
-- Not modelled: the alignment of a slice that a pointer cast reads; the interleaving of threads,
-- but for Backpressure; RequestPipeline, which hands responses over a channel of the runtime;
-- resources, the compatibility layers, the servers and reactors, logging, metrics and the command
-- line. The ring buffer is used by one producer and one consumer in turn.
pub mod Base
pub mod Error
pub mod Binary
pub mod Protocol
pub mod Security
pub mod Capability
pub mod Dispatch
pub mod Sync
pub mod Stream
pub mod Transport
pub mod Multiplex
pub mod Context
pub mod Tests
