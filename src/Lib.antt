-- ===== src/Lib.antt =====
-- Verification of the wire protocols of cartel, the database drivers, and of its request queue.
--
-- Core: the request queue (core/src).
--   Core/Queue    queue.rs: one lane; Weights has the balance of its weight, Drains the clearing, Sends the
--                 drain into the link.
--   Core/Handoff  handoff.rs: a request published with its reply; Atomic has its outcomes.
--
-- Resp: the decoder of Redis replies (redis/src/protocol).
--   Resp/Types    the errors of redis/src/protocol/mod.rs.
--   Resp/Limit    parser/limit.rs: the admission of frame offsets and node counts, and the search for the
--                 end of a line. Children: Search, Append and Resume on growing buffers, Bounds on
--                 admissions.
--   Resp/Body     the packed word of `Body` and `Span`.
--   Resp/Number   parser/number.rs; Decimal has the decimal value of a line.
--   Resp/Node     the values and packed nodes of parser/mod.rs; RoundTrip unpacks what was packed.
--   Resp/Pool     `Pool` and `Free` of parser/mod.rs, a free list as a ring of nodes. Ring has the paths
--                 of `next`, Chains the state of a pool, and Taken, Append, Release, New one operation each.
--   Resp/Capacity parser/capacity.rs.
--   Resp/Digits, Resp/Encode  core/src/lib.rs and redis/src/request/encode/mod.rs: the digits of a number,
--                 the reserved length of a command and its bytes; Exact compares the two.
--   Resp/Tape     storage/cursors.rs and storage/tape.rs: a finished tape, read through cursors; Events
--                 reads the whole chain.
--   Resp/Region   the regions of storage/mod.rs, whose elements are checked once; Checked compares the
--                 check with one on the list of values, Reads has the unchecked reads behind it.
--   Resp/Gate     storage/gate.rs: Charges has the accounts of the lanes, Lane, Access, Moves and Wait the
--                 operations, System the steps of all accesses; Bound, Lanes, Wakes, Granted and Progress
--                 reason about the steps.
--   Resp/Builder  `Storage` and `Builder` of storage/mod.rs over the pool and the gate, as the builder that the
--                 scanner is given; Built has the list that a builder stands for, Reads its tape.
--   Resp/Interface what the scanner uses of the receive buffer, of the inline vector and of the builder.
--   Resp/Mode     the state of parser/state.rs; Left counts the values that are still to come.
--   Resp/Settle, Resp/State  `State::scan`: a definition per branch of its loop, one round, the loop.
--                 Erase, Extend, Progress, Waiting, Loop and Resume reason about a round and the loop;
--                 Depth, Shallow and Bounded about the arrays that are open.
--   Resp/Decode   `Codec::decode` and `Codec::finish` of redis/src/protocol/mod.rs; Fresh has the state that
--                 a decode leaves.
--   Resp/Init     redis/src/client/settings/init.rs, client/logic/init.rs and the phases of a connection:
--                 Order lists the commands of a plan, Handshake has the steps, Ready reasons about them.
--
-- Pg: parts of the PostgreSQL driver (pg/src/protocol where nothing else is said).
--   Pg/Reason, Pg/Wire  the errors used, and wire bytes.
--   Pg/Scram      scram/parser.rs: attributes; Messages and Final the two server messages; Next,
--                 Extensions and Positive reason about the attributes, the loop over them and the
--                 iteration count.
--   Pg/Codec      frame/codec.rs; Frames reads a frame that was written, also when more bytes follow.
--   Pg/Pool       the connections (pg/src/port/pool): Sync has slot.rs's account of Syncs and
--                 replies/batch.rs, Phases phases.rs, Slot and Life the operations of slot.rs, Turns
--                 phases/access.rs. Owes, Uses, Once, Closings and Pending reason about one slot.
--   Pg/Pool/Ready runtime/ready/storage/entry.rs: the index of the connections that a request may take;
--                 Moves has index.rs, System what happens to the index as a list of events. Counts is
--                 the invariant of the counters, Stored the states of the storage; Writes, Keeps,
--                 Opens, Reserves, Ends, Finishes, Shuts, Ranks, Receives and Kept keep them, one kind
--                 of operation each, Runs puts them together. Least, Ranked, Vacated and Picks reason
--                 about the least rank.
--
-- The parser of a reply keeps offsets into the whole unread buffer, which the session gives it again at
-- each call. A call either reports or waits, and the scanner pushes values into a tape builder, whose
-- nodes come from the pool. The SCRAM parser and the frame codec hold no state between calls. The index
-- keeps a slot for each connection: a call of the index looks a slot up, changes its phase, and then lists
-- or removes the entry and moves the counters, as its phase says.
--
-- Numbers. A byte, an offset and a count are natural numbers; conversions and sums that wrap or saturate
-- in the code are written out, with a usize of 64 bits. An i64 is an integer, checked at its bounds. The
-- count of Syncs of a connection wraps as a u32: the code leaves the smaller bound of its type unchecked.
--
-- Fuel. The scan of a reply has one round more than there are bytes, and every round that goes on moves
-- the cursor right. The loop over SCRAM extensions has one round more than there are bytes left, and every
-- attribute takes some. The check of a region and the loops over a lane have one round more than
-- there are elements. The model's own outcome `out_of_fuel` marks a loop out of fuel.
--
-- Parameters. The receive buffer, the inline vector, the allocator, the queue of waiters, the fair lanes,
-- the final link, the ids of connections, and the ring, the lists and the bitmap of the index belong to the dope and o3 crates: they are records of operations, with what the code
-- relies on as a record of laws.
--
-- Not modelled: scores and coordinates of redis/src/protocol/parser/storage, which keep floats, the
-- retention of a parsed frame in parser/frame.rs, which the codec takes as a parameter, payloads in
-- several chunks and sequences of the request encoder, the searches of the index with a predicate, the
-- waiters, the runtimes and clients over dope, the SQLite driver and the macro generator.
-- Retained payloads and the brands of lifetimes have no content at run time here.
pub mod Base
pub mod Core
pub mod Resp
pub mod Pg
