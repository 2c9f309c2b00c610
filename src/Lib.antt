-- ===== src/Lib.antt =====
-- Verification library of the event service, which keeps the events of class rooms, adjusts
-- their times to recordings, and commits edited versions of rooms.
--
-- The parts and how they interact. A room has a time (`RoomTime`, src/db/room_time.rs), which
-- handlers update, and events with times in nanoseconds from its opening. When a recording is
-- ready, the adjustment (src/app/operations/adjust_room.rs) turns its segments into gaps, copies
-- the events with their times shifted by the gaps, reads the cut events of the copy as further
-- gaps, and shifts again; the segments that remain are intersected with those of the recording.
-- An edition (src/app/operations/commit_edition.rs) adds changes to a room; its commit collects
-- the gaps of cut events and cut changes together, with nested cuts. Drawings in events are
-- stored in a compact form (src/db/event/schema.rs).
--
-- Both operations work on the tables of the database, as the handlers do, which ask the authorization
-- service first: one creates events (src/app/endpoint/event.rs), one lists them, one reads the state
-- of sets (src/app/endpoint/state.rs), which is the latest event of every label, and those of
-- src/app/endpoint/room.rs create and update rooms, lock types of events and give access to the
-- whiteboard, on which the creation of events depends. The vacuum (src/app/operations/vacuum.rs)
-- deletes old events.
--
-- Files:
--   Base, Base/*: shared names; ℤ over the native natural numbers (Base/Int), machine integers
--     with wrap-around (Base/Word), what is used of serde_json (Base/Json).
--   RoomTime, RoomTime/Update: src/db/room_time.rs.
--   Ranges, Ranges/Cover: lists of half-open ranges, the moments that they cover.
--   AdjustRoom/Intersect: src/app/operations/adjust_room/intersect.rs.
--   AdjustRoom/Invert, AdjustRoom/Cuts, AdjustRoom/CloneEvents: `invert_segments`,
--     `cut_events_to_gaps` and `clone_events` of src/app/operations/adjust_room.rs;
--     AdjustRoom/Breaks: the loop of its `call` that makes stream events, Meaning what it inserts.
--   AdjustRoom/Call: `call`, `create_room` and `clone_events` of the same file as statements on the
--     tables: Rooms the copies, Run the task; Adjusted, Kept, Derived and Outcome what it does.
--   CommitEdition/CollectGaps: `collect_gaps` of src/app/operations/commit_edition.rs; Machine is
--     its state machine, Steps and Meaning its runs, Sorting and Keys its input.
--   CommitEdition/CloneEvents: `clone_events` of the same file: Join the join of events and
--     changes, Rows the selected columns, Insert the numbering and the insertion.
--   CommitEdition/Call: `call` and `clone_room` of the same file; Steps and Copies what they do.
--   Db/Session: the tables, statements that may fail, transactions; Laws, Failing, Returns
--     and Succeeds how properties, failures and results pass through tasks.
--   Db/Queries: the queries of src/db as statements; Db/Rows the clauses of a SELECT.
--   Db/Event, Db/Event/*, Db/Change, Db/Change/*: the rows and queries of src/db/event/mod.rs and
--     src/db/change.rs; Db/Event/Stored the trigger on_event_insert of the migrations.
--   Db/Adjustment: src/db/adjustment.rs.
--   Db/Room, Db/Room/*: src/db/room.rs.
--   Endpoint/Helpers: `find_room` of src/app/endpoint/helpers.rs, Found what it finds.
--   Endpoint/CreateEvent: `CreateHandler` of src/app/endpoint/event.rs; Effects
--     what it makes of a payload; Steps, Authorized, Stores and Created what it does.
--   Db/Schema/*: src/db/event/schema.rs: Enums and Records its types, Float the conversions of
--     numbers, Vector the paths, Other and PathEvent the two compact forms, Compact the
--     choice between them.
--   Db/Event/SetState: src/db/event/set_state.rs: Order its order and key, Latest and Attribute what
--     it selects, Count what it counts, Returns its results; Db/Rows/* the laws of the clauses.
--   Db/Event/Vacuum: `VacuumQuery` of src/db/event/mod.rs and src/app/operations/vacuum.rs; Reasons
--     why an event is deleted.
--   Endpoint/ReadState: `ReadHandler` of src/app/endpoint/state.rs: Fields the query, Answer, HasNext
--     and Page what it answers, Refused what it refuses.
--   Endpoint/ListEvents: `ListHandler` of src/app/endpoint/event.rs; Listed what it lists.
--   Endpoint/Rooms: the requests of src/app/endpoint/room.rs, Handlers its functions `handle`; Changed,
--     Updating, Times and Closing an update, Locks, Locked and Succeeding the locks.
--   Tests/*: tests, and the theorems at concrete inputs.
--
-- Correspondence. Instants and times of events are integers (ℤ): an instant of chrono is its
-- count of a fixed unit, an `i64` is its value, and where the source wraps or casts, the wrap is
-- written out (Base/Word, Db/Schema/Float). The current time is an argument. Every loop is
-- recursion on its list; no definition takes fuel. The nesting level of cuts is a `u64`, so the
-- runs are taken to have fewer than 2^64 commands. The two statements that copy events are
-- functions on the lists of the tables' rows; rows with the same creation time, which SQL may
-- number in any order, keep the order of the list. A column that SQL may leave `NULL` is an
-- option. `f32`, `f64` and `serde_json::Value` are parameters; a JSON value need not be read from its
-- text as it was, and a number that is not finite need not be a JSON number, so that theorems which
-- rest on either say so. The history size of the vacuum, a `usize` that is cast to an `i64`, is taken
-- to be below 2^63.
--
-- A task is a function of a world and a session. The world says which statements the database fails
-- for reasons of its own (a lost connection, a foreign key, the limit on the size of content), which
-- ids gen_random_uuid() gives and what NOW() is; the session has the tables and the number of the
-- next statement. A statement is carried out as a whole or not at all; what was written before a
-- failure stays, but for a transaction, which is rolled back. Sessions do not interleave. The
-- authorization service, the length of a value as text and the JSON codec are parameters.
--
-- Rows that SQL may number in any order keep the order of the list in ROW_NUMBER() as well. The order
-- of labels in the database's collation is a parameter, `label_before`.
--
-- Not modelled: the queries on agents, bans and editions, the handlers that enter and adjust a room
-- (the task of the adjustment is), the other HTTP and MQTT endpoints, the ban callback, the NATS
-- consumer, S3, metrics and configuration. The derives of serde are not modelled either. Postgres
-- keeps instants in microseconds, the model in nanoseconds.
pub mod Base
pub mod RoomTime
pub mod Db
pub mod Ranges
pub mod AdjustRoom
pub mod CommitEdition
pub mod Endpoint
mod Tests
