-- ===== src/Lib.antt =====
-- The storage node of the repository, verified: crash-safe logs on persistent memory
-- (storage_node/src), written in Rust and Verus.
--
-- The program. A log lives in one region of persistent memory. Bytes are appended tentatively,
-- committed atomically, read by position, and dropped from the front by advancing the head. The
-- region holds a header of global and region metadata, a corruption-detecting boolean (CDB) that
-- selects one of two copies of the log metadata, and a circular log area. Commit and the advance of
-- the head write the copy that is not selected, flush, flip the boolean, and flush again. A crash
-- keeps or loses each outstanding write in chunks of eight bytes, and a read may find corruption.
-- A multilog is several logs, each in a region of its own, that are committed together: the boolean of
-- the first region selects the log metadata of all of them.
--
-- The modules.
--   Base      the shared names, Boolean tests on numbers, lists, machine words, results
--   Pmem      storage_node/src/pmem: View (pmemspec_t.rs, one region as a length and a byte for each
--             address, with what was last flushed and what is outstanding), Crash (pmemutil_v.rs),
--             Bytes and Medium (serialization_t.rs, pmemspec_t.rs: the encoding of integers, the CRC,
--             what a read returns), Wrpm (wrpm_t.rs, one region), Regions (several regions, of
--             pmemspec_t.rs and wrpm_t.rs), Mock and Mocks (pmemmock_t.rs, one region and several)
--   Log       storage_node/src/log: Spec (logspec_t.rs), Layout and Recover (layout_v.rs), Impl
--             (logimpl_v.rs: the state LogImpl is UntrustedLogImpl without its ghost state, and each
--             method is a function of it and of the region), Inv (inv_v.rs), Append, Commit, Update,
--             Advance and Read (the proofs of the methods), Setup (setup_v.rs), Start (start_v.rs),
--             Fresh (a start after a setup), Allowed (where the methods write), Api (logimpl_t.rs, and
--             a step relation of calls, crashes and restarts, with the events that a client sees and a
--             relation of the abstract log on the same events), Tests (a log of four bytes on which
--             the theorems are applied)
--   Multilog  storage_node/src/multilog: Spec (multilogspec_t.rs), Layout and Recover (layout_v.rs,
--             where it differs from that of the single log), Recovered (what recovery of several
--             regions gives), Impl (multilogimpl_v.rs), Inv (inv_v.rs), Update, Commit, Advance,
--             Append and Read (the proofs of the methods), Setup (setup_v.rs), Start (start_v.rs),
--             Fresh (a start after a setup), Allowed (where the methods write), Api
--             (multilogimpl_t.rs, and step relations as in Log), Tests (two regions with logs of four
--             bytes)
--
-- How the state corresponds. A Rust integer of type u64 or u128 is a natural number below 2^64 or
-- 2^128, and its arithmetic wraps around in the model; the proofs show that on a valid log it does
-- not. The ghost abstract state of UntrustedLogImpl is the last argument of IsValid. A permission to
-- write is a predicate on the contents that the region or the regions can crash as: the model
-- records the view after every write and flush, and a theorem says of each that all it can crash as
-- satisfies the predicate. The loops of the multilog run over the list of regions or count the logs;
-- the record LogInfo, which storage_node/src/log and storage_node/src/multilog declare alike, is one
-- here.
--
-- Parameters. The hardware and the CRC crate are the record Medium: the CRC of a sequence of bytes,
-- the byte that a read finds at an address where a byte was last written, and whether the medium is
-- impervious to corruption. IsSound states what the source assumes of them in its axioms. The medium
-- finds a byte of region i of several at the address plus i * 2^64, so that no two regions share
-- addresses. A run of calls, crashes and restarts (System.Run) has one medium throughout: a byte
-- that is stored at an address reads the same each time. The random generator of identifiers is an
-- argument of Api.setup.
--
-- Bounds. No function runs on fuel: all recursion is on lists and on numbers.
--
-- Not modelled: the key-value store (storage_node/src/kv), whose durable and volatile parts are
-- traits that nothing in the source implements, and the earlier log in pmemlog. Left out: the
-- back ends on files, which are calls of the operating system, the unverified experiments, and the
-- functions parse_* of layout_v.rs, which no operation reaches.
pub mod Base
pub mod Pmem
pub mod Log
pub mod Multilog
