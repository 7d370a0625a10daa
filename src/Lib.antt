-- ===== src/Lib.antt =====
-- featcache: a cache of key-value pairs in shared memory. One loader writes a segment and serves
-- its description over a Unix socket; readers in other processes map the same bytes and look keys up
-- in them without locks.
--
-- The files, and the code that each models:
--
-- - Common: names that all share, lists and tests over native numbers, bit operations, and `Run`,
--   the result of Go code that may panic.
-- - Memory: a byte slice with the accesses that the code makes to it (encoding/binary in
--   little-endian order, sync/atomic, copy). A slice is its length and a function from offsets to
--   bytes; an operation that writes returns the new memory.
-- - Layout: pkg/featcache/types.go. `align` is Align, `next_pow2` is NextPow2, on uint32 with its
--   wrap-around.
-- - Header: pkg/featcache/header.go, with the assignments of Init to the header.
-- - Hash: pkg/featcache/hash.go. What crypto/rand answers is an argument.
-- - Table: pkg/featcache/hashtable.go. Each operation has the name of its method; its loop is a
--   function of its own over the rounds left, which start at the capacity. Table.Probe is linear
--   probing apart from bytes; Table.Scan equates each loop with a search; Table.Refine has the
--   invariant; Table.Insert, Table.Delete and Table.Fresh prove the operations against a finite map;
--   Table.Race looks at the bytes between two stores of `Insert`. Table.Steps has `Insert` and `Get`
--   again, as steps of one access to the shared bytes each, but that in `Get` the reads of a slot's
--   plain fields, the comparison of a key and the read of a value are one step each; and the states
--   that one writer and one reader reach in any order of their steps. A call takes at most two steps
--   (`Insert`) or three (`Get`) for each slot, and four or two more. Elsewhere an operation is one
--   step.
-- - Segment: pkg/shm/segment.go. Segment.Linux is pkg/shm/segment_linux.go over the calls to the
--   operating system, a parameter; Segment.Linux.Posix is what the code relies on of them: which
--   call makes or removes a file's name. Segment.Elsewhere is pkg/shm/segment_other.go; its
--   registry points to segments, which stand in a heap by number.
-- - Loader: pkg/featcache/loader.go. Loader.Load is `Load` over any data source; its loop takes
--   fuel, and a source of finitely many entries needs one round more than it has entries.
--   Table.Free counts the slots that are left, for Loader.Load.Room.
-- - Source: pkg/featcache/datasource.go, the three sources and what they supply.
-- - Protocol: pkg/featcache/protocol.go. A stream is the list of bytes still to come.
-- - Server: pkg/featcache/server.go, and a session of a client with it. Server.Life is its segment
--   and its socket. Server.Listen is the loop of `Listen` as a step relation: a step is the loop's, a
--   whole handler, a store of the loader or its `Close` or `Destroy` of the segment, a change of the
--   state, or part of a `Close` or `Destroy` of the server. What a client sends is a finite list of
--   bytes, so that a client which keeps its connection open and silent is not modelled.
-- - Reader: pkg/featcache/reader.go. Reader.Connect is NewReader over a network that is a parameter.
-- - Daemon: cmd/featload/main.go, from the loader to the call of Listen. Daemon.Main is its `main`,
--   with the flags and the start of Listen, and the `main` of cmd/featload/main_other.go.
-- - Demo: examples/featload-demo/main.go. Demo.Range is a map under `range`, whose order is open.
--
-- The shared bytes are a value that is passed along: an operation of the loader that stores into
-- the segment returns the loader with the new bytes, and a reader is given the bytes of the time of
-- its call. Integers are natural numbers, with `% 2 ^ w` written out where the code converts to w
-- bits. What the code takes from the operating system and the standard library (files, scanners,
-- writers, random bytes) is a parameter or an argument. Log lines are left out.
--
-- The theorems about the loader are for segments of at most 2 GiB, the largest whose positions the
-- int32 `dataEnd` holds, and for up to 2^26 expected entries, for which no size of the table wraps;
-- what happens beyond is stated on its own. The fuel of `Load` is a bound that every source of
-- finitely many entries meets.
--
-- Not modelled: what goes on at the same time inside one handler, `Load` or `Close`: `Insert` and
-- `Get` are interleaved in Table.Steps, the server's goroutines in Server.Listen; how cmd/featload
-- parses its flags and waits for a signal, which are the standard library's, and what the programs
-- print.
pub mod Common
pub mod Daemon
pub mod Demo
pub mod Hash
pub mod Header
pub mod Layout
pub mod Loader
pub mod Memory
pub mod Protocol
pub mod Reader
pub mod Segment
pub mod Server
pub mod Source
pub mod Table
