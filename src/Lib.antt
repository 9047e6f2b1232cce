-- ===== src/Lib.antt =====
-- A verification library for the Valk repository: for parts of the library of Valk under lib/src, and
-- for the Go programs under examples/bench, which the Valk compiler and its garbage collector are
-- measured against. Each of those programs checks itself by a number that it prints (a count, a hash,
-- a checksum); the models say what the numbers are.
--
-- Which file models what:
--   Deque           lib/src/core/deque.valk: the ring (Deque), its invariant (Deque/Valid), growth
--                   (Deque/Grown, Deque/Zeros, Deque/Fitted), positions (Deque/Ring), each call
--                   (Deque/Ends, Deque/Moves, Deque/Items, Deque/Copies,
--                   Deque/Clones), the slots without an item
--                   (Deque/Clean, Deque/Cleared), sequences of calls next to a list (Deque/Calls,
--                   Deque/Refines)
--   Heap            lib/src/core/heap.valk: the binary heap, with swaps and with a hole (Heap), its order
--                   (Heap/Order), the hole (Heap/Holes), upwards (Heap/Up), downwards (Heap/Down,
--                   Heap/Bottom), its root (Heap/Least), pushes, pops and drains (Heap/Queue),
--                   `replace` (Heap/Chosen, Heap/Lowered, Heap/Replaced)
--   Url             lib/src/url/encode.valk: percent encoding (Url), the decoder (Url/Decoded), what the
--                   encoder writes (Url/Letters), both together (Url/RoundTrip)
--   Random          the pseudo-random generator (`lcg` of examples/bench/lru/main.go and the same
--                   recurrence on uint64 in examples/bench/shared-cache/main.go)
--   Lru             examples/bench/lru/main.go: the cache (Lru), the abstract list (Lru/Abstract),
--                   the invariant (Lru/Valid), `main` (Lru/Main)
--   Sieve           examples/bench/nsieve/main.go
--   Tree            the trees of examples/bench/binary-tree/main.go (with `main` in
--                   Tree/Sequential), examples/bench/binary-tree-multi/main.go (Tree/Parallel) and
--                   examples/bench/gc/main.go
--   Merkle          examples/bench/merkletrees/main.go, with `main` in Merkle/Main
--   Chain           linked nodes on an explicit heap: `chain` and `lenChain` of
--                   examples/bench/gc/main.go, `createObjects` and `verify` of
--                   examples/bench/gc-overhead/main.go
--   Gc              the seven benchmarks of examples/bench/gc/main.go and its `main`
--   GcMulti         examples/bench/gc-multi/main.go: the benchmarks on one goroutine (GcMulti), those
--                   with four (GcMulti/Threads), `main` (GcMulti/Main); the nodes that are kept
--                   (GcMulti/Retained), the batches and the pauses (GcMulti/Measured), the schedules
--                   (GcMulti/Published) and the whole suite (GcMulti/Suite)
--   Objects         examples/bench/objects/main.go
--   Shared          examples/bench/shared-cache/main.go: `work` as a state machine with a step for each
--                   statement on the cache (Shared), schedules and `main` (Shared/Main), a goroutine
--                   on its own and the invariant of a step (Shared/Alone), the invariant of the
--                   program (Shared/Schedules)
--   Channel         examples/bench/shared-channel/main.go: `produce` and `consume` on a bounded channel
--                   (Channel), schedules and `main` (Channel/Main), what is left to add up and the
--                   invariant (Channel/Drained)
--   Lock            examples/bench/shared-lock/main.go: `work` (Lock), schedules and `main`
--                   (Lock/Main), the counts that a step changes (Lock/Counted, Lock/Steps), what
--                   range visits (Lock/Visited)
--   Broadcast       examples/bench/shared-broadcast/main.go: the publisher and the subscribers
--                   (Broadcast), schedules and `main` (Broadcast/Main), what is delivered and the
--                   invariant (Broadcast/Delivered, Broadcast/Steps, Broadcast/Progress)
--   Spectral        examples/bench/spectral-norm/main.go (Spectral/Sequential) and
--                   examples/bench/spectral-norm-multi/main.go (Spectral/Parallel)
--   Reading         examples/bench/shared-read/main.go, with the lookups in Reading/Found
--   Overhead        `main` of examples/bench/gc-overhead/main.go
--   Prelude         shared names, integers, powers of two, the output, results by index; the rule
--                   for a program that a schedule runs turn by turn (Prelude/Turns) and its instance
--                   for threads that share a state (Prelude/Threads)
--   Tests           the theorems at concrete inputs, and runs
--
-- Conventions. A function of Go or of Valk is a definition of the same name in snake case. A run
-- gives a `Result`: a value, a panic, or `out_of_fuel` where a loop runs on fuel; each theorem
-- about such a loop shows that the fuel is enough. The fuel of a walk through the heap is the
-- number of allocated nodes plus one; that of a loop over depths is the maximum depth, that of the
-- inner loop of the sieve the length. An `int` that only counts or is compared is a signed integer
-- `ℤ` or a natural number; a sum that may wrap is a 64-bit pattern, with the remainder by 2 ^ 64
-- written out. What a program prints is the list of its calls of `fmt.Printf`; a panic drops the
-- lines before it. The growth of a deque doubles a 64-bit size, on a fuel of 65 rounds; a sift of a
-- heap runs on the length as fuel, a drain on the length and one more. A `String` and a
-- `ByteBuffer` of Valk are the list of their bytes; an error that is thrown is `none`.
--
-- Parameters. `strconv.Atoi`, `strconv.ParseUint`, `strconv.FormatUint`, the clock, the memory
-- statistics, the order in which results arrive, the order in which range visits a map, the
-- arithmetic of float64 and the schedule of goroutines are arguments of the definitions. A product
-- and a sum of floats are two operations: a compiler that fuses them is not modelled. The Go
-- collections that the programs use (slices, maps, container/list) are lists and association lists;
-- the map of the shared cache is a function.
--
-- Not modelled: what `fmt` makes of a format; the collector (an address is never used again); time;
-- stack overflows of deep recursion; the benchmarks of JSON and HTTP, which call encoding/json and
-- fasthttp with little code of their own; memory that runs out, and with it the panics of `make`
-- and of `increase_size` at lengths that no memory holds; `clear`, the copies and the iterator of
-- the heap, which are those of its array; the rest of the library of Valk, and the Valk compiler,
-- which is written in Valk itself.
pub mod Broadcast
pub mod Chain
pub mod Channel
pub mod Deque
pub mod Gc
pub mod GcMulti
pub mod Heap
pub mod Lock
pub mod Lru
pub mod Merkle
pub mod Objects
pub mod Overhead
pub mod Prelude
pub mod Random
pub mod Reading
pub mod Shared
pub mod Sieve
pub mod Spectral
mod Tests
pub mod Tree
pub mod Url
