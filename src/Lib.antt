-- ===== src/Lib.antt =====
-- Verification of regel: the owned CEK machine (internal/cek), which runs the definitions of a catalog
-- as a step machine whose whole state can be parked in a database and resumed later.
--
-- The parts of the program: internal/lower turns TypeScript into rAST (internal/rast); internal/cek runs
-- rAST; internal/cfr writes the parked state as a frame record, claims it, and steps the machine;
-- internal/kernel and internal/admission serve and admit definitions; internal/ui renders. The
-- model covers the trees of internal/rast with their codec and normal form, the evaluator of
-- internal/cek, the codec and the message claim of internal/cfr, the breaker of internal/kernel,
-- the admission door of internal/admission and the name paths of internal/catalog.
--
-- Where each part stands (paths below internal):
-- Rast: rast/node.go. Node, Kind and OpKind. Rast.Schema, Rast.Codec: schema.go and encode.go, a tree and
--   its canonical bytes; Rast.Kept, Rast.Roundtrip: what of the tree the bytes keep; Rast.Normal and its
--   children: normalize.go, with Go's stable sort in Base.Sort; Rast.Equality: `Equal`; Rast.Address and
--   its children: address.go.
-- Cek.Value, Cek.Env: cek/value.go and env.go. A Go pointer is an index into a heap, a list of objects;
--   strings are byte lists; a float64 is its bit pattern.
-- Cek.Coerce, Cek.Ops, Cek.Props, Cek.Bind: cek/ops.go, props.go, bind.go.
-- Cek.Machine: machine.go, frame.go, meter.go, outcome.go, wake.go: `Machine` is `type machine struct`
--   with the meter and the heap; `State` is what a park captures; `Step` is one transition's result
--   (go on, stop with an outcome, or a Go panic); `Interp` is the loader, the natives and the clock.
-- Cek.Control, Cek.Loops, Cek.Assign, Cek.Call, Cek.Eval, Cek.Apply, Cek.Unwind: the transitions, in
--   control.go, loops.go, assign.go, apply.go, eval.go and unwind.go, one function per Go method; a frame
--   that the Go code edits in place is replaced at the top of the frames.
-- Cek.Run: the loop `run` and the meters; Cek.Resume: `newMachine`, `Resume` and `rebindNodes`;
-- Cek.Initial: `InitialState`.
-- Cek.Coherence and its children: the invariant that makes a pause possible, transition by transition.
-- Cfr.Wire, Cfr.Kinds, Cfr.Form: the primitive writers of cfr/codec.go and readers of cfr/decode.go, the
--   numbers of the kinds, and the form of a state, in which a pointer is a place in the object table and
--   the frames are in Go's order, the bottom first (a machine and a State have the top first).
-- Cfr.Intern: the first pass of `Encode`; Cfr.Image, Cfr.Encode: its second pass, to the form and on to
--   the bytes; Cfr.Decode, Cfr.Load: `Decode`, to the form and on to the memory that it builds.
-- Cfr.Codec: the bytes and the form; Cfr.Restore: the whole way, and on to `Resume`; Cfr.Restore.Values:
--   `EncodeValue` and `DecodeValue`; Cfr.Match: the claim of a message in cfr/match.go.
-- Kernel.Breaker: kernel/breaker.go; Admission.Door: admission/backpressure.go and the retries of
--   admission/pipeline.go; Catalog.NamePath: catalog/namepath.go.
-- Cek.Records, Cek.Equality, Cek.Signals, Cek.Calls, Cek.Slots, Cek.Aliasing, Cek.Chains: laws of
--   single parts.
-- Examples: concrete inputs at which the theorems are used.
--
-- Parameters: the natives (Interp.native) are any functions of principal, effects, heap and arguments;
-- the loader (Interp.load) is any function from hashes to nodes; the clock that the governor reads
-- (Interp.late) is any function of the count; Go's float64 arithmetic and strconv (Floats) are functions
-- on bit patterns; SHA-256 (digest) is a function whose values here have 32 bytes; json.Unmarshal and the
-- update of a message's row are any functions. The theorems on coherence assume that every definition
-- that loads has a name, has fewer than 65537 children at each node (a path index is a uint16), four
-- children at each function, and no do-while.
--
-- Bounds: `run` takes the number of turns; the Go loop has none, and the theorems on the meters give a
-- number that suffices. `lookup` and `assign` walk the chain of environments with (index + 1) * (heap
-- size + 1) steps. `toStr` on a heap object has a depth bound; an array that contains itself, on which
-- Go does not return, gives the result `hang`. The first pass of `Encode` has a depth of at most the size
-- of the heap; no path of new objects is longer. A decoded count is bounded by the size of the blob, and
-- the depth of a decoded tree by the number of its bytes.
--
-- Not modelled: contexts and cancellation, the text of error messages, the standard natives
-- (cek/native.go, stdread.go, stdworld.go), which are I/O; the bucket of admission fuel, which SQL keeps;
-- the printer of rast/print.go; and the other packages.
pub mod Base
pub mod Rast
pub mod Cek
pub mod Cfr
pub mod Kernel
pub mod Admission
pub mod Catalog
pub mod Examples
