-- ===== src/Lib.antt =====
-- Crucible Runtime: the splitting of WebAssembly modules into archives, the values and memory that
-- cross the border of a guest, and the store of content-addressed files.
--
-- The parts and how they interact. `src/wasmall` splits a WebAssembly module into an archive of
-- verbatim bytes and deduplicated blobs, whose relocated places are zeroed and listed, and puts it
-- together again. util.rs has the byte cursor that every parser reads from and the writers that every
-- encoder appends to; reloc.rs reads relocations and rewrites the relocated places of a buffer;
-- coder.rs writes an archive with the one and reads it with the other; splitter.rs walks over a module
-- and calls coder.rs for its sections and functions; bin/roundtrip.rs is the loop that decodes.
-- `src/marshal` turns values into the primitives of a guest call, and `src/marshal-host` reads and
-- writes the guest's memory and calls its functions. `src/cafs` keeps files under their hashes; its map
-- of weakly held entries lets tasks that load one file share the work.
--
-- Which file models what. Each file's first comment names its source.
--   Hashes: the comparison of hashes. Result, Reader: `anyhow::Result`, panics, and a result with the
--     cursor that it leaves.
--   Leb: the `leb128` crate as a parameter `Leb128`, with what it documents as `IsLeb128`. Leb/Format
--     is the format, and Leb/Reference a codec that has those properties.
--   Cursor, Parse, Writer: src/wasmall/src/util.rs (`ByteCursor`; `ByteParse`, `ByteParseList` and
--     the parsers of numbers; `BufWriter` and `Leb128WriteExt`), with the function names of the source.
--   Reloc, Scalar, Rewrite: src/wasmall/src/reloc.rs (`RelocEntry` and its types; `ScalarRewriteKind`
--     and `ScalarRewrite`; `rewrite_relocated` and `Rewriter`).
--   Coder: the writer half of src/wasmall/src/coder.rs. `WasmallWriter` and `WasmallArchive` are
--     records, and each method gives the new record.
--   Archive: the reader half of src/wasmall/src/coder.rs, and src/wasmall/src/bin/roundtrip.rs as
--     `decode`.
--   Wasm: what the splitter reads of the `wasmparser` crate, as the parameter `WasmParser`.
--   Splitter: src/wasmall/src/splitter.rs. Splitter is the first pass, Splitter/Functions the loop over
--     the functions of a code section, Splitter/Module the second pass and `split_module`. The others
--     describe a module by its sections, functions and relocated places (Places, Blobs, Sections,
--     Notes, Stripped) and follow them through (Symbols, Localise, Pushes, Passes, Relocs, Order,
--     Collected, RoundTrip, Missing).
--   CompareSets: src/wasmall/src/bin/compare_sets.rs.
--   ArcMap: `ArcMap` and `ArcMapRef` of src/cafs/src/util.rs, as a store of reference counts with the
--     steps of any threads. Cafs: src/cafs/src/lib.rs, on the file system `Files`.
--   Tracker: `OffsetTracker` of src/wasmall/src/util.rs, its map as a list by rising start.
--   Marshal: src/marshal/src/lib.rs. Memory: reads and writes of src/marshal-host/src/lib.rs.
--   Dynamic: `WasmVtable` of src/marshal/src/lib.rs, and `WasmFuncRef`, `WasmDynamicExt` and
--     `WasmDynamicFuncExt` of src/marshal-host/src/lib.rs, on the function table as a parameter.
--   Prelude: shared names, Boolean tests and lists. Tests: a concrete module, and the theorems at
--     concrete inputs.
--
-- How the state and the numbers are modelled. A byte is a number below 256, a buffer a list, a
-- cursor the list of the bytes that are left, and a `&mut` argument a value that is handed through.
-- A `usize` is at least 64 bits wide. An `i32` or `i64` is its bit pattern, and a cast is written
-- out as a remainder. A panic is an outcome of its own; debug assertions are on. The hash, blake3,
-- is a parameter. A relocated place of the round trip is a `Site`: the bytes before it, its own
-- bytes, and its relocation; signed places hold numbers that are not negative. The splitter's
-- theorems take a module below 2 GiB, so that every length fits in a `u32`. Behind the file system
-- `Files` a call of an asynchronous function is its result. A file that is written, `TokioFile`, is
-- the bytes that it took, whether all are flushed, and whether an error came up; what is in a
-- renamed file is known only when it is flushed. The guest's memory starts at an address of the
-- host, and an object is read from it by the casts of `bytemuck`, which refuse a wrong alignment:
-- both are the parameter `Host`.
--
-- Fuel. `for_all` runs a list of parsed items on one more round than the list has bytes. Each item
-- takes a byte at least, so that the rounds are enough; `stuck` is the outcome of too few.
--
-- Not modelled: texts, contexts and positions of errors; what a writer holds after an error, which
-- every caller drops; in `src/cafs` the sled database, and waiting for a task that loads the same
-- file; the unsafe pointers of the guest's side of `src/marshal`; formatting and the binaries'
-- input and output.
pub mod Prelude
pub mod Result
pub mod Hashes
pub mod Reader
pub mod Cursor
pub mod Parse
pub mod Writer
pub mod Reloc
pub mod Scalar
pub mod Rewrite
pub mod Coder
pub mod Archive
pub mod Wasm
pub mod ArcMap
pub mod Cafs
pub mod Splitter
pub mod CompareSets
pub mod Tracker
pub mod Marshal
pub mod Memory
pub mod Dynamic
pub mod Leb
pub mod Tests
