-- ===== src/Coder.antt =====
-- src/wasmall/src/coder.rs: `WasmallWriter`, which collects verbatim bytes and blobs, and the archive
-- that it finishes into. The hash function is blake3, a parameter; its output is a list of bytes.
-- Debug assertions are on, as in the builds that the justfile runs.
pub mod Entry
pub mod Site
pub mod Blob
pub mod Push
pub mod Finish
use crucible_rt.Prelude.{
  ℕ, zero, suc, ◌+◌, ◌%◌, ◌^◌, ◌≡◌, List, [], ◌∷◌, ◌++◌, length, map, Option, none, some, ltb, leb,
  ◌==◌, if◌then◌else◌, get_elem?, Bool, true, false,
}
use mathlib.Core.Option
use crucible_rt.Hashes.{hash_eq}
use crucible_rt.Leb.{Leb128}
use crucible_rt.Result.{Result, ok, err, panic, stuck, ◌>>=◌, unwrap_result}
use crucible_rt.Reader.{Read, Reader, bind, unwrap, lift}
use crucible_rt.Writer.{BufWriter, write_var_u32, write_var_i32, len_of, vec_writer, len_counter}
use crucible_rt.Reloc.{RelocEntry, type_byte}
use crucible_rt.Scalar.{rewrite_kind, with_zeroed, with_value, read, as_u32, wrapping_add, rewrite}
use crucible_rt.Rewrite.{Rewriter, slice, rewrite_relocated, scalar}

pub data SegmentKind : Type 0 where
  verbatim blob : SegmentKind

-- A `Range<usize>` of the writer's buffer.
pub record Range : Type 0 where
  pub start : ℕ
  pub end : ℕ

pub data Segment : Type 0 where
  verbatim : Range → Segment
  blob : Range → Range → Segment

pub record WasmallWriter : Type 0 where
  pub buf : List ℕ
  pub segments : List Segment

unfoldable pub empty_writer : WasmallWriter
empty_writer = record { buf = []; segments = [] }

-- A verbatim segment that ends where the buffer ended: the last one grows, or a new one is pushed.
unfoldable pub grow_last : ℕ → ℕ → List Segment → List Segment
grow_last start end [] = verbatim (record { start = start; end = end }) ∷ []
grow_last start end (verbatim range ∷ []) = verbatim (record range { end = end }) ∷ []
grow_last start end (blob b c ∷ []) = blob b c ∷ verbatim (record { start = start; end = end }) ∷ []
grow_last start end (s ∷ t ∷ rest) = s ∷ grow_last start end (t ∷ rest)

-- `push_verbatim`, of a closure that extends the buffer.
unfoldable pub push_verbatim : WasmallWriter → List ℕ → WasmallWriter
push_verbatim w data_ =
    let buf = w.buf ++ data_ in
    record { buf = buf; segments = grow_last (length w.buf) (length buf) w.segments }

-- The archive: the module's segments, the blobs one after the other, and where each hash lies.
pub record WasmallArchive : Type 0 where
  pub out_buf : List ℕ
  pub blob_buf : List ℕ
  pub hashes : List (List ℕ × Range)

unfoldable pub empty_archive : WasmallArchive
empty_archive = record { out_buf = []; blob_buf = []; hashes = [] }

-- The map `hashes`, and `hashes[&hash]`, which panics on a missing key.
unfoldable pub lookup : List ℕ → List (List ℕ × Range) → Option Range
lookup h [] = none
lookup h ((k, range) ∷ hashes) = if hash_eq k h then some range else lookup h hashes

-- A blob is stored only under a hash that is not there yet.
unfoldable pub insert_vacant : List ℕ → List ℕ → WasmallArchive → WasmallArchive
insert_vacant h bytes a = elim (lookup h a.hashes) [
  | some range ↦ a
  | none ↦
      let blob_buf = a.blob_buf ++ bytes in
      record a {
        blob_buf = blob_buf;
        hashes =
            a.hashes ++ ((h, record { start = length a.blob_buf; end = length blob_buf }) ∷ []);
      }
]

module _ (codec : Leb128) where
  -- The values one after the other.
  unfoldable pub write_values : {W : Type 0} ⦃w : BufWriter W⦄ → List ℕ → W → Result W
  write_values [] out = ok out
  write_values (v ∷ vs) out = do out' ← write_var_u32 codec out v; write_values vs out'

  -- One relocation entry as `push_blob` writes it, at the offset that the counter has reached.
  unfoldable pub write_entry : RelocEntry → ℕ → List ℕ → Result (List ℕ)
  write_entry reloc offset buf = do
    buf' ← write_var_u32 codec (buf ++ (type_byte reloc.ty ∷ [])) (offset % 2 ^ 32)
    buf'' ← write_var_u32 codec buf' reloc.index
    elim reloc.addend [ none ↦ ok buf'' | some addend ↦ write_var_i32 codec buf'' addend ]

  -- The debug assertion of `push_blob`: the bytes at a place hold the value that the entry names.
  unfoldable pub check_value : RelocEntry → List ℕ → List ℕ → Result (Unit {0})
  check_value reloc relocation_values reader = elim (read codec (rewrite_kind reloc.ty) reader) [
    | Read.ok s rest ↦ elim (get_elem? relocation_values reloc.index) [
      | some v ↦ if as_u32 s == wrapping_add v (Option.get_or reloc.addend 0) then ok tt else panic
      | none ↦ panic
    ]
    | Read.err e rest ↦ panic
    | Read.panic ↦ panic
    | Read.stuck ↦ stuck
  ]

  -- The rewriter that `push_blob` first runs: it writes the entry into the buffer, and moves the
  -- counter past the place.
  unfoldable pub entry_rewriter : List ℕ → RelocEntry → Rewriter ℕ (List ℕ)
  entry_rewriter relocation_values reloc counter buf reader =
      bind (lift (write_entry reloc counter buf) reader) λ buf'. λ reader'.
        bind (lift (check_value reloc relocation_values reader') reader') λ _. λ reader''.
          unwrap (scalar codec (with_zeroed (rewrite_kind reloc.ty)) counter buf' reader'')

  -- `write_var_u32(relocations.len() as u32)`, the entries, and the data with its places zeroed.
  unfoldable pub write_blob : List RelocEntry → List ℕ → List ℕ → List ℕ → Result (List ℕ)
  write_blob relocations relocation_values data_ buf = do
    buf' ← write_var_u32 codec buf (length relocations % 2 ^ 32)
    entries ← unwrap_result (
        rewrite_relocated data_ 0 buf'
          (map (λ reloc. (reloc.offset, entry_rewriter relocation_values reloc)) relocations))
    body ← unwrap_result (
        rewrite_relocated data_ entries.1 tt (
          map (λ reloc. (reloc.offset, scalar codec (with_zeroed (rewrite_kind reloc.ty))))
            relocations))
    ok body.0

  -- The values that a blob's places take, after the count of their bytes.
  unfoldable pub write_concretes : List ℕ → List ℕ → Result (List ℕ)
  write_concretes relocation_values buf = do
    byte_size ← len_of (λ c. write_values relocation_values c)
    buf' ← write_var_u32 codec buf (byte_size % 2 ^ 32)
    write_values relocation_values buf'

  unfoldable pub push_blob :
      WasmallWriter → List RelocEntry → List ℕ → List ℕ → Result WasmallWriter
  push_blob w relocations relocation_values data_ = do
    blob_buf ← write_blob relocations relocation_values data_ w.buf
    buf ← write_concretes relocation_values blob_buf
    let blob_range : Range = record { start = length w.buf; end = length blob_buf }
    let concretes : Range = record { start = length blob_buf; end = length buf }
    ok (record { buf = buf; segments = w.segments ++ (blob blob_range concretes ∷ []) })

  module _ (hash : List ℕ → List ℕ) where
    -- One segment of the archive.
    unfoldable pub finish_segment : List ℕ → Segment → WasmallArchive → Result WasmallArchive
    finish_segment buf (verbatim range) a = do
      bytes ← slice buf range.start range.end
      out ←
          if ltb (length bytes) (2 ^ 32)
          then write_var_u32 codec (a.out_buf ++ (0 ∷ [])) (length bytes)
          else panic
      ok (record a { out_buf = out ++ bytes })
    finish_segment buf (blob blob_range concretes) a = do
      bytes ← slice buf blob_range.start blob_range.end
      values ← slice buf concretes.start concretes.end
      ok (
          insert_vacant (hash bytes) bytes
            (record a { out_buf = ((a.out_buf ++ (1 ∷ [])) ++ hash bytes) ++ values }))

    unfoldable pub finish_segments : List ℕ → List Segment → WasmallArchive → Result WasmallArchive
    finish_segments buf [] a = ok a
    finish_segments buf (s ∷ rest) a = do a' ← finish_segment buf s a; finish_segments buf rest a'

    unfoldable pub finish : WasmallWriter → Result WasmallArchive
    finish w = finish_segments w.buf w.segments empty_archive
