-- ===== src/Archive/Restore.antt =====
-- `WasmallBlob::parse` and `WasmallModSegBlob::write` of src/wasmall/src/coder.rs on what `push_blob` wrote.
use crucible_rt.Prelude.{ℕ, ◌^◌, ◌<◌, ◌≡◌, refl, ap, arith, List, [], ◌++◌, length, All, none}
use crucible_rt.Leb.{Leb128, IsLeb128}
use crucible_rt.Result.{Result}
use crucible_rt.Reader.{result}
use crucible_rt.Cursor.{get_slice_read}
use crucible_rt.Cursor.Lookahead.{lookahead_ok}
use crucible_rt.Parse.{parse}
use crucible_rt.Parse.Items.{parse_ok}
use crucible_rt.Writer.{vec_writer}
use crucible_rt.Writer.RoundTrip.{read_u32_bytes}
use crucible_rt.Reloc.{RelocEntry}
use crucible_rt.Scalar.{rewrite_kind, with_value}
use crucible_rt.Rewrite.{Rewriter, scalar}
use crucible_rt.Coder.Site.{Site, AllSites, source, zeroed, entries, map-over_sites, length-entries}
use crucible_rt.Coder.Blob.{blob_bytes, entries_bytes}
use crucible_rt.Coder.Push.{values_bytes, IsU32}
use crucible_rt.Archive.{WasmallBlob, parse_blob_naked, skip_entries, write_segment}
use crucible_rt.Archive.Lists.{
  get_slice_read-append, collect-values_bytes, collect-entries_bytes, check-entries_bytes,
  skip-entries_bytes,
}
use crucible_rt.Archive.Blob.{
  entries-AllEntries, entries-IndexBelow, entry_values_lem, check_zero_lem, restore,
}

-- The parsed form of a blob.
abbrev pub blob_of : Leb128 → List Site → List ℕ → WasmallBlob
blob_of codec ss tail = record {
  relocations = entries_bytes codec (entries 0 ss);
  bytes = zeroed codec ss tail;
}

module _ (codec : Leb128) (laws : IsLeb128 codec) (values : List ℕ) (ss : List Site) (tail : List ℕ)
    (sites : AllSites values ss) (small : length (source ss tail) < 2 ^ 32) where
  -- With a LEB128 codec as documented, the blob of places that lie as their relocations say, at
  -- full width, a LEB128 place holding a number below 2^32, or below 2^31 where it is signed, and
  -- with an addend, of 32 bits, just where its type has one, the number being the value of the
  -- index plus the addend modulo 2^32, with indices below 2^32, fewer than 2^32 places in data
  -- below 4 GiB, parses as its entries and its zeroed data.
  pub parse-blob_bytes :
      length ss < 2 ^ 32
      → result (parse (parse_blob_naked codec) (blob_bytes codec ss tail))
        ≡ Result.ok (blob_of codec ss tail)
  parse-blob_bytes few =
      let data_ = zeroed codec ss tail in
      let es = entries 0 ss in
      let good = entries-AllEntries codec laws values 0 ss tail sites (omega arith) in
      let list = entries_bytes codec es in
      let skipped = rw length-entries at (skip-entries_bytes codec laws es data_ good) in
      let sliced = get_slice_read-append (skip_entries codec (length ss)) list data_ tt skipped in
      ap result (
        parse_ok (parse_blob_naked codec) (blob_bytes codec ss tail) data_ (blob_of codec ss tail) (
          unfold parse_blob_naked blob_bytes in
          rw (
            read_u32_bytes codec laws (length ss) none (list ++ data_) few (omega arith),
            lookahead_ok (get_slice_read (skip_entries codec (length ss))) (list ++ data_) data_
                (tt, list) sliced,
          )))

  -- With a LEB128 codec as documented, for places that lie as their relocations say, at full
  -- width, a LEB128 place holding a number below 2^32, or below 2^31 where it is signed, and with
  -- an addend, of 32 bits, just where its type has one, the number being the value of the index
  -- plus the addend modulo 2^32, for data below 4 GiB and for indices and values below 2^32,
  -- writing the segment of the parsed blob appends the data that was pushed, with no error and no
  -- panic.
  pub write_segment_lem :
      (hash out : List ℕ)
      → All IsU32 values
      → write_segment codec
          (record { hash = hash; reloc_values = values_bytes codec values })
          (blob_of codec ss tail)
          out
        ≡ Result.ok (out ++ source ss tail)
  write_segment_lem hash out fit =
      let es = entries 0 ss in
      let good = entries-AllEntries codec laws values 0 ss tail sites (omega arith) in
      unfold write_segment in
      rw (
        collect-values_bytes codec laws values fit,
        check-entries_bytes codec laws (length values) es good
            (entries-IndexBelow codec laws values 0 ss sites),
        collect-entries_bytes codec laws es good,
        check_zero_lem codec laws values [] 0 ss tail sites refl,
        entry_values_lem codec laws values 0 ss sites,
        map-over_sites {Y = ℕ × Rewriter (List ℕ) (Unit {0})}
            (λ (p : ℕ × RelocEntry).
              (p.1.offset, scalar codec (with_value (rewrite_kind p.1.ty) p.0)))
            (λ e s. (s.val, e)) 0 ss,
        restore codec laws values ss tail out sites,
      )
