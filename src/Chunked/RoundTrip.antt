-- ===== src/Chunked/RoundTrip.antt =====
-- `build` against the chunk readers: what the writer stores of a dataset is read back as the dataset.
use oxih.Base.{
  ℕ, suc, ◌+◌, ◌*◌, ◌^◌, ◌≤◌, ◌<◌, ◌≡◌, refl, sym, ◌∙◌, ap, List, [], ◌∷◌, Option, arith, length,
  All, lt→ltb, subst,
}
use oxih.Bytes.{Bytes, IsByte, sub, get_range_ok}
use oxih.Outcome.{ok, word, ok_eq}
use oxih.Geometry.Coords.{volume}
use oxih.Filters.Codecs.{Codecs}
use oxih.Filters.Pipeline.{Filter}
use oxih.Filters.Pipeline.RoundTrip.{IsLossless}
use oxih.Tiles.{ChunkImage, build}
use oxih.Tiles.Counts.{counts_of}
use oxih.Tiles.Grid.{chunk_origins_cover}
use oxih.Tiles.Cut.{Sized, volume-lt}
use oxih.Chunked.{ChunkRecord, read_chunk_bytes, chunk_filters, read_serial}
use oxih.Chunked.Assemble.{TilesAt, assemble_chunks_tiles}
use oxih.Chunked.Images.{pipeline_of, IsLegal, ImagesAt, build_lem}

-- A record that a file holds an image at: its bytes at the record's address, and no filter masked.
pub record StoredAt (file_data : Bytes) (rec : ChunkRecord) (image : ChunkImage) : Type 0 where
  pub offsets_are : rec.offsets ≡ image.offsets
  pub unmasked : rec.filter_mask ≡ 0
  pub sized : rec.size ≡ length (image.bytes)
  pub fits : rec.address + rec.size ≤ length file_data
  pub bytes_are : sub file_data (rec.address) (rec.size) ≡ image.bytes

abbrev pub StoredAll : Bytes → List ChunkRecord → List ChunkImage → Type 0
StoredAll file_data [] [] = Unit
StoredAll file_data (rec ∷ chunks) (image ∷ images) =
    StoredAt file_data rec image × StoredAll file_data chunks images
StoredAll file_data _ _ = ⊥

-- Where zlib is lossless, and the deflate level, if there is one, is at most 9: a dataset of bytes, in
-- chunks of its rank without a zero extent, of sizes that the arithmetic can hold and elements of a
-- 32-bit size, is tiled and filtered without an error, into one image for each chunk of the grid.
pub build_images_count :
    (codecs : Codecs) (filter : Option Filter) (raw : Bytes) (shape chunk : List ℕ) (elem_size : ℕ)
    → IsLossless codecs
    → IsLegal filter
    → elem_size < 2 ^ 32
    → Sized shape chunk elem_size
    → length raw ≡ volume shape * elem_size
    → All IsByte raw
    → (images : List ChunkImage) × (build codecs raw shape chunk elem_size filter ≡ ok images)
      × (length images ≡ volume (counts_of shape chunk))
build_images_count codecs filter raw shape chunk elem_size lossless legal narrow sized whole all =
    let small = volume-lt (volume shape) elem_size (sized.elem_pos) (sized.dataset_fits) in
    let (images, origins, ran, built, at) =
      build_lem codecs filter raw shape chunk elem_size lossless legal narrow sized whole all in
    let (grid, grid_ran, n, on_grid, every, cover) =
      chunk_origins_cover shape chunk (sized.tiled) small in
    let same : origins ≡ grid = ok_eq (sym ran ∙ grid_ran) in
    (images, built, length-ImagesAt images origins at ∙ ap (λ o. length o) same ∙ n)
  where
    length-ImagesAt :
        (images : List ChunkImage) (origins : List (List ℕ))
        → ImagesAt codecs filter raw shape chunk elem_size lossless legal narrow sized images
            origins
        → length images ≡ length origins
    length-ImagesAt [] [] at = refl
    length-ImagesAt [] (o ∷ origins) at = absurd at
    length-ImagesAt (i ∷ images) [] at = absurd at
    length-ImagesAt (i ∷ images) (o ∷ origins) (at, ats) =
        ap suc (length-ImagesAt images origins ats)

read_stored :
    (file_data : Bytes) (rec : ChunkRecord) (image : ChunkImage)
    → length file_data < word
    → StoredAt file_data rec image
    → read_chunk_bytes file_data rec ≡ ok (image.bytes)
unfolding read_chunk_bytes
read_stored file_data rec image small at =
    rw
      (
        lt→ltb (rec.address + rec.size) word (omega (arith, at.fits)),
        get_range_ok file_data (rec.address) (rec.size) (at.fits),
      )
      (ap ok (at.bytes_are))

-- Where zlib is lossless, and the deflate level, if there is one, is at most 9: for a dataset of bytes,
-- in chunks of its rank without a zero extent, of sizes that the arithmetic can hold and elements of a
-- 32-bit size, whose images the writer has made: from a file shorter than the address range that holds
-- the images, in their order, where chunk records without a filter masked say, the reader, told the
-- pipeline that the writer records and any fill value, gives back the dataset.
pub read_serial-build :
    (codecs : Codecs) (filter : Option Filter) (raw : Bytes) (shape chunk : List ℕ) (elem_size : ℕ)
    (file_data : Bytes) (chunks : List ChunkRecord) (images : List ChunkImage)
    (fill_value : Option Bytes)
    → IsLossless codecs
    → IsLegal filter
    → elem_size < 2 ^ 32
    → Sized shape chunk elem_size
    → length raw ≡ volume shape * elem_size
    → All IsByte raw
    → build codecs raw shape chunk elem_size filter ≡ ok images
    → length file_data < word
    → StoredAll file_data chunks images
    → read_serial codecs file_data
        (pipeline_of filter elem_size)
        chunk
        shape
        elem_size
        fill_value
        chunks
      ≡ ok raw
unfolding read_serial
read_serial-build codecs filter raw shape chunk elem_size file_data chunks images fill_value
      lossless legal narrow sized whole all built small stored =
    let (made, origins, ran, made_built, at) =
      build_lem codecs filter raw shape chunk elem_size lossless legal narrow sized whole all in
    let same : made ≡ images = ok_eq (sym made_built ∙ built) in
    (assemble_chunks_tiles file_data raw shape chunk elem_size
      (chunk_filters codecs (pipeline_of filter elem_size) chunk elem_size) chunks origins
      fill_value sized whole ran
      (tiles_at chunks made origins (subst (StoredAll file_data chunks) (sym same) stored) at)).1
  where
    tiles_at :
        (chunks : List ChunkRecord) (images : List ChunkImage) (origins : List (List ℕ))
        → StoredAll file_data chunks images
        → ImagesAt codecs filter raw shape chunk elem_size lossless legal narrow sized images
            origins
        → TilesAt file_data raw shape chunk elem_size
            (chunk_filters codecs (pipeline_of filter elem_size) chunk elem_size)
            chunks
            origins
    tiles_at [] [] [] s at = tt
    tiles_at [] [] (o ∷ origins) s at = absurd at
    tiles_at [] (i ∷ images) origins s at = absurd s
    tiles_at (c ∷ chunks) [] origins s at = absurd s
    tiles_at (c ∷ chunks) (i ∷ images) [] s at = absurd at
    tiles_at (c ∷ chunks) (i ∷ images) (o ∷ origins) (s, ss) (at, ats) = (
      record {
        at_origin = s.offsets_are ∙ at.at_origin;
        stored = i.bytes;
        tile = at.tile;
        read = read_stored file_data c i small s;
        decoded =
            subst
              (λ m.
                chunk_filters codecs (pipeline_of filter elem_size) chunk elem_size (i.bytes) m
                ≡ ok (at.tile))
              (sym (s.unmasked)) (at.decoded);
        holds = at.holds;
      },
      tiles_at chunks images origins ss ats,
    )
