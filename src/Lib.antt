-- ===== src/Lib.antt =====
-- The file structures of OxiH5, a reader and writer of HDF5 files.
--
-- A file is read bottom up. The superblock (crates/oxih5-format/src/superblock.rs) gives the root
-- group's object header; an old-style group is a B-tree (btree.rs) whose leaves are symbol table
-- nodes (snod.rs) with names in a local heap (heap.rs), and group.rs looks names up in it and lists
-- it. The raw bytes of a chunk go through the inverse of a filter pipeline (filters.rs). The writer
-- (crates/oxih5/src/write) lays the same structures down in one buffer: format.rs the superblock,
-- heaps and symbol table nodes, payload.rs and pipeline.rs the chunks and their filters.
--
-- Which module models which file:
--   Superblock        crates/oxih5-format/src/superblock.rs (`parse`, its readers and decoders)
--   Cursor            crates/oxih5-format/src/cursor.rs (every method returns the cursor it leaves)
--   LocalHeap, Utf8   crates/oxih5-format/src/heap.rs (`parse`, `name_at`, and `str::from_utf8`)
--   Snod              crates/oxih5-format/src/snod.rs
--   GroupBtree        crates/oxih5-format/src/btree.rs (`parse`, `collect_leaves`)
--   Group             crates/oxih5-format/src/group.rs, the symbol table groups
--   GlobalHeap        crates/oxih5-format/src/global_heap.rs (`parse`, `object`) and
--                     global_heap_writer.rs (`serialize_collection`, `build_collections`)
--   Filters           crates/oxih5-format/src/filters.rs: Shuffle, Fletcher, Nbit (with
--                     scale-offset), Codecs (zlib and szip) and Pipeline, which also has
--                     `apply_write_pipeline` of crates/oxih5/src/write/payload.rs and `descriptors`
--                     of crates/oxih5/src/write/pipeline.rs
--   Format            crates/oxih5/src/write/format.rs
--   SymTable          crates/oxih5/src/write/btree_v1.rs: `plan`, `assign` and `write` of a group's
--                     symbol table, over `write_snod` of Format
--   Geometry          crates/oxih5-format/src/chunked/geometry.rs (`row_major_strides`,
--                     `flat_to_coords`, and the loop over elements that the scatters share)
--   Tiles             crates/oxih5/src/write/chunked.rs (the chunk grid) and payload.rs (`build`,
--                     `cut_tile`)
--   Chunked           crates/oxih5-format/src/chunked/geometry.rs (`scatter_chunk`) and read.rs (the
--                     assembly of chunks, and the ends of `read_chunked`)
--   Hyperslab         crates/oxih5-format/src/hyperslab.rs, the selections
--   Outcome, Bytes    the errors of crates/oxih5-core/src/lib.rs, and reads and writes of bytes
--   Base              Boolean tests and lists over the native numbers
--
-- A result is `ok`, `err` or `panic`. The errors are the constructors of `OxiH5Error` without their
-- message texts. A panic stands for an index or slice out of range, an arithmetic overflow and a
-- shift by the width or more. `usize` is `u64`, of 64 bits, and an allocation never fails. A buffer
-- that the code mutates is passed on; a `String` is its UTF-8 bytes. Where the code folds the same
-- loop three times (the walks of group.rs) or has two copies of a routine (`parse_v0` and
-- `parse_v1`), the model has one with a parameter.
-- The scatters of chunked/ and `cut_tile` of payload.rs share one element loop, `copy_loop`, which each
-- gives its own rule for the two places of an element; `strides` of payload.rs is `row_major_strides`.
-- With the feature `parallel` the chunks are decoded in the order of their records, so that of several
-- errors the first is reported. The chunk readers take the chunk records as given, and the payload is
-- that of a dataset in chunked storage, which is neither variable-length nor contiguous.
--
-- Fuel: `collect_leaves` has 65, which is the code's own limit of depth 64 with its error beyond
-- it; `fletcher_words` has the number of words, and a block takes at least one; `parse_objects` of
-- the global heap has the file's length and one, and a round starts inside the file and goes 16
-- bytes ahead; `more_levels` has the levels left of the eight that the code allows, with the code's
-- error beyond; `doubled` has the four doublings from 4096 to 65536. All else is structural.
--
-- The codecs of the crates oxiarc_deflate and oxiarc_szip are the parameter `Codecs`. The pipeline's
-- round trip assumes that zlib is lossless: a buffer compresses at each level from 0 to 9, and its
-- stream decompresses to the buffer.
--
-- Not modelled: object headers with their messages, datatypes and values, the chunk indexes,
-- the slice and hyperslab reads of chunks, the fractal heap, virtual datasets, the writer's planning
-- and emission, the builder interface, the facade over files, and the netCDF-4 layer.
pub mod Base
pub mod Outcome
pub mod Bytes
pub mod Superblock
pub mod Cursor
pub mod Utf8
pub mod LocalHeap
pub mod Snod
pub mod GroupBtree
pub mod Group
pub mod Format
pub mod SymTable
pub mod Filters
pub mod GlobalHeap
pub mod Geometry
pub mod Hyperslab
pub mod Tiles
pub mod Chunked
pub mod Tests
