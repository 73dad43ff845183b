-- ===== src/Filters/Codecs.antt =====
-- The two codecs that crates/oxih5-format/src/filters.rs takes from other crates (oxiarc_deflate and
-- oxiarc_szip), as parameters, and the code around their calls: `inflate_deflate`,
-- `deflate_compress` and `decode_szip`. The types are those of crates/oxih5-core/src/lib.rs.
use oxih.Base.{
  ℕ, ◌+◌, ◌/◌, ◌%◌, ◌-◌, List, Option, Bool, false, not, length, leb, ◌==◌, if◌then◌else◌,
}
use oxih.Bytes.{Bytes, index, index_range, from_le}
use oxih.Outcome.{Outcome, ok, guard, ok_or, corrupted, format, unsupported_filter, ◌>>=◌, ◌>>◌}

pub record FilterInfo : Type 0 where
  pub id : ℕ
  pub flags : ℕ
  pub client_data : List ℕ

pub record SzipParams : Type 0 where
  pub bits_per_pixel : ℕ
  pub pixels_per_block : ℕ
  pub samples : ℕ
  pub reference_sample_interval : ℕ
  pub msb : Bool
  pub nn_preprocess : Bool
  pub rsi_byte_align : Bool

-- `none` where the codec reports an error; `szip` is `none` without the Cargo feature.
pub record Codecs : Type 0 where
  pub zlib_decompress : Bytes → Option Bytes
  pub zlib_compress : Bytes → ℕ → Option Bytes
  pub szip : Option (Bytes → SzipParams → Option Bytes)

unfoldable pub inflate_deflate : Codecs → Bytes → Outcome Bytes
inflate_deflate codecs bytes = ok_or (codecs.zlib_decompress bytes) corrupted

unfoldable pub deflate_compress : Codecs → Bytes → ℕ → Outcome Bytes
deflate_compress codecs bytes level = do
  guard (leb level 9) format
  ok_or (codecs.zlib_compress bytes level) corrupted

abbrev has_bit : ℕ → ℕ → Bool
has_bit options_mask mask = options_mask / mask % 2 == 1

abbrev szip_params : List ℕ → ℕ → ℕ → ℕ → ℕ → ℕ → SzipParams
szip_params client_data options_mask bits_per_pixel pixels_per_block pixels_per_scanline samples =
    record {
      bits_per_pixel = bits_per_pixel;
      pixels_per_block = pixels_per_block;
      samples = samples;
      reference_sample_interval = pixels_per_scanline;
      msb = has_bit options_mask 16;
      nn_preprocess = has_bit options_mask 32;
      rsi_byte_align = false;
    }

-- `samples` is a quotient by the bytes of a sample, which are not 0 behind the guard.
unfoldable pub decode_szip :
    (Bytes → SzipParams → Option Bytes) → Bytes → FilterInfo → Option ℕ → Outcome Bytes
decode_szip szip_decode bytes filter expected_out_len = do
  guard (leb 4 (length (filter.client_data))) corrupted
  options_mask ← index (filter.client_data) 0
  bits_per_pixel ← index (filter.client_data) 1
  let bits_per_pixel = bits_per_pixel % 256
  pixels_per_block ← index (filter.client_data) 2
  pixels_per_scanline ← index (filter.client_data) 3
  guard (not (bits_per_pixel == 0)) corrupted
  let bytes_per_sample = (bits_per_pixel + 7) / 8
  let params =
      szip_params (filter.client_data) options_mask bits_per_pixel pixels_per_block
        pixels_per_scanline
  if has_bit options_mask 128
      then (do
        uncompressed_bytes ← ok_or expected_out_len unsupported_filter
        decoded ←
            ok_or (szip_decode bytes (params (uncompressed_bytes / bytes_per_sample))) corrupted
        guard (length decoded == uncompressed_bytes) corrupted
        ok decoded)
      else (do
        guard (leb 4 (length bytes)) corrupted
        header ← index_range bytes 0 4
        let uncompressed_bytes = from_le header
        aec_stream ← index_range bytes 4 (length bytes - 4)
        decoded ←
            ok_or (szip_decode aec_stream (params (uncompressed_bytes / bytes_per_sample)))
              corrupted
        guard (length decoded == uncompressed_bytes) corrupted
        ok decoded)
