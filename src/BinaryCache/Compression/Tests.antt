-- ===== src/BinaryCache/Compression/Tests.antt =====
-- The names of compressions: tests.
use hydra_queue_runner.Base.{◌≡◌, inl, inr, refl, ◌∷◌, []}
use hydra_queue_runner.BinaryCache.Compression.{
  parse_compression, codes, as_str, Compression, zstd, no_compression, bzip2, xz, brotli, trim,
}
use hydra_queue_runner.Base.Text.{codes}

compression_tests :
    (parse_compression (codes " ZSTD\r") ≡ inl zstd)
    × (parse_compression (codes "bz2") ≡ inl bzip2)
    × (parse_compression (codes "gzip") ≡ inr (codes "gzip"))
    × (trim (194 ∷ 160 ∷ 97 ∷ 32 ∷ 227 ∷ 128 ∷ 128 ∷ []) ≡ 97 ∷ [])
unfolding parse_compression
compression_tests = (refl, refl, refl, refl)

parse-as_str : (c : Compression) → parse_compression (as_str c) ≡ inl c
unfolding parse_compression as_str
parse-as_str no_compression = refl
parse-as_str xz = refl
parse-as_str bzip2 = refl
parse-as_str brotli = refl
parse-as_str zstd = refl
