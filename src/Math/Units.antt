-- ===== src/Math/Units.antt =====
-- helper/math/dataconvert.c: the conversions agree with each other as far as nothing wraps.
use windoge_os.Common.{ℕ, ◌^◌, ◌<◌, ◌≡◌, arith}
use windoge_os.Math.{
  math_bytes_to_kilo, math_bytes_to_mega, math_kilo_to_mega, math_mega_to_bytes, math_mega_to_kilo,
  math_kilo_to_bytes,
}

-- Below 2^44 megabytes, whose bytes fit 64 bits, the conversions are inverse to each other and
-- compose: through kilobytes one reaches the same bytes and the same megabytes.
pub units_roundtrip :
    (mega : ℕ)
    → mega < 2 ^ 44
    → (math_bytes_to_mega (math_mega_to_bytes mega) ≡ mega)
      × (math_kilo_to_mega (math_mega_to_kilo mega) ≡ mega)
      × (math_kilo_to_bytes (math_mega_to_kilo mega) ≡ math_mega_to_bytes mega)
      × (math_kilo_to_mega (math_bytes_to_kilo (math_mega_to_bytes mega)) ≡ mega)
unfolding math_bytes_to_kilo math_bytes_to_mega math_kilo_to_mega math_mega_to_bytes
    math_mega_to_kilo math_kilo_to_bytes
units_roundtrip mega h = omega arith
