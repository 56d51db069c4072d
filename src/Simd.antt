-- ===== src/Simd.antt =====
-- The compression functions of the vector back ends: src/blake4_avx2.c, src/blake4_avx512.c,
-- src/blake4_neon.c and src/blake4_simd.c.
pub mod Vectors
pub mod Mixing
pub mod Words
pub mod Lanes
pub mod Avx2
pub mod Avx512
pub mod Neon
pub mod Scalar
pub mod Registered
