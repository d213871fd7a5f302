-- ===== src/Libc/Cpu.antt =====
-- `cpuid_leaf`, `xgetbv0`, `cpu_features` and `simd_has` of libc/src/string.c. The two instructions are a
-- parameter, and the static variable `cached` is state that is passed on.
pub mod Laws
use rhkernel.Prelude.{
  ℕ, zero, suc, ◌+◌, ◌*◌, ◌^◌, bit_and, bit_or, Bool, not, ◌&&◌, leb, ltb, ◌==◌, if◌then◌else◌,
}
use rhkernel.Prelude.Int.{ℤ, pos, negsuc, ltb_ℤ}

pub record Registers : Type 0 where
  pub eax : ℕ
  pub ebx : ℕ
  pub ecx : ℕ
  pub edx : ℕ

-- What the processor answers; `xgetbv` gives eax and edx.
pub record Processor : Type 0 where
  pub cpuid : ℕ → ℕ → Registers
  pub xgetbv : ℕ × ℕ

abbrev pub cpu_sse2 : ℕ
cpu_sse2 = 1

abbrev pub cpu_avx : ℕ
cpu_avx = 2

abbrev pub cpu_avx2 : ℕ
cpu_avx2 = 4

unfoldable pub xgetbv0 : Processor → ℕ
xgetbv0 cpu = bit_or (cpu.xgetbv.1 * 2 ^ 32) cpu.xgetbv.0

abbrev pub avx_bits : ℕ
avx_bits = bit_or (bit_or (2 ^ 26) (2 ^ 27)) (2 ^ 28)

-- `if (word & bit) features |= feature`
unfoldable pub add_feature : Bool → ℕ → ℕ → ℕ
add_feature test feature features = if test then bit_or features feature else features

unfoldable pub has_bit : ℕ → ℕ → Bool
has_bit word k = not (bit_and word (2 ^ k) == 0)

-- The answer for AVX: the three bits of leaf 1, and the state that the kernel has enabled.
unfoldable pub has_avx : Processor → Bool
unfolding xgetbv0
has_avx cpu = (bit_and (cpu.cpuid 1 0).ecx avx_bits == avx_bits) && (bit_and (xgetbv0 cpu) 6 == 6)

-- The body of `cpu_features` below its cache.
unfoldable pub detect : Processor → ℕ
unfolding add_feature has_avx has_bit
detect cpu =
    let max_leaf = (cpu.cpuid 0 0).eax in
    if leb 1 max_leaf
    then (let features = add_feature (has_bit (cpu.cpuid 1 0).edx 26) cpu_sse2 0 in
        if has_avx cpu
        then add_feature (leb 7 max_leaf && has_bit (cpu.cpuid 7 0).ebx 5) cpu_avx2
            (bit_or features cpu_avx)
        else features)
    else 0

-- The result and what `cached` is afterwards: 0 is unknown, -1 is no feature.
unfoldable pub cpu_features : Processor → ℤ → ℕ × ℤ
unfolding detect
cpu_features cpu (pos zero) =
    let features = detect cpu in (features, if features == 0 then negsuc 0 else pos features)
cpu_features cpu (pos (suc n)) = (suc n, pos (suc n))
cpu_features cpu (negsuc n) = (0, negsuc n)

-- `simd_has` once the features are known.
unfoldable pub simd_has : ℕ → ℕ → Bool
simd_has features feature = not (bit_and features feature == 0)
