-- ===== src/Libc/Cpu/Laws.antt =====
-- What `cpu_features` reports of a processor, and that it is asked once.
use rhkernel.Prelude.{
  ℕ, zero, suc, ◌+◌, ◌*◌, ◌/◌, ◌%◌, ◌^◌, ◌≡◌, ◌∙◌, refl, sym, bit_and, bit_or, ap, Bool, false,
  ◌&&◌, leb, arith, ◌==◌, if◌then◌else◌,
}
use native.Mathlib.Nat.{pow-succ', div-one, div-div-eq-div-mul, mul_left_comm}
use rhkernel.Prelude.Int.{pos, negsuc}
use rhkernel.Prelude.Bits.{bit_and_step, bit_or_step}
use rhkernel.Libc.ByteSet.Bits.{and_zero, bit_and-pow}
use rhkernel.Libc.Cpu.{
  Processor, cpu_features, detect, add_feature, has_bit, has_avx, avx_bits, xgetbv0,
}

-- The bit 26 of edx of leaf 1 is SSE2.
abbrev pub is_sse2 : Processor → Bool
is_sse2 cpu = leb 1 (cpu.cpuid 0 0).eax && (cpu.cpuid 1 0).edx / 2 ^ 26 % 2 == 1

-- The bits 26 to 28 of ecx of leaf 1 are XSAVE, OSXSAVE and AVX; the bits 1 and 2 of the control register are the state that
-- the kernel has enabled.
abbrev pub is_avx : Processor → Bool
is_avx cpu =
    leb 1 (cpu.cpuid 0 0).eax
    && ((cpu.cpuid 1 0).ecx / 2 ^ 26 % 8 == 7 && cpu.xgetbv.0 / 2 % 4 == 3)

-- The bit 5 of ebx of leaf 7 is AVX2.
abbrev pub is_avx2 : Processor → Bool
is_avx2 cpu = is_avx cpu && (leb 7 (cpu.cpuid 0 0).eax && (cpu.cpuid 7 0).ebx / 2 ^ 5 % 2 == 1)

bit_and-shift : (k w a : ℕ) → bit_and w (a * 2 ^ k) ≡ bit_and (w / 2 ^ k) a * 2 ^ k
bit_and-shift zero w a = let one : a * 1 ≡ a = omega arith in rw (one, div-one w) (omega arith)
bit_and-shift (suc k) w a =
    let quotient : w / 2 ^ suc k ≡ w / 2 / 2 ^ k =
      ap (λ (x : ℕ). w / x) (pow-succ' 2 k) ∙ sym (div-div-eq-div-mul w 2 (2 ^ k)) in
    rw quotient (
      omega (
        arith,
        doubled a,
        doubled (bit_and (w / 2 / 2 ^ k) a),
        ap (bit_and w) (doubled a),
        bit_and_step w (2 * (a * 2 ^ k)),
        ap (bit_and (w / 2)) halved,
        bit_and-shift k (w / 2) a,
      ))
  where
    doubled : (x : ℕ) → x * 2 ^ suc k ≡ 2 * (x * 2 ^ k)
    doubled x = ap (λ (y : ℕ). x * y) (pow-succ' 2 k) ∙ swap x (2 ^ k)
      where
        swap : (x y : ℕ) → x * (2 * y) ≡ 2 * (x * y)
        swap x y = mul_left_comm x 2 y

    halved : 2 * (a * 2 ^ k) / 2 ≡ a * 2 ^ k
    halved = omega arith

bit_and-low : (y : ℕ) → bit_and y 7 ≡ y % 8
bit_and-low y = omega (
  arith,
  bit_and_step y 7,
  bit_and_step (y / 2) 3,
  bit_and_step (y / 2 / 2) 1,
  and_zero (y / 2 / 2 / 2),
)

xgetbv0-low : (cpu : Processor) → (bit_and (xgetbv0 cpu) 6 == 6) ≡ (cpu.xgetbv.0 / 2 % 4 == 3)
unfolding xgetbv0
xgetbv0-low cpu =
    let x = cpu.xgetbv.1 * 2 ^ 32 in
    let a = cpu.xgetbv.0 in
    let y = bit_or x a in
    let low : y / 2 % 4 ≡ a / 2 % 4 =
      omega (
        arith,
        bit_or_step x a,
        bit_or_step (x / 2) (a / 2),
        bit_or_step (x / 2 / 2) (a / 2 / 2),
      ) in
    let mask : bit_and y 6 ≡ (y / 2 % 4) * 2 = omega (
      arith,
      bit_and_step y 6,
      bit_and_step (y / 2) 3,
      bit_and_step (y / 2 / 2) 1,
      and_zero (y / 2 / 2 / 2),
    ) in
    rw (mask, low) (ground arith)

avx_bits-low : (w : ℕ) → (bit_and w avx_bits == avx_bits) ≡ (w / 2 ^ 26 % 8 == 7)
avx_bits-low w =
    let low : bit_and w avx_bits ≡ (w / 2 ^ 26 % 8) * 2 ^ 26 =
      bit_and-shift 26 w 7 ∙ ap (λ (x : ℕ). x * 2 ^ 26) (bit_and-low (w / 2 ^ 26)) in
    rw low (ground arith)

has_bit-26 : (w : ℕ) → has_bit w 26 ≡ (w / 2 ^ 26 % 2 == 1)
unfolding has_bit
has_bit-26 w = rw (bit_and-pow 26 w) (ground arith)

has_bit-5 : (w : ℕ) → has_bit w 5 ≡ (w / 2 ^ 5 % 2 == 1)
unfolding has_bit
has_bit-5 w = rw (bit_and-pow 5 w) (ground arith)

-- The three features, as they stand in the word.
abbrev pub described : Processor → ℕ
described cpu =
    (if is_sse2 cpu then 1 else 0)
    + ((if is_avx cpu then 2 else 0) + (if is_avx2 cpu then 4 else 0))

detect-described : (cpu : Processor) → detect cpu ≡ described cpu
unfolding detect has_avx add_feature
detect-described cpu =
    rw
      (
        has_bit-26 (cpu.cpuid 1 0).edx,
        avx_bits-low (cpu.cpuid 1 0).ecx,
        xgetbv0-low cpu,
        has_bit-5 (cpu.cpuid 7 0).ebx,
      )
      (ground arith)

recall :
    (cpu : Processor) (f : ℕ)
    → cpu_features cpu (if f == 0 then negsuc 0 else pos f)
      ≡ (f, if f == 0 then negsuc 0 else pos f)
unfolding cpu_features
recall cpu zero = refl
recall cpu (suc f) = rw nonzero refl
  where
    nonzero : (suc f == 0) ≡ false
    nonzero = ground arith

first_call :
    (cpu : Processor)
    → cpu_features cpu (pos 0)
      ≡ (detect cpu, if detect cpu == 0 then negsuc 0 else pos (detect cpu))
unfolding cpu_features
first_call cpu = refl

-- The first call reports SSE2, AVX and AVX2 by the bits that the processor has for them, with the leaf 1 or 7 to be had and,
-- for the last two, the state enabled; and every later call answers the same from the cache, whatever the processor would say.
pub cpu_features_stable :
    (cpu later : Processor)
    → let first = cpu_features cpu (pos 0) in
      (first.0 ≡ described cpu) × (cpu_features later first.1 ≡ first)
cpu_features_stable cpu later =
    rw (first_call cpu) (detect-described cpu, recall later (detect cpu))
