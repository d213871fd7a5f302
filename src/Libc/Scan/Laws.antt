-- ===== src/Libc/Scan/Laws.antt =====
-- What `memchr` and `strnlen` promise, whichever routine is selected.
use rhkernel.Prelude.{
  ℕ, ◌+◌, ◌-◌, ◌%◌, ◌<◌, ◌≡◌, refl, ◌∙◌, ap, false, ◌&&◌, leb, ◌==◌, if◌then◌else◌, Option, none,
  some, arith, bit_xor, and_then-Q, then_loop-Exits,
}
use rhkernel.Libc.Memory.{Memory, load_bytes}
use rhkernel.Libc.Word.{has_zero_byte, repeat_byte}
use rhkernel.Libc.Word.Laws.{IsBytes, xor_misses, word_misses}
use rhkernel.Libc.Copy.{unaligned}
use rhkernel.Libc.Scan.{
  Scanning, holds, memchr_sse2, memchr_avx2, memchr_words, memchr, strnlen_sse2, strnlen_avx2,
  strnlen_words, strnlen,
}
use rhkernel.Libc.Scan.Span.{span}
use rhkernel.Libc.Scan.Rounds.{
  DueScan, over-Due, vectors-Exits, bytes_to_boundary-Exits, bytes-Exits, words-Due, skip_bytes-at,
}

-- The result for a first hit at `stop`, where the scan ends at `end`.
abbrev pub hit_or_none : ℕ → ℕ → Option ℕ
hit_or_none stop end = if stop == end then none else some stop

module _ (m : Memory) (c stop end : ℕ) where
  abbrev Found : Option ℕ → Type 0
  Found r = r ≡ hit_or_none stop end

  abbrev Due : Scanning → Type 0
  Due = DueScan (holds m (c % 256)) 0 stop end

  hit : stop < end → Found (some stop)
  hit h = ground arith

  memchr_sse2-Found : (s : Scanning) → Due s → Found (memchr_sse2 s.at c s.left m)
  unfolding memchr_sse2
  memchr_sse2-Found s d =
      and_then-Q (λ x. Due x × (leb 1 x.left ≡ false)) Found _ (λ _. none)
        (then_loop-Exits (λ x. Due x × (leb 64 x.left ≡ false)) _ Found _ _
          (vectors-Exits (holds m (c % 256)) 0 stop end some Found hit 16 4 s (omega arith)
            (omega arith) d)
          λ x e.
            then_loop-Exits (λ x. Due x × (leb 16 x.left ≡ false)) _ Found _ _
              (vectors-Exits (holds m (c % 256)) 0 stop end some Found hit 16 1 x (omega arith)
                (omega arith) e.0)
              λ y e'. bytes-Exits (holds m (c % 256)) 0 stop end some Found hit y e'.0)
        λ x e. ground (arith, over-Due (holds m (c % 256)) 0 stop end (ground arith) e.0)

  memchr_avx2-Found : (s : Scanning) → Due s → Found (memchr_avx2 s.at c s.left m)
  unfolding memchr_avx2
  memchr_avx2-Found s d =
      and_then-Q (λ x. Due x × (leb 32 x.left ≡ false)) Found _ (λ x. memchr_sse2 x.at c x.left m)
        (then_loop-Exits (λ x. Due x × (leb 128 x.left ≡ false)) _ Found _ _
          (vectors-Exits (holds m (c % 256)) 0 stop end some Found hit 32 4 s (omega arith)
            (omega arith) d)
          λ x e.
            vectors-Exits (holds m (c % 256)) 0 stop end some Found hit 32 1 x (omega arith)
              (omega arith) e.0)
        λ x e. memchr_sse2-Found x e.0

  module _ (cells : IsBytes m) where
    clear_word :
        (p i : ℕ)
        → has_zero_byte (bit_xor (load_bytes 8 p m) (repeat_byte (c % 256))) ≡ false
        → i < 8
        → holds m (c % 256) (p + i) ≡ false
    clear_word p i h k = ground (arith, xor_misses m cells p (c % 256) i (omega arith) h k)

    memchr_words-Found : (s : Scanning) → Due s → Found (memchr_words s.at (c % 256) s.left m)
    unfolding memchr_words
    memchr_words-Found s d =
        and_then-Q (λ x. Due x × (leb 1 x.left ≡ false)) Found _ (λ _. none)
          (then_loop-Exits (λ x. Due x × ((leb 1 x.left && unaligned 8 x.at) ≡ false)) _ Found _ _
            (bytes_to_boundary-Exits (holds m (c % 256)) 0 stop end some Found hit 8 s d)
            λ x e.
              bytes-Exits (holds m (c % 256)) 0 stop end some Found hit _
                (words-Due (holds m (c % 256)) 0 stop end _ x clear_word e.0))
          λ x e. ground (arith, over-Due (holds m (c % 256)) 0 stop end (ground arith) e.0)

-- `memchr` returns the first of the `n` addresses from `s` on that holds the byte `c`, and null if there is none, for
-- every length, alignment and set of processor features.
pub memchr-span :
    (features s c n : ℕ) (m : Memory)
    → IsBytes m
    → memchr features s c n m ≡ (
        if span (holds m (c % 256)) n s == n then none else some (s + span (holds m (c % 256)) n s))
unfolding memchr
memchr-span features s c n m cells =
    let stop = s + span (holds m (c % 256)) n s in
    let from : Scanning = record { at = s; left = n } in
    let d : DueScan (holds m (c % 256)) 0 stop (s + n) from = record {
      begins = omega arith;
      stops = refl;
      ends = refl;
    } in
    ground (
      arith,
      memchr_avx2-Found m c stop (s + n) from d,
      memchr_sse2-Found m c stop (s + n) from d,
      memchr_words-Found m c stop (s + n) cells from d,
    )

-- The length routines from `s`, in a string whose first zero byte is at `stop`, if it is below `end`.
module _ (m : Memory) (s stop end : ℕ) where
  abbrev DueZero : Scanning → Type 0
  DueZero = DueScan (holds m 0) s stop end

  abbrev Length : ℕ → Type 0
  Length r = r ≡ stop - s

  strnlen_sse2-Length :
      (n : ℕ) → DueZero (record { at = s; left = n }) → Length (strnlen_sse2 s n m)
  unfolding strnlen_sse2
  strnlen_sse2-Length n d =
      and_then-Q (λ x. DueZero x × (leb 16 x.left ≡ false)) Length _ _
        (then_loop-Exits (λ x. DueZero x × ((leb 1 x.left && unaligned 16 x.at) ≡ false)) _ Length _
          _ (bytes_to_boundary-Exits (holds m 0) s stop end (λ q. q - s) Length (λ _. refl) 16 _ d)
          λ x e.
            vectors-Exits (holds m 0) s stop end (λ q. q - s) Length (λ _. refl) 16 1 x
              (omega arith) (omega arith) e.0)
        λ x e. ap (λ a. a - s) (skip_bytes-at m s stop end x e.0)

  module _ (cells : IsBytes m) where
    strnlen_words-Length :
        (n : ℕ) → DueZero (record { at = s; left = n }) → Length (strnlen_words s n m)
    unfolding strnlen_words
    strnlen_words-Length n d =
        and_then-Q (λ x. DueZero x × ((leb 1 x.left && unaligned 8 x.at) ≡ false)) Length _ _
          (bytes_to_boundary-Exits (holds m 0) s stop end (λ q. q - s) Length (λ _. refl) 8 _ d)
          λ x e.
            ap (λ a. a - s)
              (skip_bytes-at m s stop end _ (
                words-Due (holds m 0) s stop end _ x
                  (λ p i h k. ground (arith, word_misses m cells p i h k)) e.0))

-- The second routine is called from the middle of the string.
pub strnlen_sse2-span : (m : Memory) (s n : ℕ) → strnlen_sse2 s n m ≡ span (holds m 0) n s
strnlen_sse2-span m s n =
    strnlen_sse2-Length m s (s + span (holds m 0) n s) (s + n) n
      (record { begins = omega arith; stops = refl; ends = refl })
    ∙ omega arith

pub strnlen_avx2-span : (m : Memory) (s n : ℕ) → strnlen_avx2 s n m ≡ span (holds m 0) n s
unfolding strnlen_avx2
strnlen_avx2-span m s n =
    let stop = s + span (holds m 0) n s in
    and_then-Q (λ x. DueZero m s stop (s + n) x × (leb 32 x.left ≡ false))
      (λ r. r ≡ span (holds m 0) n s) _ _
      (then_loop-Exits
        (λ x. DueZero m s stop (s + n) x × ((leb 1 x.left && unaligned 32 x.at) ≡ false)) _
        (λ r. r ≡ span (holds m 0) n s) _ _
        (bytes_to_boundary-Exits (holds m 0) s stop (s + n) (λ q. q - s)
          (λ r. r ≡ span (holds m 0) n s) (λ _. omega arith) 32 _
          (record { begins = omega arith; stops = refl; ends = refl }))
        λ x e.
          vectors-Exits (holds m 0) s stop (s + n) (λ q. q - s) (λ r. r ≡ span (holds m 0) n s)
            (λ _. omega arith) 32 1 x (omega arith) (omega arith) e.0)
      λ x e. omega (arith, strnlen_sse2-span m x.at x.left, e.0.stops, e.0.begins)

-- `strnlen` returns the number of bytes before the first zero byte, or `maxlen` if that is not among the first `maxlen`,
-- for every length, alignment and set of processor features.
pub strnlen-span :
    (features s maxlen : ℕ) (m : Memory)
    → IsBytes m
    → strnlen features s maxlen m ≡ span (holds m 0) maxlen s
unfolding strnlen
strnlen-span features s maxlen m cells = ground (
  arith,
  strnlen_avx2-span m s maxlen,
  strnlen_sse2-span m s maxlen,
  strnlen_words-Length m s (s + span (holds m 0) maxlen s) (s + maxlen) cells maxlen
      (record { begins = omega arith; stops = refl; ends = refl }),
)
