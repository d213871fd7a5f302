-- ===== src/Kernel/Fd/Scan.antt =====
-- The loops of `alloc_fd` over the words of the bitmap.
use rhkernel.Prelude.{
  ℕ, zero, suc, ◌+◌, ◌-◌, ◌*◌, ◌/◌, ◌%◌, ◌^◌, ◌<◌, ◌≤◌, ◌≡◌, refl, ap, subst, ◌∙◌, bit_or, true,
  false, ◌==◌, ltb, leb, if◌then◌else◌, Option, none, some, arith, Bool-cases, Option-cases, inl,
  inr,
}
use rhkernel.Prelude.Bits.{digit}
use rhkernel.Libc.ByteSet.Bits.{digit-bit_or, digit_zero}
use rhkernel.Kernel.Fd.{
  Task, uint32_max, uint64_max, fd_bitmap_words, fd_last_word_mask, find_clear_bit, scan_word,
  scan_words, scan_passes,
}
use rhkernel.Kernel.Fd.Bits.{bit_or-lt, digit-complement, digit-mask, pow-lt}
use rhkernel.Kernel.Fd.Words.{bit_test-digit, Lowest, find_clear_bit-Lowest}
use rhkernel.Kernel.Fd.Shape.{IsTask, IsPacked, taken, taken-bits, some_bits}

-- A search of the descriptors from `lo` up to `hi` gives the lowest that is not taken, or there is none.
abbrev pub Found : Task → ℕ → ℕ → Option ℕ → Type 0
Found t lo hi none = (j : ℕ) → lo ≤ j → j < hi → j < t.fd_capacity → taken t j ≡ true
Found t lo hi (some fd) =
    (fd < t.fd_capacity)
    × (lo ≤ fd)
    × (taken t fd ≡ false)
    × ((j : ℕ) → lo ≤ j → j < fd → taken t j ≡ true)

pub Found-then :
    (t : Task) (lo mid hi : ℕ) (o : Option ℕ)
    → lo ≤ mid
    → Found t lo mid none
    → Found t mid hi o
    → Found t lo hi o
Found-then t lo mid hi none l a b = below
  where
    below : Found t lo hi none
    below j p q r = elim (Bool-cases (ltb j mid)) [
      | inl e ↦ a j p (ground arith) r
      | inr e ↦ b j (ground arith) q r
    ]
Found-then t lo mid hi (some fd) l a b = (b.0, omega (arith, b.1), b.2, lower)
  where
    lower : (j : ℕ) → lo ≤ j → j < fd → taken t j ≡ true
    lower j p q = elim (Bool-cases (ltb j mid)) [
      | inl e ↦ a j p (ground arith) (omega (arith, b.0))
      | inr e ↦ b.3 j (ground arith) q
    ]

-- The mask of the last word leaves the places of the descriptors free.
mask_free :
    (capacity j : ℕ)
    → capacity ≤ uint32_max
    → j < capacity
    → j / 64 ≡ fd_bitmap_words capacity - 1
    → digit (j % 64) (uint64_max - fd_last_word_mask capacity) ≡ 0
unfolding fd_bitmap_words fd_last_word_mask
mask_free capacity j b l w = elim (Bool-cases (capacity % 64 == 0)) [
  | inl e ↦ rw e (digit_zero (j % 64))
  | inr e ↦
      let below : j % 64 < capacity % 64 = ground arith in
      rw
        (
          e,
          digit-complement 64 (j % 64) (2 ^ (capacity % 64) - 1) (omega arith)
              (omega (arith, pow-lt (capacity % 64) 64 (omega arith))),
          digit-mask (capacity % 64) (j % 64),
        )
        (ground arith)
]

mask-le : (capacity : ℕ) → uint64_max - fd_last_word_mask capacity < 2 ^ 64
mask-le capacity = omega arith

module _ (t : Task) (bits : ℕ → ℕ) (e : t.fd_bitmap ≡ some bits) (h : IsTask t) where
  abbrev masked : ℕ → ℕ
  masked w =
      if w == fd_bitmap_words t.fd_capacity - 1
      then bit_or (bits w) (uint64_max - fd_last_word_mask t.fd_capacity)
      else bits w

  masked-lt : (w : ℕ) → masked w < 2 ^ 64
  masked-lt w = elim (Bool-cases (w == fd_bitmap_words t.fd_capacity - 1)) [
    | inl q ↦ rw q (
        bit_or-lt 64 (bits w) (uint64_max - fd_last_word_mask t.fd_capacity)
          ((some_bits t bits e h).0 w) (mask-le t.fd_capacity))
    | inr q ↦ rw q ((some_bits t bits e h).0 w)
  ]

  masked-digit :
      (j : ℕ)
      → j < t.fd_capacity
      → digit (j % 64) (masked (j / 64)) ≡ digit (j % 64) (bits (j / 64))
  masked-digit j l = elim (Bool-cases (j / 64 == fd_bitmap_words t.fd_capacity - 1)) [
    | inl q ↦
        rw
          (
            q,
            digit-bit_or (j % 64) (bits (j / 64)) (uint64_max - fd_last_word_mask t.fd_capacity),
            mask_free t.fd_capacity j h.bound l (ground arith),
          )
          (omega arith)
    | inr q ↦ rw q refl
  ]

  -- The digit of a masked word tells whether the descriptor is taken.
  taken-masked :
      (w j : ℕ) → j < t.fd_capacity → j / 64 ≡ w → taken t j ≡ (digit (j % 64) (masked w) == 1)
  taken-masked w j l p =
      rw (taken-bits t bits e j, bit_test-digit bits j, ← p, masked-digit j l) (ground arith)

  word_full : (w : ℕ) → Lowest (masked w) none → Found t (w * 64) (w * 64 + 64) none
  word_full w f j p q r = taken-masked w j r (omega arith) ∙ (rw (f (j % 64) (omega arith)) refl)

  scan_word-Found : (w : ℕ) → Found t (w * 64) (w * 64 + 64) (scan_word t bits w)
  unfolding scan_word
  scan_word-Found w = elim (Bool-cases (masked w == uint64_max)) [
    | inl q ↦
        rw (scan_word, q)
          (word_full w (λ k l. ap (digit k) (ones q) ∙ digit-mask 64 k ∙ ground arith))
    | inr q ↦
        rw (scan_word, q)
          (by_bit (find_clear_bit (masked w)) (find_clear_bit-Lowest (masked w) (masked-lt w)))
  ]
    where
      ones : (masked w == uint64_max) ≡ true → masked w ≡ uint64_max
      ones q = ground arith

      at : (b : ℕ) → Lowest (masked w) (some b) → digit ((w * 64 + b) % 64) (masked w) ≡ 0
      at b f = ap (λ k. digit k (masked w)) (omega (arith, f.0)) ∙ f.1

      before :
          (b : ℕ)
          → Lowest (masked w) (some b)
          → (j : ℕ) → w * 64 ≤ j
          → j < w * 64 + b
          → j < t.fd_capacity
          → taken t j ≡ true
      before b f j p k r =
          taken-masked w j r (omega (arith, f.0)) ∙ (rw (f.2 (j % 64) (omega (arith, f.0))) refl)

      by_bit :
          (o : Option ℕ)
          → Lowest (masked w) o
          → Found t (w * 64) (w * 64 + 64) (elim o [
            | none ↦ none
            | some bit ↦ let fd = w * 64 + bit in if leb t.fd_capacity fd then none else some fd
          ])
      by_bit none f = word_full w f
      by_bit (some b) f = elim (Bool-cases (leb t.fd_capacity (w * 64 + b))) [
        | inl q ↦ rw q (λ j p k r. before (b) f j p (ground arith) r)
        | inr q ↦
            let low : w * 64 + b < t.fd_capacity = ground arith in
            rw q (
              low,
              omega arith,
              taken-masked w (w * 64 + b) low (omega (arith, f.0)) ∙ (rw (at b f) refl),
              λ j p k. before b f j p k (omega (arith, low)),
            )
      ]

  scan_words-Found :
      (count w hi : ℕ) → hi ≡ (w + count) * 64 → Found t (w * 64) hi (scan_words count t bits w)
  unfolding scan_words
  scan_words-Found zero w hi q = λ j p k r. absurd (omega arith)
  scan_words-Found (suc count) w hi q = elim (Option-cases (scan_word t bits w)) [
    | inl o ↦
        rw (scan_words, o)
          (Found-then t (w * 64) (w * 64 + 64) hi (scan_words count t bits (w + 1)) (omega arith)
            (subst (Found t (w * 64) (w * 64 + 64)) o (scan_word-Found w))
            (subst (λ (l : ℕ). Found t l hi (scan_words count t bits (w + 1))) (next w)
              (scan_words-Found count (w + 1) hi (omega arith))))
    | inr (fd, o) ↦
        rw (scan_words, o) (subst (Found t (w * 64) (w * 64 + 64)) o (scan_word-Found w))
  ]
    where
      next : (w : ℕ) → (w + 1) * 64 ≡ w * 64 + 64
      next w = omega arith

  -- The two passes look at every descriptor. In a packed table the first finds the lowest.
  abbrev pub Scanned : Option ℕ → Type 0
  Scanned none = (j : ℕ) → j < t.fd_capacity → taken t j ≡ true
  Scanned (some fd) =
      (fd < t.fd_capacity)
      × (taken t fd ≡ false)
      × ((k : ℕ) → IsPacked k t → (j : ℕ) → k ≤ j → j < fd → taken t j ≡ true)

  abbrev start_word : ℕ
  start_word = t.next_fd_hint / 64

  abbrev word_count : ℕ
  word_count = fd_bitmap_words t.fd_capacity

  word_count-ge : (t.fd_capacity ≤ word_count * 64) × (start_word ≤ word_count)
  unfolding fd_bitmap_words
  word_count-ge = (omega (arith, h.bound), omega (arith, h.bound, h.hint))

  second_pass :
      Found t (start_word * 64) (word_count * 64) none
      → (o : Option ℕ) → Found t 0 (start_word * 64) o
      → Scanned o
  second_pass a none b =
      let all : Found t 0 (word_count * 64) none =
        Found-then t 0 (start_word * 64) (word_count * 64) none (omega arith) b a in
      λ j l. all j (omega arith) (omega (arith, word_count-ge.0)) l
  second_pass a (some fd) b = (b.0, b.2, λ k packed j m l. b.3 j (omega arith) l)

  both_passes :
      (o : Option ℕ)
      → Found t (start_word * 64) (word_count * 64) o
      → Scanned (elim o [ none ↦ scan_words start_word t bits 0 | some fd ↦ some fd ])
  both_passes none a =
      second_pass a (scan_words start_word t bits 0)
        (scan_words-Found start_word 0 (start_word * 64) (omega arith))
  both_passes (some fd) a = (a.0, a.2, lower)
    where
      lower : (k : ℕ) → IsPacked k t → (j : ℕ) → k ≤ j → j < fd → taken t j ≡ true
      lower k packed j m l = elim (Bool-cases (ltb j (start_word * 64))) [
        | inl q ↦ packed j m (ground arith)
        | inr q ↦ a.3 j (ground arith) l
      ]

  pub scan_passes-Scanned : Scanned (scan_passes t bits)
  unfolding scan_passes
  scan_passes-Scanned = both_passes (scan_words (word_count - start_word) t bits start_word) (
      scan_words-Found (word_count - start_word) start_word (word_count * 64)
        (omega (arith, word_count-ge.1)))
