-- ===== src/Libc/Compare/Blocks.antt =====
-- `memcmp` compares by words where it can, and its result is that of the bytes in order.
use rhkernel.Prelude.{
  ℕ, zero, suc, ◌+◌, ◌-◌, ◌/◌, ◌%◌, ◌^◌, ◌≤◌, ◌<◌, ◌≡◌, refl, sym, ◌∙◌, ap, true, false, ◌&&◌, leb,
  ◌==◌, if◌then◌else◌, ap₂, ==_iff, arith, Bool-cases, inl, inr, while_inv, next, leave, Advances,
  Exits, return_while_inv, and_then-Q, then_loop-Exits, then_loop,
}
use native.Mathlib.Nat.{add-zero, zero-add}
use rhkernel.Prelude.Int.{ℤ, pos, sub_ℕ}
use rhkernel.Libc.Memory.{Memory, load_bytes}
use rhkernel.Libc.Word.Laws.{IsBytes, load_bytes-byte}
use rhkernel.Libc.Copy.{word_bytes, unaligned, same_alignment}
use rhkernel.Libc.Compare.{
  Comparing, advance_both, compare_byte, compare_to_word, skip_equal_words, compare_words,
  compare_bytes, memcmp,
}

-- The difference of the first two bytes that differ, 0 if none of the `n` pairs does.
pub byte_difference : Memory → ℕ → ℕ → ℕ → ℤ
byte_difference m zero a b = pos 0
byte_difference m (suc n) a b =
    if m a == m b then byte_difference m n (a + 1) (b + 1) else sub_ℕ (m a) (m b)

equal_prefix :
    (m : Memory) (k n a b : ℕ)
    → ((i : ℕ) → i < k → m (a + i) ≡ m (b + i))
    → byte_difference m (k + n) a b ≡ byte_difference m n (a + k) (b + k)
unfolding byte_difference
equal_prefix m zero n a b h = simp (zero-add, add-zero)
equal_prefix m (suc k) n a b h =
    let e : suc k + n ≡ suc (k + n) = omega arith in
    let here : m a ≡ m b =
      (let p : a + 0 ≡ a = omega arith in
        let q : b + 0 ≡ b = omega arith in sym (ap m p) ∙ h 0 (omega arith) ∙ ap m q) in
    let rest = equal_prefix m k n (a + 1) (b + 1) (λ i j.
      let p : a + 1 + i ≡ a + suc i = omega arith in
      let q : b + 1 + i ≡ b + suc i = omega arith in
      ap m p ∙ h (suc i) (omega arith) ∙ sym (ap m q)) in
    let p : a + 1 + k ≡ a + suc k = omega arith in
    let q : b + 1 + k ≡ b + suc k = omega arith in
    rw (e, (==_iff (m a) (m b)).1 here) (rest ∙ ap₂ (byte_difference m n) p q)

module _ (m : Memory) (target : ℤ) where
  record Due (c : Comparing) : Type 0 where
    due : byte_difference m c.left c.x c.y ≡ target

  advance-Due :
      {c : Comparing} (k : ℕ)
      → k ≤ c.left
      → ((i : ℕ) → i < k → m (c.x + i) ≡ m (c.y + i))
      → Due c
      → Due (advance_both k c)
  advance-Due {c} k fits h d = record {
    due =
        let e : c.left ≡ k + (c.left - k) = omega arith in
        sym (equal_prefix m k (c.left - k) c.x c.y h)
        ∙ ap (λ n. byte_difference m n c.x c.y) (sym e)
        ∙ d.due;
  }

  abbrev Result : ℤ → Type 0
  Result r = r ≡ target

  head_pair : (a b n : ℕ) → (m a == m b) ≡ false → byte_difference m (suc n) a b ≡ sub_ℕ (m a) (m b)
  unfolding byte_difference
  head_pair a b n e = rw e

  nothing_left : {c : Comparing} → leb 1 c.left ≡ false → Due c → pos 0 ≡ target
  unfolding byte_difference
  nothing_left {c} h d =
      let e : c.left ≡ 0 = ground arith in sym (ap (λ n. byte_difference m n c.x c.y) e) ∙ d.due

  compare_byte-Advances :
      (c : Comparing) → 1 ≤ c.left → Due c → Advances Due Result (λ x. x.left) c (compare_byte m c)
  compare_byte-Advances c fits d = elim (Bool-cases (m c.x == m c.y)) [
    | inl e ↦ rw (same c e) (advance-Due 1 fits (one_pair c e) d, omega arith)
    | inr e ↦ rw (different c e) (first_pair c fits e d)
  ]
    where
      same : (c : Comparing) → (m c.x == m c.y) ≡ true → compare_byte m c ≡ next (advance_both 1 c)
      same c e = unfold compare_byte in rw e

      different :
          (c : Comparing)
          → (m c.x == m c.y) ≡ false
          → compare_byte m c ≡ leave (sub_ℕ (m c.x) (m c.y))
      different c e = unfold compare_byte in rw e

      one_pair :
          (c : Comparing) → (m c.x == m c.y) ≡ true → (i : ℕ) → i < 1 → m (c.x + i) ≡ m (c.y + i)
      one_pair c e i h =
          let p : c.x + i ≡ c.x = omega arith in
          let q : c.y + i ≡ c.y = omega arith in
          ap m p ∙ (==_iff (m c.x) (m c.y)).0 e ∙ sym (ap m q)

      first_pair :
          (c : Comparing)
          → 1 ≤ c.left
          → (m c.x == m c.y) ≡ false
          → Due c
          → sub_ℕ (m c.x) (m c.y) ≡ target
      first_pair c fits e d =
          let s : c.left ≡ suc (c.left - 1) = omega arith in
          sym (head_pair c.x c.y (c.left - 1) e)
          ∙ ap (λ n. byte_difference m n c.x c.y) (sym s)
          ∙ d.due

  compare_bytes-Exits :
      (c : Comparing)
      → Due c
      → Exits (λ x. Due x × (leb 1 x.left ≡ false)) Result (compare_bytes m c)
  unfolding compare_bytes
  compare_bytes-Exits c d =
      return_while_inv Due Result (λ x. x.left) (λ x. leb 1 x.left) (compare_byte m)
        (λ x p t. compare_byte-Advances x (ground arith) p) (suc c.left) c (omega arith) d

  compare_to_word-Exits :
      (c : Comparing)
      → Due c
      → Exits
          (λ x. Due x × ((leb 1 x.left && unaligned word_bytes x.x) ≡ false))
          Result
          (compare_to_word m c)
  unfolding compare_to_word
  compare_to_word-Exits c d =
      return_while_inv Due Result (λ x. x.left) (λ x. leb 1 x.left && unaligned word_bytes x.x)
        (compare_byte m) (λ x p t. compare_byte-Advances x (ground arith) p) (suc c.left) c
        (omega arith) d

  module _ (cells : IsBytes m) where
    equal_words : (a b i : ℕ) → load_bytes 8 a m ≡ load_bytes 8 b m → i < 8 → m (a + i) ≡ m (b + i)
    equal_words a b i e h =
        sym (load_bytes-byte m cells 8 i a h)
        ∙ ap (λ w. w / 256 ^ i % 256) e
        ∙ load_bytes-byte m cells 8 i b h

    skip_equal_words-Due : (c : Comparing) → Due c → Due (skip_equal_words m c)
    unfolding skip_equal_words
    skip_equal_words-Due c d =
        (while_inv Due (λ x. x.left)
          (λ k. leb word_bytes k.left && (load_bytes 8 k.x m == load_bytes 8 k.y m))
          (advance_both word_bytes)
          (λ x p t. (
            advance-Due 8 (ground arith) (λ i h. equal_words x.x x.y i (ground arith) h) p,
            ground arith,
          ))
          (suc c.left) c (omega arith) d).0

module _ (m : Memory) (target : ℤ) (cells : IsBytes m) where
  compare_words-Exits :
      (c : Comparing) → Due m target c → Exits (Due m target) (Result m target) (compare_words m c)
  unfolding compare_words
  compare_words-Exits c d = elim (Bool-cases (leb word_bytes c.left && same_alignment c.x c.y)) [
    | inl e ↦ rw e (by_words c d)
    | inr e ↦ rw e d
  ]
    where
      by_words :
          (c : Comparing)
          → Due m target c
          → Exits
              (Due m target)
              (Result m target)
              (then_loop (compare_to_word m c) (λ k. next (skip_equal_words m k)))
      by_words c d =
          then_loop-Exits
            (λ x. Due m target x × ((leb 1 x.left && unaligned word_bytes x.x) ≡ false))
            (Due m target) (Result m target) (compare_to_word m c)
            (λ k. next (skip_equal_words m k)) (compare_to_word-Exits m target c d)
            λ k e. skip_equal_words-Due m target cells k e.0

-- `memcmp` gives the difference of the first two bytes that differ, as unsigned numbers, and 0 if none of the `n` pairs
-- does, for every length and alignment.
pub memcmp-byte_difference :
    (a b n : ℕ) (m : Memory) → IsBytes m → memcmp a b n m ≡ byte_difference m n a b
unfolding memcmp
memcmp-byte_difference a b n m cells =
    let t = byte_difference m n a b in
    and_then-Q (λ x. Due m t x × (leb 1 x.left ≡ false)) (Result m t) _ _
      (then_loop-Exits (Due m t) _ (Result m t) _ _
        (compare_words-Exits m t cells (record { x = a; y = b; left = n }) (record { due = refl }))
        (compare_bytes-Exits m t))
      λ x d. nothing_left m t d.1 d.0
