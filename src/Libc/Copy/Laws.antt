-- ===== src/Libc/Copy/Laws.antt =====
-- What the copies promise: the bytes of the source stand at the destination and no other byte has changed,
-- whichever routine the length, the alignment and the processor select.
use rhkernel.Prelude.{
  ℕ, ◌+◌, ◌-◌, ◌^◌, ◌≤◌, ◌≡◌, refl, sym, fun_ext, ap, true, false, ◌&&◌, leb, inl, inr, arith, ◌⊎◌,
  Bool-cases, ◌==◌, ◌%◌, ◌||◌,
}
use rhkernel.Libc.Memory.{Memory, move}
use rhkernel.Libc.Memory.Regions.{Forward, move_eq}
use rhkernel.Libc.Copy.{
  Copying, memcpy_forward, memmove, memmove_backward, memcpy, memcpy_forward_avx,
  memcpy_forward_sse2, memmove_backward_avx, memmove_backward_sse2, copy_words_up, copy_words_down,
  same_alignment, word_bytes,
}
use rhkernel.Libc.Copy.Loops.{
  DueUp, DueDown, blocks_up-DueUp, blocks_down-DueDown, align_up_to_word-DueUp,
  align_down_to_word-DueDown, done_up, done_down,
}

abbrev start : ℕ → ℕ → ℕ → Memory → Copying
start d s n m = record { dst = d; src = s; left = n; memory = m }

-- Three loops, each with a smaller block, and the last with one byte.
module _ (d s n : ℕ) (m : Memory) (safe : Forward d s n) where
  start-DueUp : DueUp (move n d s m) (start d s n m)
  start-DueUp = record { due = refl; safe = safe }

  forward_sse2 : memcpy_forward_sse2 d s n m ≡ move n d s m
  unfolding memcpy_forward_sse2
  forward_sse2 =
      let t = move n d s m in
      let last =
        blocks_up-DueUp t 1 1 (omega arith)
          (blocks_up-DueUp t 1 16 (omega arith)
            (blocks_up-DueUp t 8 16 (omega arith) start-DueUp).0).0 in
      done_up t last.0 last.1

  forward_avx : memcpy_forward_avx d s n m ≡ move n d s m
  unfolding memcpy_forward_avx
  forward_avx =
      let t = move n d s m in
      let last =
        blocks_up-DueUp t 1 1 (omega arith)
          (blocks_up-DueUp t 1 32 (omega arith)
            (blocks_up-DueUp t 8 32 (omega arith) start-DueUp).0).0 in
      done_up t last.0 last.1

  words_up : (copy_words_up (start d s n m)).memory ≡ move n d s m
  unfolding copy_words_up
  words_up =
      let t = move n d s m in
      let words =
        blocks_up-DueUp t 1 8 (omega arith)
          (blocks_up-DueUp t 4 8 (omega arith) (align_up_to_word-DueUp t start-DueUp)).0 in
      elim (Bool-cases (leb word_bytes n && same_alignment d s)) [
        | inl e ↦
            rw e (let last = blocks_up-DueUp t 1 1 (omega arith) words.0 in done_up t last.0 last.1)
        | inr e ↦
            rw e (
              let last = blocks_up-DueUp t 1 1 (omega arith) start-DueUp in done_up t last.0 last.1)
      ]

  pub memcpy_forward-move : (features : ℕ) → memcpy_forward features d s n m ≡ (d, move n d s m)
  unfolding memcpy_forward
  memcpy_forward-move features = ground (arith, forward_avx, forward_sse2, words_up)

module _ (d s n : ℕ) (m : Memory) (above : s ≤ d) where
  end-DueDown : DueDown (move n d s m) (start (d + n) (s + n) n m)
  end-DueDown = record {
    due = move_eq m refl (omega arith) (omega arith);
    room_dst = omega arith;
    room_src = omega arith;
    safe = omega arith;
  }

  backward_sse2 : memmove_backward_sse2 d s n m ≡ move n d s m
  unfolding memmove_backward_sse2
  backward_sse2 =
      let t = move n d s m in
      let last =
        blocks_down-DueDown t 1 1 (omega arith)
          (blocks_down-DueDown t 1 16 (omega arith)
            (blocks_down-DueDown t 8 16 (omega arith) end-DueDown).0).0 in
      done_down t last.0 last.1

  backward_avx : memmove_backward_avx d s n m ≡ move n d s m
  unfolding memmove_backward_avx
  backward_avx =
      let t = move n d s m in
      let last =
        blocks_down-DueDown t 1 1 (omega arith)
          (blocks_down-DueDown t 1 32 (omega arith)
            (blocks_down-DueDown t 8 32 (omega arith) end-DueDown).0).0 in
      done_down t last.0 last.1

  words_down : (copy_words_down (start (d + n) (s + n) n m)).memory ≡ move n d s m
  unfolding copy_words_down
  words_down =
      let t = move n d s m in
      let words =
        blocks_down-DueDown t 1 8 (omega arith)
          (blocks_down-DueDown t 4 8 (omega arith) (align_down_to_word-DueDown t end-DueDown)).0 in
      elim (Bool-cases (leb word_bytes n && same_alignment (d + n) (s + n))) [
        | inl e ↦ rw e (
            let last = blocks_down-DueDown t 1 1 (omega arith) words.0 in done_down t last.0 last.1)
        | inr e ↦ rw e (
            let last = blocks_down-DueDown t 1 1 (omega arith) end-DueDown in
            done_down t last.0 last.1)
      ]

  backward_parts : (features : ℕ) → memmove_backward features d s n m ≡ (d, move n d s m)
  unfolding memmove_backward
  backward_parts features = ground (arith, backward_avx, backward_sse2, words_down)

move_nothing : (n d s : ℕ) (m : Memory) → (d == s || n == 0) ≡ true → move n d s m ≡ m
unfolding move
move_nothing n d s m h = fun_ext λ a. ground arith

-- The test `da - sa >= n` on `uintptr_t`: a copy from the front is safe, or the destination is above.
distance_test :
    (d s n : ℕ)
    → d + n ≤ 2 ^ 64
    → s + n ≤ 2 ^ 64
    → (d == s || n == 0) ≡ false
    → ((leb n ((d + 2 ^ 64 - s) % 2 ^ 64) ≡ true) × Forward d s n)
      ⊎ ((leb n ((d + 2 ^ 64 - s) % 2 ^ 64) ≡ false) × (s ≤ d))
distance_test d s n hd hs h = elim (Bool-cases (leb n ((d + 2 ^ 64 - s) % 2 ^ 64))) [
  | inl e ↦ inl (e, ground arith)
  | inr e ↦ inr (e, ground arith)
]

-- For regions that do not reach over the end of the address space, overlapping or not, `memmove` returns the
-- destination, and afterwards the memory holds there what the source held before, and is the same elsewhere.
pub memmove-move :
    (features d s n : ℕ) (m : Memory)
    → d + n ≤ 2 ^ 64
    → s + n ≤ 2 ^ 64
    → memmove features d s n m ≡ (d, move n d s m)
unfolding memmove
memmove-move features d s n m hd hs = elim (Bool-cases (d == s || n == 0)) [
  | inl e ↦ rw e (ap (λ x. (d, x)) (sym (move_nothing n d s m e)))
  | inr e ↦ rw e (elim (distance_test d s n hd hs e) [
    | inl (t, safe) ↦ rw t (memcpy_forward-move d s n m safe features)
    | inr (t, above) ↦ rw t (backward_parts d s n m above features)
  ])
]

-- For regions that do not overlap `memcpy` does the same.
pub memcpy-move :
    (features d s n : ℕ) (m : Memory)
    → (d + n ≤ s) ⊎ (s + n ≤ d)
    → memcpy features d s n m ≡ (d, move n d s m)
unfolding memcpy
memcpy-move features d s n m apart = memcpy_forward-move d s n m (omega arith) features
