-- ===== src/Libc/Fill/Laws.antt =====
-- What `memset` promises, whichever routine is selected.
use rhkernel.Prelude.{
  ℕ, zero, suc, ◌+◌, ◌-◌, ◌*◌, ◌%◌, ◌≤◌, ◌<◌, ◌≡◌, refl, sym, ◌∙◌, ap, ◌&&◌, leb, inl, inr, arith,
  Bool-cases, fun_ext, while_inv,
}
use rhkernel.Libc.Word.{repeat_byte}
use rhkernel.Libc.Word.Laws.{repeat_byte-byte}
use rhkernel.Libc.Memory.{Memory, fill, store_word}
use rhkernel.Libc.Memory.Regions.{fill-zero, fill-add, fill_eq}
use rhkernel.Libc.Copy.{word_bytes, unaligned}
use rhkernel.Libc.Fill.{
  Filling, store_words, fill_words, fill_byte, fill_blocks, fill_bytes, fill_to_word, memset_sse2,
  memset_avx, fill_by_words, memset,
}

store_word-fill : (d c : ℕ) (m : Memory) → c < 256 → store_word d (repeat_byte c) m ≡ fill 8 d c m
unfolding store_word fill
store_word-fill d c m h = fun_ext λ a. ground (arith, repeat_byte-byte c (a - d))

-- What is still to be filled gives `target`.
record DueFill (c : ℕ) (target : Memory) (f : Filling) : Type 0 where
  due : fill f.left f.dst c f.memory ≡ target

module _ (c : ℕ) (byte : c < 256) where
  store_words-fill :
      (count d : ℕ) (m : Memory) → store_words count (repeat_byte c) d m ≡ fill (count * 8) d c m
  unfolding store_words
  store_words-fill zero d m = sym (fill-zero d c m) ∙ fill_eq c m (omega arith) refl
  store_words-fill (suc count) d m =
      store_words-fill count (d + 8) (store_word d (repeat_byte c) m)
      ∙ ap (fill (count * 8) (d + 8) c) (store_word-fill d c m byte)
      ∙ fill-add 8 (count * 8) d c m
      ∙ fill_eq c m (omega arith) refl

  module _ (target : Memory) where
    abbrev Due : Filling → Type 0
    Due = DueFill c target

    take_part :
        (k : ℕ) {f : Filling}
        → k ≤ f.left
        → Due f
        → fill (f.left - k) (f.dst + k) c (fill k f.dst c f.memory) ≡ target
    take_part k {f} fits h =
        fill-add k (f.left - k) f.dst c f.memory ∙ fill_eq c f.memory (omega arith) refl ∙ h.due

    fill_blocks-Due :
        (count : ℕ) {f : Filling} → 1 ≤ count → Due f → Due (fill_blocks (repeat_byte c) count f)
    unfolding fill_blocks
    fill_blocks-Due count {f} pos h =
        (while_inv Due (λ x. x.left) (λ x. leb (count * 8) x.left)
          (fill_words (repeat_byte c) count)
          (λ x p t. (
            record {
              due =
                  unfold fill_words in
                  rw (store_words-fill count x.dst x.memory)
                    (take_part (count * 8) (ground arith) p);
            },
            unfold fill_words in ground arith,
          ))
          (suc f.left) f (omega arith) h).0

    fill_to_word-Due : {f : Filling} → Due f → Due (fill_to_word c f)
    unfolding fill_to_word
    fill_to_word-Due {f} h =
        (while_inv Due (λ x. x.left) (λ x. leb 1 x.left && unaligned word_bytes x.dst) (fill_byte c)
          (λ x p t. (
            record { due = unfold fill_byte in take_part 1 (ground arith) p },
            unfold fill_byte in ground arith,
          ))
          (suc f.left) f (omega arith) h).0

    -- The last loop leaves nothing to fill.
    fill_bytes-memory : {f : Filling} → Due f → (fill_bytes c f).memory ≡ target
    unfolding fill_bytes
    fill_bytes-memory {f} h =
        let kept =
          while_inv Due (λ x. x.left) (λ x. leb 1 x.left) (fill_byte c)
            (λ x p t. (
              record { due = unfold fill_byte in take_part 1 (ground arith) p },
              unfold fill_byte in ground arith,
            ))
            (suc f.left) f (omega arith) h in
        sym (fill-zero _ c _) ∙ fill_eq c _ (ground (arith, kept.1)) refl ∙ kept.0.due

  module _ (d n : ℕ) (m : Memory) where
    by_words : (fill_by_words c (record { dst = d; left = n; memory = m })).memory ≡ fill n d c m
    unfolding fill_by_words
    by_words =
        let t = fill n d c m in
        let begin : DueFill c t (record { dst = d; left = n; memory = m }) = record {
          due = refl;
        } in
        elim (Bool-cases (leb word_bytes n)) [
          | inl e ↦ rw e (
              fill_bytes-memory t (
                fill_blocks-Due t 1 (omega arith)
                  (fill_blocks-Due t 4 (omega arith) (fill_to_word-Due t begin))))
          | inr e ↦ rw e (fill_bytes-memory t begin)
        ]

module _ (value d n : ℕ) (m : Memory) where
  by_sse2 : memset_sse2 d value n m ≡ fill n d (value % 256) m
  unfolding memset_sse2 repeat_byte
  by_sse2 =
      let c = value % 256 in
      let t = fill n d c m in
      fill_bytes-memory c (omega arith) t (
        fill_blocks-Due c (omega arith) t 2 (omega arith)
          (fill_blocks-Due c (omega arith) t 16 (omega arith) (record { due = refl })))

  by_avx : memset_avx d value n m ≡ fill n d (value % 256) m
  unfolding memset_avx repeat_byte
  by_avx =
      let c = value % 256 in
      let t = fill n d c m in
      fill_bytes-memory c (omega arith) t (
        fill_blocks-Due c (omega arith) t 4 (omega arith)
          (fill_blocks-Due c (omega arith) t 32 (omega arith) (record { due = refl })))

-- `memset` returns the destination, sets its `n` bytes to the low byte of the value and changes no other byte, for
-- every length, alignment and set of processor features.
pub memset-fill :
    (features d value n : ℕ) (m : Memory)
    → memset features d value n m ≡ (d, fill n d (value % 256) m)
unfolding memset
memset-fill features d value n m =
    ground
      (arith, by_avx value d n m, by_sse2 value d n m, by_words (value % 256) (omega arith) d n m)
