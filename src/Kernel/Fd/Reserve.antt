-- ===== src/Kernel/Fd/Reserve.antt =====
-- What `reserve_fd` answers, on every branch.
use rhkernel.Prelude.{
  ℕ, suc, ◌+◌, ◌-◌, ◌<◌, ◌≤◌, ◌≡◌, refl, sym, ap, ◌∙◌, Bool, true, false, ◌&&◌, ◌||◌, ◌==◌, ltb,
  if◌then◌else◌, some, arith, Bool-cases, inl, inr, while_inv,
}
use rhkernel.Kernel.Fd.{Task, Grants, u64, bit_set, fd_bit_set, fd_bit_get, file_at, expand_table}
use rhkernel.Kernel.Fd.Calls.{skip_taken, mark_reserved, reserve_unsigned}
use rhkernel.Kernel.Fd.Shape.{
  IsTask, IsPacked, taken, fd_bit_get-taken, marked, marked-taken, marked-IsTask,
}
use rhkernel.Kernel.Fd.Grow.{Expanded, expand_table-Expanded}

-- `fd` is taken in `t'`, and no other changes; a packed table stays packed.
pub record Marked (fd : ℕ) (t t' : Task) : Type 0 where
  pub shape : IsTask t'
  pub only_taken : (j : ℕ) → taken t' j ≡ (j == fd || taken t j)
  pub same_file : (j : ℕ) → file_at j t' ≡ file_at j t
  pub packed : (k : ℕ) → IsPacked k t → IsPacked k t'

true_or : (b : Bool) → (b || true) ≡ true
true_or true = refl
true_or false = refl

module _ (t : Task) (bits : ℕ → ℕ) (e : t.fd_bitmap ≡ some bits) (h : IsTask t) (fd : ℕ)
    (l : fd < t.fd_capacity) where
  abbrev with_hint : ℕ → Task
  with_hint n = marked t bits e fd n l

  fd_bit_set-same : fd_bit_set fd t ≡ with_hint t.next_fd_hint
  unfolding fd_bit_set
  fd_bit_set-same = let k : ltb fd t.fd_capacity ≡ true = ground arith in rw (fd_bit_set, e, k) refl

  abbrev Skipped : ℕ → Type 0
  Skipped n =
      (n ≤ t.fd_capacity)
      × ((k : ℕ)
          → IsPacked k t
          → (j : ℕ) → k ≤ j
          → j < n
          → taken (with_hint t.next_fd_hint) j ≡ true)

  before_skip :
      (k : ℕ)
      → IsPacked k t
      → (j : ℕ) → k ≤ j
      → j < t.next_fd_hint
      → taken (with_hint t.next_fd_hint) j ≡ true
  before_skip k p j b i =
      marked-taken t bits e fd t.next_fd_hint l j ∙ (rw (p j b i) (true_or (j == fd)))

  skip_taken-Skipped : Skipped (skip_taken (with_hint t.next_fd_hint))
  unfolding skip_taken
  skip_taken-Skipped =
      (while_inv Skipped (λ n. t.fd_capacity - n)
        (λ n. ltb n t.fd_capacity && fd_bit_get (with_hint t.next_fd_hint) n) (λ n. u64 (n + 1))
        round (suc t.fd_capacity) t.next_fd_hint (omega arith) (h.hint, before_skip)).0
    where
      second : (a b : Bool) → (a && b) ≡ true → b ≡ true
      second true b q = q
      second false b q = absurd cc

      up :
          (k n : ℕ)
          → taken (with_hint t.next_fd_hint) n ≡ true
          → ((j : ℕ) → k ≤ j → j < n → taken (with_hint t.next_fd_hint) j ≡ true)
          → (j : ℕ) → k ≤ j
          → j < n + 1
          → taken (with_hint t.next_fd_hint) j ≡ true
      up k n here f j b i = elim (Bool-cases (j == n)) [
        | inl q ↦ ap (taken (with_hint t.next_fd_hint)) (ground arith) ∙ here
        | inr q ↦ f j b (ground arith)
      ]

      round :
          (n : ℕ)
          → Skipped n
          → (ltb n t.fd_capacity && fd_bit_get (with_hint t.next_fd_hint) n) ≡ true
          → Skipped (u64 (n + 1)) × (t.fd_capacity - u64 (n + 1) < t.fd_capacity - n)
      round n s b =
          let inside : n < t.fd_capacity = ground arith in
          let wrap : u64 (n + 1) ≡ n + 1 = omega (arith, h.bound) in
          let here : taken (with_hint t.next_fd_hint) n ≡ true =
            sym (fd_bit_get-taken (with_hint t.next_fd_hint) (bit_set fd bits) refl n)
            ∙ second (ltb n t.fd_capacity) (fd_bit_get (with_hint t.next_fd_hint) n) b in
          rw wrap ((omega arith, λ k p j b i. up k n here (s.1 k p) j b i), omega arith)

  -- Any hint up to the first free descriptor.
  hint_Marked : (n : ℕ) → Skipped n → Marked fd t (with_hint n)
  unfolding file_at taken
  hint_Marked n s = record {
    shape = marked-IsTask t bits e fd n l h s.0;
    only_taken = marked-taken t bits e fd n l;
    same_file = λ j. refl;
    packed = s.1;
  }

  pub mark_reserved-Marked : Marked fd t (mark_reserved fd t)
  unfolding mark_reserved
  mark_reserved-Marked =
      rw (mark_reserved, fd_bit_set-same)
        (elim (Bool-cases (fd == t.next_fd_hint)) [
          | inl q ↦ rw q (hint_Marked (skip_taken (with_hint t.next_fd_hint)) skip_taken-Skipped)
          | inr q ↦ rw q (hint_Marked t.next_fd_hint (h.hint, before_skip))
        ])

abbrev pub Reserved : ℕ → Task → Task × Bool → Type 0
Reserved fd t (t', true) = Marked fd t t'
Reserved fd t (t', false) = t' ≡ t

-- `reserve_fd` takes the descriptor and no other, or fails and changes nothing.
pub reserve_unsigned-Reserved :
    (grants : Grants) (fd : ℕ) (t : Task)
    → IsTask t
    → fd ≤ 2147483647
    → Reserved fd t (reserve_unsigned grants fd t)
unfolding reserve_unsigned
reserve_unsigned-Reserved grants fd t h b = elim (Bool-cases (fd == 2147483647)) [
  | inl q ↦ rw (reserve_unsigned, q) refl
  | inr q ↦
      rw (reserve_unsigned, q)
        (answer (expand_table grants (fd + 1) t)
          (expand_table-Expanded grants (fd + 1) t h (omega arith)))
]
  where
    answer :
        (x : Task × Bool)
        → Expanded (fd + 1) t x
        → Reserved fd t (if x.1 then (mark_reserved fd x.0, true) else (x.0, false))
    answer (t', true) g =
        let m = mark_reserved-Marked t' g.bits g.bits_are g.shape fd (omega (arith, g.enough)) in
        record {
          shape = m.shape;
          only_taken = λ j. m.only_taken j ∙ ap (λ c. j == fd || c) (g.same_taken j);
          same_file = λ j. m.same_file j ∙ g.same_file j;
          packed = λ k p. m.packed k (λ j b i. g.same_taken j ∙ p j b (omega (arith, g.same_hint)));
        }
    answer (t', false) g = g
