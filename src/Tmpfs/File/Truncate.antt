-- ===== src/Tmpfs/File/Truncate.antt =====
-- What `tmpfs_truncate` promises, and what a write past the end does.
use rhkernel.Prelude.{
  ℕ, ◌-◌, ◌*◌, ◌≤◌, ◌≡◌, refl, ◌∙◌, ap, Bool, true, false, not, ◌||◌, ltb, if◌then◌else◌, ◌⊎◌,
  arith, Bool-cases, inl, inr,
}
use rhkernel.Tmpfs.File.{State, page_size, uint64_max, cut_to, ensure_file_capacity, tmpfs_truncate}
use rhkernel.Tmpfs.File.Contents.{content, IsGood}
use rhkernel.Tmpfs.File.Ensure.{Keeps, Keeps-refl, ensure_file_capacity-Keeps}
use rhkernel.Tmpfs.File.Laws.{good_table}
use rhkernel.Tmpfs.File.Cut.{Cut, cut_to-Cut}

-- The outcome of a truncation: done, or refused with the bytes and the size as before.
pub record Refused (s t : State) : Type 0 where
  pub same_size : t.node.size ≡ s.node.size
  pub same_bytes : (a : ℕ) → content t.node a ≡ content s.node a

abbrev pub Truncated : State → ℕ → State × Bool → Type 0
Truncated s size r = ((r.1 ≡ true) × Cut s size r.0) ⊎ ((r.1 ≡ false) × Refused s r.0)

-- The part below the checks, when there is room.
cut_to-Keeps :
    (s t : State) (size : ℕ)
    → IsGood s.node
    → Keeps s t
    → size ≤ t.node.page_count * page_size
    → Cut s size (cut_to size t)
cut_to-Keeps s t size g k room =
    let zeroes : (a : ℕ) → t.node.size ≤ a → content t.node a ≡ 0 =
      λ a h. k.same_bytes a ∙ g.zero_above a (omega (arith, k.same_size)) in
    let c = cut_to-Cut t size k.table zeroes room in
    record {
      same_kind = c.same_kind ∙ k.same_kind;
      new_size = c.new_size;
      shown = c.shown;
      bytes = λ a. c.bytes a ∙ ap (λ x. if ltb a size then x else 0) (k.same_bytes a);
      good = c.good;
    }

-- A truncation of a file in good order, with any allocator, either succeeds or is refused. If it succeeds, the file
-- and its vnode have the new size, the bytes below it are as before, all bytes from it on are 0, and the file is in good
-- order; if it is refused, no byte and not the size has changed.
pub tmpfs_truncate-Truncated :
    (grant : ℕ → Bool) (s : State) (size : ℕ)
    → IsGood s.node
    → Truncated s size (tmpfs_truncate grant s size)
unfolding tmpfs_truncate
tmpfs_truncate-Truncated grant s size g =
    elim (Bool-cases (not s.node.is_file || ltb (uint64_max - (page_size - 1)) size)) [
      | inl e ↦ rw e (inr (refl, record { same_size = refl; same_bytes = λ a. refl }))
      | inr e ↦ rw e (elim (Bool-cases (ltb s.node.size size)) [
        | inl longer ↦ rw longer (
            after_capacity (ensure_file_capacity grant s size)
              (ensure_file_capacity-Keeps s (good_table s.node g) grant size))
        | inr shorter ↦ rw shorter (
            inl (
              refl,
              cut_to-Keeps s s size g (Keeps-refl s (good_table s.node g))
                  (ground (arith, g.covered)),
            ))
      ])
    ]
  where
    after_capacity :
        (r : State × Bool)
        → Keeps s r.0 × (r.1 ≡ true → size ≤ r.0.node.page_count * page_size)
        → Truncated s size (if r.1 then (cut_to size r.0, true) else (r.0, false))
    after_capacity (t, true) k = inl (refl, cut_to-Keeps s t size g k.0 (k.1 refl))
    after_capacity (t, false) k =
        inr (refl, record { same_size = k.0.same_size; same_bytes = k.0.same_bytes })
