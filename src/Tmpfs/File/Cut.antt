-- ===== src/Tmpfs/File/Cut.antt =====
-- `tmpfs_truncate` keeps the bytes below the new size, and leaves zeroes above it.
use rhkernel.Prelude.{
  ℕ, zero, suc, ◌+◌, ◌-◌, ◌*◌, ◌/◌, ◌%◌, ◌≤◌, ◌<◌, ◌≡◌, refl, sym, ◌∙◌, ap, subst, true, false, not,
  ◌&&◌, leb, ltb, ◌==◌, if◌then◌else◌, none, some, arith, Bool-cases, Option-cases, inl, inr,
}
use rhkernel.Libc.Memory.{fill}
use rhkernel.Tmpfs.File.{State, page_size, put_page, free_page, free_pages, clear_tail, cut_to}
use rhkernel.Tmpfs.File.Contents.{page_at, byte_of, content, IsGood}
use rhkernel.Tmpfs.File.Ensure.{HasTable}

-- The entries from `lo` up to `hi` have been set to null.
record Freed (s t : State) (lo hi : ℕ) : Type 0 where
  same_kind : t.node.is_file ≡ s.node.is_file
  same_capacity : t.node.page_capacity ≡ s.node.page_capacity
  entries : (j : ℕ) → t.node.pages j ≡ (if leb lo j && ltb j hi then none else s.node.pages j)

free_page-Freed : (i : ℕ) (s : State) → Freed s (free_page i s) i (i + 1)
unfolding free_page put_page
free_page-Freed i s = elim (Option-cases (s.node.pages i)) [
  | inl e ↦
      rw (e, free_page)
        (record {
          same_kind = refl;
          same_capacity = refl;
          entries = λ j. elim (Bool-cases (j == i)) [
            | inl same ↦
                let there : j ≡ i = ground arith in
                let hit : (leb i j && ltb j (i + 1)) ≡ true = ground arith in
                rw hit (ap s.node.pages there ∙ e)
            | inr other ↦
                let miss : (leb i j && ltb j (i + 1)) ≡ false = ground arith in rw miss refl
          ];
        })
  | inr (p, e) ↦
      rw (e, free_page)
        (record { same_kind = refl; same_capacity = refl; entries = λ j. ground arith })
]

free_pages-Freed : (rounds i : ℕ) (s : State) → Freed s (free_pages rounds i s) i (i + rounds)
unfolding free_pages
free_pages-Freed zero i s = record {
  same_kind = refl;
  same_capacity = refl;
  entries = λ j. ground arith;
}
free_pages-Freed (suc rounds) i s =
    let one = free_page-Freed i s in
    let rest = free_pages-Freed rounds (i + 1) (free_page i s) in
    record {
      same_kind = rest.same_kind ∙ one.same_kind;
      same_capacity = rest.same_capacity ∙ one.same_capacity;
      entries = λ j. ground (arith, rest.entries j, one.entries j);
    }

-- The bytes of one page from `tail` on have been set to 0.
record Cleared (s t : State) (page tail : ℕ) : Type 0 where
  same_kind : t.node.is_file ≡ s.node.is_file
  same_capacity : t.node.page_capacity ≡ s.node.page_capacity
  same_none : (j : ℕ) → s.node.pages j ≡ none → t.node.pages j ≡ none
  bytes :
      (j k : ℕ)
      → k < page_size
      → byte_of (t.node.pages j) k
        ≡ (if (j == page) && leb tail k then 0 else byte_of (s.node.pages j) k)

clear_tail-Cleared :
    (page tail : ℕ) (s : State) → tail < page_size → Cleared s (clear_tail page tail s) page tail
unfolding clear_tail put_page fill
clear_tail-Cleared page tail s low = elim (Option-cases (s.node.pages page)) [
  | inl e ↦
      rw (e, clear_tail)
        (record {
          same_kind = refl;
          same_capacity = refl;
          same_none = λ j h. h;
          bytes = λ j k fits. elim (Bool-cases (j == page)) [
            | inl same ↦ let there : j ≡ page = ground arith in rw (same, there, e) (ground arith)
            | inr other ↦ rw other refl
          ];
        })
  | inr (p, e) ↦
      rw (e, clear_tail)
        (record {
          same_kind = refl;
          same_capacity = refl;
          same_none = λ j h. elim (Bool-cases (j == page)) [
            | inl same ↦
                let there : j ≡ page = ground arith in
                let clash : some p ≡ none = sym e ∙ ap s.node.pages (sym there) ∙ h in cc
            | inr other ↦ rw other h
          ];
          bytes = λ j k fits. elim (Bool-cases (j == page)) [
            | inl same ↦ let there : j ≡ page = ground arith in rw (same, there, e) (ground arith)
            | inr other ↦ rw other refl
          ];
        })
]

cleared_byte :
    (page tail : ℕ) (s : State) (a : ℕ)
    → tail < page_size
    → content (clear_tail page tail s).node a
      ≡ (if (a / page_size == page) && leb tail (a % page_size) then 0 else content s.node a)
unfolding content
cleared_byte page tail s a low =
    let c = clear_tail-Cleared page tail s low in
    elim (Bool-cases (ltb (a / page_size) s.node.page_capacity)) [
      | inl e ↦ rw (c.same_capacity, e) (c.bytes (a / page_size) (a % page_size) (omega arith))
      | inr e ↦ rw (c.same_capacity, e) (ground arith)
    ]

-- The pages that a size needs.
abbrev kept_pages : ℕ → ℕ
kept_pages size = if size == 0 then 0 else (size + (page_size - 1)) / page_size

-- What `tmpfs_truncate` leaves.
pub record Cut (s : State) (size : ℕ) (t : State) : Type 0 where
  pub same_kind : t.node.is_file ≡ s.node.is_file
  pub new_size : t.node.size ≡ size
  pub shown : t.vnode_size ≡ size
  pub bytes : (a : ℕ) → content t.node a ≡ (if ltb a size then content s.node a else 0)
  pub good : IsGood t.node

module _ (s : State) (size : ℕ) (g : HasTable s.node)
    (zeroes : (a : ℕ) → s.node.size ≤ a → content s.node a ≡ 0)
    (room : size ≤ s.node.page_count * page_size) where
  abbrev freed : State
  freed = free_pages (s.node.page_count - kept_pages size) (kept_pages size) s

  -- The cleared state, with no tail to clear as the case of an empty tail.
  abbrev trimmed : State
  trimmed =
      if not (kept_pages size == 0) && not (size % page_size == 0)
      then clear_tail (kept_pages size - 1) (size % page_size) freed
      else freed

  freed_byte :
      (a : ℕ)
      → content freed.node a
        ≡ (if leb (kept_pages size) (a / page_size) then 0 else content s.node a)
  unfolding content
  freed_byte a =
      let f = free_pages-Freed (s.node.page_count - kept_pages size) (kept_pages size) s in
      rw (f.same_capacity, f.entries (a / page_size))
        (freed_cases (kept_pages size) (a / page_size) (a % page_size))
    where
      freed_cases :
          (keep j k : ℕ)
          → byte_of
              (if ltb j s.node.page_capacity
                then if leb keep j && ltb j (keep + (s.node.page_count - keep))
                  then none
                  else s.node.pages j
                else none)
              k
            ≡ (if leb keep j then 0 else byte_of (page_at s.node j) k)
      freed_cases keep j k = elim (Bool-cases (leb keep j)) [
        | inr e ↦ rw e refl
        | inl e ↦ elim (Bool-cases (ltb j s.node.page_count)) [
          | inl below ↦ ground arith
          | inr above ↦
              let hole = g.none_above j (ground arith) in
              let past : ltb j (keep + (s.node.page_count - keep)) ≡ false = ground arith in
              rw (e, past, hole) refl
        ]
      ]

  trimmed_byte : (a : ℕ) → content trimmed.node a ≡ (if ltb a size then content s.node a else 0)
  trimmed_byte a = elim (Bool-cases (not (kept_pages size == 0) && not (size % page_size == 0))) [
    | inl e ↦ rw e (
        cleared_byte (kept_pages size - 1) (size % page_size) freed a (omega arith)
        ∙ ap
            (λ c.
              if (a / page_size == kept_pages size - 1) && leb (size % page_size) (a % page_size)
              then 0
              else c)
            (freed_byte a)
        ∙ ground arith)
    | inr e ↦ rw e (freed_byte a ∙ ground arith)
  ]

  freed_none : (j : ℕ) → kept_pages size ≤ j → page_at freed.node j ≡ none
  freed_none j h =
      let f = free_pages-Freed (s.node.page_count - kept_pages size) (kept_pages size) s in
      ground (arith, f.same_capacity, f.entries j, g.none_above j)

  trimmed_none : (j : ℕ) → kept_pages size ≤ j → page_at trimmed.node j ≡ none
  trimmed_none j h = elim (Bool-cases (not (kept_pages size == 0) && not (size % page_size == 0))) [
    | inl e ↦
        let c = clear_tail-Cleared (kept_pages size - 1) (size % page_size) freed (omega arith) in
        rw e (ground (arith, c.same_capacity, c.same_none j, freed_none j h))
    | inr e ↦ rw e (freed_none j h)
  ]

  trimmed_capacity :
      (trimmed.node.page_capacity ≡ s.node.page_capacity) × (trimmed.node.is_file ≡ s.node.is_file)
  trimmed_capacity =
      let f = free_pages-Freed (s.node.page_count - kept_pages size) (kept_pages size) s in
      let c = clear_tail-Cleared (kept_pages size - 1) (size % page_size) freed (omega arith) in
      elim (Bool-cases (not (kept_pages size == 0) && not (size % page_size == 0))) [
        | inl e ↦ rw e (c.same_capacity ∙ f.same_capacity, c.same_kind ∙ f.same_kind)
        | inr e ↦ rw e (f.same_capacity, f.same_kind)
      ]

  pub cut_to-Cut : Cut s size (cut_to size s)
  unfolding cut_to content
  cut_to-Cut = record {
    same_kind = trimmed_capacity.1;
    new_size = refl;
    shown = refl;
    bytes = trimmed_byte;
    good = record {
      counted =
          let k : kept_pages size ≤ s.node.page_capacity = ground (arith, g.counted) in
          subst (λ c. kept_pages size ≤ c) (sym trimmed_capacity.0) k;
      covered = ground arith;
      none_above = trimmed_none;
      zero_above = λ a h. trimmed_byte a ∙ ground arith;
    };
  }
