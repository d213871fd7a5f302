-- ===== src/Tmpfs/File/Ensure.antt =====
-- `ensure_page_array`, `ensure_file_capacity` and `ensure_data_page` change no byte of a file.
use rhkernel.Prelude.{
  ◌⊎◌, ℕ, zero, suc, ◌+◌, ◌-◌, ◌*◌, ◌/◌, ◌%◌, ◌^◌, ◌≤◌, ◌<◌, ◌≡◌, refl, ◌∙◌, ap, Bool, true, false,
  leb, ltb, ◌==◌, if◌then◌else◌, Option, none, some, arith, Bool-cases, inl, inr,
}
use native.Mathlib.Nat.{pow-suc}
use rhkernel.Libc.Memory.{Memory}
use rhkernel.Tmpfs.Account.{Mount, account, unaccount}
use rhkernel.Tmpfs.File.{
  Node, State, page_size, uint64_max, grow_capacity, no_pages_from, put_page, with_capacity,
  count_pages, ensure_page_array, ensure_file_capacity, fill_entry, allocate_page, ensure_data_page,
}
use rhkernel.Tmpfs.File.Contents.{page_at, byte_of, content}

-- The page table is in order: the size lies within the counted pages, and only those may be there.
pub record HasTable (n : Node) : Type 0 where
  pub counted : n.page_count ≤ n.page_capacity
  pub covered : n.size ≤ n.page_count * page_size
  pub none_above : (i : ℕ) → n.page_count ≤ i → page_at n i ≡ none

-- What the ensure operations leave alone, and that the table stays in order.
pub record Keeps (s t : State) : Type 0 where
  pub same_kind : t.node.is_file ≡ s.node.is_file
  pub same_size : t.node.size ≡ s.node.size
  pub more_pages : s.node.page_count ≤ t.node.page_count
  pub same_bytes : (a : ℕ) → content t.node a ≡ content s.node a
  pub table : HasTable t.node

pub Keeps-refl : (s : State) → HasTable s.node → Keeps s s
Keeps-refl s h = record {
  same_kind = refl;
  same_size = refl;
  more_pages = omega arith;
  same_bytes = λ a. refl;
  table = h;
}

-- A capacity that is found is large enough, and no smaller than before.
grow_capacity-le :
    (fuel pages cap c : ℕ) → grow_capacity fuel pages cap ≡ some c → (pages ≤ c) × (cap ≤ c)
unfolding grow_capacity
grow_capacity-le zero pages cap c e = cc
grow_capacity-le (suc fuel) pages cap c e = ground (arith, grow_capacity-le fuel pages (cap * 2) c)

grow_capacity-some :
    (fuel pages cap : ℕ)
    → pages ≤ cap * 2 ^ fuel
    → pages ≤ 2 ^ 63
    → (c : ℕ) × (grow_capacity (suc fuel) pages cap ≡ some c) × (c < 2 * pages ⊎ c ≡ cap)
unfolding grow_capacity
grow_capacity-some zero pages cap h k = (cap, ground arith, inr refl)
grow_capacity-some (suc fuel) pages cap h k = elim (Bool-cases (leb pages cap)) [
  | inl e ↦ (cap, rw e refl, inr refl)
  | inr e ↦
      let double : pages ≤ cap * 2 * 2 ^ fuel =
        omega (arith, ap (λ (x : ℕ). cap * x) (pow-suc 2 fuel)) in
      let rest = grow_capacity-some fuel pages (cap * 2) double k in
      let small : ltb (uint64_max / 2) cap ≡ false = ground arith in
      (rest.0, rw (e, small) rest.1, smaller rest.0 rest.2 (ground arith))
]
  where
    smaller : (c : ℕ) → c < 2 * pages ⊎ c ≡ cap * 2 → cap < pages → c < 2 * pages ⊎ c ≡ cap
    smaller c (inl l) k = inl l
    smaller c (inr e) k = inl (omega (arith, e))

-- From a capacity that is not 0, the loop of ensure_page_array ends within the 64 rounds that the model gives it, for up to 2^63
-- pages, with a capacity that is large enough: the old one, or less than twice the number of pages.
pub grow_capacity-enough :
    (pages cap : ℕ)
    → 0 < cap
    → pages ≤ 2 ^ 63
    → (c : ℕ) × (grow_capacity 64 pages cap ≡ some c) × (pages ≤ c) × (c < 2 * pages ⊎ c ≡ cap)
grow_capacity-enough pages cap p k =
    let found = grow_capacity-some 63 pages cap (omega arith) k in
    (found.0, found.1, (grow_capacity-le 64 pages cap found.0 found.1).0, found.2)

module _ (s : State) (h : HasTable s.node) where
  grown_page :
      (cap i : ℕ)
      → s.node.page_capacity ≤ cap
      → (if ltb i cap then no_pages_from s.node.page_capacity cap s.node.pages i else none)
        ≡ page_at s.node i
  unfolding no_pages_from
  grown_page cap i k = ground arith

  module _ (grant : ℕ → Bool) where
    grown_Keeps :
        (cap : ℕ)
        → s.node.page_capacity ≤ cap
        → Keeps s (record s {
          node = record s.node {
            pages = no_pages_from s.node.page_capacity cap s.node.pages;
            page_capacity = cap;
          };
          asked = suc s.asked;
        })
    grown_Keeps cap k = record {
      same_kind = refl;
      same_size = refl;
      more_pages = omega arith;
      same_bytes = λ a.
          unfold content in ap (λ p. byte_of p (a % page_size)) (grown_page cap (a / page_size) k);
      table = record {
        counted = omega (arith, h.counted);
        covered = h.covered;
        none_above = λ i j. grown_page cap i k ∙ h.none_above i j;
      };
    }

    with_capacity-Keeps :
        (cap : Option ℕ)
        → ((c : ℕ) → cap ≡ some c → s.node.page_capacity ≤ c)
        → Keeps s (with_capacity grant s cap).0
    unfolding with_capacity
    with_capacity-Keeps none k = Keeps-refl s h
    with_capacity-Keeps (some cap) k = elim (Bool-cases (ltb (uint64_max / 8) cap)) [
      | inl e ↦ rw e (Keeps-refl s h)
      | inr e ↦ elim (Bool-cases (grant s.asked)) [
        | inl g ↦ rw (e, g) (grown_Keeps cap (k cap refl))
        | inr g ↦ rw (e, g) (asked_Keeps)
      ]
    ]
      where
        asked_Keeps : Keeps s (record s { asked = suc s.asked })
        asked_Keeps = record {
          same_kind = refl;
          same_size = refl;
          more_pages = omega arith;
          same_bytes = λ a. refl;
          table = h;
        }

    with_capacity-large :
        (cap : Option ℕ) (pages : ℕ)
        → ((c : ℕ) → cap ≡ some c → pages ≤ c)
        → (with_capacity grant s cap).1 ≡ true
        → pages ≤ (with_capacity grant s cap).0.node.page_capacity
    unfolding with_capacity
    with_capacity-large none pages k e = cc
    with_capacity-large (some cap) pages k e = ground (arith, k cap refl)

    ensure_page_array-Keeps :
        (pages : ℕ)
        → Keeps s (ensure_page_array grant s pages).0
          × ((ensure_page_array grant s pages).1 ≡ true
              → pages ≤ (ensure_page_array grant s pages).0.node.page_capacity)
    unfolding ensure_page_array
    ensure_page_array-Keeps pages = elim (Bool-cases (leb pages s.node.page_capacity)) [
      | inl e ↦ rw e (Keeps-refl s h, λ _. ground arith)
      | inr e ↦
          let from = if s.node.page_capacity == 0 then 4 else s.node.page_capacity in
          let found = grow_capacity 64 pages from in
          rw e (
            with_capacity-Keeps found (λ c f. ground (arith, grow_capacity-le 64 pages from c f)),
            with_capacity-large found pages (λ c f. (grow_capacity-le 64 pages from c f).0),
          )
    ]

    pub ensure_file_capacity-Keeps :
        (end : ℕ)
        → Keeps s (ensure_file_capacity grant s end).0
          × ((ensure_file_capacity grant s end).1 ≡ true
              → end ≤ (ensure_file_capacity grant s end).0.node.page_count * page_size)
    unfolding ensure_file_capacity count_pages content
    ensure_file_capacity-Keeps end = elim (Bool-cases (ltb (uint64_max - (page_size - 1)) end)) [
      | inl e ↦ rw e (Keeps-refl s h, λ x. cc)
      | inr e ↦ rw e (
          counted_Keeps end (ensure_page_array grant s ((end + (page_size - 1)) / page_size))
            (ensure_page_array-Keeps ((end + (page_size - 1)) / page_size)))
    ]
      where
        counted_Keeps :
            (end : ℕ) (r : State × Bool)
            → Keeps s r.0
              × (r.1 ≡ true → (end + (page_size - 1)) / page_size ≤ r.0.node.page_capacity)
            → Keeps s (count_pages ((end + (page_size - 1)) / page_size) r).0
              × ((count_pages ((end + (page_size - 1)) / page_size) r).1 ≡ true
                  → end
                    ≤ (count_pages ((end + (page_size - 1)) / page_size) r).0.node.page_count
                      * page_size)
        counted_Keeps end (t, false) k = (k.0, λ e. cc)
        counted_Keeps end (t, true) k = (
          record {
            same_kind = k.0.same_kind;
            same_size = k.0.same_size;
            more_pages = ground (arith, k.0.more_pages);
            same_bytes = k.0.same_bytes;
            table = record {
              counted = ground (arith, k.1 refl, k.0.table.counted);
              covered = ground (arith, k.0.table.covered);
              none_above = λ i j. k.0.table.none_above i (ground arith);
            };
          },
          λ _. ground arith,
        )

    -- A new page holds zeroes, as the hole did that it fills.
    fresh_page :
        (page i j : ℕ)
        → s.node.pages page ≡ none
        → byte_of
            (if ltb i s.node.page_capacity
              then put_page page (some (λ _. 0)) s.node.pages i
              else none)
            j
          ≡ byte_of (page_at s.node i) j
    unfolding put_page
    fresh_page page i j e = elim (Bool-cases (i == page)) [
      | inl same ↦ let there : i ≡ page = ground arith in rw (same, there, e) (ground arith)
      | inr other ↦ rw other refl
    ]

    fresh_Keeps :
        (page : ℕ) (m : Mount) (asked : ℕ)
        → page < s.node.page_count
        → s.node.pages page ≡ none
        → Keeps s (record s {
          node = record s.node { pages = put_page page (some (λ _. 0)) s.node.pages };
          mount = m;
          asked = asked;
        })
    fresh_Keeps page m asked low e = record {
      same_kind = refl;
      same_size = refl;
      more_pages = omega arith;
      same_bytes = λ a. unfold content in fresh_page page (a / page_size) (a % page_size) e;
      table = record {
        counted = h.counted;
        covered = h.covered;
        none_above = λ i j. unfold put_page in ground (arith, h.none_above i j);
      };
    }

    unchanged_Keeps : (m : Mount) (asked : ℕ) → Keeps s (record s { mount = m; asked = asked })
    unchanged_Keeps m asked = record {
      same_kind = refl;
      same_size = refl;
      more_pages = omega arith;
      same_bytes = λ a. refl;
      table = h;
    }

    fill_entry-Keeps :
        (page : ℕ) (entry : Option Memory) (charged : Option Mount)
        → s.node.pages page ≡ entry
        → page < s.node.page_count
        → Keeps s (fill_entry grant s page entry charged).0
    unfolding fill_entry
    fill_entry-Keeps page (some p) charged e low = Keeps-refl s h
    fill_entry-Keeps page none none e low = Keeps-refl s h
    fill_entry-Keeps page none (some m) e low = elim (Bool-cases (grant s.asked)) [
      | inl g ↦ rw g (fresh_Keeps page m (suc s.asked) low e)
      | inr g ↦ rw g (unchanged_Keeps (unaccount m page_size) (suc s.asked))
    ]

    fill_entry-some :
        (page : ℕ) (entry : Option Memory) (charged : Option Mount)
        → s.node.pages page ≡ entry
        → (fill_entry grant s page entry charged).1 ≡ true
        → (p : Memory) × ((fill_entry grant s page entry charged).0.node.pages page ≡ some p)
    unfolding fill_entry put_page
    fill_entry-some page (some p) charged e f = (p, e)
    fill_entry-some page none none e f = cc
    fill_entry-some page none (some m) e f = ((λ _. 0), ground arith)

    -- A page below the counted ones that is had is there, and no byte of the file has changed.
    pub ensure_data_page-Keeps :
        (page : ℕ)
        → page < s.node.page_count
        → Keeps s (ensure_data_page grant s page).0
          × ((ensure_data_page grant s page).1 ≡ true
              → (p : Memory) × ((ensure_data_page grant s page).0.node.pages page ≡ some p))
    unfolding ensure_data_page allocate_page
    ensure_data_page-Keeps page low = elim (Bool-cases (ltb (uint64_max / page_size - 1) page)) [
      | inl e ↦ rw e (Keeps-refl s h, λ x. cc)
      | inr e ↦
          let there : leb s.node.page_capacity page ≡ false = ground (arith, h.counted) in
          rw (e, there)
            (
              fill_entry-Keeps page (s.node.pages page) (account s.mount page_size) refl low,
              fill_entry-some page (s.node.pages page) (account s.mount page_size) refl,
            )
    ]
