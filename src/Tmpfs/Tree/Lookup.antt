-- ===== src/Tmpfs/Tree/Lookup.antt =====
-- The children of a directory as a list of nodes with names, and the searches of module/tmpfs/src/tmpfs.c in it.
use rhkernel.Prelude.{
  ℕ, zero, suc, ◌+◌, ◌<◌, ◌≡◌, refl, ◌∙◌, Bool, true, false, ◌&&◌, ◌==◌, if◌then◌else◌, Option,
  none, some, List, [], ◌∷◌, length, arith, Bool-cases, inl, inr,
}
use mathlib.Core.Option.{some-injective}
use rhkernel.Prelude.Int.{ℤ, pos, negsuc}
use rhkernel.Prelude.Links.{Chain}
use rhkernel.Prelude.Links.Remove.{Before}
use rhkernel.Libc.Memory.{Memory}
use rhkernel.Tmpfs.Tree.{
  Entry, Tree, same_bytes, is_named, find_from, find_child_len, bytes_at, free_node,
}
use rhkernel.Tmpfs.Tree.Calls.{read_link, write_link, is_occupied, unlink_from, link_to}

abbrev pub same_text : List ℕ → List ℕ → Bool
same_text [] [] = true
same_text [] (y ∷ ys) = false
same_text (x ∷ xs) [] = false
same_text (x ∷ xs) (y ∷ ys) = x == y && same_text xs ys

abbrev pub names : Tree → ℕ → List ℕ
names t x = (t.nodes x).name

-- The first node with the name.
abbrev pub lookup : (ℕ → List ℕ) → List ℕ → List ℕ → Option ℕ
lookup f ks [] = none
lookup f ks (x ∷ xs) = let rest = lookup f ks xs in if same_text (f x) ks then some x else rest

-- No two nodes have the same name.
abbrev pub UniqueNames : (ℕ → List ℕ) → List ℕ → Type 0
UniqueNames f [] = Unit
UniqueNames f (x ∷ xs) = (lookup f (f x) xs ≡ none) × UniqueNames f xs

same_bytes-text :
    (m : Memory) (name len : ℕ) (xs : List ℕ)
    → (length xs == len && same_bytes m name xs) ≡ same_text xs (bytes_at len m name)
unfolding same_bytes bytes_at
same_bytes-text m name zero [] = refl
same_bytes-text m name (suc len) [] = ground arith
same_bytes-text m name zero (x ∷ xs) = ground arith
same_bytes-text m name (suc len) (x ∷ xs) = ground (arith, same_bytes-text m (name + 1) len xs)

pub is_named-text :
    (m : Memory) (name len : ℕ) (e : Entry)
    → is_named m name len e ≡ same_text e.name (bytes_at len m name)
unfolding is_named
is_named-text m name len e = same_bytes-text m name len e.name

module _ (m : Memory) (dir name len : ℕ) (t : Tree) where
  abbrev text : List ℕ
  text = bytes_at len m name

  pub find_from-lookup :
      (fuel : ℕ) (k : Option ℕ) (xs : List ℕ)
      → Chain (read_link dir t) k xs
      → length xs < fuel
      → find_from fuel m name len (read_link dir t k) t ≡ lookup (names t) (bytes_at len m name) xs
  unfolding find_from read_link
  find_from-lookup zero k xs h f = absurd (omega arith)
  find_from-lookup (suc fuel) k [] h f = rw h refl
  find_from-lookup (suc fuel) k (x ∷ xs) h f =
      let rest = find_from-lookup fuel (some x) xs h.1 (omega arith) in
      rw (h.0, find_from, is_named-text m name len (t.nodes x))
        (elim (Bool-cases (same_text (names t x) text)) [ inl e ↦ rw e refl | inr e ↦ rw e rest ])

  pub find_child_len-lookup :
      (fuel : ℕ) (xs : List ℕ)
      → Chain (read_link dir t) none xs
      → length xs < fuel
      → find_child_len fuel m dir name len t ≡ lookup (names t) (bytes_at len m name) xs
  unfolding find_child_len read_link
  find_child_len-lookup fuel xs h f = find_from-lookup fuel none xs h f

  -- The link to the child of the name.
  pub link_to-Before :
      (fuel : ℕ) (k : Option ℕ) (xs : List ℕ) (n : ℕ)
      → Chain (read_link dir t) k xs
      → length xs < fuel
      → lookup (names t) (bytes_at len m name) xs ≡ some n
      → Before k xs (link_to fuel m dir name len k t) n
        × (read_link dir t (link_to fuel m dir name len k t) ≡ some n)
  unfolding link_to
  link_to-Before zero k xs n h f e = absurd (omega arith)
  link_to-Before (suc fuel) k [] n h f e = ground arith
  link_to-Before (suc fuel) k (x ∷ xs) n h f e =
      let named = is_named-text m name len (t.nodes x) in
      elim (Bool-cases (same_text (names t x) text)) [
        | inl g ↦
            let first : some x ≡ some n = ground arith in
            rw (link_to, h.0, named, g) (inl (refl, some-injective x n first), h.0 ∙ first)
        | inr g ↦
            let rest = link_to-Before fuel (some x) xs n h.1 (omega arith) (ground arith) in
            rw (link_to, h.0, named, g) (inr rest.0, rest.1)
      ]

  pub link_to-none :
      (fuel : ℕ) (k : Option ℕ) (xs : List ℕ)
      → Chain (read_link dir t) k xs
      → length xs < fuel
      → lookup (names t) (bytes_at len m name) xs ≡ none
      → read_link dir t (link_to fuel m dir name len k t) ≡ none
  unfolding link_to
  link_to-none zero k xs h f e = absurd (omega arith)
  link_to-none (suc fuel) k [] h f e = rw (link_to, h) h
  link_to-none (suc fuel) k (x ∷ xs) h f e =
      let named = is_named-text m name len (t.nodes x) in
      elim (Bool-cases (same_text (names t x) text)) [
        | inl g ↦ ground arith
        | inr g ↦
            rw (link_to, h.0, named, g)
              (link_to-none fuel (some x) xs h.1 (omega arith) (ground arith))
      ]

  -- What `tmpfs_unlink` does at the link of the child.
  abbrev pub unlink_at : ℕ → Option ℕ → Tree × ℤ
  unlink_at fuel link = elim (read_link dir t link) [
    | none ↦ (t, negsuc 0)
    | some n ↦
        if is_occupied (t.nodes n)
        then (t, negsuc 0)
        else (free_node fuel n (write_link dir link (t.nodes n).next t), pos 0)
  ]

  pub unlink_from-link :
      (rounds fuel : ℕ) (k : Option ℕ) (xs : List ℕ)
      → Chain (read_link dir t) k xs
      → length xs < rounds
      → unlink_from rounds fuel m dir name len k t
        ≡ unlink_at fuel (link_to rounds m dir name len k t)
  unfolding unlink_from link_to
  unlink_from-link zero fuel k xs h f = absurd (omega arith)
  unlink_from-link (suc rounds) fuel k [] h f =
      rw (link_to, h) (rw (unlink_from, unlink_at, h) refl)
  unlink_from-link (suc rounds) fuel k (x ∷ xs) h f =
      elim (Bool-cases (is_named m name len (t.nodes x))) [
        | inl e ↦ rw (link_to, h.0, e) (rw (unlink_from, unlink_at, h.0, e) refl)
        | inr e ↦
            rw (link_to, h.0, e)
              (rw (unlink_from, h.0, e)
                (unlink_from-link rounds fuel (some x) xs h.1 (omega arith)))
      ]
