-- ===== src/Tmpfs/Tree/Unlink.antt =====
-- `tmpfs_unlink` on a tree.
use rhkernel.Prelude.{
  ℕ, zero, suc, ◌<◌, ◌≡◌, refl, sym, ap, subst, ◌∙◌, Bool, true, false, ◌==◌, if◌then◌else◌, Option,
  none, some, List, [], ◌∷◌, length, arith, Bool-cases, Option-cases, inl, inr,
}
use rhkernel.Prelude.Int.{ℤ, pos, negsuc}
use rhkernel.Prelude.Links.{member, Chain, member-other}
use rhkernel.Prelude.Links.Remove.{remove, is_eq, Before}
use rhkernel.Libc.Memory.{Memory}
use rhkernel.Tmpfs.Name.{name_len_valid}
use rhkernel.Tmpfs.Tree.{
  vfs_node_directory, Entry, Tree, bytes_at, release, free_children, free_node,
}
use rhkernel.Tmpfs.Tree.Calls.{read_link, write_link, is_occupied, link_to, tmpfs_unlink}
use rhkernel.Tmpfs.Tree.Lookup.{
  same_text, names, lookup, link_to-Before, link_to-none, unlink_from-link, unlink_at,
}
use rhkernel.Tmpfs.Tree.Names.{lookup-member, lookup-without}
use rhkernel.Tmpfs.Tree.Names.{lookup-same}
use rhkernel.Tmpfs.Tree.Fields.{write_link-field}
use rhkernel.Tmpfs.Tree.Shape.{
  IsTree, IsLoose, IsTree-same, without_child, write_link-IsTree, without_child-IsLoose,
}

-- A loose node without children is freed.
pub release-IsTree :
    (t : Tree) (l : ℕ → List ℕ) (n : ℕ)
    → IsTree t l
    → IsLoose n l
    → l n ≡ []
    → IsTree (release n t) l
unfolding release
release-IsTree t l n s loose empty =
    IsTree-same t (release n t) l (λ d. refl) (λ d x m. refl)
      (λ d x m.
        let other = member-other n x (l d) (loose d) m in
        let live = s.used d x m in rw (other, live) refl)
      s.holders
      (λ d h. elim (Bool-cases (d == n)) [
        | inl e ↦ ap l (is_eq d n e) ∙ empty
        | inr e ↦ s.unused d (ground (arith, e, h))
      ])
      s

-- A node without children is freed alone.
pub free_node-release :
    (fuel n : ℕ) (t : Tree) → (t.nodes n).children ≡ none → free_node fuel n t ≡ release n t
unfolding free_node free_children
free_node-release zero n t h = refl
free_node-release (suc fuel) n t h = rw (free_children, h) refl

abbrev pub has_children : List ℕ → Bool
has_children [] = false
has_children (x ∷ xs) = true

no_children : (xs : List ℕ) → has_children xs ≡ false → xs ≡ []
no_children [] e = refl
no_children (x ∷ xs) e = ground arith

is_occupied-has_children :
    (t : Tree) (l : ℕ → List ℕ) (n : ℕ) (xs : List ℕ)
    → Chain (read_link n t) none xs
    → ((t.nodes n).type == vfs_node_directory ≡ false → xs ≡ [])
    → is_occupied (t.nodes n) ≡ has_children xs
unfolding is_occupied read_link
is_occupied-has_children t l n [] h k = rw h refl
is_occupied-has_children t l n (x ∷ xs) h k =
    elim (Bool-cases ((t.nodes n).type == vfs_node_directory)) [
      | inl e ↦ rw h.0 e
      | inr e ↦ absurd (cons-nil (k e))
    ]
  where
    cons-nil : x ∷ xs ≡ [] → ⊥
    cons-nil e = ground arith

module _ (m : Memory) (dir name : ℕ) (t : Tree) (l : ℕ → List ℕ) (s : IsTree t l) where
  -- The child that a call with the name is about.
  abbrev pub child_named : Option ℕ
  child_named =
      if (t.nodes dir).type == vfs_node_directory
      then elim (name_len_valid m (some name)) [
        | none ↦ none
        | some len ↦ lookup (names t) (bytes_at len m name) (l dir)
      ]
      else none

  -- What is left when the child `n`, which has no children, is gone: `ks` is any name.
  pub record Unlinked (n : ℕ) (ks : List ℕ) (r : Tree × ℤ) : Type 0 where
    pub answer : r.1 ≡ pos 0
    pub shape : IsTree r.0 (without_child dir n l)
    pub freed : r.0.live n ≡ false
    pub found :
        lookup (names r.0) ks (remove n (l dir))
        ≡ (if same_text (names t n) ks then none else lookup (names t) ks (l dir))

  removed :
      (fuel n : ℕ) (ks : List ℕ) (q : Option ℕ)
      → Before none (l dir) q n
      → member n (l dir) ≡ true
      → l n ≡ []
      → Unlinked n ks (free_node fuel n (write_link dir q (t.nodes n).next t), pos 0)
  unfolding read_link release
  removed fuel n ks q b in_dir empty =
      let v = (t.nodes n).next in
      let cut = write_link dir q v t in
      let shape = write_link-IsTree t l dir n q s b in
      let none_left : without_child dir n l n ≡ [] = still_empty in
      let alone =
        subst (λ (xs : List ℕ). Chain (read_link n cut) none xs) none_left (shape.chain n) in
      subst (λ z. Unlinked n ks (z, pos 0)) (sym (free_node-release fuel n cut alone))
        (record {
          answer = refl;
          shape =
              release-IsTree cut (without_child dir n l) n shape
                (without_child-IsLoose t l dir n s in_dir) none_left;
          freed = ground arith;
          found =
              lookup-same (names t) (names cut) ks (remove n (l dir)) (λ x i.
                write_link-field (λ (y : Entry). y.name) dir q v t x (λ y w. refl) (λ y w. refl))
              ∙ lookup-without (names t) ks n (l dir) in_dir (s.distinct dir) (s.unique dir);
        })
    where
      still_empty : without_child dir n l n ≡ []
      still_empty = elim (Bool-cases (n == dir)) [
        | inl e ↦ rw (e, empty) refl
        | inr e ↦ rw (e, empty) refl
      ]

  -- An empty child is taken out, and everything else is refused.
  abbrev pub Removal : Bool → ℕ → List ℕ → Tree × ℤ → Type 0
  Removal true n ks r = r ≡ (t, negsuc 0)
  Removal false n ks r = Unlinked n ks r

  abbrev pub Outcome : Option ℕ → List ℕ → Tree × ℤ → Type 0
  Outcome none ks r = r ≡ (t, negsuc 0)
  Outcome (some n) ks r = Removal (has_children (l n)) n ks r

  -- On a tree, with fuel for the directory's children, tmpfs_unlink refuses and changes nothing if there is no child of the
  -- name in a directory or the child has children; else it takes the child out of the tree and frees it, its name is found no
  -- more, and every other name is found as before.
  pub tmpfs_unlink-Outcome :
      (fuel : ℕ) (ks : List ℕ)
      → length (l dir) < fuel
      → Outcome child_named ks (tmpfs_unlink fuel m (some dir) (some name) t)
  unfolding tmpfs_unlink
  tmpfs_unlink-Outcome fuel ks f = elim (Bool-cases ((t.nodes dir).type == vfs_node_directory)) [
    | inr e ↦ rw e refl
    | inl e ↦ elim (Option-cases (name_len_valid m (some name))) [
      | inl g ↦ rw (e, g) refl
      | inr (len, g) ↦
          let q = link_to fuel m dir name len none t in
          let reach = unlink_from-link m dir name len t fuel fuel none (l dir) (s.chain dir) f in
          elim (Option-cases (lookup (names t) (bytes_at len m name) (l dir))) [
            | inl h ↦
                let stop = link_to-none m dir name len t fuel none (l dir) (s.chain dir) f h in
                rw (e, g, reach, unlink_at, stop, h) refl
            | inr (n, h) ↦
                let at = link_to-Before m dir name len t fuel none (l dir) n (s.chain dir) f h in
                let occupied = is_occupied-has_children t l n (l n) (s.chain n) (s.holders n) in
                elim (Bool-cases (has_children (l n))) [
                  | inl c ↦ rw (e, g, reach, unlink_at, at.1, h, occupied, c) refl
                  | inr c ↦
                      rw (e, g, reach, unlink_at, at.1, h, occupied, c)
                        (removed fuel n ks q at.0
                          (lookup-member (names t) (bytes_at len m name) n (l dir) h)
                          (no_children (l n) c))
                ]
          ]
    ]
  ]
