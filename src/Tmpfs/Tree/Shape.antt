-- ===== src/Tmpfs/Tree/Shape.antt =====
-- The shape of a tree of nodes: each directory's list of children.
use rhkernel.Prelude.{
  ℕ, ◌≡◌, refl, sym, ap, subst, ◌∙◌, Bool, true, false, ◌==◌, if◌then◌else◌, Option, none, some,
  List, [], ◌∷◌, arith, Bool-cases, inl, inr,
}
use mathlib.Core.Option.{some-injective}
use rhkernel.Prelude.Links.{write, member, has_key, IsDistinct, Chain, Chain-same}
use rhkernel.Prelude.Links.Remove.{
  remove, is_eq, member-remove, IsDistinct-remove, Before, Chain-remove, Before-node,
}
use rhkernel.Tmpfs.Tree.{vfs_node_directory, Entry, Tree}
use rhkernel.Tmpfs.Tree.Calls.{read_link, write_link}
use rhkernel.Tmpfs.Tree.Names.{UniqueNames-same, UniqueNames-remove}
use rhkernel.Tmpfs.Tree.Fields.{
  write_link-field, write_link-live, write_link-read_link, write_link-elsewhere,
}
use rhkernel.Tmpfs.Tree.Lookup.{names, UniqueNames}

-- `l d` lists the children of the node `d`: a link chain of allocated nodes of different names, each in one directory only.
-- A node may lie below itself; `IsAcyclic` of Tmpfs/Tree/Below.antt excludes it.
pub record IsTree (t : Tree) (l : ℕ → List ℕ) : Type 0 where
  pub chain : (d : ℕ) → Chain (read_link d t) none (l d)
  pub distinct : (d : ℕ) → IsDistinct (l d)
  pub parents : (d x : ℕ) → member x (l d) ≡ true → (t.nodes x).parent ≡ some d
  pub used : (d x : ℕ) → member x (l d) ≡ true → t.live x ≡ true
  pub unique : (d : ℕ) → UniqueNames (names t) (l d)
  pub holders : (d : ℕ) → (t.nodes d).type == vfs_node_directory ≡ false → l d ≡ []
  pub unused : (d : ℕ) → t.live d ≡ false → l d ≡ []

-- The node is in no directory.
abbrev pub IsLoose : ℕ → (ℕ → List ℕ) → Type 0
IsLoose n l = (d : ℕ) → member n (l d) ≡ false

-- Trees whose listed nodes are the same have the same shape.
pub IsTree-same :
    (t u : Tree) (l : ℕ → List ℕ)
    → ((d : ℕ) → (u.nodes d).children ≡ (t.nodes d).children)
    → ((d x : ℕ) → member x (l d) ≡ true → u.nodes x ≡ t.nodes x)
    → ((d x : ℕ) → member x (l d) ≡ true → u.live x ≡ true)
    → ((d : ℕ) → (u.nodes d).type == vfs_node_directory ≡ false → l d ≡ [])
    → ((d : ℕ) → u.live d ≡ false → l d ≡ [])
    → IsTree t l
    → IsTree u l
unfolding read_link
IsTree-same t u l c e a h v s = record {
  chain = λ d.
      Chain-same (read_link d t) (read_link d u) none none (l d) (c d)
        (λ x m. ap (λ (y : Entry). y.next) (e d x m)) (s.chain d);
  distinct = s.distinct;
  parents = λ d x m. ap (λ (y : Entry). y.parent) (e d x m) ∙ s.parents d x m;
  used = a;
  unique = λ d.
      UniqueNames-same (names t) (names u) (l d) (λ x m. ap (λ (y : Entry). y.name) (e d x m))
        (s.unique d);
  holders = h;
  unused = v;
}

abbrev pub without_child : ℕ → ℕ → (ℕ → List ℕ) → ℕ → List ℕ
without_child dir n l d = if d == dir then remove n (l d) else l d

abbrev pub with_child : ℕ → ℕ → (ℕ → List ℕ) → ℕ → List ℕ
with_child dir n l d = if d == dir then n ∷ l d else l d

-- No node is in two directories.
pub IsTree-apart :
    (t : Tree) (l : ℕ → List ℕ) (d dir y : ℕ)
    → IsTree t l
    → member y (l dir) ≡ true
    → d == dir ≡ false
    → member y (l d) ≡ false
IsTree-apart t l d dir y s m o = elim (Bool-cases (member y (l d))) [
  | inl e ↦
      let same : d ≡ dir = some-injective d dir (sym (s.parents d y e) ∙ s.parents dir y m) in
      ground arith
  | inr e ↦ e
]

key_apart :
    (t : Tree) (l : ℕ → List ℕ) (d dir n : ℕ) (q : Option ℕ)
    → IsTree t l
    → Before none (l dir) q n
    → d == dir ≡ false
    → has_key q (l d) ≡ false
key_apart t l d dir n none s b o = refl
key_apart t l d dir n (some y) s b o = IsTree-apart t l d dir y s (Before-node none y (l dir) n b) o

-- The links of a directory that a child has been taken out of.
unhooked :
    (t : Tree) (dir n : ℕ) (q : Option ℕ) (xs : List ℕ)
    → Chain (read_link dir t) none xs
    → IsDistinct xs
    → Before none xs q n
    → Chain (read_link dir (write_link dir q (t.nodes n).next t)) none (remove n xs)
unfolding read_link
unhooked t dir n q xs h i b =
    let v = (t.nodes n).next in
    Chain-same (write q v (read_link dir t)) (read_link dir (write_link dir q v t)) none none
      (remove n xs) (write_link-read_link dir q v t none)
      (λ x m. write_link-read_link dir q v t (some x))
      (Chain-remove (read_link dir t) none q xs n h i refl b)

-- Without a child, no list has it.
pub without_child-IsLoose :
    (t : Tree) (l : ℕ → List ℕ) (dir n : ℕ)
    → IsTree t l
    → member n (l dir) ≡ true
    → IsLoose n (without_child dir n l)
without_child-IsLoose t l dir n s in_dir d = elim (Bool-cases (d == dir)) [
  | inl e ↦ rw e (member-remove n n (l d) (s.distinct d) ∙ ground arith)
  | inr e ↦ rw e (IsTree-apart t l d dir n s in_dir e)
]

-- A child taken out of its directory leaves a tree, in which it is loose.
pub write_link-IsTree :
    (t : Tree) (l : ℕ → List ℕ) (dir n : ℕ) (q : Option ℕ)
    → IsTree t l
    → Before none (l dir) q n
    → IsTree (write_link dir q (t.nodes n).next t) (without_child dir n l)
unfolding read_link
write_link-IsTree t l dir n q s b = record {
  chain = λ d. elim (Bool-cases (d == dir)) [
    | inl e ↦ rw e (
        subst (λ z. Chain (read_link z (write_link dir q (t.nodes n).next t)) none (remove n (l z)))
          (sym (is_eq d dir e)) (unhooked t dir n q (l dir) (s.chain dir) (s.distinct dir) b))
    | inr e ↦ rw e (
        write_link-elsewhere dir d q (t.nodes n).next t (l d) e (key_apart t l d dir n q s b e)
          (s.chain d))
  ];
  distinct = λ d. elim (Bool-cases (d == dir)) [
    | inl e ↦ rw e (IsDistinct-remove n (l d) (s.distinct d))
    | inr e ↦ rw e (s.distinct d)
  ];
  parents = λ d x m.
      write_link-field (λ (y : Entry). y.parent) dir q (t.nodes n).next t x (λ y v. refl)
        (λ y v. refl)
      ∙ s.parents d x (was_child d x m);
  used = λ d x m. live_kept x (s.used d x (was_child d x m));
  unique = λ d.
      UniqueNames-same (names t) (names (write_link dir q (t.nodes n).next t))
        (without_child dir n l d)
        (λ x m.
          write_link-field (λ (y : Entry). y.name) dir q (t.nodes n).next t x (λ y v. refl)
            (λ y v. refl))
        (still_unique d);
  holders = λ d h. still_empty d (
      s.holders d (
        subst (λ z. z == vfs_node_directory ≡ false)
          (write_link-field (λ (y : Entry). y.type) dir q (t.nodes n).next t d (λ y v. refl)
            (λ y v. refl))
          h));
  unused = λ d h. still_empty d (s.unused d (sym (write_link-live dir q (t.nodes n).next t d) ∙ h));
}
  where
    was_child : (d x : ℕ) → member x (without_child dir n l d) ≡ true → member x (l d) ≡ true
    was_child d x m = elim (Bool-cases (d == dir)) [
      | inl e ↦
          let there : member x (remove n (l d)) ≡ true =
            subst (λ (b : Bool). member x (if b then remove n (l d) else l d) ≡ true) e m in
          let split = member-remove n x (l d) (s.distinct d) in ground arith
      | inr e ↦ subst (λ (b : Bool). member x (if b then remove n (l d) else l d) ≡ true) e m
    ]

    live_kept : (x : ℕ) → t.live x ≡ true → (write_link dir q (t.nodes n).next t).live x ≡ true
    live_kept x h = write_link-live dir q (t.nodes n).next t x ∙ h

    still_empty : (d : ℕ) → l d ≡ [] → without_child dir n l d ≡ []
    still_empty d h = elim (Bool-cases (d == dir)) [
      | inl e ↦ rw (e, h) refl
      | inr e ↦ rw (e, h) refl
    ]

    still_unique : (d : ℕ) → UniqueNames (names t) (without_child dir n l d)
    still_unique d = elim (Bool-cases (d == dir)) [
      | inl e ↦ rw e (UniqueNames-remove (names t) n (l d) (s.unique d))
      | inr e ↦ rw e (s.unique d)
    ]
