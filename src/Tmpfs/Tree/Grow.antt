-- ===== src/Tmpfs/Tree/Grow.antt =====
-- A new node in a tree, put into a directory and taken back.
use rhkernel.Prelude.{
  ℕ, zero, suc, ◌+◌, ◌<◌, ◌≡◌, refl, sym, ap, subst, ◌∙◌, fun_ext, true, false, ◌||◌, ltb, ◌==◌,
  if◌then◌else◌, none, some, List, [], ◌∷◌, arith, Bool-cases, Option-cases, inl, inr,
}
use rhkernel.Prelude.Links.{member, member-other, Chain}
use rhkernel.Prelude.Links.Remove.{is_eq, Before}
use rhkernel.Libc.Memory.{Memory}
use rhkernel.Tmpfs.Account.{Mount}
use rhkernel.Tmpfs.Name.{tmpfs_name_max, name_loop, is_reserved, checked_name, name_len_valid}
use rhkernel.Tmpfs.Tree.{vfs_node_directory, Entry, Tree, set_node, release}
use rhkernel.Tmpfs.Tree.Calls.{read_link, write_link, attach, take_back}
use rhkernel.Tmpfs.Tree.Lookup.{same_text, names, lookup}
use rhkernel.Tmpfs.Tree.Names.{lookup-same}
use rhkernel.Tmpfs.Tree.Fields.{set_node-field, set_node-here, set_node-other, write_link-field}
use rhkernel.Tmpfs.Tree.Shape.{
  IsTree, IsLoose, IsTree-same, with_child, without_child, write_link-IsTree,
}
use rhkernel.Tmpfs.Tree.Attach.{attach-IsTree, attach-field}
use rhkernel.Tmpfs.Tree.Unlink.{release-IsTree, free_node-release}

-- An accepted name has a length that `alloc_node_len` takes.
name_loop-short :
    (rounds : ℕ) (m : Memory) (name len r : ℕ)
    → len + rounds ≡ 256
    → name_loop rounds m name len ≡ some r
    → r < 256
unfolding name_loop
name_loop-short zero m name len r h e = ground arith
name_loop-short (suc rounds) m name len r h e =
    ground (arith, name_loop-short rounds m name (len + 1) r (omega arith))

pub name_len_valid-length :
    (m : Memory) (name len : ℕ)
    → name_len_valid m (some name) ≡ some len
    → (len == 0 || ltb tmpfs_name_max len) ≡ false
unfolding name_len_valid checked_name is_reserved
name_len_valid-length m name len e = elim (Option-cases (name_loop (tmpfs_name_max + 1) m name 0)) [
  | inl h ↦ ground arith
  | inr (r, h) ↦ let short = name_loop-short 256 m name 0 r (omega arith) h in ground arith
]

module _ (t : Tree) (l : ℕ → List ℕ) (s : IsTree t l) (n : ℕ) (free : t.live n ≡ false) where
  pub unused-IsLoose : IsLoose n l
  unused-IsLoose d = elim (Bool-cases (member n (l d))) [
    | inl e ↦ let live = s.used d n e in ground arith
    | inr e ↦ e
  ]

  empty : l n ≡ []
  empty = s.unused n free

  -- The tree with a new entry at an address that is not in use.
  abbrev pub added : Entry → Mount → Tree
  added e mnt = record (set_node n e t) { live = λ i. i == n || t.live i; mount = mnt }

  pub added-IsTree : (e : Entry) (mnt : Mount) → e.children ≡ none → IsTree (added e mnt) l
  unfolding read_link set_node
  added-IsTree e mnt h =
      let childless = subst (λ (xs : List ℕ). Chain (read_link n t) none xs) empty (s.chain n) in
      IsTree-same t (added e mnt) l
        (λ d. set_node-field (λ (y : Entry). y.children) n e t d (h ∙ sym childless))
        (λ d x m. set_node-other n e t x (member-other n x (l d) (unused-IsLoose d) m))
        (λ d x m. let live = s.used d x m in ground arith)
        (λ d g. elim (Bool-cases (d == n)) [
          | inl e ↦ ap l (is_eq d n e) ∙ empty
          | inr o ↦ s.holders d (
              subst (λ (y : Entry). y.type == vfs_node_directory ≡ false) (set_node-other n e t d o)
                g)
        ])
        (λ d g. elim (Bool-cases (d == n)) [
          | inl e ↦ ap l (is_eq d n e) ∙ empty
          | inr o ↦ s.unused d (ground (arith, g, o))
        ])
        s

  same_names :
      (e : Entry) (mnt : Mount) (d x : ℕ)
      → member x (l d) ≡ true
      → names (added e mnt) x ≡ names t x
  unfolding set_node
  same_names e mnt d x m =
      ap (λ (y : Entry). y.name)
        (set_node-other n e t x (member-other n x (l d) (unused-IsLoose d) m))

  module _ (dir : ℕ) (live : t.live dir ≡ true)
      (directory : (t.nodes dir).type == vfs_node_directory ≡ true) (e : Entry) (mnt : Mount)
      (bare : e.children ≡ none) (new : lookup (names t) e.name (l dir) ≡ none) where
    apart : dir == n ≡ false
    apart = elim (Bool-cases (dir == n)) [
      | inl g ↦ let both = ap t.live (is_eq dir n g) in ground arith
      | inr g ↦ g
    ]

    abbrev pub grown : Tree
    grown = attach dir n (added e mnt)

    pub grown-IsTree : IsTree grown (with_child dir n l)
    unfolding set_node
    grown-IsTree =
        attach-IsTree dir n (added e mnt) l (added-IsTree e mnt bare) unused-IsLoose (ground arith)
          (ground (arith, live))
          (subst (λ (y : Entry). y.type == vfs_node_directory ≡ true)
            (sym (set_node-other n e t dir apart)) directory)
          (lookup-same (names t) (names (added e mnt)) (names (added e mnt) n) (l dir)
              (λ x m. same_names e mnt dir x m)
            ∙ subst (λ (y : Entry). lookup (names t) y.name (l dir) ≡ none)
                (sym (set_node-here n e t n (ground arith))) new)

    grown-name : (x : ℕ) → names grown x ≡ names (added e mnt) x
    grown-name x =
        attach-field dir n (added e mnt) (λ (y : Entry). y.name) x (λ y v w. refl) (λ y v. refl)

    own_name : names grown n ≡ e.name
    unfolding set_node
    own_name = grown-name n ∙ ap (λ (y : Entry). y.name) (set_node-here n e t n (ground arith))

    pub grown-found :
        (ks : List ℕ)
        → lookup (names grown) ks (n ∷ l dir)
          ≡ (if same_text e.name ks then some n else lookup (names t) ks (l dir))
    grown-found ks =
        let rest =
          lookup-same (names t) (names grown) ks (l dir)
            (λ x m. grown-name x ∙ same_names e mnt dir x m) in
        rw (own_name, rest) refl

    -- The way back, when no vnode can be made.
    back-shape : without_child dir n (with_child dir n l) ≡ l
    back-shape = fun_ext λ d. elim (Bool-cases (d == dir)) [
      | inl g ↦ let here : n == n ≡ true = ground arith in rw (g, here) refl
      | inr g ↦ rw g refl
    ]

    abbrev cut : Tree
    cut = write_link dir none (grown.nodes n).next grown

    cut-IsTree : IsTree cut l
    cut-IsTree =
        let first : Before none (with_child dir n l dir) none n =
          let same : dir == dir ≡ true = ground arith in rw same (inl (refl, refl)) in
        subst (λ z. IsTree cut z) back-shape
          (write_link-IsTree grown (with_child dir n l) dir n none grown-IsTree first)

    back-release : (fuel : ℕ) → take_back fuel dir n grown ≡ release n cut
    unfolding take_back read_link write_link
    back-release fuel =
        let childless =
          subst (λ (xs : List ℕ). Chain (read_link n cut) none xs) empty (cut-IsTree.chain n) in
        free_node-release fuel n cut childless

    pub back-IsTree : (fuel : ℕ) → IsTree (take_back fuel dir n grown) l
    back-IsTree fuel =
        subst (λ z. IsTree z l) (sym (back-release fuel))
          (release-IsTree cut l n cut-IsTree unused-IsLoose empty)

    pub back-found :
        (fuel : ℕ) (ks : List ℕ)
        → lookup (names (take_back fuel dir n grown)) ks (l dir) ≡ lookup (names t) ks (l dir)
    unfolding release
    back-found fuel ks =
        ap (λ (z : Tree). lookup (names z) ks (l dir)) (back-release fuel)
        ∙ lookup-same (names t) (names (release n cut)) ks (l dir) (λ x m.
          write_link-field (λ (y : Entry). y.name) dir none (grown.nodes n).next grown x
            (λ y v. refl) (λ y v. refl)
          ∙ grown-name x
          ∙ same_names e mnt dir x m)
