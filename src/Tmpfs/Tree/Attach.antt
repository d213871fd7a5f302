-- ===== src/Tmpfs/Tree/Attach.antt =====
-- A loose node put in front of the children of a directory.
use rhkernel.Prelude.{
  ℕ, ◌≡◌, refl, sym, ap, subst, ◌∙◌, Bool, true, false, ◌||◌, ◌==◌, if◌then◌else◌, Option, none,
  some, List, [], ◌∷◌, arith, Bool-cases, inl, inr,
}
use mathlib.Core.Bool.{true≢false}
use rhkernel.Prelude.Links.{member, Chain, Chain-same, member-other}
use rhkernel.Prelude.Links.Remove.{is_eq}
use rhkernel.Tmpfs.Tree.{vfs_node_directory, Entry, Tree, set_node}
use rhkernel.Tmpfs.Tree.Calls.{read_link, attach}
use rhkernel.Tmpfs.Tree.Lookup.{names, lookup, UniqueNames}
use rhkernel.Tmpfs.Tree.Names.{UniqueNames-same}
use rhkernel.Tmpfs.Tree.Fields.{set_node-field, set_node-here, set_node-other}
use rhkernel.Tmpfs.Tree.Shape.{IsTree, IsLoose, with_child}

module _ (dir n : ℕ) (t : Tree) where
  abbrev linked : Tree
  unfolding set_node
  linked = set_node n (record (t.nodes n) { parent = some dir; next = (t.nodes dir).children }) t

  pub attach-field :
      {B : Type 0} (f : Entry → B) (x : ℕ)
      → ((y : Entry) (v w : Option ℕ) → f (record y { parent = v; next = w }) ≡ f y)
      → ((y : Entry) (v : Option ℕ) → f (record y { children = v }) ≡ f y)
      → f ((attach dir n t).nodes x) ≡ f (t.nodes x)
  unfolding attach linked
  attach-field f x h k =
      set_node-field f dir _ linked x (k (linked.nodes dir) (some n))
      ∙ set_node-field f n _ t x (h (t.nodes n) (some dir) (t.nodes dir).children)

  attach-next : (x : ℕ) → x == n ≡ false → ((attach dir n t).nodes x).next ≡ (t.nodes x).next
  unfolding attach linked
  attach-next x o =
      set_node-field (λ (y : Entry). y.next) dir _ linked x refl
      ∙ ap (λ (y : Entry). y.next) (set_node-other n _ t x o)

  attach-first : ((attach dir n t).nodes n).next ≡ (t.nodes dir).children
  unfolding attach linked
  attach-first =
      set_node-field (λ (y : Entry). y.next) dir _ linked n refl
      ∙ ap (λ (y : Entry). y.next) (set_node-here n _ t n (ground arith))

  attach-parent : (x : ℕ) → x == n ≡ false → ((attach dir n t).nodes x).parent ≡ (t.nodes x).parent
  unfolding attach linked
  attach-parent x o =
      set_node-field (λ (y : Entry). y.parent) dir _ linked x refl
      ∙ ap (λ (y : Entry). y.parent) (set_node-other n _ t x o)

  attach-new_parent : ((attach dir n t).nodes n).parent ≡ some dir
  unfolding attach linked
  attach-new_parent =
      set_node-field (λ (y : Entry). y.parent) dir _ linked n refl
      ∙ ap (λ (y : Entry). y.parent) (set_node-here n _ t n (ground arith))

  attach-children :
      (d : ℕ) → d == dir ≡ false → ((attach dir n t).nodes d).children ≡ (t.nodes d).children
  unfolding attach linked
  attach-children d o =
      ap (λ (y : Entry). y.children) (set_node-other dir _ linked d o)
      ∙ set_node-field (λ (y : Entry). y.children) n _ t d refl

  attach-head : ((attach dir n t).nodes dir).children ≡ some n
  unfolding attach linked
  attach-head = ap (λ (y : Entry). y.children) (set_node-here dir _ linked dir (ground arith))

  pub attach-live : (x : ℕ) → (attach dir n t).live x ≡ t.live x
  unfolding attach set_node
  attach-live x = refl

  -- A loose node whose name is new to a directory becomes its first child.
  pub attach-IsTree :
      (l : ℕ → List ℕ)
      → IsTree t l
      → IsLoose n l
      → t.live n ≡ true
      → t.live dir ≡ true
      → (t.nodes dir).type == vfs_node_directory ≡ true
      → lookup (names t) (names t n) (l dir) ≡ none
      → IsTree (attach dir n t) (with_child dir n l)
  unfolding read_link
  attach-IsTree l s loose live_n live_dir directory fresh = record {
    chain = λ d. elim (Bool-cases (d == dir)) [
      | inl e ↦ rw e (
          subst (λ z. Chain (read_link z (attach dir n t)) none (n ∷ l z)) (sym (is_eq d dir e))
            grown)
      | inr e ↦ rw e (
          Chain-same (read_link d t) (read_link d (attach dir n t)) none none (l d)
            (attach-children d e) (λ x m. attach-next x (other d x m)) (s.chain d))
    ];
    distinct = λ d. elim (Bool-cases (d == dir)) [
      | inl e ↦ rw e (loose d, s.distinct d)
      | inr e ↦ rw e (s.distinct d)
    ];
    parents = λ d x m. elim (Bool-cases (x == n)) [
      | inl e ↦
          ap (λ z. ((attach dir n t).nodes z).parent) (is_eq x n e)
          ∙ attach-new_parent
          ∙ ap some (sym (only_here d x e m))
      | inr e ↦ attach-parent x e ∙ s.parents d x (old d x e m)
    ];
    used = λ d x m. attach-live x ∙ (elim (Bool-cases (x == n)) [
      | inl e ↦ ap t.live (is_eq x n e) ∙ live_n
      | inr e ↦ s.used d x (old d x e m)
    ]);
    unique = λ d.
        UniqueNames-same (names t) (names (attach dir n t)) (with_child dir n l d) (λ x m. kept x)
          (still_unique d);
    holders = λ d h.
        stays_empty d
          (λ e.
            let same = is_eq d dir e in
            let kind = attach-field (λ (y : Entry). y.type) d (λ y v w. refl) (λ y v. refl) in
            let is_dir : (t.nodes d).type == vfs_node_directory ≡ true =
              subst (λ z. (t.nodes z).type == vfs_node_directory ≡ true) (sym same) directory in
            ground (arith, h, kind, is_dir))
          (s.holders d (
            subst (λ z. z == vfs_node_directory ≡ false)
              (attach-field (λ (y : Entry). y.type) d (λ y v w. refl) (λ y v. refl)) h));
    unused = λ d h.
        stays_empty d
          (λ e.
            absurd
              (true≢false (sym (ap t.live (is_eq d dir e) ∙ live_dir) ∙ (sym (attach-live d) ∙ h))))
          (s.unused d (sym (attach-live d) ∙ h));
  }
    where
      other : (d x : ℕ) → member x (l d) ≡ true → x == n ≡ false
      other d x m = member-other n x (l d) (loose d) m

      grown_by :
          (d x : ℕ) (b : Bool)
          → d == dir ≡ b
          → member x (with_child dir n l d) ≡ true
          → member x (if b then n ∷ l d else l d) ≡ true
      grown_by d x b g m = subst (λ (c : Bool). member x (if c then n ∷ l d else l d) ≡ true) g m

      old :
          (d x : ℕ)
          → x == n ≡ false
          → member x (with_child dir n l d) ≡ true
          → member x (l d) ≡ true
      old d x e m = elim (Bool-cases (d == dir)) [
        | inl g ↦
            let there : (x == n || member x (l d)) ≡ true = grown_by d x true g m in ground arith
        | inr g ↦ grown_by d x false g m
      ]

      only_here : (d x : ℕ) → x == n ≡ true → member x (with_child dir n l d) ≡ true → d ≡ dir
      only_here d x e m = elim (Bool-cases (d == dir)) [
        | inl g ↦ is_eq d dir g
        | inr g ↦
            let there : member x (l d) ≡ true = grown_by d x false g m in
            let absent : member x (l d) ≡ false =
              subst (λ z. member z (l d) ≡ false) (sym (is_eq x n e)) (loose d) in
            ground arith
      ]

      stays_empty : (d : ℕ) → (d == dir ≡ true → ⊥) → l d ≡ [] → with_child dir n l d ≡ []
      stays_empty d nowhere h = elim (Bool-cases (d == dir)) [
        | inl e ↦ absurd (nowhere e)
        | inr e ↦ rw e h
      ]

      kept : (x : ℕ) → names (attach dir n t) x ≡ names t x
      kept x = attach-field (λ (y : Entry). y.name) x (λ y v w. refl) (λ y v. refl)

      grown : Chain (read_link dir (attach dir n t)) none (n ∷ l dir)
      grown = (
        attach-head,
        Chain-same (read_link dir t) (read_link dir (attach dir n t)) none (some n) (l dir)
            attach-first (λ x m. attach-next x (other dir x m)) (s.chain dir),
      )

      still_unique : (d : ℕ) → UniqueNames (names t) (with_child dir n l d)
      still_unique d = elim (Bool-cases (d == dir)) [
        | inl e ↦ rw e (
          subst (λ z. lookup (names t) (names t n) (l z) ≡ none) (sym (is_eq d dir e)) fresh,
          s.unique d,
        )
        | inr e ↦ rw e (s.unique d)
      ]
