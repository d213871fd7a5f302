-- ===== src/Tmpfs/Tree/Rename.antt =====
-- What `tmpfs_rename` answers, on every branch.
use rhkernel.Prelude.{
  ℕ, ◌<◌, ◌≡◌, refl, sym, ap, subst, ◌∙◌, Bool, true, false, ◌==◌, if◌then◌else◌, Option, none,
  some, List, ◌∷◌, length, arith, Bool-cases, Option-cases, inl, inr,
}
use rhkernel.Prelude.Int.{ℤ, pos, negsuc}
use rhkernel.Prelude.Links.{member, member-other}
use rhkernel.Prelude.Links.Remove.{Before}
use rhkernel.Libc.Memory.{Memory}
use rhkernel.Tmpfs.Name.{name_len_valid}
use rhkernel.Tmpfs.Tree.{vfs_node_directory, Entry, Tree, set_node, bytes_at}
use rhkernel.Tmpfs.Tree.Calls.{
  write_link, attach, link_to, move_to, rename_at, rename_named, tmpfs_rename,
}
use rhkernel.Tmpfs.Tree.Lookup.{
  same_text, names, lookup, find_child_len-lookup, link_to-Before, link_to-none,
}
use rhkernel.Tmpfs.Tree.Names.{lookup-member}
use rhkernel.Tmpfs.Tree.Names.{lookup-same, lookup-remove}
use rhkernel.Tmpfs.Tree.Fields.{
  set_node-field, set_node-here, set_node-other, write_link-field, write_link-live,
}
use rhkernel.Tmpfs.Tree.Shape.{
  IsTree, IsLoose, IsTree-same, with_child, without_child, without_child-IsLoose, write_link-IsTree,
}
use rhkernel.Tmpfs.Tree.Below.{IsAtOrBelow, IsAcyclic, moved-IsAcyclic}
use rhkernel.Tmpfs.Tree.Attach.{attach-IsTree, attach-field}
use rhkernel.Tmpfs.Tree.Create.{new_name}

module _ (old_dir new_dir : ℕ) (t : Tree) (l : ℕ → List ℕ) (s : IsTree t l) (n : ℕ) (q : Option ℕ)
    (before : Before none (l old_dir) q n) (in_dir : member n (l old_dir) ≡ true)
    (text : List ℕ) where
  abbrev left : ℕ → List ℕ
  left = without_child old_dir n l

  abbrev cut : Tree
  cut = write_link old_dir q (t.nodes n).next t

  abbrev named : Tree
  named = set_node n (record (cut.nodes n) { name = text }) cut

  loose : IsLoose n left
  loose = without_child-IsLoose t l old_dir n s in_dir

  named-IsTree : IsTree named left
  unfolding set_node
  named-IsTree =
      let shape = write_link-IsTree t l old_dir n q s before in
      let e = record (cut.nodes n) { name = text } in
      IsTree-same cut named left (λ d. set_node-field (λ (y : Entry). y.children) n e cut d refl)
        (λ d x m. set_node-other n e cut x (member-other n x (left d) (loose d) m)) shape.used
        (λ d g. shape.holders d (
          subst (λ z. z == vfs_node_directory ≡ false)
            (set_node-field (λ (y : Entry). y.type) n e cut d refl) g))
        shape.unused shape

  kept_name : (d x : ℕ) → member x (left d) ≡ true → names named x ≡ names t x
  kept_name d x m =
      ap (λ (y : Entry). y.name) (set_node-other n _ cut x (member-other n x (left d) (loose d) m))
      ∙ write_link-field (λ (y : Entry). y.name) old_dir q (t.nodes n).next t x (λ y v. refl)
          (λ y v. refl)

  own_name : names named n ≡ text
  own_name = ap (λ (y : Entry). y.name) (set_node-here n _ cut n (ground arith))

  still_new : lookup (names t) text (l new_dir) ≡ none → lookup (names t) text (left new_dir) ≡ none
  still_new h = elim (Bool-cases (new_dir == old_dir)) [
    | inl e ↦ rw e (lookup-remove (names t) text n (l new_dir) h)
    | inr e ↦ rw e h
  ]

  pub moved-IsTree :
      t.live new_dir ≡ true
      → (t.nodes new_dir).type == vfs_node_directory ≡ true
      → lookup (names t) text (l new_dir) ≡ none
      → IsTree (attach new_dir n named) (with_child new_dir n left)
  unfolding set_node write_link
  moved-IsTree live directory new =
      attach-IsTree new_dir n named left named-IsTree loose
        (write_link-live old_dir q (t.nodes n).next t n ∙ s.used old_dir n in_dir)
        (write_link-live old_dir q (t.nodes n).next t new_dir ∙ live)
        (subst (λ z. z == vfs_node_directory ≡ true) (sym kind) directory)
        (lookup-same (names t) (names named) (names named n) (left new_dir) (kept_name new_dir)
          ∙ subst (λ ks. lookup (names t) ks (left new_dir) ≡ none) (sym own_name) (still_new new))
    where
      kind : (named.nodes new_dir).type ≡ (t.nodes new_dir).type
      kind =
          set_node-field (λ (y : Entry). y.type) n (record (cut.nodes n) { name = text }) cut
            new_dir refl
          ∙ write_link-field (λ (y : Entry). y.type) old_dir q (t.nodes n).next t new_dir
              (λ y v. refl) (λ y v. refl)

  attached_name : (x : ℕ) → names (attach new_dir n named) x ≡ names named x
  attached_name x =
      attach-field new_dir n named (λ (y : Entry). y.name) x (λ y v w. refl) (λ y v. refl)

  pub moved-own : names (attach new_dir n named) n ≡ text
  moved-own = attached_name n ∙ own_name

  pub moved-found :
      (ks : List ℕ)
      → lookup (names (attach new_dir n named)) ks (n ∷ left new_dir)
        ≡ (if same_text text ks then some n else lookup (names t) ks (left new_dir))
  moved-found ks =
      let rest =
        lookup-same (names t) (names (attach new_dir n named)) ks (left new_dir)
          (λ x m. attached_name x ∙ kept_name new_dir x m) in
      rw (moved-own, rest) refl

module _ (room : Bool) (m : Memory) (old_dir old_name new_dir new_name_at : ℕ) (t : Tree)
    (l : ℕ → List ℕ) (s : IsTree t l) (ks : List ℕ) where
  -- The child that a call moves, and its new name.
  abbrev pub old_child : Option ℕ
  old_child =
      if (t.nodes old_dir).type == vfs_node_directory
      then elim (name_len_valid m (some old_name)) [
        | none ↦ none
        | some len ↦ if room then lookup (names t) (bytes_at len m old_name) (l old_dir) else none
      ]
      else none

  -- The child `n` is the first of the new directory, with the name `text`; if the new directory is neither the child nor
  -- below it, directories without a cycle stay so.
  pub record Moved (n : ℕ) (text : List ℕ) (r : Tree × ℤ) : Type 0 where
    pub answer : r.1 ≡ pos 0
    pub shape : IsTree r.0 (with_child new_dir n (without_child old_dir n l))
    pub found : lookup (names r.0) ks (n ∷ without_child old_dir n l new_dir) ≡ (
        if same_text text ks
        then some n
        else lookup (names t) ks (without_child old_dir n l new_dir))
    pub acyclic :
        ¬ IsAtOrBelow l new_dir n
        → IsAcyclic l
        → IsAcyclic (with_child new_dir n (without_child old_dir n l))

  abbrev pub Outcome : Option (List ℕ) → Option ℕ → Tree × ℤ → Type 0
  Outcome none child r = r ≡ (t, negsuc 0)
  Outcome (some text) none r = r ≡ (t, negsuc 0)
  Outcome (some text) (some n) r = Moved n text r

  no_child : (x : Option (List ℕ)) → Outcome x none (t, negsuc 0)
  no_child none = refl
  no_child (some text) = refl

  -- The call below its tests, at the link to the child.
  at_link :
      (fuel old new : ℕ)
      → t.live new_dir ≡ true
      → (t.nodes new_dir).type == vfs_node_directory ≡ true
      → lookup (names t) (bytes_at new m new_name_at) (l new_dir) ≡ none
      → length (l old_dir) < fuel
      → (room : Bool)
      → Outcome
          (some (bytes_at new m new_name_at))
          (if room then lookup (names t) (bytes_at old m old_name) (l old_dir) else none)
          (rename_at room old_dir
            (link_to fuel m old_dir old_name old none t)
            new_dir
            (bytes_at new m new_name_at)
            t)
  unfolding rename_at move_to
  at_link fuel old new live e h f room =
      elim (Option-cases (lookup (names t) (bytes_at old m old_name) (l old_dir))) [
        | inl c ↦
            let stop =
              link_to-none m old_dir old_name old t fuel none (l old_dir) (s.chain old_dir) f c in
            elim (Bool-cases room) [
              | inl r ↦ rw (rename_at, stop, c, r) refl
              | inr r ↦ rw (rename_at, stop, c, r) refl
            ]
        | inr (n, c) ↦
            let q = link_to fuel m old_dir old_name old none t in
            let text = bytes_at new m new_name_at in
            let at =
              link_to-Before m old_dir old_name old t fuel none (l old_dir) n (s.chain old_dir) f
                c in
            let inside = lookup-member (names t) (bytes_at old m old_name) n (l old_dir) c in
            elim (Bool-cases room) [
              | inr r ↦ rw (rename_at, at.1, c, r) refl
              | inl r ↦
                  rw (rename_at, at.1, c, r)
                    (record {
                      answer = refl;
                      shape = moved-IsTree old_dir new_dir t l s n q at.0 inside text live e h;
                      found = moved-found old_dir new_dir t l s n q at.0 inside text ks;
                      acyclic = moved-IsAcyclic l s.distinct old_dir new_dir n;
                    })
            ]
      ]

  -- On nodes of the shape `IsTree` whose new directory is in use, with fuel for the children of both directories, tmpfs_rename refuses and changes
  -- nothing if one of the nodes is no directory, there is no child of the old name, the new name is not an accepted one or is
  -- taken in the new directory, or there is no memory for it; else it moves the child from the old directory to the front of the
  -- new one under the new name, which then finds it, while every other name finds what is left, the nodes have the shape `IsTree` again, and no node is
  -- below itself if none was and the new directory was neither the moved child nor below it.
  pub tmpfs_rename-Outcome :
      (fuel : ℕ)
      → t.live new_dir ≡ true
      → length (l old_dir) < fuel
      → length (l new_dir) < fuel
      → Outcome
          (new_name m new_dir new_name_at t l)
          old_child
          (tmpfs_rename fuel room m old_dir old_name new_dir new_name_at t)
  unfolding tmpfs_rename rename_named
  tmpfs_rename-Outcome fuel live f g =
      elim (Bool-cases ((t.nodes old_dir).type == vfs_node_directory)) [
        | inr o ↦ rw o (no_child _)
        | inl o ↦ elim (Bool-cases ((t.nodes new_dir).type == vfs_node_directory)) [
          | inr e ↦ rw (o, e) refl
          | inl e ↦ elim (Option-cases (name_len_valid m (some old_name))) [
            | inl a ↦ rw (o, e, a) (no_child _)
            | inr (old, a) ↦ elim (Option-cases (name_len_valid m (some new_name_at))) [
              | inl b ↦ rw (o, e, a, b) refl
              | inr (new, b) ↦
                  let search =
                    find_child_len-lookup m new_dir new_name_at new t fuel (l new_dir)
                      (s.chain new_dir) g in
                  elim (Option-cases (lookup (names t) (bytes_at new m new_name_at) (l new_dir))) [
                    | inr (x, h) ↦ rw (o, e, a, b, rename_named, search, h) refl
                    | inl h ↦
                        rw (o, e, a, b, rename_named, search, h)
                          (at_link fuel old new live e h f room)
                  ]
            ]
          ]
        ]
      ]
