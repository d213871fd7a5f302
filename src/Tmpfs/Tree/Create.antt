-- ===== src/Tmpfs/Tree/Create.antt =====
-- `tmpfs_create` on a tree.
use rhkernel.Prelude.{
  ℕ, ◌<◌, ◌≡◌, refl, Bool, true, false, not, ◌&&◌, ◌||◌, ◌==◌, if◌then◌else◌, Option, none, some,
  List, ◌∷◌, length, arith, Bool-cases, Option-cases, inl, inr, ◌%◌, ◌+◌, ◌^◌,
}
use rhkernel.Prelude.Int.{pos, negsuc}
use rhkernel.Libc.Memory.{Memory}
use rhkernel.Tmpfs.Account.{Mount}
use rhkernel.Tmpfs.Name.{name_len_valid}
use rhkernel.Tmpfs.Tree.{
  vfs_node_file, vfs_node_directory, Entry, Tree, bytes_at, alloc_node_len, make_vnode,
}
use rhkernel.Tmpfs.Tree.Calls.{Created, refused, report, after_alloc, tmpfs_create}
use rhkernel.Tmpfs.Tree.Lookup.{same_text, names, lookup, find_child_len-lookup}
use rhkernel.Tmpfs.Tree.Shape.{IsTree, with_child}
use rhkernel.Tmpfs.Tree.Grow.{
  name_len_valid-length, added, grown, grown-IsTree, grown-found, back-IsTree, back-found,
}

-- The name of a child that a call may make: an accepted name that no child of the directory has.
abbrev pub new_name : Memory → ℕ → ℕ → Tree → (ℕ → List ℕ) → Option (List ℕ)
new_name m dir name t l =
    if (t.nodes dir).type == vfs_node_directory
    then elim (name_len_valid m (some name)) [
      | none ↦ none
      | some len ↦ elim (lookup (names t) (bytes_at len m name) (l dir)) [
        | some x ↦ none
        | none ↦ some (bytes_at len m name)
      ]
    ]
    else none

abbrev pub vnode_made : Option Bool → Bool
vnode_made none = true
vnode_made (some room) = room

-- What kmalloc and the VFS allow: the address of the node.
abbrev pub granted : Option ℕ → Bool → ℕ → Option Bool → Option ℕ
granted node_at name_room type out =
    if (type == vfs_node_file || type == vfs_node_directory) && (name_room && vnode_made out)
    then node_at
    else none

granted-none : (room : Bool) (type : ℕ) (out : Option Bool) → granted none room type out ≡ none
granted-none room type out = ground arith

module _ (dir type : ℕ) (t : Tree) (l : ℕ → List ℕ) where
  -- Nothing has changed for a search of `ks`.
  pub record Refused (ks : List ℕ) (r : Created) : Type 0 where
    pub answer : r.answer ≡ negsuc 0
    pub vnode : r.vnode ≡ none
    pub shape : IsTree r.tree l
    pub found : lookup (names r.tree) ks (l dir) ≡ lookup (names t) ks (l dir)

  -- The node `n` is the first child, with the name `text`.
  pub record Made (n : ℕ) (text ks : List ℕ) (r : Created) : Type 0 where
    pub answer : r.answer ≡ pos 0
    pub shape : IsTree r.tree (with_child dir n l)
    pub found :
        lookup (names r.tree) ks (n ∷ l dir)
        ≡ (if same_text text ks then some n else lookup (names t) ks (l dir))

  abbrev pub Outcome : Option (List ℕ) → Option ℕ → List ℕ → Created → Type 0
  Outcome none at ks r = Refused ks r
  Outcome (some text) none ks r = Refused ks r
  Outcome (some text) (some n) ks r = Made n text ks r

  unchanged : (ks : List ℕ) → IsTree t l → Refused ks (refused t)
  unchanged ks s = record { answer = refl; vnode = refl; shape = s; found = refl }

  -- The entry that `alloc_node_len` makes.
  abbrev new_entry : ℕ → Memory → ℕ → Entry
  new_entry len m name = record {
    mnt = some t.mount_at;
    name = bytes_at len m name;
    ino = t.mount.next_ino;
    type = type;
    mode = t.mount.default_mode;
    size = 0;
    parent = none;
    children = none;
    next = none;
    pages = λ i. none;
    page_capacity = 0;
  }

  abbrev counted : Mount
  counted = record t.mount { next_ino = (t.mount.next_ino + 1) % 2 ^ 32 }

  alloc_node_len-added :
      (s : IsTree t l) (n : ℕ) (free : t.live n ≡ false) (m : Memory) (name len : ℕ)
      → name_len_valid m (some name) ≡ some len
      → alloc_node_len (some n) true m name len type t.mount.default_mode t
        ≡ (added t l s n free (new_entry len m name) counted, some n)
  unfolding alloc_node_len
  alloc_node_len-added s n free m name len h = rw (name_len_valid-length m name len h) refl

  module _ (s : IsTree t l) (live : t.live dir ≡ true)
      (directory : (t.nodes dir).type == vfs_node_directory ≡ true) (m : Memory) (name len : ℕ)
      (valid : name_len_valid m (some name) ≡ some len)
      (new : lookup (names t) (bytes_at len m name) (l dir) ≡ none)
      (good : (type == vfs_node_file || type == vfs_node_directory) ≡ true) (ks : List ℕ)
      (fuel : ℕ) where
    -- The end of the call, once the node is there.
    reported :
        (n : ℕ) (free : t.live n ≡ false) (out : Option Bool)
        → Outcome (some (bytes_at len m name)) (if vnode_made out then some n else none) ks (
            report fuel dir n out
              (grown t l s n free dir live directory (new_entry len m name) counted refl new))
    unfolding report make_vnode
    reported n free none = record {
      answer = refl;
      shape = grown-IsTree t l s n free dir live directory (new_entry len m name) counted refl new;
      found =
          grown-found t l s n free dir live directory (new_entry len m name) counted refl new ks;
    }
    reported n free (some true) = record {
      answer = refl;
      shape = grown-IsTree t l s n free dir live directory (new_entry len m name) counted refl new;
      found =
          grown-found t l s n free dir live directory (new_entry len m name) counted refl new ks;
    }
    reported n free (some false) = record {
      answer = refl;
      vnode = refl;
      shape =
          back-IsTree t l s n free dir live directory (new_entry len m name) counted refl new fuel;
      found =
          back-found t l s n free dir live directory (new_entry len m name) counted refl new fuel
            ks;
    }

    made_or_not :
        (node_at : Option ℕ) (room : Bool) (out : Option Bool)
        → ((n : ℕ) → node_at ≡ some n → t.live n ≡ false)
        → Outcome (some (bytes_at len m name)) (granted node_at room type out) ks (
            after_alloc fuel dir out
              (alloc_node_len node_at room m name len type t.mount.default_mode t))
    unfolding after_alloc alloc_node_len
    made_or_not none room out fresh = rw (granted-none room type out) (unchanged ks s)
    made_or_not (some n) false out fresh =
        rw (name_len_valid-length m name len valid, good) (unchanged ks s)
    made_or_not (some n) true out fresh =
        let free = fresh n refl in
        rw (alloc_node_len-added s n free m name len valid, good) (reported n free out)

  -- On a tree whose directory `dir` is in use, with fuel for its children and an address of kmalloc that is not in use,
  -- tmpfs_create makes a node of the name and puts it in front of the children exactly if the name is an accepted one that no
  -- child has, the type is that of a file or a directory, and memory and vnode are granted; then the name finds the node, and
  -- every other name finds what it did. Otherwise it answers -1 and leaves the tree and what the names find as they were.
  pub tmpfs_create-Outcome :
      (s : IsTree t l)
      → t.live dir ≡ true
      → (node_at : Option ℕ) (room : Bool) (m : Memory) (name : ℕ) (out : Option Bool) (ks : List ℕ)
        (fuel : ℕ)
      → ((n : ℕ) → node_at ≡ some n → t.live n ≡ false)
      → length (l dir) < fuel
      → Outcome
          (new_name m dir name t l)
          (granted node_at room type out)
          ks
          (tmpfs_create fuel node_at room m (some dir) (some name) type out t)
  unfolding tmpfs_create
  tmpfs_create-Outcome s live node_at room m name out ks fuel fresh f =
      elim (Bool-cases ((t.nodes dir).type == vfs_node_directory)) [
        | inr e ↦ rw e (unchanged ks s)
        | inl e ↦ elim (Option-cases (name_len_valid m (some name))) [
          | inl g ↦ rw (e, g) (unchanged ks s)
          | inr (len, g) ↦
              let search = find_child_len-lookup m dir name len t fuel (l dir) (s.chain dir) f in
              elim (Option-cases (lookup (names t) (bytes_at len m name) (l dir))) [
                | inr (x, h) ↦ rw (e, g, search, h) (unchanged ks s)
                | inl h ↦ elim (Bool-cases (type == vfs_node_file || type == vfs_node_directory)) [
                  | inl good ↦
                      let kind : (not (type == vfs_node_file) && not (type == vfs_node_directory))
                          ≡ false =
                        ground arith in
                      rw (e, g, search, h, kind)
                        (made_or_not s live e m name len g h good ks fuel node_at room out fresh)
                  | inr bad ↦
                      let kind : (not (type == vfs_node_file) && not (type == vfs_node_directory))
                          ≡ true =
                        ground arith in
                      rw (e, g, search, h, kind, bad) (unchanged ks s)
                ]
              ]
        ]
      ]
