-- ===== src/Tmpfs/Tree/Mounts.antt =====
-- `alloc_node`, `mount_common` and the calls that it serves, and `tmpfs_unmount` of module/tmpfs/src/tmpfs.c.
use rhkernel.Prelude.{
  ℕ, ◌+◌, ◌≡◌, refl, subst, Bool, true, false, ◌==◌, if◌then◌else◌, Option, none, some, List, [],
  ◌∷◌, get_or, arith, Option-cases, inl, inr,
}
use rhkernel.Prelude.Int.{ℤ, pos, negsuc}
use rhkernel.Libc.Memory.{Memory}
use rhkernel.Tmpfs.Account.{Mount}
use rhkernel.Prelude.Links.{member-other}
use rhkernel.Prelude.{◌%◌, ◌^◌}
use rhkernel.Tmpfs.Name.{name_len_valid, checked_name, name_loop, is_reserved}
use rhkernel.Tmpfs.Options.{parse_opts}
use rhkernel.Tmpfs.Tree.{
  vfs_node_directory, Entry, Tree, set_node, bytes_at, alloc_node_len, free_node,
}
use rhkernel.Tmpfs.Tree.Fields.{set_node-field, set_node-other}
use rhkernel.Tmpfs.Tree.Shape.{IsTree, IsTree-same}
use rhkernel.Tmpfs.Tree.Grow.{added, added-IsTree, unused-IsLoose}

abbrev pub tmpfs_root_ino : ℕ
tmpfs_root_ino = 1

unfoldable pub alloc_node : Option ℕ → Bool → Memory → ℕ → ℕ → ℕ → Tree → Tree × Option ℕ
alloc_node node_at name_room m name type mode t = elim (name_len_valid m (some name)) [
  | none ↦ (t, none)
  | some len ↦ alloc_node_len node_at name_room m name len type mode t
]

-- "tmpfs" at the address 0.
abbrev pub root_name : Memory
root_name a = get_or (116 ∷ 109 ∷ 112 ∷ 102 ∷ 115 ∷ []) a 0

-- The mount record before the options are read.
abbrev pub new_mount : Bool → Mount
new_mount enforce = record {
  limit = 0;
  used = 0;
  next_ino = tmpfs_root_ino + 1;
  enforce_limit = enforce;
  default_mode = 0;
}

-- What a mount leaves: the tree, the result, and the root that the mount point gets.
pub record Mounted : Type 0 where
  pub tree : Tree
  pub answer : ℤ
  pub root : Option ℕ

unfoldable pub set_root : Tree → Tree × Option ℕ → Mounted
set_root t (u, none) = record { tree = t; answer = negsuc 0; root = none }
set_root t (u, some n) = record {
  tree = set_node n (record (u.nodes n) { ino = tmpfs_root_ino }) u;
  answer = pos 0;
  root = some n;
}

-- `mnt_at` is what kmalloc answers for the mount record.
unfoldable pub mount_common :
    ℕ → Option ℕ → Option ℕ → Bool → Memory → Option ℕ → Bool → Tree → Mounted
mount_common fuel none node_at name_room m flags enforce t = record {
  tree = t;
  answer = negsuc 0;
  root = none;
}
mount_common fuel (some mnt_at) node_at name_room m flags enforce t =
    elim (parse_opts fuel m flags (new_mount enforce)) [
      | none ↦ record { tree = t; answer = negsuc 1; root = none }
      | some mnt ↦ set_root t (
          alloc_node node_at name_room root_name 0 vfs_node_directory mnt.default_mode
            (record t { mount = mnt; mount_at = mnt_at }))
    ]

unfoldable pub tmpfs_mount : ℕ → Option ℕ → Option ℕ → Bool → Memory → Option ℕ → Tree → Mounted
tmpfs_mount fuel mnt_at node_at name_room m flags t =
    mount_common fuel mnt_at node_at name_room m flags true t

unfoldable pub ramfs_mount : ℕ → Option ℕ → Option ℕ → Bool → Memory → Option ℕ → Tree → Mounted
ramfs_mount fuel mnt_at node_at name_room m flags t =
    mount_common fuel mnt_at node_at name_room m flags false t

-- `root` is what `vfs_get_fs_data` answers. The last part is the mount record that is freed.
unfoldable pub tmpfs_unmount : ℕ → Option ℕ → Tree → Tree × ℤ × Option ℕ
tmpfs_unmount fuel none t = (t, negsuc 0, none)
tmpfs_unmount fuel (some root) t = elim (t.nodes root).mnt [
  | none ↦ (t, negsuc 0, none)
  | some mnt ↦ (free_node fuel root t, pos 0, some mnt)
]

module _ (t : Tree) (l : ℕ → List ℕ) where
  -- The node `n` is the root of a mount with the options `mnt`, and has no children.
  pub record Rooted (n : ℕ) (mnt : Mount) (r : Mounted) : Type 0 where
    pub answer : r.answer ≡ pos 0
    pub root : r.root ≡ some n
    pub shape : IsTree r.tree l
    pub kind : (r.tree.nodes n).type ≡ vfs_node_directory
    pub number : (r.tree.nodes n).ino ≡ tmpfs_root_ino
    pub used : r.tree.live n ≡ true
    pub limit : r.tree.mount.limit ≡ mnt.limit

  abbrev pub Outcome : Option ℕ → Option Mount → Option ℕ → Mounted → Type 0
  Outcome none p at r = r ≡ record { tree = t; answer = negsuc 0; root = none }
  Outcome (some a) none at r = r ≡ record { tree = t; answer = negsuc 1; root = none }
  Outcome (some a) (some mnt) none r = r ≡ record { tree = t; answer = negsuc 0; root = none }
  Outcome (some a) (some mnt) (some n) r = Rooted n mnt r

  module _ (s : IsTree t l) (mnt : Mount) (mnt_at : ℕ) where
    with_mount : IsTree (record t { mount = mnt; mount_at = mnt_at }) l
    with_mount =
        IsTree-same t (record t { mount = mnt; mount_at = mnt_at }) l (λ d. refl) (λ d x m. refl)
          s.used s.holders s.unused s

    rooted :
        (n : ℕ)
        → t.live n ≡ false
        → Rooted n mnt (
            set_root t (
              alloc_node
                (some n)
                true
                root_name
                0
                vfs_node_directory
                mnt.default_mode
                (record t { mount = mnt; mount_at = mnt_at })))
    unfolding set_node set_root alloc_node alloc_node_len name_len_valid checked_name name_loop
        is_reserved bytes_at
    rooted n free =
        let here : n == n ≡ true = ground arith in
        let e : Entry = record {
          mnt = some mnt_at;
          name = bytes_at 5 root_name 0;
          ino = mnt.next_ino;
          type = vfs_node_directory;
          mode = mnt.default_mode;
          size = 0;
          parent = none;
          children = none;
          next = none;
          pages = λ i. none;
          page_capacity = 0;
        } in
        let counted : Mount = record mnt { next_ino = (mnt.next_ino + 1) % 2 ^ 32 } in
        let u = added (record t { mount = mnt; mount_at = mnt_at }) l with_mount n free e counted in
        let shape =
          added-IsTree (record t { mount = mnt; mount_at = mnt_at }) l with_mount n free e counted
            refl in
        record {
          answer = refl;
          root = refl;
          shape =
              IsTree-same u (set_node n (record (u.nodes n) { ino = tmpfs_root_ino }) u) l
                (λ d.
                  set_node-field (λ (y : Entry). y.children) n
                    (record (u.nodes n) { ino = tmpfs_root_ino }) u d refl)
                (λ d x m.
                  set_node-other n (record (u.nodes n) { ino = tmpfs_root_ino }) u x
                    (member-other n x (l d) (unused-IsLoose t l s n free d) m))
                shape.used
                (λ d h. shape.holders d (
                  subst (λ z. z == vfs_node_directory ≡ false)
                    (set_node-field (λ (y : Entry). y.type) n
                      (record (u.nodes n) { ino = tmpfs_root_ino }) u d refl)
                    h))
                shape.unused shape;
          kind = rw here refl;
          number = rw here refl;
          used = rw here refl;
          limit = refl;
        }

  not_rooted :
      (s : IsTree t l) (mnt : Mount) (mnt_at : ℕ) (name_room : Bool) (node_at : Option ℕ)
      → ((n : ℕ) → node_at ≡ some n → t.live n ≡ false)
      → Outcome (some mnt_at) (some mnt) (if name_room then node_at else none) (
          set_root t (
            alloc_node node_at name_room root_name 0 vfs_node_directory mnt.default_mode
              (record t { mount = mnt; mount_at = mnt_at })))
  unfolding set_root alloc_node alloc_node_len name_len_valid checked_name name_loop is_reserved
  not_rooted s mnt a true none fresh = refl
  not_rooted s mnt a false none fresh = refl
  not_rooted s mnt a false (some n) fresh = refl
  not_rooted s mnt a true (some n) fresh = rooted s mnt a n (fresh n refl)

  -- On a tree, for an address of kmalloc that is not in use, a mount without memory answers -1 and one whose options are
  -- refused -2, and both leave the nodes alone; else the new node is the root, a directory without children with the inode
  -- number 1, and the trees of the other mounts keep their shape.
  pub mount_common-Outcome :
      (s : IsTree t l) (fuel : ℕ) (mnt_at node_at : Option ℕ) (name_room : Bool) (m : Memory)
      (flags : Option ℕ) (enforce : Bool)
      → ((n : ℕ) → node_at ≡ some n → t.live n ≡ false)
      → Outcome mnt_at
          (parse_opts fuel m flags (new_mount enforce))
          (if name_room then node_at else none)
          (mount_common fuel mnt_at node_at name_room m flags enforce t)
  unfolding mount_common
  mount_common-Outcome s fuel none node_at name_room m flags enforce fresh = refl
  mount_common-Outcome s fuel (some a) node_at name_room m flags enforce fresh =
      elim (Option-cases (parse_opts fuel m flags (new_mount enforce))) [
        | inl e ↦ rw (mount_common, e) refl
        | inr (mnt, e) ↦ rw (mount_common, e) (not_rooted s mnt a name_room node_at fresh)
      ]
