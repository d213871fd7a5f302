-- ===== src/Tmpfs/Tree.antt =====
-- The directories of tmpfs, `find_child_len` to `tmpfs_readdir`, `tmpfs_create`, `tmpfs_unlink` and `tmpfs_rename` of
-- module/tmpfs/src/tmpfs.c. A node is an address; what kmalloc and the VFS answer are arguments.
pub mod Calls
pub mod Lookup
pub mod Names
pub mod Fields
pub mod Shape
pub mod Below
pub mod Attach
pub mod Unlink
pub mod Grow
pub mod Create
pub mod Rename
pub mod Mounts
mod Tests
use rhkernel.Prelude.{
  ℕ, zero, suc, ◌+◌, ◌-◌, ◌*◌, ◌%◌, ◌^◌, Bool, true, false, not, ◌&&◌, ◌||◌, leb, ltb, ◌==◌,
  if◌then◌else◌, Option, none, some, List, [], ◌∷◌, length, get_or,
}
use rhkernel.Prelude.Int.{ℤ, pos, negsuc}
use rhkernel.Libc.Memory.{Memory, within}
use rhkernel.Tmpfs.Account.{Mount, unaccount}
use rhkernel.Tmpfs.Name.{tmpfs_name_max, name_len_valid}
use rhkernel.Tmpfs.File.{page_size}

abbrev pub vfs_node_file : ℕ
vfs_node_file = 1

abbrev pub vfs_node_directory : ℕ
vfs_node_directory = 2

-- `struct tmpfs_node`. `name` is the row of its `name_len` bytes.
pub record Entry : Type 0 where
  pub mnt : Option ℕ
  pub name : List ℕ
  pub ino : ℕ
  pub type : ℕ
  pub mode : ℕ
  pub size : ℕ
  pub parent : Option ℕ
  pub children : Option ℕ
  pub next : Option ℕ
  pub pages : ℕ → Option Memory
  pub page_capacity : ℕ

-- The nodes of every mount, which of them are allocated, and the mount record, at its address, of the nodes that a call is
-- about.
pub record Tree : Type 0 where
  pub nodes : ℕ → Entry
  pub live : ℕ → Bool
  pub mount : Mount
  pub mount_at : ℕ

unfoldable pub set_node : ℕ → Entry → Tree → Tree
set_node n e t = record t { nodes = λ i. if i == n then e else t.nodes i }

-- `memcmp(n->name, name, len) == 0` for a name of `len` bytes.
unfoldable pub same_bytes : Memory → ℕ → List ℕ → Bool
same_bytes m name [] = true
same_bytes m name (x ∷ xs) = x == m name && same_bytes m (name + 1) xs

unfoldable pub is_named : Memory → ℕ → ℕ → Entry → Bool
is_named m name len e = length e.name == len && same_bytes m name e.name

-- The list of children from a link on, for at most `fuel` rounds.
unfoldable pub find_from : ℕ → Memory → ℕ → ℕ → Option ℕ → Tree → Option ℕ
find_from zero m name len link t = none
find_from (suc fuel) m name len link t = elim link [
  | none ↦ none
  | some n ↦ elim (is_named m name len (t.nodes n)) [
    | true ↦ some n
    | false ↦ find_from fuel m name len (t.nodes n).next t
  ]
]

unfoldable pub find_child_len : ℕ → Memory → ℕ → ℕ → ℕ → Tree → Option ℕ
find_child_len fuel m dir name len t = find_from fuel m name len (t.nodes dir).children t

unfoldable pub find_child : ℕ → Memory → ℕ → ℕ → Tree → Option ℕ
find_child fuel m dir name t = elim (name_len_valid m (some name)) [
  | none ↦ none
  | some len ↦ find_child_len fuel m dir name len t
]

-- `len` bytes at `p`.
unfoldable pub bytes_at : ℕ → Memory → ℕ → List ℕ
bytes_at zero m p = []
bytes_at (suc len) m p = m p ∷ bytes_at len m (p + 1)

-- What kmalloc answers for the node, and whether it has room for the name; `none` is a null pointer.
unfoldable pub alloc_node_len : Option ℕ → Bool → Memory → ℕ → ℕ → ℕ → ℕ → Tree → Tree × Option ℕ
alloc_node_len none name_room m name len type mode t = (t, none)
alloc_node_len (some n) name_room m name len type mode t =
    let e : Entry = record {
      mnt = some t.mount_at;
      name = bytes_at len m name;
      ino = t.mount.next_ino;
      type = type;
      mode = mode;
      size = 0;
      parent = none;
      children = none;
      next = none;
      pages = λ i. none;
      page_capacity = 0;
    } in
    let counted = record t.mount { next_ino = (t.mount.next_ino + 1) % 2 ^ 32 } in
    if len == 0 || ltb tmpfs_name_max len
    then (t, none)
    else if not name_room
    then (t, none)
    else (record (set_node n e t) { live = λ i. i == n || t.live i; mount = counted }, some n)

-- `if (n->pages && n->pages[i]) unaccount(n->mnt, TMPFS_PAGE_SIZE)` for the indices below `count`.
unfoldable pub release_pages : ℕ → (ℕ → Option Memory) → Mount → Mount
release_pages zero pages mnt = mnt
release_pages (suc count) pages mnt =
    let before = release_pages count pages mnt in
    elim (pages count) [ none ↦ before | some p ↦ unaccount before page_size ]

-- The part of `free_node` behind its first loop.
unfoldable pub release : ℕ → Tree → Tree
release n t = record t {
  live = λ i. not (i == n) && t.live i;
  mount = release_pages (t.nodes n).page_capacity (t.nodes n).pages t.mount;
}

-- `while (n->children)`, with the calls of `free_node` for the children; `fuel` bounds the rounds and the depth.
unfoldable pub free_children : ℕ → ℕ → Tree → Tree
free_children zero n t = t
free_children (suc fuel) n t = elim (t.nodes n).children [
  | none ↦ t
  | some c ↦ free_children fuel n (
      release c
        (free_children fuel c (set_node n (record (t.nodes n) { children = (t.nodes c).next }) t)))
]

unfoldable pub free_node : ℕ → ℕ → Tree → Tree
free_node fuel n t = release n (free_children fuel n t)

-- What a vnode is made with.
pub record Vnode : Type 0 where
  pub name : List ℕ
  pub type : ℕ
  pub inode : ℕ
  pub size : ℕ

unfoldable pub vnode_type : ℕ → ℕ
vnode_type type = if type == vfs_node_directory then vfs_node_directory else vfs_node_file

-- `room` says whether `vfs_create_fs_node` gives a node.
unfoldable pub make_vnode : Bool → ℕ → Tree → Option Vnode
make_vnode room n t =
    let e = t.nodes n in
    if room
    then some (record {
      name = e.name;
      type = vnode_type e.type;
      inode = e.ino;
      size = if e.type == vfs_node_file then e.size else 0;
    })
    else none

-- `dir` is what `vfs_get_fs_data` answers.
unfoldable pub tmpfs_finddir : ℕ → Bool → Memory → Option ℕ → Option ℕ → Tree → Option Vnode
tmpfs_finddir fuel room m none name t = none
tmpfs_finddir fuel room m (some dir) none t = none
tmpfs_finddir fuel room m (some dir) (some name) t =
    if not ((t.nodes dir).type == vfs_node_directory)
    then none
    else elim (find_child fuel m dir name t) [ none ↦ none | some n ↦ make_vnode room n t ]

-- `while (n && index--) n = n->next`
unfoldable pub nth_from : ℕ → Option ℕ → Tree → Option ℕ
nth_from zero link t = link
nth_from (suc index) none t = none
nth_from (suc index) (some n) t = nth_from index (t.nodes n).next t

-- `struct vfs_dirent`, with the memory of its name, where it has room for one.
pub record Dirent : Type 0 where
  pub inode : ℕ
  pub type : ℕ
  pub name_len : ℕ
  pub name : Option ℕ
  pub name_capacity : ℕ

-- `memcpy(dst, n->name, len + 1)`, with the zero byte behind the name.
unfoldable pub store_name : List ℕ → ℕ → Memory → Memory
store_name name dst m a = if within dst (length name + 1) a then get_or name (a - dst) 0 else m a

unfoldable pub copy_name : List ℕ → Option ℕ → ℕ → Memory → Memory
copy_name name none cap m = m
copy_name name (some dst) cap m = if ltb (length name) cap then store_name name dst m else m

-- `out` holds the buffer for the name and its size. `none` is the result -1.
unfoldable pub tmpfs_readdir :
    Option ℕ → ℕ → Option Dirent → Tree → Memory → Option (Dirent × Memory)
tmpfs_readdir none index out t m = none
tmpfs_readdir (some dir) index none t m = none
tmpfs_readdir (some dir) index (some out) t m =
    if not ((t.nodes dir).type == vfs_node_directory)
    then none
    else elim (nth_from index (t.nodes dir).children t) [
      | none ↦ none
      | some n ↦
          let e = t.nodes n in
          some (
            record {
              inode = e.ino;
              type = vnode_type e.type;
              name_len = length e.name;
              name = out.name;
              name_capacity = out.name_capacity;
            },
            copy_name e.name out.name out.name_capacity m,
          )
    ]
