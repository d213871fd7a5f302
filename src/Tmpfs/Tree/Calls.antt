-- ===== src/Tmpfs/Tree/Calls.antt =====
-- `tmpfs_create`, `tmpfs_unlink` and `tmpfs_rename` of module/tmpfs/src/tmpfs.c.
use rhkernel.Prelude.{
  ℕ, zero, suc, Bool, true, false, not, ◌&&◌, ◌||◌, ◌==◌, if◌then◌else◌, Option, none, some, List,
}
use rhkernel.Prelude.Int.{ℤ, pos, negsuc}
use rhkernel.Prelude.Links.{Links}
use rhkernel.Libc.Memory.{Memory}
use rhkernel.Tmpfs.Name.{name_len_valid}
use rhkernel.Tmpfs.Tree.{
  vfs_node_file, vfs_node_directory, Entry, Tree, set_node, is_named, find_child_len, bytes_at,
  alloc_node_len, free_node, Vnode, make_vnode,
}

-- The tree, the result and what `*out` gets.
pub record Created : Type 0 where
  pub tree : Tree
  pub answer : ℤ
  pub vnode : Option Vnode

abbrev pub refused : Tree → Created
refused t = record { tree = t; answer = negsuc 0; vnode = none }

-- `n->parent = dir; n->next = dir->children; dir->children = n`
unfoldable pub attach : ℕ → ℕ → Tree → Tree
attach dir n t =
    let linked =
      set_node n (record (t.nodes n) { parent = some dir; next = (t.nodes dir).children }) t in
    set_node dir (record (linked.nodes dir) { children = some n }) linked

-- `dir->children = n->next; free_node(n)`
unfoldable pub take_back : ℕ → ℕ → ℕ → Tree → Tree
take_back fuel dir n t =
    free_node fuel n (set_node dir (record (t.nodes dir) { children = (t.nodes n).next }) t)

-- The end of `tmpfs_create`, from `if (out)` on: `out` is none for a null pointer, else it says whether a vnode is made.
unfoldable pub report : ℕ → ℕ → ℕ → Option Bool → Tree → Created
report fuel dir n none t = record { tree = t; answer = pos 0; vnode = none }
report fuel dir n (some room) t = elim (make_vnode room n t) [
  | none ↦ refused (take_back fuel dir n t)
  | some v ↦ record { tree = t; answer = pos 0; vnode = some v }
]

unfoldable pub after_alloc : ℕ → ℕ → Option Bool → Tree × Option ℕ → Created
after_alloc fuel dir out (t, none) = refused t
after_alloc fuel dir out (t, some n) = report fuel dir n out (attach dir n t)

unfoldable pub tmpfs_create :
    ℕ → Option ℕ → Bool → Memory → Option ℕ → Option ℕ → ℕ → Option Bool → Tree → Created
tmpfs_create fuel node_at name_room m none name type out t = refused t
tmpfs_create fuel node_at name_room m (some dir) none type out t = refused t
tmpfs_create fuel node_at name_room m (some dir) (some name) type out t =
    if not ((t.nodes dir).type == vfs_node_directory)
    then refused t
    else elim (name_len_valid m (some name)) [
      | none ↦ refused t
      | some len ↦ elim (find_child_len fuel m dir name len t) [
        | some n ↦ refused t
        | none ↦
            if not (type == vfs_node_file) && not (type == vfs_node_directory)
            then refused t
            else after_alloc fuel dir out
                (alloc_node_len node_at name_room m name len type t.mount.default_mode t)
      ]
    ]

-- `*link`, where `none` stands for `&dir->children` and `some n` for `&n->next`.
unfoldable pub read_link : ℕ → Tree → Links
read_link dir t none = (t.nodes dir).children
read_link dir t (some n) = (t.nodes n).next

unfoldable pub write_link : ℕ → Option ℕ → Option ℕ → Tree → Tree
write_link dir none v t = set_node dir (record (t.nodes dir) { children = v }) t
write_link dir (some n) v t = set_node n (record (t.nodes n) { next = v }) t

-- `n->type == VFS_NODE_DIRECTORY && n->children`
unfoldable pub is_occupied : Entry → Bool
is_occupied e = elim e.children [ none ↦ false | some c ↦ e.type == vfs_node_directory ]

-- The loop of `tmpfs_unlink` from the link `link` on, for at most `rounds` rounds.
unfoldable pub unlink_from : ℕ → ℕ → Memory → ℕ → ℕ → ℕ → Option ℕ → Tree → Tree × ℤ
unlink_from zero fuel m dir name len link t = (t, negsuc 0)
unlink_from (suc rounds) fuel m dir name len link t = elim (read_link dir t link) [
  | none ↦ (t, negsuc 0)
  | some n ↦ elim (is_named m name len (t.nodes n)) [
    | true ↦
        if is_occupied (t.nodes n)
        then (t, negsuc 0)
        else (free_node fuel n (write_link dir link (t.nodes n).next t), pos 0)
    | false ↦ unlink_from rounds fuel m dir name len (some n) t
  ]
]

unfoldable pub tmpfs_unlink : ℕ → Memory → Option ℕ → Option ℕ → Tree → Tree × ℤ
tmpfs_unlink fuel m none name t = (t, negsuc 0)
tmpfs_unlink fuel m (some dir) none t = (t, negsuc 0)
tmpfs_unlink fuel m (some dir) (some name) t =
    if not ((t.nodes dir).type == vfs_node_directory)
    then (t, negsuc 0)
    else elim (name_len_valid m (some name)) [
      | none ↦ (t, negsuc 0)
      | some len ↦ unlink_from fuel fuel m dir name len none t
    ]

-- The link that points to the child of the name, or to nothing.
unfoldable pub link_to : ℕ → Memory → ℕ → ℕ → ℕ → Option ℕ → Tree → Option ℕ
link_to zero m dir name len link t = link
link_to (suc fuel) m dir name len link t = elim (read_link dir t link) [
  | none ↦ link
  | some n ↦ elim (is_named m name len (t.nodes n)) [
    | true ↦ link
    | false ↦ link_to fuel m dir name len (some n) t
  ]
]

-- `*link = n->next` to the end of `tmpfs_rename`.
unfoldable pub move_to : ℕ → Option ℕ → ℕ → ℕ → List ℕ → Tree → Tree
move_to old_dir link n new_dir name t =
    let unlinked = write_link old_dir link (t.nodes n).next t in
    attach new_dir n (set_node n (record (unlinked.nodes n) { name = name }) unlinked)

-- `room` says whether kmalloc has room for the new name.
unfoldable pub rename_at : Bool → ℕ → Option ℕ → ℕ → List ℕ → Tree → Tree × ℤ
rename_at room old_dir link new_dir name t = elim (read_link old_dir t link) [
  | none ↦ (t, negsuc 0)
  | some n ↦ if room then (move_to old_dir link n new_dir name t, pos 0) else (t, negsuc 0)
]

-- The part of `tmpfs_rename` below the tests of the nodes, with the lengths of the two names.
unfoldable pub rename_named :
    ℕ → Bool → Memory → ℕ → ℕ → Option ℕ → ℕ → ℕ → Option ℕ → Tree → Tree × ℤ
rename_named fuel room m old_dir old_name none new_dir new_name new_len t = (t, negsuc 0)
rename_named fuel room m old_dir old_name (some old) new_dir new_name none t = (t, negsuc 0)
rename_named fuel room m old_dir old_name (some old) new_dir new_name (some new) t =
    elim (find_child_len fuel m new_dir new_name new t) [
      | some n ↦ (t, negsuc 0)
      | none ↦
          rename_at room old_dir (link_to fuel m old_dir old_name old none t) new_dir
            (bytes_at new m new_name) t
    ]

unfoldable pub tmpfs_rename : ℕ → Bool → Memory → ℕ → ℕ → ℕ → ℕ → Tree → Tree × ℤ
tmpfs_rename fuel room m old_dir old_name new_dir new_name t =
    if not ((t.nodes old_dir).type == vfs_node_directory)
      || not ((t.nodes new_dir).type == vfs_node_directory)
    then (t, negsuc 0)
    else rename_named fuel room m old_dir old_name (name_len_valid m (some old_name)) new_dir
        new_name (name_len_valid m (some new_name)) t
