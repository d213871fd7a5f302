-- ===== src/Tmpfs/Tree/Tests.antt =====
-- The theorems on the directories of module/tmpfs/src/tmpfs.c at a small tree.
use rhkernel.Prelude.{
  ℕ, ◌≡◌, refl, sym, subst, true, false, ◌||◌, ◌==◌, if◌then◌else◌, Option, none, some, List, [],
  ◌∷◌, arith, Bool-cases, inl, inr,
}
use rhkernel.Prelude.Links.{IsDistinct, Chain}
use rhkernel.Prelude.Links.Remove.{is_eq}
use rhkernel.Libc.Memory.{Memory}
use rhkernel.Tmpfs.Account.{Mount}
use rhkernel.Tmpfs.Name.{name_len_valid, checked_name, name_loop, is_reserved}
use rhkernel.Tmpfs.Tree.{Entry, Tree, bytes_at}
use rhkernel.Tmpfs.Tree.Calls.{read_link, tmpfs_create, tmpfs_unlink, tmpfs_rename}
use rhkernel.Tmpfs.Tree.Lookup.{names, UniqueNames}
use rhkernel.Tmpfs.Tree.Shape.{IsTree}
use rhkernel.Tmpfs.Tree.Unlink.{Unlinked, tmpfs_unlink-Outcome}
use rhkernel.Tmpfs.Tree.Create.{Made, tmpfs_create-Outcome}
use rhkernel.Tmpfs.Options.{parse_opts, with_defaults}
use rhkernel.Tmpfs.Tree.Mounts.{new_mount, mount_common, Rooted, mount_common-Outcome}
use rhkernel.Tmpfs.Tree.Rename.{Moved, tmpfs_rename-Outcome}

abbrev small_mount : Mount
small_mount = record {
  limit = 8192;
  used = 0;
  next_ino = 4;
  enforce_limit = true;
  default_mode = 420;
}

abbrev entry : List ℕ → ℕ → ℕ → Option ℕ → Option ℕ → Option ℕ → Entry
entry name ino type parent children next = record {
  mnt = some 9;
  name = name;
  ino = ino;
  type = type;
  mode = 420;
  size = 0;
  parent = parent;
  children = children;
  next = next;
  pages = λ i. none;
  page_capacity = 0;
}

-- The root 1 with the file "a" at 2 and the directory "d" at 3.
abbrev small_nodes : ℕ → Entry
small_nodes i =
    if i == 1
    then entry [] 1 2 none (some 2) none
    else if i == 2
    then entry (97 ∷ []) 2 1 (some 1) none (some 3)
    else if i == 3
    then entry (100 ∷ []) 3 2 (some 1) none none
    else entry [] 0 1 none none none

abbrev small_tree : Tree
small_tree = record {
  nodes = small_nodes;
  live = λ i. i == 1 || (i == 2 || i == 3);
  mount = small_mount;
  mount_at = 9;
}

abbrev small_lists : ℕ → List ℕ
small_lists d = if d == 1 then 2 ∷ 3 ∷ [] else []

root_or_not : (P : ℕ → Type 0) → P 1 → ((d : ℕ) → d == 1 ≡ false → P d) → (d : ℕ) → P d
root_or_not P a b d = elim (Bool-cases (d == 1)) [
  | inl e ↦ subst P (sym (is_eq d 1 e)) a
  | inr e ↦ b d e
]

small_tree-IsTree : IsTree small_tree small_lists
unfolding read_link
small_tree-IsTree = record {
  chain =
      root_or_not (λ d. Chain (read_link d small_tree) none (small_lists d)) (refl, (refl, refl))
        (λ d e. rw e (ground arith));
  distinct = root_or_not (λ d. IsDistinct (small_lists d)) (refl, (refl, tt)) (λ d e. rw e tt);
  parents = λ d x m. ground arith;
  used = λ d x m. ground arith;
  unique =
      root_or_not (λ d. UniqueNames (names small_tree) (small_lists d)) (refl, (refl, tt))
        (λ d e. rw e tt);
  holders = λ d h. ground arith;
  unused = λ d h. ground arith;
}

-- "a", "b" and "d" at 10, 20 and 30.
abbrev small_names : Memory
small_names a = if a == 10 then 97 else if a == 20 then 98 else if a == 30 then 100 else 0

-- The file "b", made in front of the others at address 4.
tmpfs_create-Outcome_example :
    Made 1 1 small_tree small_lists 4
      (98 ∷ [])
      (98 ∷ [])
      (tmpfs_create 3 (some 4) true small_names (some 1) (some 20) 1 none small_tree)
unfolding bytes_at name_len_valid checked_name name_loop is_reserved
tmpfs_create-Outcome_example =
    tmpfs_create-Outcome 1 1 small_tree small_lists small_tree-IsTree refl (some 4) true small_names
      20 none (98 ∷ []) 3 (λ n e. ground arith) (omega arith)

-- The file "a", unlinked.
tmpfs_unlink-Outcome_example :
    Unlinked small_names 1 10 small_tree small_lists small_tree-IsTree 2
      (97 ∷ [])
      (tmpfs_unlink 3 small_names (some 1) (some 10) small_tree)
unfolding bytes_at name_len_valid checked_name name_loop is_reserved
tmpfs_unlink-Outcome_example =
    tmpfs_unlink-Outcome small_names 1 10 small_tree small_lists small_tree-IsTree 3 (97 ∷ [])
      (omega arith)

-- The file "a", moved to the directory "d" under the name "b".
tmpfs_rename-Outcome_example :
    Moved true small_names 1 10 3 20 small_tree small_lists small_tree-IsTree
      (98 ∷ [])
      2
      (98 ∷ [])
      (tmpfs_rename 3 true small_names 1 10 3 20 small_tree)
unfolding bytes_at name_len_valid checked_name name_loop is_reserved
tmpfs_rename-Outcome_example =
    tmpfs_rename-Outcome true small_names 1 10 3 20 small_tree small_lists small_tree-IsTree
      (98 ∷ []) 3 refl (omega arith) (omega arith)

-- A second mount, whose root is at the address 7.
mount_common-Outcome_example :
    Rooted small_tree small_lists 7
      (with_defaults (new_mount true))
      (mount_common 9 (some 8) (some 7) true small_names none true small_tree)
unfolding parse_opts
mount_common-Outcome_example =
    mount_common-Outcome small_tree small_lists small_tree-IsTree 9 (some 8) (some 7) true
      small_names none true (λ n e. ground arith)
