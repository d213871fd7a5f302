-- ===== src/Tmpfs/Name/Laws.antt =====
-- The names that `name_len_valid` accepts.
use rhkernel.Prelude.{
  ℕ, zero, suc, ◌+◌, ◌≡◌, refl, subst, Bool, true, false, not, ◌&&◌, leb, ltb, ◌==◌, if◌then◌else◌,
  none, some, List, [], ◌∷◌, length, arith,
}
use rhkernel.Libc.Memory.{Memory}
use rhkernel.Libc.Text.{IsString}
use rhkernel.Tmpfs.Name.{tmpfs_name_max, name_loop, is_reserved, checked_name, name_len_valid}

abbrev pub without_slash : List ℕ → Bool
without_slash [] = true
without_slash (x ∷ xs) = not (x == 47) && without_slash xs

abbrev pub reserved : List ℕ → Bool
reserved [] = true
reserved (x ∷ []) = x == 46
reserved (x ∷ y ∷ []) = x == 46 && y == 46
reserved (x ∷ y ∷ z ∷ xs) = false

-- What a name has to be: at most 255 bytes, none of them a slash, and not "", "." or "..".
unfoldable pub acceptable : List ℕ → Bool
acceptable xs = leb (length xs) tmpfs_name_max && (without_slash xs && not (reserved xs))

loop_lem :
    (m : Memory) (name : ℕ) (rounds len : ℕ) (xs : List ℕ)
    → IsString m (name + len) xs
    → len + rounds ≡ 256
    → name_loop rounds m name len
      ≡ (if ltb (length xs) rounds && without_slash xs then some (len + length xs) else none)
unfolding name_loop
loop_lem m name zero len xs h k = ground arith
loop_lem m name (suc rounds) len [] h k = ground (arith, h)
loop_lem m name (suc rounds) len (x ∷ xs) h k =
    let e : name + len + 1 ≡ name + (len + 1) = omega arith in
    let rest =
      loop_lem m name rounds (len + 1) xs (subst (λ p. IsString m p xs) e h.2) (omega arith) in
    ground (arith, rest, h)

reserved_lem :
    (m : Memory) (name : ℕ) (xs : List ℕ)
    → IsString m name xs
    → is_reserved m name (length xs) ≡ reserved xs
unfolding is_reserved
reserved_lem m name [] h = refl
reserved_lem m name (x ∷ []) h = ground (arith, h)
reserved_lem m name (x ∷ y ∷ []) h = ground (arith, h)
reserved_lem m name (x ∷ y ∷ z ∷ xs) h = ground arith

-- The check of a string gives its length if the string is an acceptable name, and 0 if not.
name_len_valid-acceptable :
    (m : Memory) (name : ℕ) (xs : List ℕ)
    → IsString m name xs
    → name_len_valid m (some name) ≡ (if acceptable xs then some (length xs) else none)
unfolding name_len_valid checked_name acceptable
name_len_valid-acceptable m name xs h =
    let e : name ≡ name + 0 = omega arith in
    let loop = loop_lem m name 256 0 xs (subst (λ p. IsString m p xs) e h) refl in
    let names = reserved_lem m name xs h in rw loop (ground (arith, names))
