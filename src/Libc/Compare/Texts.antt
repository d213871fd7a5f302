-- ===== src/Libc/Compare/Texts.antt =====
-- `strcmp` and `strncmp` on strings.
use rhkernel.Prelude.{
  ℕ, zero, suc, ◌+◌, ◌<◌, ◌≡◌, refl, ◌==◌, if◌then◌else◌, List, [], ◌∷◌, length, take, arith, ◌↔◌,
}
use rhkernel.Prelude.Int.{ℤ, pos, sub_ℕ}
use rhkernel.Libc.Memory.{Memory}
use rhkernel.Libc.Text.{IsString}
use rhkernel.Libc.Compare.{strcmp, strncmp}

-- The difference of the first bytes that differ, where a text ends with a 0.
pub difference : List ℕ → List ℕ → ℤ
difference [] [] = pos 0
difference [] (y ∷ ys) = sub_ℕ 0 y
difference (x ∷ xs) [] = sub_ℕ x 0
difference (x ∷ xs) (y ∷ ys) = if x == y then difference xs ys else sub_ℕ x y

-- `strcmp` of two strings is the difference of the texts, if the fuel exceeds the length of the first.
pub strcmp-difference :
    (fuel a b : ℕ) (m : Memory) (xs ys : List ℕ)
    → IsString m a xs
    → IsString m b ys
    → length xs < fuel
    → strcmp fuel a b m ≡ difference xs ys
unfolding strcmp difference
strcmp-difference zero a b m xs ys h k f = absurd (omega arith)
strcmp-difference (suc fuel) a b m [] [] h k f = ground arith
strcmp-difference (suc fuel) a b m [] (y ∷ ys) h k f = ground arith
strcmp-difference (suc fuel) a b m (x ∷ xs) [] h k f = ground arith
strcmp-difference (suc fuel) a b m (x ∷ xs) (y ∷ ys) h k f =
    ground (arith, strcmp-difference fuel (a + 1) (b + 1) m xs ys)

-- `strncmp` of two strings is the difference of their first `n` bytes.
strncmp-difference :
    (n a b : ℕ) (m : Memory) (xs ys : List ℕ)
    → IsString m a xs
    → IsString m b ys
    → strncmp a b n m ≡ difference (take n xs) (take n ys)
unfolding strncmp difference
strncmp-difference zero a b m xs ys h k = refl
strncmp-difference (suc n) a b m [] [] h k = ground arith
strncmp-difference (suc n) a b m [] (y ∷ ys) h k = ground arith
strncmp-difference (suc n) a b m (x ∷ xs) [] h k = ground arith
strncmp-difference (suc n) a b m (x ∷ xs) (y ∷ ys) h k =
    ground (arith, strncmp-difference n (a + 1) (b + 1) m xs ys)

-- The difference is 0 exactly for equal texts.
pub difference-zero :
    (m : Memory) (a b : ℕ) (xs ys : List ℕ)
    → IsString m a xs
    → IsString m b ys
    → (difference xs ys ≡ pos 0) ↔ (xs ≡ ys)
unfolding difference
difference-zero m a b [] [] h k = ground arith
difference-zero m a b [] (y ∷ ys) h k = ground arith
difference-zero m a b (x ∷ xs) [] h k = ground arith
difference-zero m a b (x ∷ xs) (y ∷ ys) h k =
    ground (arith, difference-zero m (a + 1) (b + 1) xs ys)
