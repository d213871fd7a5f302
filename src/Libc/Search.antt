-- ===== src/Libc/Search.antt =====
-- `bsearch` of libc/src/stdlib.c.
pub mod Laws
use rhkernel.Prelude.{ℕ, zero, suc, ◌+◌, ◌-◌, ◌*◌, ◌/◌, Bool, true, false, ◌==◌, Option, none, some}
use rhkernel.Prelude.Int.{ℤ, pos, negsuc}

-- The loop of `bsearch` with `b` and `nmemb`; `compar` is the caller's comparison of the key with the element at an
-- address.
unfoldable pub search_loop : ℕ → (ℕ → ℤ) → ℕ → ℕ → ℕ → Option ℕ
search_loop zero compar size b nmemb = none
search_loop (suc fuel) compar size b nmemb = elim (nmemb == 0) [
  | true ↦ none
  | false ↦ elim (compar (b + nmemb / 2 * size)) [
    | pos zero ↦ some (b + nmemb / 2 * size)
    | pos (suc n) ↦
        search_loop fuel compar size (b + (nmemb / 2 + 1) * size) (nmemb - (nmemb / 2 + 1))
    | negsuc n ↦ search_loop fuel compar size b (nmemb / 2)
  ]
]

-- The number of elements falls in each round.
unfoldable pub bsearch : ℕ → ℕ → ℕ → (ℕ → ℤ) → Option ℕ
bsearch base nmemb size compar = search_loop (suc nmemb) compar size base nmemb
