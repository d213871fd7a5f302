-- ===== src/Tmpfs/Tree/Names.antt =====
-- Searches by name in lists whose nodes have different names.
use rhkernel.Prelude.{
  ℕ, ◌≡◌, refl, sym, ap, subst, ◌∙◌, true, false, ◌==◌, if◌then◌else◌, none, some, List, [], ◌∷◌,
  arith, Bool-cases, inl, inr,
}
use rhkernel.Prelude.Links.{member, IsDistinct}
use rhkernel.Prelude.Links.Remove.{remove, is_eq}
use rhkernel.Tmpfs.Tree.Lookup.{same_text, lookup, UniqueNames}

pub same_text-eq : (xs ys : List ℕ) → same_text xs ys ≡ true → xs ≡ ys
same_text-eq [] [] e = refl
same_text-eq [] (y ∷ ys) e = ground arith
same_text-eq (x ∷ xs) [] e = ground arith
same_text-eq (x ∷ xs) (y ∷ ys) e =
    let first : x ≡ y = ground arith in let rest = same_text-eq xs ys (ground arith) in cc

pub same_text_refl : (xs : List ℕ) → same_text xs xs ≡ true
same_text_refl [] = refl
same_text_refl (x ∷ xs) = let rest = same_text_refl xs in ground arith

-- A node of a list that has no node of the name has another name.
lookup-absent :
    (f : ℕ → List ℕ) (ks : List ℕ) (n : ℕ) (xs : List ℕ)
    → lookup f ks xs ≡ none
    → member n xs ≡ true
    → same_text (f n) ks ≡ false
lookup-absent f ks n [] e m = ground arith
lookup-absent f ks n (x ∷ xs) e m = elim (Bool-cases (same_text (f x) ks)) [
  | inl g ↦ ground arith
  | inr g ↦ elim (Bool-cases (n == x)) [
    | inl h ↦ subst (λ z. same_text (f z) ks ≡ false) (sym (is_eq n x h)) g
    | inr h ↦ lookup-absent f ks n xs (ground arith) (ground arith)
  ]
]

module _ (f : ℕ → List ℕ) (ks : List ℕ) where
  pub lookup-member : (n : ℕ) (xs : List ℕ) → lookup f ks xs ≡ some n → member n xs ≡ true
  lookup-member n [] e = ground arith
  lookup-member n (x ∷ xs) e = elim (Bool-cases (same_text (f x) ks)) [
    | inl g ↦ let same : x ≡ n = ground arith in ground arith
    | inr g ↦ ground (arith, lookup-member n xs (ground arith))
  ]

  -- Without a node, its name is gone, and the other names are found as before.
  pub lookup-without :
      (n : ℕ) (xs : List ℕ)
      → member n xs ≡ true
      → IsDistinct xs
      → UniqueNames f xs
      → lookup f ks (remove n xs) ≡ (if same_text (f n) ks then none else lookup f ks xs)
  lookup-without n [] m i u = ground arith
  lookup-without n (x ∷ xs) m i u = elim (Bool-cases (x == n)) [
    | inl e ↦
        let same = ap (λ z. same_text (f z) ks) (sym (is_eq x n e)) in
        elim (Bool-cases (same_text (f x) ks)) [
          | inl g ↦
              rw (e, same, g) (subst (λ z. lookup f z xs ≡ none) (same_text-eq (f x) ks g) u.0)
          | inr g ↦ rw (e, same, g) refl
        ]
    | inr e ↦
        let later : member n xs ≡ true = ground arith in
        let rest = lookup-without n xs later i.1 u.1 in
        elim (Bool-cases (same_text (f x) ks)) [
          | inl g ↦
              let other : same_text (f n) ks ≡ false =
                subst (λ z. same_text (f n) z ≡ false) (same_text-eq (f x) ks g)
                  (lookup-absent f (f x) n xs u.0 later) in
              rw (e, g, other) refl
          | inr g ↦ rw (e, g) rest
        ]
  ]

pub lookup-same :
    (f g : ℕ → List ℕ) (ks xs : List ℕ)
    → ((x : ℕ) → member x xs ≡ true → g x ≡ f x)
    → lookup g ks xs ≡ lookup f ks xs
lookup-same f g ks [] e = refl
lookup-same f g ks (x ∷ xs) e =
    rw (e x (ground arith), lookup-same f g ks xs (λ y m. e y (ground arith))) refl

pub UniqueNames-same :
    (f g : ℕ → List ℕ) (xs : List ℕ)
    → ((x : ℕ) → member x xs ≡ true → g x ≡ f x)
    → UniqueNames f xs
    → UniqueNames g xs
UniqueNames-same f g [] e u = tt
UniqueNames-same f g (x ∷ xs) e u = (
  rw (e x (ground arith)) (lookup-same f g (f x) xs (λ y m. e y (ground arith)) ∙ u.0),
  UniqueNames-same f g xs (λ y m. e y (ground arith)) u.1,
)

pub lookup-remove :
    (f : ℕ → List ℕ) (ks : List ℕ) (n : ℕ) (xs : List ℕ)
    → lookup f ks xs ≡ none
    → lookup f ks (remove n xs) ≡ none
lookup-remove f ks n [] e = refl
lookup-remove f ks n (x ∷ xs) e = elim (Bool-cases (same_text (f x) ks)) [
  | inl g ↦ ground arith
  | inr g ↦ elim (Bool-cases (x == n)) [
    | inl h ↦ rw h (ground arith)
    | inr h ↦ let rest = lookup-remove f ks n xs (ground arith) in rw (h, g) rest
  ]
]

pub UniqueNames-remove :
    (f : ℕ → List ℕ) (n : ℕ) (xs : List ℕ) → UniqueNames f xs → UniqueNames f (remove n xs)
UniqueNames-remove f n [] u = tt
UniqueNames-remove f n (x ∷ xs) u = elim (Bool-cases (x == n)) [
  | inl h ↦ rw h u.1
  | inr h ↦ rw h (lookup-remove f (f x) n xs u.0, UniqueNames-remove f n xs u.1)
]
