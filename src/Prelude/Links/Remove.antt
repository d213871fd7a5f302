-- ===== src/Prelude/Links/Remove.antt =====
-- A node taken out of a linked list.
use rhkernel.Prelude.{
  subst, ℕ, ◌≡◌, refl, sym, true, false, not, ◌&&◌, ◌||◌, ◌==◌, if◌then◌else◌, Option, some, List,
  [], ◌∷◌, ◌∙◌, ◌⊎◌, arith, Bool-cases, inl, inr,
}
use rhkernel.Prelude.Links.{
  Links, same_key, write, member, has_key, IsDistinct, Chain, Chain-same, same_key_refl,
  has_key-cons, has_key-other, member-other,
}

abbrev pub remove : ℕ → List ℕ → List ℕ
remove d [] = []
remove d (x ∷ xs) = let rest = remove d xs in if x == d then xs else x ∷ rest

pub is_eq : (x y : ℕ) → x == y ≡ true → x ≡ y
is_eq x y e = ground arith

pub member-remove :
    (d x : ℕ) (ds : List ℕ) → IsDistinct ds → member x (remove d ds) ≡ (member x ds && not (x == d))
member-remove d x [] i = refl
member-remove d x (y ∷ ys) i = elim (Bool-cases (x == y)) [
  | inl e ↦
      let out : member x ys ≡ false = subst (λ z. member z ys ≡ false) (sym (is_eq x y e)) i.0 in
      ground (arith, out, member-remove d x ys i.1)
  | inr e ↦ ground (arith, member-remove d x ys i.1)
]

pub IsDistinct-remove : (d : ℕ) (ds : List ℕ) → IsDistinct ds → IsDistinct (remove d ds)
IsDistinct-remove d [] i = tt
IsDistinct-remove d (y ∷ ys) i = elim (Bool-cases (y == d)) [
  | inl e ↦ rw e i.1
  | inr e ↦ rw e (member-remove d y ys i.1 ∙ (rw i.0 refl), IsDistinct-remove d ys i.1)
]

-- `q` is the key whose link points to `n` in the list that starts at `p`.
abbrev pub Before : Option ℕ → List ℕ → Option ℕ → ℕ → Type 0
Before p [] q n = ⊥
Before p (x ∷ xs) q n = ((p ≡ q) × (x ≡ n)) ⊎ Before (some x) xs q n

-- Such a key is the first one or a node of the list.
Before-other :
    (p q k : Option ℕ) (xs : List ℕ) (n : ℕ)
    → Before p xs q n
    → same_key k p ≡ false
    → has_key k xs ≡ false
    → same_key k q ≡ false
Before-other p q k [] n b s h = absurd b
Before-other p q k (x ∷ xs) n (inl e) s h = subst (λ z. same_key k z ≡ false) e.0 s
Before-other p q k (x ∷ xs) n (inr r) s h =
    let parts = has_key-cons k x xs h in Before-other (some x) q k xs n r parts.0 parts.1

pub Before-member : (p q : Option ℕ) (xs : List ℕ) (n : ℕ) → Before p xs q n → member n xs ≡ true
Before-member p q [] n b = absurd b
Before-member p q (x ∷ xs) n (inl e) = let same = e.1 in ground arith
Before-member p q (x ∷ xs) n (inr r) = ground (arith, Before-member (some x) q xs n r)

first_removed :
    (l : Links) (p : Option ℕ) (x : ℕ) (xs : List ℕ)
    → Chain l p (x ∷ xs)
    → has_key p (x ∷ xs) ≡ false
    → Chain (write p (l (some x)) l) p xs
first_removed l p x xs h f =
    let keys = has_key-cons p x xs f in
    Chain-same l (write p (l (some x)) l) (some x) p xs (rw (same_key_refl p) refl)
      (λ y m. rw (has_key-other p y xs keys.1 m) refl) h.1

-- The list without the node, once its link points behind the node.
pub Chain-remove :
    (l : Links) (p q : Option ℕ) (xs : List ℕ) (n : ℕ)
    → Chain l p xs
    → IsDistinct xs
    → has_key p xs ≡ false
    → Before p xs q n
    → Chain (write q (l (some n)) l) p (remove n xs)
Chain-remove l p q [] n h i f b = absurd b
Chain-remove l p q (x ∷ xs) n h i f (inl e) =
    let hit : x == n ≡ true = let same = e.1 in ground arith in
    rw (hit, ← e.0, ← e.1) (first_removed l p x xs h f)
Chain-remove l p q (x ∷ xs) n h i f (inr r) =
    let keys = has_key-cons p x xs f in
    let other : same_key p q ≡ false = Before-other (some x) q p xs n r keys.0 keys.1 in
    let later : n == x ≡ false = member-other x n xs i.0 (Before-member (some x) q xs n r) in
    let differ : x == n ≡ false = ground arith in
    rw differ (rw other h.0, Chain-remove l (some x) q xs n h.1 i.1 i.0 r)

pub Before-node :
    (p : Option ℕ) (y : ℕ) (xs : List ℕ) (n : ℕ)
    → Before p xs (some y) n
    → (same_key (some y) p || member y xs) ≡ true
Before-node p y [] n b = absurd b
Before-node p y (x ∷ xs) n (inl e) =
    let here : same_key (some y) p ≡ true =
      subst (λ k. same_key (some y) k ≡ true) (sym e.0) (same_key_refl (some y)) in
    rw here refl
Before-node p y (x ∷ xs) n (inr r) = let later = Before-node (some x) y xs n r in ground arith
