-- ===== src/Prelude/Links.antt =====
-- Linked lists by their links: the key `none` is the head pointer, `some x` the `next` field of the node `x`.
pub mod Remove
use rhkernel.Prelude.{
  subst, ℕ, ◌≡◌, refl, Bool, true, false, ◌||◌, ◌==◌, if◌then◌else◌, Option, none, some, List, [],
  ◌∷◌, ◌++◌, ◌∙◌, arith, Bool-cases, inl, inr,
}

abbrev pub Links : Type 0
Links = Option ℕ → Option ℕ

abbrev pub same_key : Option ℕ → Option ℕ → Bool
same_key none none = true
same_key none (some y) = false
same_key (some x) none = false
same_key (some x) (some y) = x == y

abbrev pub write : Option ℕ → Option ℕ → Links → Links
write p v l q = if same_key q p then v else l q

abbrev pub member : ℕ → List ℕ → Bool
member x [] = false
member x (y ∷ ys) = x == y || member x ys

-- Some node of the list has the key.
abbrev pub has_key : Option ℕ → List ℕ → Bool
has_key none xs = false
has_key (some x) xs = member x xs

abbrev pub IsDistinct : List ℕ → Type 0
IsDistinct [] = Unit
IsDistinct (x ∷ xs) = (member x xs ≡ false) × IsDistinct xs

-- The list that the link `p` starts.
abbrev pub Chain : Links → Option ℕ → List ℕ → Type 0
Chain l p [] = l p ≡ none
Chain l p (x ∷ xs) = (l p ≡ some x) × Chain l (some x) xs

-- The last key of such a list.
abbrev pub last_key : Option ℕ → List ℕ → Option ℕ
last_key p [] = p
last_key p (x ∷ xs) = last_key (some x) xs

-- Links that are the same on a list hold it too, also under another key.
pub Chain-same :
    (l k : Links) (p q : Option ℕ) (xs : List ℕ)
    → k q ≡ l p
    → ((x : ℕ) → member x xs ≡ true → k (some x) ≡ l (some x))
    → Chain l p xs
    → Chain k q xs
Chain-same l k p q [] e same h = e ∙ h
Chain-same l k p q (x ∷ xs) e same h = (
  e ∙ h.0,
  Chain-same l k (some x) (some x) xs (same x (ground arith)) (λ y m. same y (ground arith)) h.1,
)

pub same_key_refl : (p : Option ℕ) → same_key p p ≡ true
same_key_refl none = refl
same_key_refl (some x) = ground arith

pub member-append : (x : ℕ) (xs ys : List ℕ) → member x (xs ++ ys) ≡ (member x xs || member x ys)
member-append x [] ys = refl
member-append x (y ∷ xs) ys = ground (arith, member-append x xs ys)

pub IsDistinct-append_one :
    (xs : List ℕ) (w : ℕ) → IsDistinct xs → member w xs ≡ false → IsDistinct (xs ++ w ∷ [])
IsDistinct-append_one [] w d n = (refl, tt)
IsDistinct-append_one (x ∷ xs) w d n =
    (member-append x xs (w ∷ []) ∙ ground arith, IsDistinct-append_one xs w d.1 (ground arith))

pub last_key-append_one : (p : Option ℕ) (xs : List ℕ) (w : ℕ) → last_key p (xs ++ w ∷ []) ≡ some w
last_key-append_one p [] w = refl
last_key-append_one p (x ∷ xs) w = last_key-append_one (some x) xs w

pub has_key-cons :
    (p : Option ℕ) (x : ℕ) (xs : List ℕ)
    → has_key p (x ∷ xs) ≡ false
    → (same_key p (some x) ≡ false) × (has_key p xs ≡ false)
has_key-cons none x xs h = (refl, refl)
has_key-cons (some y) x xs h = ground arith

last_key-other :
    (p q : Option ℕ) (xs : List ℕ)
    → same_key p q ≡ false
    → has_key p xs ≡ false
    → same_key p (last_key q xs) ≡ false
last_key-other p q [] n h = n
last_key-other p q (x ∷ xs) n h =
    let parts = has_key-cons p x xs h in last_key-other p (some x) xs parts.0 parts.1

-- What is written at the end of a list and at a new node leaves the other keys alone.
write-other :
    (l : Links) (p q : Option ℕ) (v : Option ℕ) → same_key q p ≡ false → write p v l q ≡ l q
write-other l p q v n = rw n refl

-- A node that is put behind the last of a list.
pub Chain-append_one :
    (l : Links) (p : Option ℕ) (xs : List ℕ) (w : ℕ)
    → same_key p (some w) ≡ false
    → member w xs ≡ false
    → IsDistinct xs
    → has_key p xs ≡ false
    → Chain l p xs
    → Chain (write (last_key p xs) (some w) (write (some w) none l)) p (xs ++ w ∷ [])
Chain-append_one l p [] w n f d g h = (rw (same_key_refl p) refl, fresh p n)
  where
    fresh :
        (p : Option ℕ)
        → same_key p (some w) ≡ false
        → write p (some w) (write (some w) none l) (some w) ≡ none
    fresh none n = rw (same_key_refl (some w)) refl
    fresh (some y) n = ground arith
Chain-append_one l p (x ∷ xs) w n f d g h =
    let parts = has_key-cons p x xs g in
    let other = last_key-other p (some x) xs parts.0 parts.1 in
    (rw (other, n) h.0, Chain-append_one l (some x) xs w (ground arith) (ground arith) d.1 d.0 h.1)

-- A node of a list differs from a node, or a key, that is not in it.
pub member-other :
    (d x : ℕ) (ds : List ℕ) → member d ds ≡ false → member x ds ≡ true → x == d ≡ false
member-other d x ds n m = elim (Bool-cases (x == d)) [
  | inl e ↦
      let same : x ≡ d = ground arith in
      let there : member d ds ≡ true = subst (λ z. member z ds ≡ true) same m in
      ground (arith, there, n)
  | inr e ↦ e
]

pub has_key-other :
    (k : Option ℕ) (x : ℕ) (ds : List ℕ)
    → has_key k ds ≡ false
    → member x ds ≡ true
    → same_key (some x) k ≡ false
has_key-other none x ds n m = refl
has_key-other (some y) x ds n m = member-other y x ds n m

pub same_key_comm : (p q : Option ℕ) → same_key p q ≡ same_key q p
same_key_comm none none = refl
same_key_comm none (some y) = refl
same_key_comm (some x) none = refl
same_key_comm (some x) (some y) = ground arith
