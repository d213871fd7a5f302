-- ===== src/Tmpfs/Tree/Below.antt =====
-- The nodes below a directory, and what `tmpfs_rename` makes of them.
use rhkernel.Prelude.{
  ℕ, ◌≡◌, sym, subst, Bool, true, ◌==◌, ◌||◌, if◌then◌else◌, List, ◌∷◌, arith, Bool-cases, ◌⊎◌, inl,
  inr,
}
use rhkernel.Prelude.Links.{member, IsDistinct}
use rhkernel.Prelude.Links.Remove.{is_eq, remove, member-remove}
use rhkernel.Tmpfs.Tree.Shape.{with_child, without_child}

-- `IsBelow l x d`: the node `x` is a child of `d`, or of a node below `d`.
pub data IsBelow (l : ℕ → List ℕ) : ℕ → ℕ → Type 0 where
  child : {x d : ℕ} → member x (l d) ≡ true → IsBelow l x d
  deeper : {x d : ℕ} (c : ℕ) → IsBelow l x c → member c (l d) ≡ true → IsBelow l x d

abbrev pub IsAtOrBelow : (ℕ → List ℕ) → ℕ → ℕ → Type 0
IsAtOrBelow l x d = (x ≡ d) ⊎ IsBelow l x d

-- No node is below itself.
abbrev pub IsAcyclic : (ℕ → List ℕ) → Type 0
IsAcyclic l = (x : ℕ) → ¬ IsBelow l x x

module _ (l : ℕ → List ℕ) (distinct : (d : ℕ) → IsDistinct (l d)) (old_dir new_dir n : ℕ)
    (outside : ¬ IsAtOrBelow l new_dir n) where
  abbrev moved : ℕ → List ℕ
  moved = with_child new_dir n (without_child old_dir n l)

  was_child : (x d : ℕ) → member x (without_child old_dir n l d) ≡ true → member x (l d) ≡ true
  was_child x d m = elim (Bool-cases (d == old_dir)) [
    | inl e ↦
        let there : member x (remove n (l d)) ≡ true =
          subst (λ (b : Bool). member x (if b then remove n (l d) else l d) ≡ true) e m in
        let split = member-remove n x (l d) (distinct d) in ground arith
    | inr e ↦ subst (λ (b : Bool). member x (if b then remove n (l d) else l d) ≡ true) e m
  ]

  -- A child behind the move was one before, or is the moved node.
  moved_child :
      (x d : ℕ) → member x (moved d) ≡ true → ((x ≡ n) × (d ≡ new_dir)) ⊎ (member x (l d) ≡ true)
  moved_child x d m = elim (Bool-cases (d == new_dir)) [
    | inl e ↦
        let there : (x == n || member x (without_child old_dir n l d)) ≡ true =
          subst
            (λ (b : Bool).
              member x (if b then n ∷ without_child old_dir n l d else without_child old_dir n l d)
              ≡ true)
            e m in
        elim (Bool-cases (x == n)) [
          | inl q ↦ inl (is_eq x n q, is_eq d new_dir e)
          | inr q ↦ inr (was_child x d (ground arith))
        ]
    | inr e ↦ inr (
        was_child x d (
          subst
            (λ (b : Bool).
              member x (if b then n ∷ without_child old_dir n l d else without_child old_dir n l d)
              ≡ true)
            e m))
  ]

  -- The ways below a node behind the move: those of before, and those through the moved node.
  moved-IsBelow :
      (x d : ℕ) → IsBelow moved x d → IsBelow l x d ⊎ (IsAtOrBelow l x n × IsAtOrBelow l new_dir d)
  moved-IsBelow x d (child m) = elim (moved_child x d m) [
    | inl (a, b) ↦ inr (inl a, inl (sym b))
    | inr k ↦ inl (child k)
  ]
  moved-IsBelow x d (deeper c b m) = elim (moved_child c d m) [
    | inl (a, e) ↦ elim (moved-IsBelow x c b) [
      | inl k ↦ inr (inr (subst (IsBelow l x) a k), inl (sym e))
      | inr (k, o) ↦ absurd (outside (subst (IsAtOrBelow l new_dir) a o))
    ]
    | inr k ↦ elim (moved-IsBelow x c b) [
      | inl k' ↦ inl (deeper c k' k)
      | inr (a, o) ↦ inr (a, further c d o k)
    ]
  ]
    where
      further :
          (c d : ℕ) → IsAtOrBelow l new_dir c → member c (l d) ≡ true → IsAtOrBelow l new_dir d
      further c d (inl e) k = inr (child (subst (λ z. member z (l d) ≡ true) (sym e) k))
      further c d (inr b) k = inr (deeper c b k)

  join : (x : ℕ) → IsAtOrBelow l new_dir x → IsAtOrBelow l x n → IsAtOrBelow l new_dir n
  join x (inl e) b = subst (λ z. IsAtOrBelow l z n) (sym e) b
  join x (inr a) (inl e) = inr (subst (IsBelow l new_dir) e a)
  join x (inr a) (inr b) = inr (through x n a b)
    where
      through : (x d : ℕ) → IsBelow l new_dir x → IsBelow l x d → IsBelow l new_dir d
      through x d a (child m) = deeper x a m
      through x d a (deeper c b m) = deeper c (through x c a b) m

  -- A move to a directory that is not the moved node and not below it leaves no cycle.
  pub moved-IsAcyclic : IsAcyclic l → IsAcyclic moved
  moved-IsAcyclic f x b = elim (moved-IsBelow x x b) [
    | inl k ↦ f x k
    | inr (a, o) ↦ outside (join x o a)
  ]
