-- ===== src/Prelude/Loops.antt =====
-- The loops of the source: `while`, and a loop whose body may return early, each with the rule
-- that an invariant and a falling measure give.
use Prim.Native.Nat.{ℕ, zero, suc, ◌<◌}
use mathlib.Core.Path.{◌≡◌}
use mathlib.Core.Bool.{Bool, true, false}
use mathlib.Core.Logic.{inl, inr}
use native.Mathlib.Omega.{arith}
use rhkernel.Prelude.Tests.{Bool-cases, if◌then◌else◌}

-- `while (test) body`, for at most `fuel` rounds.
unfoldable pub while {ℓ} : {S : Type ℓ} (fuel : ℕ) (test : S → Bool) (body : S → S) → S → S
while zero test body s = s
while (suc fuel) test body s =
    let more = while fuel test body (body s) in if test s then more else s

module _ {ℓ κ} {S : Type ℓ} (Inv : S → Type κ) (rank : S → ℕ) (test : S → Bool) (body : S → S)
    (round : (s : S) → Inv s → test s ≡ true → Inv (body s) × (rank (body s) < rank s)) where
  -- The rank falls in each round, so a fuel above it lets the loop end by its own test.
  pub while_inv :
      (fuel : ℕ) (s : S)
      → rank s < fuel
      → Inv s
      → Inv (while fuel test body s) × (test (while fuel test body s) ≡ false)
  unfolding while
  while_inv zero s low h = absurd (omega arith)
  while_inv (suc fuel) s low h = elim (Bool-cases (test s)) [
    | inl e ↦ rw e (let r = round s h e in while_inv fuel (body s) (omega (arith, r.1)) r.0)
    | inr e ↦ rw e (h, e)
  ]

-- What a round of a loop with `return` and `break` does.
pub data Round {ℓ κ} (S : Type ℓ) (R : Type κ) : Type (ℓ ⊔ κ) where
  next : S → Round S R
  leave : R → Round S R

-- `while (test) body` with a body that may return. `next s` is the exit by the test, at `s`.
unfoldable pub return_while {ℓ κ} :
    {S : Type ℓ} {R : Type κ} → ℕ → (S → Bool) → (S → Round S R) → S → Round S R
return_while zero test body s = next s
return_while (suc fuel) test body s = elim (test s) [
  | true ↦ elim (body s) [ next t ↦ return_while fuel test body t | leave r ↦ leave r ]
  | false ↦ next s
]

-- The code below a loop, which is reached if the loop has not returned.
abbrev pub and_then {ℓ κ} : {S : Type ℓ} {R : Type κ} → Round S R → (S → R) → R
and_then (next s) rest = rest s
and_then (leave r) rest = r

-- The code between two loops.
abbrev pub then_loop {ℓ κ ν} :
    {S : Type ℓ} {T : Type ν} {R : Type κ} → Round S R → (S → Round T R) → Round T R
then_loop (next s) rest = rest s
then_loop (leave r) rest = leave r

-- `P` of the state at an exit, or `Q` of a returned value.
abbrev pub Exits {ℓ κ} :
    {S : Type ℓ} {R : Type κ} → (S → Type 0) → (R → Type 0) → Round S R → Type 0
Exits P Q (next s) = P s
Exits P Q (leave r) = Q r

-- What a round owes: the invariant at a smaller measure, or a result of which `Q` holds.
abbrev pub Advances {ℓ κ} :
    {S : Type ℓ} {R : Type κ} → (S → Type 0) → (R → Type 0) → (S → ℕ) → S → Round S R → Type 0
Advances P Q measure s (next t) = P t × (measure t < measure s)
Advances P Q measure s (leave r) = Q r

module _ {ℓ κ} {S : Type ℓ} {R : Type κ} (P : S → Type 0) (Q : R → Type 0) (measure : S → ℕ)
    (test : S → Bool) (body : S → Round S R)
    (keep : (s : S) → P s → test s ≡ true → Advances P Q measure s (body s)) where
  abbrev Kept : Round S R → Type 0
  Kept = Exits (λ s. P s × (test s ≡ false)) Q

  after_round :
      (fuel : ℕ) (s : S)
      → measure s < suc fuel
      → ((t : S) → measure t < fuel → P t → Kept (return_while fuel test body t))
      → (r : Round S R) → Advances P Q measure s r
      → Kept (elim r [ next t ↦ return_while fuel test body t | leave x ↦ leave x ])
  after_round fuel s m rest (next t) a = rest t (omega arith) a.0
  after_round fuel s m rest (leave x) a = a

  -- With a measure below the fuel the loop exits by its test or returns.
  pub return_while_inv :
      (fuel : ℕ) (s : S) → measure s < fuel → P s → Kept (return_while fuel test body s)
  unfolding return_while
  return_while_inv zero s m h = absurd (omega arith)
  return_while_inv (suc fuel) s m h = elim (Bool-cases (test s)) [
    | inl e ↦
        rw (e, return_while)
          (after_round fuel s m (λ t p q. return_while_inv fuel t p q) (body s) (keep s h e))
    | inr e ↦ rw (e, return_while) (h, e)
  ]

-- The rules for the code that follows.
pub and_then-Q {ℓ κ} :
    {S : Type ℓ} {R : Type κ} (P : S → Type 0) (Q : R → Type 0) (r : Round S R) (rest : S → R)
    → Exits P Q r
    → ((s : S) → P s → Q (rest s))
    → Q (and_then r rest)
and_then-Q P Q (next s) rest h k = k s h
and_then-Q P Q (leave x) rest h k = h

pub then_loop-Exits {ℓ κ ν} :
    {S : Type ℓ} {T : Type ν} {R : Type κ} (P : S → Type 0) (P' : T → Type 0) (Q : R → Type 0)
    (r : Round S R) (rest : S → Round T R)
    → Exits P Q r
    → ((s : S) → P s → Exits P' Q (rest s))
    → Exits P' Q (then_loop r rest)
then_loop-Exits P P' Q (next s) rest h k = k s h
then_loop-Exits P P' Q (leave x) rest h k = h
