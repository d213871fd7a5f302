-- ===== src/Kernel/Completion/Runs.antt =====
-- No wake-up is lost: a task that waits and is not in the completion is about to be woken.
use rhkernel.Prelude.{
  ℕ, zero, suc, ◌≡◌, ◌⊎◌, refl, sym, ap, subst, ◌∙◌, Bool, true, false, ◌||◌, ◌==◌, if◌then◌else◌,
  Option, none, some, List, [], ◌∷◌, length, arith, Bool-cases, inl, inr, next, leave,
}
use rhkernel.Prelude.Int.{pos, negsuc}
use rhkernel.Kernel.Completion.{
  Completion, World, kernel_completion_init, kernel_completion_reset, kernel_completion_signal,
  wake_next, wait_round, behind,
}

-- The steps of a program in which the task `t` alone waits, waits again only when it is not blocked, and the completion is reset only
-- when `t` is not blocked.
pub data Step (t : ℕ) (s : World) : World → Type 0 where
  signalled : Step t s (kernel_completion_signal s)
  woken : Step t s (wake_next s)
  waited : s.blocked t ≡ false → Step t s (behind (wait_round (some t) s))
  refused : Step t s (behind (wait_round none s))
  reset : s.blocked t ≡ false → Step t s (kernel_completion_reset s)

abbrev pub initial : Bool → World
initial done = record { completion = kernel_completion_init done; blocked = λ t. false; wakes = [] }

pub data Reach (t : ℕ) : World → Type 0 where
  begun : (done : Bool) → Reach t (initial done)
  step : {s s' : World} → Reach t s → Step t s s' → Reach t s'

abbrev pub member : ℕ → List ℕ → Bool
member x [] = false
member x (y ∷ ys) = x == y || member x ys

abbrev pub IsWaiter : ℕ → Completion → Type 0
IsWaiter t c = (c.done ≡ false) × (c.waiter ≡ some t)

-- A task is not blocked, or the waiter of a completion that is not done, or one of those that are to be woken.
abbrev pub IsAwaited : ℕ → World → Type 0
IsAwaited t s = (s.blocked t ≡ false) ⊎ (IsWaiter t s.completion ⊎ (member t s.wakes ≡ true))

or_true : (a : Bool) → (a || true) ≡ true
or_true true = refl
or_true false = refl

module _ (t : ℕ) (s : World) (h : IsAwaited t s) where
  signalled_by :
      (o : Option ℕ)
      → s.completion.waiter ≡ o
      → (s.blocked t ≡ false)
        ⊎ (member t (elim o [ none ↦ s.wakes | some task ↦ task ∷ s.wakes ]) ≡ true)
  signalled_by none e = elim h [
    | inl f ↦ inl f
    | inr (inl (d, w)) ↦ absurd cc
    | inr (inr m) ↦ inr m
  ]
  signalled_by (some x) e = elim h [
    | inl f ↦ inl f
    | inr (inl (d, w)) ↦ let same : some x ≡ some t = sym e ∙ w in inr (ground (arith, same))
    | inr (inr m) ↦ inr (rw m (or_true (t == x)))
  ]

  signalled-IsAwaited : IsAwaited t (kernel_completion_signal s)
  unfolding kernel_completion_signal
  signalled-IsAwaited = elim (signalled_by s.completion.waiter refl) [
    | inl f ↦ inl f
    | inr m ↦ inr (inr m)
  ]

  woken_by :
      (ws : List ℕ)
      → s.wakes ≡ ws
      → IsAwaited t (elim ws [
        | [] ↦ s
        | task ∷ rest ↦ record s {
          wakes = rest;
          blocked = λ x. if x == task then false else s.blocked x;
        }
      ])
  woken_by [] e = h
  woken_by (task ∷ rest) e = elim (Bool-cases (t == task)) [
    | inl q ↦ inl (rw q refl)
    | inr q ↦ elim h [
      | inl f ↦ inl (rw q f)
      | inr (inl w) ↦ inr (inl w)
      | inr (inr m) ↦
          inr (inr (subst (λ b. (b || member t rest) ≡ true) q (ap (member t) (sym e) ∙ m)))
    ]
  ]

  woken-IsAwaited : IsAwaited t (wake_next s)
  unfolding wake_next
  woken-IsAwaited = woken_by s.wakes refl

  -- A wait that finds the completion done, blocks `t`, or is refused.
  round_by :
      (current : Option ℕ) (b : Bool)
      → s.completion.done ≡ b
      → (current ≡ some t) ⊎ (current ≡ none)
      → IsAwaited t (
          behind (
            if b
            then leave (record s { completion = record { done = false; waiter = none } }, pos 0)
            else elim current [
              | none ↦ leave (s, negsuc 1)
              | some task ↦ next (record s {
                completion = record s.completion { waiter = some task };
                blocked = λ x. if x == task then true else s.blocked x;
              })
            ]))
  round_by current true e c = elim h [
    | inl f ↦ inl f
    | inr (inl (d, w)) ↦ absurd cc
    | inr (inr m) ↦ inr (inr m)
  ]
  round_by none false e c = h
  round_by (some x) false e (inl q) = inr (inl (e, q))
  round_by (some x) false e (inr q) = absurd cc

  reset-IsAwaited : s.blocked t ≡ false → IsAwaited t (kernel_completion_reset s)
  unfolding kernel_completion_reset
  reset-IsAwaited f = inl f

  waited-IsAwaited :
      (current : Option ℕ)
      → (current ≡ some t) ⊎ (current ≡ none)
      → IsAwaited t (behind (wait_round current s))
  unfolding wait_round
  waited-IsAwaited current c = round_by current s.completion.done refl c

-- In every run of signals, wake-ups, waits of one task, and resets while that task is not blocked, the task is, whenever it is
-- blocked, the waiter of a completion that is not done, or about to be woken: no signal is lost between its test and its sleep.
pub Reach-IsAwaited : {t : ℕ} {s : World} → Reach t s → IsAwaited t s
Reach-IsAwaited (begun done) = inl refl
Reach-IsAwaited {t} (step r signalled) = signalled-IsAwaited t _ (Reach-IsAwaited r)
Reach-IsAwaited {t} (step r woken) = woken-IsAwaited t _ (Reach-IsAwaited r)
Reach-IsAwaited {t} (step r (waited f)) =
    waited-IsAwaited t _ (Reach-IsAwaited r) (some t) (inl refl)
Reach-IsAwaited {t} (step r refused) = waited-IsAwaited t _ (Reach-IsAwaited r) none (inr refl)
Reach-IsAwaited {t} (step r (reset f)) = reset-IsAwaited t _ (Reach-IsAwaited r) f

-- All the calls of `wake` that are due.
abbrev pub wake_all : ℕ → World → World
wake_all zero s = s
wake_all (suc n) s = wake_all n (wake_next s)

abbrev next_world : ℕ → List ℕ → World → World
next_world task rest s = record s {
  wakes = rest;
  blocked = λ x. if x == task then false else s.blocked x;
}

wake_next-cons :
    (task : ℕ) (rest : List ℕ) (s : World)
    → s.wakes ≡ task ∷ rest
    → wake_next s ≡ next_world task rest s
unfolding wake_next
wake_next-cons task rest s e =
    ap (λ ws. elim ws [ [] ↦ s | task ∷ rest ↦ next_world task rest s ]) e

twice :
    (a b o : Bool) → (if b then false else if a then false else o) ≡ (if a || b then false else o)
twice true true o = refl
twice true false o = refl
twice false true o = refl
twice false false o = refl

wake_all-Woken :
    (ws : List ℕ) (s : World)
    → s.wakes ≡ ws
    → (t : ℕ)
    → ((wake_all (length ws) s).blocked t ≡ (if member t ws then false else s.blocked t))
      × ((wake_all (length ws) s).completion ≡ s.completion)
wake_all-Woken [] s e t = (refl, refl)
wake_all-Woken (task ∷ rest) s e t =
    let r = wake_all-Woken rest (next_world task rest s) refl t in
    subst
      (λ w.
        ((wake_all (length rest) w).blocked t
          ≡ (if t == task || member t rest then false else s.blocked t))
        × ((wake_all (length rest) w).completion ≡ s.completion))
      (sym (wake_next-cons task rest s e))
      (r.0 ∙ twice (t == task) (member t rest) (s.blocked t), r.1)

wait_round-done :
    (current : Option ℕ) (s : World)
    → s.completion.done ≡ true
    → wait_round current s
      ≡ leave (record s { completion = record { done = false; waiter = none } }, pos 0)
unfolding wait_round
wait_round-done current s e =
    ap
      (λ b.
        if b
        then leave (record s { completion = record { done = false; waiter = none } }, pos 0)
        else elim current [
          | none ↦ leave (s, negsuc 1)
          | some task ↦ next (record s {
            completion = record s.completion { waiter = some task };
            blocked = λ t. if t == task then true else s.blocked t;
          })
        ])
      e

signal_done : (s : World) → (kernel_completion_signal s).completion.done ≡ true
unfolding kernel_completion_signal
signal_done s = refl

same : (b : Bool) → (if b then false else false) ≡ false
same true = refl
same false = refl

-- A signal and the wake-ups that are then due.
abbrev pub signalled_and_woken : World → World
signalled_and_woken s =
    let signalled = kernel_completion_signal s in wake_all (length signalled.wakes) signalled

-- In every run in which one task waits and the completion is reset only while that task is not blocked, after a signal and
-- the wake-ups that are due the task is not blocked, and its next round answers 0 and uses the signal up.
pub kernel_completion_signal-wakes :
    (t : ℕ) (s : World)
    → Reach t s
    → ((signalled_and_woken s).blocked t ≡ false)
      × (wait_round (some t) (signalled_and_woken s)
          ≡ leave (
            record (signalled_and_woken s) { completion = record { done = false; waiter = none } },
            pos 0,
          ))
kernel_completion_signal-wakes t s r =
    let signal = kernel_completion_signal s in
    let w = wake_all-Woken signal.wakes signal refl t in
    (
      w.0 ∙ unblocked (Reach-IsAwaited (step r signalled)),
      wait_round-done (some t) (signalled_and_woken s) (ap (λ c. c.done) w.1 ∙ signal_done s),
    )
  where
    unblocked :
        IsAwaited t (kernel_completion_signal s)
        → (if member t (kernel_completion_signal s).wakes
            then false
            else (kernel_completion_signal s).blocked t)
          ≡ false
    unblocked (inl f) = rw f (same (member t (kernel_completion_signal s).wakes))
    unblocked (inr (inl w)) = let d = sym (signal_done s) ∙ w.0 in absurd cc
    unblocked (inr (inr m)) = rw m refl
