-- ===== src/Input/Keys/Codes.antt =====
-- The log of a keyboard by the codes of its keys, where no two codes share a slot.
use rhkernel.Prelude.{
  ℕ, ◌≡◌, ◌<◌, ◌≤◌, refl, sym, subst, ◌∙◌, Bool, true, not, ◌&&◌, ◌==◌, if◌then◌else◌, List, [],
  ◌∷◌, length, arith, Bool-cases, inl, inr,
}
use rhkernel.Prelude.Links.Remove.{is_eq}
use rhkernel.Input.{Event, EventRing, event_key, key_pressed, key_repeated}
use rhkernel.Input.Keys.{Keyboard}
use rhkernel.Input.Keys.Slots.{slot_of}
use rhkernel.Input.Keys.Held.{IsLegal, IsKeyboard, Alternates, after, none_down}
use rhkernel.Input.Keys.Runs.{Reach, Reach-Fits}

-- The codes that are down after an event.
abbrev pub after_code : Event → (ℕ → Bool) → ℕ → Bool
after_code event down code =
    if event.kind == event_key && not (event.value == key_repeated) && code == event.code
    then event.value == key_pressed
    else down code

-- A press is of a code that is up, a release or a repetition of one that is down.
abbrev pub CodesAlternate : (ℕ → Bool) → List Event → Type 0
CodesAlternate down [] = Unit
CodesAlternate down (event ∷ log) =
    (event.kind == event_key ≡ true → down event.code ≡ not (event.value == key_pressed))
    × CodesAlternate (after_code event down) log

-- The codes of the keys in a log are among those that `used` has.
abbrev pub CodesIn : (ℕ → Bool) → List Event → Type 0
CodesIn used [] = Unit
CodesIn used (event ∷ log) =
    (event.kind == event_key ≡ true → used event.code ≡ true) × CodesIn used log

-- No two codes that are used have one slot.
abbrev pub IsApart : (ℕ → Bool) → Type 0
IsApart used = (a b : ℕ) → used a ≡ true → used b ≡ true → slot_of a ≡ slot_of b → a ≡ b

module _ (used : ℕ → Bool) (apart : IsApart used) where
  same_test :
      (c code : ℕ) → used c ≡ true → used code ≡ true → (slot_of c == slot_of code) ≡ (c == code)
  same_test c code u v = elim (Bool-cases (c == code)) [
    | inl e ↦ rw (is_eq c code e) (same (slot_of code) ∙ sym (same code))
    | inr e ↦ elim (Bool-cases (slot_of c == slot_of code)) [
      | inr f ↦ f ∙ sym e
      | inl f ↦
          let equal : c ≡ code = apart c code u v (is_eq (slot_of c) (slot_of code) f) in
          absurd (ground (arith, equal, e))
    ]
  ]
    where
      same : (a : ℕ) → (a == a) ≡ true
      same a = ground arith

  Alternates-codes :
      (log : List Event) (slots codes : ℕ → Bool)
      → ((c : ℕ) → used c ≡ true → codes c ≡ slots (slot_of c))
      → CodesIn used log
      → Alternates slots log
      → CodesAlternate codes log
  Alternates-codes [] slots codes same inside legal = tt
  Alternates-codes (event ∷ log) slots codes same inside legal = (
    λ k. same event.code (inside.0 k) ∙ legal_key k legal.0,
    Alternates-codes log (after event slots) (after_code event codes) step inside.1 legal.1,
  )
    where
      legal_key :
          event.kind == event_key ≡ true
          → IsLegal slots event
          → slots (slot_of event.code) ≡ not (event.value == key_pressed)
      legal_key k =
          subst
            (λ b.
              (if b then slots (slot_of event.code) ≡ not (event.value == key_pressed) else Unit)
              → slots (slot_of event.code) ≡ not (event.value == key_pressed))
            (sym k) (λ h. h)

      step : (c : ℕ) → used c ≡ true → after_code event codes c ≡ after event slots (slot_of c)
      step c u = elim (Bool-cases (event.kind == event_key)) [
        | inl k ↦ rw (k, same_test c event.code u (inside.0 k), same c u) refl
        | inr k ↦ rw (k, same c u) refl
      ]

-- The keyboard fits a log of `n` events at most, in which the codes alternate if none share a slot.
abbrev pub Keyed : ℕ → Keyboard × EventRing → Type 0
Keyed n (kbd, all) =
    (log : List Event) × IsKeyboard kbd log
    × (length log ≤ n)
    × ((used : ℕ → Bool) → IsApart used → CodesIn used log → CodesAlternate none_down log)

-- After fewer than 2^64 calls on a keyboard, its ring holds the last events of a log in which presses and releases of each slot
-- alternate and a slot is repeated while it is down, and the slots that the log leaves down are those that the keyboard has as
-- down. Codes of the same seven low bits and the same extended bit have one slot; in a log without two such codes, presses and
-- releases of each code alternate and a code is repeated while it is down.
pub Reach-Keyed :
    {n : ℕ} {x : Keyboard × EventRing} → Reach n x → n < 18446744073709551616 → Keyed n x
Reach-Keyed {n} {x} r u =
    let f = Reach-Fits r u in
    (
      f.0,
      f.1,
      f.2,
      λ used apart inside.
          Alternates-codes used apart f.0 none_down none_down (λ c h. refl) inside f.1.alternates,
    )
