-- ===== src/Input/Ring.antt =====
-- The ring holds the last 512 events, and a reader gets them in order.
use rhkernel.Prelude.{
  ℕ, zero, suc, ◌+◌, ◌-◌, ◌%◌, ◌<◌, ◌≤◌, ◌≡◌, refl, sym, ap, ◌∙◌, true, false, ◌==◌, List, [], ◌∷◌,
  ◌++◌, length, get_or, length-append, arith, Bool-cases, inl, inr,
}
use rhkernel.Prelude.{ap₂, ◌≢◌}
use rhkernel.Input.{Event, EventRing, ring_push}

abbrev pub blank : Event
blank = record {
  sequence = 0;
  kind = 0;
  device = 0;
  code = 0;
  value = 0;
  modifiers = 0;
  text = 0;
  reserved = 0;
}

-- The event that was pushed as number `i`, with that number.
abbrev pub numbered : List Event → ℕ → Event
numbered log i = record (get_or log i blank) { sequence = i }

-- A ring to which the events of `log` have been pushed.
pub record IsRing (ring : EventRing) (log : List Event) : Type 0 where
  pub next : ring.next ≡ length log
  pub first : ring.first ≡ length log - 512
  pub kept : (i : ℕ) → ring.first ≤ i → i < ring.next → ring.events (i % 512) ≡ numbered log i

pub get_or-before :
    (log : List Event) (e : Event) (i : ℕ)
    → i < length log
    → get_or (log ++ (e ∷ [])) i blank ≡ get_or log i blank
get_or-before [] e i h = absurd (omega arith)
get_or-before (x ∷ xs) e zero h = refl
get_or-before (x ∷ xs) e (suc i) h = get_or-before xs e i (omega arith)

get_or-last : (log : List Event) (e : Event) → get_or (log ++ (e ∷ [])) (length log) blank ≡ e
get_or-last [] e = refl
get_or-last (x ∷ xs) e = get_or-last xs e

-- Below 2^64 events a push appends to the log, and only the event 512 places before it is lost.
pub ring_push-IsRing :
    (event : Event) (ring : EventRing) (log : List Event)
    → IsRing ring log
    → length log < 18446744073709551615
    → IsRing (ring_push event ring) (log ++ (event ∷ []))
unfolding ring_push
ring_push-IsRing event ring log h l = record {
  next = ground (arith, h.next, longer);
  first = ground (arith, h.next, h.first, longer);
  kept = kept;
}
  where
    longer : length (log ++ (event ∷ [])) ≡ length log + 1
    longer = length-append log (event ∷ [])

    -- The places of the new event and of an event that is kept differ.
    apart : (i n first : ℕ) → i ≢ n → i < n + 1 → n + 1 - 512 ≤ i → (i % 512 == n % 512) ≡ false
    apart i n first d a b = ground arith

    newest :
        (i : ℕ)
        → i ≡ length log
        → record event { sequence = ring.next } ≡ numbered (log ++ (event ∷ [])) i
    newest i e =
        ap₂ (λ (x : Event) (k : ℕ). record x { sequence = k })
          (sym (ap (λ k. get_or (log ++ (event ∷ [])) k blank) e ∙ get_or-last log event))
          (h.next ∙ sym e)

    older : (i : ℕ) → i < length log → numbered log i ≡ numbered (log ++ (event ∷ [])) i
    older i b = ap (λ (x : Event). record x { sequence = i }) (sym (get_or-before log event i b))

    kept :
        (i : ℕ)
        → (ring_push event ring).first ≤ i
        → i < (ring_push event ring).next
        → (ring_push event ring).events (i % 512) ≡ numbered (log ++ (event ∷ [])) i
    kept i f n =
        let low : length log + 1 - 512 ≤ i = ground (arith, h.next, h.first, f) in
        let high : i < length log + 1 = ground (arith, h.next, n) in
        elim (Bool-cases (i == length log)) [
          | inl q ↦
              let e : i ≡ length log = ground arith in
              let same : (i % 512 == ring.next % 512) ≡ true = ground (arith, h.next, e) in
              rw same (newest i e)
          | inr q ↦
              let b : i < length log = ground arith in
              let other : (i % 512 == ring.next % 512) ≡ false =
                apart i ring.next 0 (ground (arith, h.next)) (omega (arith, h.next))
                  (omega (arith, h.next)) in
              rw other (h.kept i (omega (arith, h.first)) (omega (arith, h.next)) ∙ older i b)
        ]
