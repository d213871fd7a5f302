-- ===== src/Input/Reading.antt =====
-- What a reader of a ring gets: the events in order, and the number of those that it has missed.
use rhkernel.Prelude.{
  ℕ, zero, suc, ◌+◌, ◌-◌, ◌<◌, ◌≤◌, ◌≡◌, ◌⊎◌, refl, sym, ap, ◌∙◌, min, true, false, ltb, leb,
  if◌then◌else◌, Option, none, some, List, [], ◌∷◌, length, arith, Bool-cases, inl, inr,
}
use rhkernel.Input.{
  Event, EventRing, Reader, event_sync, sync_dropped, stream_aggregate, sub64, add64, dropped_event,
  ring_pop_one, pop_events,
}
use rhkernel.Input.Ring.{IsRing, numbered}

-- The record that stands for `missed` events before the event number `first`.
abbrev pub gap : Reader → ℕ → ℕ → Event
gap reader first missed = record {
  sequence = first;
  kind = event_sync;
  device = elim reader.keyboard [ none ↦ stream_aggregate | some index ↦ index ];
  code = sync_dropped;
  value = min 4294967295 missed;
  modifiers = 0;
  text = 0;
  reserved = 0;
}

-- The events of the numbers from `i` on, `n` of them.
abbrev pub segment : List Event → ℕ → ℕ → List Event
segment log zero i = []
segment log (suc n) i = numbered log i ∷ segment log n (i + 1)

-- What a reader at `at` gets into room for `n` events, and where it stands then.
abbrev pub in_order : List Event → ℕ → Reader → ℕ → Reader × List Event
in_order log n reader at =
    let k = min n (length log - at) in (record reader { next = at + k }, segment log k at)

abbrev prepend : Event → Reader × List Event → Reader × List Event
prepend event (reader, events) = (reader, event ∷ events)

-- The first event that the ring holds.
abbrev pub oldest : List Event → ℕ
oldest log = length log - 512

abbrev pub expected : List Event → ℕ → Reader → Reader × List Event
expected log n reader =
    if ltb reader.next (oldest log)
    then prepend (gap reader (oldest log) (oldest log - reader.next))
        (in_order log (n - 1) reader (oldest log))
    else in_order log n reader reader.next

in_order-empty :
    (log : List Event) (n : ℕ) (reader : Reader)
    → length log ≤ reader.next ⊎ n ≡ 0
    → in_order log n reader reader.next ≡ (reader, [])
in_order-empty log n reader h =
    let k : min n (length log - reader.next) ≡ 0 = none h in
    ap (λ (m : ℕ). (record reader { next = reader.next + m }, segment log m reader.next)) k
    ∙ ap (λ (m : ℕ). (record reader { next = m }, [])) (omega arith)
  where
    none : length log ≤ reader.next ⊎ n ≡ 0 → min n (length log - reader.next) ≡ 0
    none (inl h) = omega arith
    none (inr h) = omega arith

in_order-next :
    (log : List Event) (n : ℕ) (reader : Reader) (at : ℕ)
    → at < length log
    → in_order log (suc n) reader at ≡ prepend (numbered log at) (in_order log n reader (at + 1))
in_order-next log n reader at h =
    let k : min (suc n) (length log - at) ≡ suc (min n (length log - (at + 1))) = omega arith in
    ap (λ (m : ℕ). (record reader { next = at + m }, segment log m at)) k
    ∙ ap
        (λ (m : ℕ). (
          record reader { next = m },
          numbered log at ∷ segment log (min n (length log - (at + 1))) (at + 1),
        ))
        (omega arith)

-- A round of the loop behind its call.
abbrev pop_round : ℕ → EventRing → Reader × Option Event → Reader × List Event
pop_round n ring popped =
    let rest = pop_events n ring popped.0 in
    elim popped.1 [ none ↦ (popped.0, []) | some event ↦ (rest.0, event ∷ rest.1) ]

pop_events-some :
    (n : ℕ) (ring : EventRing) (reader reader' : Reader) (event : Event)
    → ring_pop_one ring reader ≡ (reader', some event)
    → pop_events (suc n) ring reader ≡ prepend event (pop_events n ring reader')
unfolding pop_events
pop_events-some n ring reader reader' event e = ap (pop_round n ring) e

pop_events-none :
    (n : ℕ) (ring : EventRing) (reader reader' : Reader)
    → ring_pop_one ring reader ≡ (reader', none)
    → pop_events (suc n) ring reader ≡ (reader', [])
unfolding pop_events
pop_events-none n ring reader reader' e = ap (pop_round n ring) e

module _ (ring : EventRing) (log : List Event) (h : IsRing ring log)
    (l : length log < 18446744073709551615) where
  pop-end :
      (reader : Reader)
      → oldest log ≤ reader.next
      → length log ≤ reader.next
      → ring_pop_one ring reader ≡ (reader, none)
  unfolding ring_pop_one
  pop-end reader a b =
      let ahead : ltb reader.next ring.first ≡ false = ground (arith, h.first) in
      let end : leb ring.next reader.next ≡ true = ground (arith, h.next) in
      rw (ring_pop_one, ahead, end) refl

  pop-next :
      (reader : Reader)
      → oldest log ≤ reader.next
      → reader.next < length log
      → ring_pop_one ring reader
        ≡ (record reader { next = reader.next + 1 }, some (numbered log reader.next))
  unfolding ring_pop_one
  pop-next reader a b =
      let ahead : ltb reader.next ring.first ≡ false = ground (arith, h.first) in
      let more : leb ring.next reader.next ≡ false = ground (arith, h.next) in
      let wrap : add64 reader.next 1 ≡ reader.next + 1 = omega arith in
      rw (ring_pop_one, ahead, more, wrap)
        (ap (λ e. (record reader { next = reader.next + 1 }, some e))
          (h.kept reader.next (omega (arith, h.first)) (omega (arith, h.next))))

  pop-behind :
      (reader : Reader)
      → reader.next < oldest log
      → ring_pop_one ring reader ≡ (
        record reader { next = oldest log },
        some (gap reader (oldest log) (oldest log - reader.next)),
      )
  unfolding ring_pop_one dropped_event
  pop-behind reader b =
      let behind : ltb reader.next ring.first ≡ true = ground (arith, h.first) in
      let lost : sub64 (oldest log) reader.next ≡ oldest log - reader.next = omega arith in
      rw (ring_pop_one, behind, h.first, lost)
        (ap
          (λ v. (
            record reader { next = oldest log },
            some (record (gap reader (oldest log) (oldest log - reader.next)) { value = v }),
          ))
          (capped (oldest log - reader.next)))
    where
      capped : (n : ℕ) → (if ltb 4294967295 n then 4294967295 else n) ≡ min 4294967295 n
      capped n = ground arith

  -- A reader that has not fallen behind.
  pop_events-in_order :
      (n : ℕ) (reader : Reader)
      → oldest log ≤ reader.next
      → pop_events n ring reader ≡ in_order log n reader reader.next
  unfolding pop_events
  pop_events-in_order zero reader a = sym (in_order-empty log 0 reader (inr refl))
  pop_events-in_order (suc n) reader a = elim (Bool-cases (leb (length log) reader.next)) [
    | inl q ↦
        pop_events-none n ring reader reader (pop-end reader a (ground arith))
        ∙ sym (in_order-empty log (suc n) reader (inl (ground arith)))
    | inr q ↦
        let next = record reader { next = reader.next + 1 } in
        pop_events-some n ring reader next (numbered log reader.next)
          (pop-next reader a (ground arith))
        ∙ ap (prepend (numbered log reader.next)) (pop_events-in_order n next (omega arith))
        ∙ sym (in_order-next log n reader reader.next (ground arith))
  ]

  -- A reader gets the events in order from where it stands, as many as there is room for; if events were dropped before
  -- it read them, it first gets their number.
  pub pop_events-expected :
      (n : ℕ) (reader : Reader) → 0 < n → pop_events n ring reader ≡ expected log n reader
  pop_events-expected zero reader p = absurd (omega arith)
  pop_events-expected (suc n) reader p = elim (Bool-cases (ltb reader.next (oldest log))) [
    | inl q ↦
        let first = record reader { next = oldest log } in
        rw q (
          pop_events-some n ring reader first (gap reader (oldest log) (oldest log - reader.next))
            (pop-behind reader (ground arith))
          ∙ ap (prepend (gap reader (oldest log) (oldest log - reader.next))) (
              pop_events-in_order n first (omega arith)
              ∙ ap (λ k. in_order log k first (oldest log)) (omega arith)))
    | inr q ↦ rw q (pop_events-in_order (suc n) reader (ground arith))
  ]
