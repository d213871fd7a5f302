-- ===== src/Input/Keys/Held.antt =====
-- The slots of keys that a log of events leaves down, and the logs in which presses and releases of each slot alternate.
use rhkernel.Prelude.{
  ℕ, ◌<◌, ◌≡◌, refl, sym, ap, fun_ext, subst, ◌∙◌, Bool, false, not, ◌&&◌, ◌==◌, if◌then◌else◌,
  List, [], ◌∷◌, ◌++◌, length,
}
use rhkernel.Input.{Event, event_key, key_pressed, key_repeated, ring_push}
use rhkernel.Input.Ring.{IsRing, ring_push-IsRing}
use rhkernel.Input.Keys.{Keyboard}
use rhkernel.Input.Keys.Slots.{slot_of, slot_test}

-- The slots that are down after an event.
abbrev pub after : Event → (ℕ → Bool) → ℕ → Bool
after event down slot =
    if event.kind == event_key && not (event.value == key_repeated) && slot == slot_of event.code
    then event.value == key_pressed
    else down slot

abbrev pub held : List Event → (ℕ → Bool) → ℕ → Bool
held [] down = down
held (event ∷ log) down = held log (after event down)

-- A press is of a slot that is up, a release or a repetition of one that is down.
abbrev pub IsLegal : (ℕ → Bool) → Event → Type 0
IsLegal down event =
    if event.kind == event_key
    then down (slot_of event.code) ≡ not (event.value == key_pressed)
    else Unit

abbrev pub Alternates : (ℕ → Bool) → List Event → Type 0
Alternates down [] = Unit
Alternates down (event ∷ log) = IsLegal down event × Alternates (after event down) log

abbrev pub none_down : ℕ → Bool
none_down slot = false

held-append :
    (log : List Event) (event : Event) (down : ℕ → Bool)
    → held (log ++ (event ∷ [])) down ≡ after event (held log down)
held-append [] event down = refl
held-append (x ∷ log) event down = held-append log event (after x down)

Alternates-append :
    (log : List Event) (event : Event) (down : ℕ → Bool)
    → Alternates down log
    → IsLegal (held log down) event
    → Alternates down (log ++ (event ∷ []))
Alternates-append [] event down h l = (l, tt)
Alternates-append (x ∷ log) event down h l = (h.0, Alternates-append log event (after x down) h.1 l)

-- A keyboard that has pushed the events of `log`.
pub record IsKeyboard (kbd : Keyboard) (log : List Event) : Type 0 where
  pub ring : IsRing kbd.events log
  pub keys : (slot : ℕ) → slot_test kbd.down slot ≡ held log none_down slot
  pub alternates : Alternates none_down log

-- One more event.
pub push-IsKeyboard :
    (event : Event) (kbd kbd' : Keyboard) (log : List Event)
    → IsKeyboard kbd log
    → length log < 18446744073709551615
    → IsLegal (slot_test kbd.down) event
    → kbd'.events ≡ ring_push event kbd.events
    → ((slot : ℕ) → slot_test kbd'.down slot ≡ after event (slot_test kbd.down) slot)
    → IsKeyboard kbd' (log ++ (event ∷ []))
push-IsKeyboard event kbd kbd' log h l legal e k =
    let same : slot_test kbd.down ≡ held log none_down = fun_ext h.keys in
    record {
      ring =
          subst (λ r. IsRing r (log ++ (event ∷ []))) (sym e)
            (ring_push-IsRing event kbd.events log h.ring l);
      keys = λ slot.
          k slot
          ∙ ap (λ d. after event d slot) same
          ∙ sym (ap (λ d. d slot) (held-append log event none_down));
      alternates =
          Alternates-append log event none_down h.alternates
            (subst (λ d. IsLegal d event) same legal);
    }
