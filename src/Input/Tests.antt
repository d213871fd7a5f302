-- ===== src/Input/Tests.antt =====
-- The theorems on module/kbd_core/src/kbd_core.c at concrete inputs, and small runs of the code.
use rhkernel.Prelude.{◌≡◌, refl, true, none, List, [], ◌∷◌, length, ◌≤◌, arith}
use rhkernel.Input.{Event, EventRing, Reader, ring_push, pop_events}
use rhkernel.Input.Ring.{IsRing, blank, ring_push-IsRing}
use rhkernel.Input.Reading.{expected, pop_events-expected}
use rhkernel.Input.Keys.{Keyboard, translated_char, keymap}
use rhkernel.Input.Keys.Calls.{
  new_keyboard, emit_device_event, device_added, kbd_handle_key, kbd_handle_scancode,
}
use rhkernel.Input.Keys.Held.{IsKeyboard}
use rhkernel.Input.Keys.Handle.{Answered, accepted, kbd_handle_key-Answered}
use rhkernel.Input.Keys.Codes.{Keyed, Reach-Keyed}
use rhkernel.Input.Keys.Runs.{Step, Reach, Reach-Fits}

abbrev empty_ring : EventRing
empty_ring = record { events = λ i. blank; first = 0; next = 0 }

empty_ring-IsRing : IsRing empty_ring []
empty_ring-IsRing = record { next = refl; first = refl; kept = λ i a b. absurd (omega arith) }

abbrev typed : Event
typed = record blank { kind = 1; code = 30; value = 1; text = 97 }

typed-IsRing : IsRing (ring_push typed empty_ring) (typed ∷ [])
typed-IsRing = ring_push-IsRing typed empty_ring [] empty_ring-IsRing (omega arith)

ring_push-IsRing_example : IsRing (ring_push typed empty_ring) (typed ∷ [])
ring_push-IsRing_example = ring_push-IsRing typed empty_ring [] empty_ring-IsRing (omega arith)

abbrev fresh_reader : Reader
fresh_reader = record { keyboard = none; next = 0 }

pop_events-expected_example :
    pop_events 4 (ring_push typed empty_ring) fresh_reader ≡ expected (typed ∷ []) 4 fresh_reader
pop_events-expected_example =
    pop_events-expected (ring_push typed empty_ring) (typed ∷ []) typed-IsRing (omega arith) 4
      fresh_reader (omega arith)

abbrev fresh : Keyboard × EventRing
fresh = emit_device_event device_added (new_keyboard 0, empty_ring)

Reach-Keyed_example : Keyed 2 (kbd_handle_scancode 7 30 fresh)
Reach-Keyed_example =
    Reach-Keyed (Reach.step (Reach.registered 0 empty_ring) (Step.scanned 7 30)) (omega arith)

fresh-log : (log : List Event) × IsKeyboard fresh.0 log × (length log ≤ 1)
fresh-log = Reach-Fits (Reach.registered 0 empty_ring) (omega arith)

kbd_handle_key-Answered_example :
    Answered
      (accepted 30 true fresh.0)
      30
      1
      fresh.0
      fresh.1
      fresh-log.0
      (kbd_handle_key 7 30 true 0 fresh)
unfolding emit_device_event
kbd_handle_key-Answered_example =
    kbd_handle_key-Answered 7 30 true 0 fresh.0 fresh.1 fresh-log.0 fresh-log.1
      (omega (arith, fresh-log.2))

-- The key A gives "a", with Shift "A", and with Caps Lock the other case; the key 1 is not a letter.
letters :
    (translated_char 30 0 ≡ 97)
    × (translated_char 30 1 ≡ 65)
    × (translated_char 30 8 ≡ 65)
    × (translated_char 30 9 ≡ 97)
    × (translated_char 2 8 ≡ 49)
unfolding translated_char keymap
letters = (refl, refl, refl, refl, refl)
