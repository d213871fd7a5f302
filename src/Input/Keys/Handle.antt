-- ===== src/Input/Keys/Handle.antt =====
-- What the calls of a keyboard's driver and of its readers do to it, on every branch.
use rhkernel.Prelude.{
  ℕ, ◌<◌, ◌≡◌, refl, sym, ap, ◌∙◌, bit_and, Bool, true, false, not, ◌&&◌, ◌||◌, ◌==◌, if◌then◌else◌,
  List, [], ◌∷◌, ◌++◌, length, arith, Bool-cases, inl, inr,
}
use rhkernel.Input.{Event, EventRing, key_pressed, key_released, key_repeated, ring_push}
use rhkernel.Input.Keys.{
  Keyboard, key_max_code, not32, key_is_down, key_set_down, update_modifier, translated_char,
}
use rhkernel.Input.Keys.Calls.{
  key_event, kbd_push_key_event, stop_repeat, set_repeat, change_key, kbd_handle_key,
}
use rhkernel.Input.Keys.Slots.{
  slot_of, slot_test, key_is_down-slot, key_set_down-slot, key_set_down-test,
}
use rhkernel.Input.Keys.Held.{IsKeyboard, after, push-IsKeyboard}

-- One event with this code and value has gone to both rings, and the keyboard fits its longer log.
pub record Pushed (code value : ℕ) (kbd : Keyboard) (all : EventRing) (log : List Event)
    (kbd' : Keyboard) (all' : EventRing) : Type 0 where
  pub event : Event
  pub code_is : event.code ≡ code
  pub value_is : event.value ≡ value
  pub device_is : event.device ≡ kbd.index
  pub shape : IsKeyboard kbd' (log ++ (event ∷ []))
  pub copied : all' ≡ ring_push event all

-- A valid code, an online keyboard, and a key that is not yet as it is to be.
abbrev pub accepted : ℕ → Bool → Keyboard → Bool
accepted code pressed kbd =
    (bit_and code (not32 key_max_code) == 0)
    && kbd.online
    && (if pressed then not (key_is_down kbd code) else key_is_down kbd code)

abbrev pub value_of : Bool → ℕ
value_of pressed = if pressed then key_pressed else key_released

abbrev pub Answered :
    Bool → ℕ → ℕ → Keyboard → EventRing → List Event → Keyboard × EventRing → Type 0
Answered true code value kbd all log (kbd', all') = Pushed code value kbd all log kbd' all'
Answered false code value kbd all log x = x ≡ (kbd, all)

-- The repetition does not touch the keys and the events.
set_repeat-same :
    (now code : ℕ) (pressed : Bool) (text : ℕ) (kbd : Keyboard)
    → ((set_repeat now code pressed text kbd).down ≡ kbd.down)
      × ((set_repeat now code pressed text kbd).events ≡ kbd.events)
      × ((set_repeat now code pressed text kbd).index ≡ kbd.index)
unfolding set_repeat stop_repeat
set_repeat-same now code pressed text kbd = elim (Bool-cases (pressed && not (text == 0))) [
  | inl q ↦ rw (set_repeat, q) (refl, refl, refl)
  | inr q ↦ elim (Bool-cases (not pressed && kbd.repeat_active && kbd.repeat_code == code)) [
    | inl r ↦ rw (set_repeat, q, r) (refl, refl, refl)
    | inr r ↦ rw (set_repeat, q, r) (refl, refl, refl)
  ]
]

change_key-Pushed :
    (now code : ℕ) (pressed : Bool) (text : ℕ) (kbd : Keyboard) (all : EventRing) (log : List Event)
    → IsKeyboard kbd log
    → length log < 18446744073709551615
    → key_is_down kbd code ≡ not pressed
    → Answered true code
        (value_of pressed)
        kbd
        all
        log
        (change_key now code pressed text (kbd, all))
unfolding change_key kbd_push_key_event key_event update_modifier
change_key-Pushed now code pressed text kbd all log h l d = record {
  event = event;
  code_is = refl;
  value_is = refl;
  device_is = s.2 ∙ changed_same.0;
  shape =
      push-IsKeyboard event kbd (change_key now code pressed text (kbd, all)).0 log h l
        (sym (key_is_down-slot kbd code) ∙ d ∙ not_value pressed)
        (ap (ring_push event) (s.1 ∙ changed_same.1)) keys;
  copied = refl;
}
  where
    out_text : ℕ
    out_text =
        if pressed then (if text == 0 then translated_char code kbd.modifiers else text) else 0

    changed : Keyboard
    changed = key_set_down code pressed (update_modifier code pressed kbd)

    repeating : Keyboard
    repeating = set_repeat now code pressed out_text changed

    s :
        (repeating.down ≡ changed.down)
        × (repeating.events ≡ changed.events)
        × (repeating.index ≡ changed.index)
    s = set_repeat-same now code pressed out_text changed

    event : Event
    event = key_event repeating code (value_of pressed) out_text

    updated : Keyboard
    updated = update_modifier code pressed kbd

    changed_same : (changed.index ≡ kbd.index) × (changed.events ≡ kbd.events)
    changed_same = rw (key_set_down-slot code pressed updated) (refl, refl)

    not_value : (b : Bool) → not b ≡ not (value_of b == key_pressed)
    not_value true = refl
    not_value false = refl

    as_after :
        (b hit old : Bool)
        → (if hit then b else old)
          ≡ (if not (value_of b == key_repeated) && hit then value_of b == key_pressed else old)
    as_after true hit old = refl
    as_after false hit old = refl

    keys : (slot : ℕ) → slot_test repeating.down slot ≡ after event (slot_test kbd.down) slot
    keys slot =
        ap (λ w. slot_test w slot) s.0
        ∙ key_set_down-test code pressed updated slot
        ∙ as_after pressed (slot == slot_of code) (slot_test kbd.down slot)

-- `kbd_handle_key` pushes one event and changes the key, or does nothing.
pub kbd_handle_key-Answered :
    (now code : ℕ) (pressed : Bool) (text : ℕ) (kbd : Keyboard) (all : EventRing) (log : List Event)
    → IsKeyboard kbd log
    → length log < 18446744073709551615
    → Answered
        (accepted code pressed kbd)
        code
        (value_of pressed)
        kbd
        all
        log
        (kbd_handle_key now code pressed text (kbd, all))
unfolding kbd_handle_key
kbd_handle_key-Answered now code pressed text kbd all log h l =
    elim (Bool-cases (not (bit_and code (not32 key_max_code) == 0) || not kbd.online)) [
      | inl q ↦
          let a : accepted code pressed kbd ≡ false = ground arith in rw (kbd_handle_key, q, a) refl
      | inr q ↦
          elim (Bool-cases
            (pressed && key_is_down kbd code || not pressed && not (key_is_down kbd code))) [
              | inl r ↦
                  let a : accepted code pressed kbd ≡ false = ground arith in
                  rw (kbd_handle_key, q, r, a) refl
              | inr r ↦
                  let a : accepted code pressed kbd ≡ true = ground arith in
                  let d : key_is_down kbd code ≡ not pressed = ground arith in
                  rw (kbd_handle_key, q, r, a)
                    (change_key-Pushed now code pressed text kbd all log h l d)
            ]
    ]
