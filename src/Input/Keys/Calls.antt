-- ===== src/Input/Keys/Calls.antt =====
-- The calls on a keyboard: keys, scan codes, repetition, registration.
use rhkernel.Prelude.{
  ℕ, bit_and, bit_or, Bool, true, false, not, ◌&&◌, ◌||◌, ltb, ◌==◌, if◌then◌else◌,
}
use rhkernel.Input.{
  Event, EventRing, event_key, key_released, key_pressed, key_repeated, key_extended, add64,
  ring_push,
}
use rhkernel.Input.Keys.{
  repeat_delay_ticks, repeat_period_ticks, key_max_code, not32, key_is_down, key_set_down,
  translated_char, update_modifier, Keyboard,
}

unfoldable pub key_event : Keyboard → ℕ → ℕ → ℕ → Event
key_event kbd code value text = record {
  sequence = 0;
  kind = event_key;
  device = kbd.index;
  code = code;
  value = value;
  modifiers = kbd.modifiers;
  text = text;
  reserved = 0;
}

-- The event goes to the ring of the keyboard and to that of all keyboards.
unfoldable pub kbd_push_key_event : ℕ → ℕ → ℕ → Keyboard × EventRing → Keyboard × EventRing
kbd_push_key_event code value text (kbd, all) =
    let event = key_event kbd code value text in
    (record kbd { events = ring_push event kbd.events }, ring_push event all)

unfoldable pub stop_repeat : Keyboard → Keyboard
stop_repeat kbd = record kbd {
  repeat_active = false;
  repeat_code = 0;
  repeat_text = 0;
  repeat_next_tick = 0;
}

-- The branch on the repetition in `kbd_handle_key`.
unfoldable pub set_repeat : ℕ → ℕ → Bool → ℕ → Keyboard → Keyboard
set_repeat now code pressed text kbd =
    if pressed && not (text == 0)
    then record kbd {
      repeat_code = code;
      repeat_text = text;
      repeat_next_tick = add64 now repeat_delay_ticks;
      repeat_active = true;
    }
    else if not pressed && kbd.repeat_active && kbd.repeat_code == code
    then stop_repeat kbd
    else kbd

-- The code of `kbd_handle_key` below its returns.
unfoldable pub change_key : ℕ → ℕ → Bool → ℕ → Keyboard × EventRing → Keyboard × EventRing
change_key now code pressed text (kbd, all) =
    let out_text =
      if pressed then (if text == 0 then translated_char code kbd.modifiers else text) else 0 in
    let changed = key_set_down code pressed (update_modifier code pressed kbd) in
    kbd_push_key_event code (if pressed then key_pressed else key_released) out_text
      (set_repeat now code pressed out_text changed, all)

-- `now` is kernel_monotonic_ticks().
unfoldable pub kbd_handle_key : ℕ → ℕ → Bool → ℕ → Keyboard × EventRing → Keyboard × EventRing
kbd_handle_key now code pressed text (kbd, all) =
    let already_down = key_is_down kbd code in
    if not (bit_and code (not32 key_max_code) == 0) || not kbd.online
    then (kbd, all)
    else if (pressed && already_down) || (not pressed && not already_down)
    then (kbd, all)
    else change_key now code pressed text (kbd, all)

-- Two sections under the lock, one after the other.
unfoldable pub kbd_handle_scancode : ℕ → ℕ → Keyboard × EventRing → Keyboard × EventRing
kbd_handle_scancode now scancode (kbd, all) =
    let code = bit_and scancode 127 in
    let full = if kbd.e0 then bit_or code key_extended else code in
    let plain = record kbd { e0 = false } in
    if not kbd.online
    then (kbd, all)
    else if scancode == 224
    then (record kbd { e0 = true }, all)
    else if scancode == 225
    then (plain, all)
    else kbd_handle_key now full (bit_and scancode 128 == 0) 0 (plain, all)

unfoldable pub kbd_generate_one_repeat : ℕ → Keyboard × EventRing → Keyboard × EventRing
kbd_generate_one_repeat now (kbd, all) =
    let pushed = kbd_push_key_event kbd.repeat_code key_repeated kbd.repeat_text (kbd, all) in
    if not kbd.online || not kbd.repeat_active || ltb now kbd.repeat_next_tick
    then (kbd, all)
    else if key_is_down kbd kbd.repeat_code
    then (record pushed.0 { repeat_next_tick = add64 now repeat_period_ticks }, pushed.1)
    else (stop_repeat kbd, all)

unfoldable pub kbd_one_repeat_active : Keyboard → Bool
kbd_one_repeat_active kbd = kbd.online && kbd.repeat_active

unfoldable pub kbd_get_modifiers : Keyboard → ℕ
kbd_get_modifiers kbd = kbd.modifiers

-- INPUT_EVENT_DEVICE, INPUT_DEVICE_KEYBOARD, INPUT_DEVICE_ADDED and INPUT_DEVICE_REMOVED
abbrev pub event_device : ℕ
event_device = 2

abbrev pub device_keyboard : ℕ
device_keyboard = 1

abbrev pub device_added : ℕ
device_added = 1

abbrev pub device_removed : ℕ
device_removed = 2

unfoldable pub device_event : ℕ → Keyboard → Event
device_event value kbd = record {
  sequence = 0;
  kind = event_device;
  device = kbd.index;
  code = device_keyboard;
  value = value;
  modifiers = kbd.modifiers;
  text = 0;
  reserved = 0;
}

unfoldable pub emit_device_event : ℕ → Keyboard × EventRing → Keyboard × EventRing
emit_device_event value (kbd, all) =
    let event = device_event value kbd in
    (record kbd { events = ring_push event kbd.events }, ring_push event all)

-- The device that `kbd_register` sets up, up to its entry in `kbd_devices`.
unfoldable pub new_keyboard : ℕ → Keyboard
new_keyboard index = record {
  index = index;
  modifiers = 0;
  e0 = false;
  online = true;
  repeat_code = 0;
  repeat_text = 0;
  repeat_next_tick = 0;
  repeat_active = false;
  down = λ w. 0;
  events = record {
    events = λ i. record {
      sequence = 0;
      kind = 0;
      device = 0;
      code = 0;
      value = 0;
      modifiers = 0;
      text = 0;
      reserved = 0;
    };
    first = 0;
    next = 0;
  };
}

-- What `kbd_unregister` does to the keyboard and the rings.
unfoldable pub take_offline : Keyboard × EventRing → Keyboard × EventRing
take_offline (kbd, all) =
    if kbd.online
    then emit_device_event device_removed (record kbd { online = false }, all)
    else (kbd, all)
