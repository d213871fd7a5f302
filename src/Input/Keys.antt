-- ===== src/Input/Keys.antt =====
-- The keys and modifiers of one keyboard. `all` is the ring of all keyboards, kbd_all_events.
pub mod Slots
pub mod Calls
pub mod Held
pub mod Handle
pub mod Runs
pub mod Codes
use rhkernel.Prelude.{
  ℕ, zero, suc, ◌+◌, ◌-◌, ◌/◌, ◌%◌, ◌^◌, bit_and, bit_or, bit_xor, Bool, true, false, not, ◌&&◌,
  ◌||◌, ltb, leb, ◌==◌, if◌then◌else◌, Option, none, some, List, [], ◌∷◌,
}
use rhkernel.Input.{
  Event, EventRing, event_key, key_released, key_pressed, key_repeated, key_extended, add64,
  ring_push,
}

-- The fields of `struct kbd_device` beside its name, lock and queue of waiting tasks.
pub record Keyboard : Type 0 where
  pub index : ℕ
  pub modifiers : ℕ
  pub e0 : Bool
  pub online : Bool
  pub repeat_code : ℕ
  pub repeat_text : ℕ
  pub repeat_next_tick : ℕ
  pub repeat_active : Bool
  pub down : ℕ → ℕ
  pub events : EventRing

-- KBD_REPEAT_DELAY_TICKS, KBD_REPEAT_PERIOD_TICKS, INPUT_KEY_MAX_CODE and the modifiers
abbrev pub repeat_delay_ticks : ℕ
repeat_delay_ticks = 500

abbrev pub repeat_period_ticks : ℕ
repeat_period_ticks = 33

abbrev pub key_max_code : ℕ
key_max_code = 131071

abbrev pub mod_shift : ℕ
mod_shift = 1

abbrev pub mod_ctrl : ℕ
mod_ctrl = 2

abbrev pub mod_alt : ℕ
mod_alt = 4

abbrev pub mod_caps : ℕ
mod_caps = 8

-- `~x` of a `uint32_t`.
abbrev pub not32 : ℕ → ℕ
not32 x = 4294967295 - x

-- `none` is -1.
unfoldable pub key_slot : ℕ → Option ℕ
key_slot code =
    let base = bit_and code 127 in
    if leb 128 base
    then none
    else some (if bit_and code key_extended == 0 then base else 128 + base)

unfoldable pub key_is_down : Keyboard → ℕ → Bool
key_is_down kbd code = elim (key_slot code) [
  | none ↦ false
  | some slot ↦ not (bit_and (kbd.down (slot / 32)) (2 ^ (slot % 32)) == 0)
]

unfoldable pub set_slot : ℕ → Bool → (ℕ → ℕ) → ℕ → ℕ
set_slot slot down words w =
    let bit = 2 ^ (slot % 32) in
    if w == slot / 32
    then (if down then bit_or (words w) bit else bit_and (words w) (not32 bit))
    else words w

unfoldable pub key_set_down : ℕ → Bool → Keyboard → Keyboard
key_set_down code down kbd = elim (key_slot code) [
  | none ↦ kbd
  | some slot ↦ record kbd { down = set_slot slot down kbd.down }
]

-- The entry of a table of (key, character, character with Shift).
abbrev pub key_chars : ℕ → List (ℕ × ℕ × ℕ) → ℕ × ℕ
key_chars code [] = (0, 0)
key_chars code ((k, normal, shifted) ∷ rest) =
    let others = key_chars code rest in if k == code then (normal, shifted) else others

-- The characters of a key, without and with Shift, as numbers; 0 is no character.
unfoldable pub keymap : ℕ → ℕ × ℕ
keymap code = key_chars code (
    (2, 49, 33)
    ∷ (3, 50, 64)
    ∷ (4, 51, 35)
    ∷ (5, 52, 36)
    ∷ (6, 53, 37)
    ∷ (7, 54, 94)
    ∷ (8, 55, 38)
    ∷ (9, 56, 42)
    ∷ (10, 57, 40)
    ∷ (11, 48, 41)
    ∷ (12, 45, 95)
    ∷ (13, 61, 43)
    ∷ (16, 113, 81)
    ∷ (17, 119, 87)
    ∷ (18, 101, 69)
    ∷ (19, 114, 82)
    ∷ (20, 116, 84)
    ∷ (21, 121, 89)
    ∷ (22, 117, 85)
    ∷ (23, 105, 73)
    ∷ (24, 111, 79)
    ∷ (25, 112, 80)
    ∷ (26, 91, 123)
    ∷ (27, 93, 125)
    ∷ (30, 97, 65)
    ∷ (31, 115, 83)
    ∷ (32, 100, 68)
    ∷ (33, 102, 70)
    ∷ (34, 103, 71)
    ∷ (35, 104, 72)
    ∷ (36, 106, 74)
    ∷ (37, 107, 75)
    ∷ (38, 108, 76)
    ∷ (39, 59, 58)
    ∷ (40, 39, 34)
    ∷ (41, 96, 126)
    ∷ (43, 92, 124)
    ∷ (44, 122, 90)
    ∷ (45, 120, 88)
    ∷ (46, 99, 67)
    ∷ (47, 118, 86)
    ∷ (48, 98, 66)
    ∷ (49, 110, 78)
    ∷ (50, 109, 77)
    ∷ (51, 44, 60)
    ∷ (52, 46, 62)
    ∷ (53, 47, 63)
    ∷ (57, 32, 32)
    ∷ (28, 10, 10)
    ∷ (14, 8, 8)
    ∷ (15, 9, 9)
    ∷ [])

unfoldable pub translated_char : ℕ → ℕ → ℕ
translated_char code modifiers =
    let key = bit_and code (not32 key_extended) in
    let normal = (keymap key).0 in
    let shifted = (keymap key).1 in
    let shift = not (bit_and modifiers mod_shift == 0) in
    let caps = not (bit_and modifiers mod_caps == 0) in
    if leb 128 key
    then 0
    else if normal == 0
    then 0
    else if caps && leb 97 normal && leb normal 122
    then (if shift then normal else shifted)
    else (if shift then shifted else normal)

-- The bit of `update_modifier`; the tests after the first set it anew, at most one of them holds.
unfoldable pub modifier_bit : ℕ → ℕ
modifier_bit code =
    if code == 56 || code == bit_or key_extended 56
    then mod_alt
    else if code == 29 || code == bit_or key_extended 29
    then mod_ctrl
    else if code == 42 || code == 54
    then mod_shift
    else 0

unfoldable pub updated_modifiers : ℕ → Bool → ℕ → ℕ
updated_modifiers code pressed modifiers =
    let bit = modifier_bit code in
    let held =
      if bit == 0
      then modifiers
      else if pressed
      then bit_or modifiers bit
      else bit_and modifiers (not32 bit) in
    if code == 58 && pressed then bit_xor held mod_caps else held

unfoldable pub update_modifier : ℕ → Bool → Keyboard → Keyboard
update_modifier code pressed kbd = record kbd {
  modifiers = updated_modifiers code pressed kbd.modifiers;
}
