-- ===== src/Input/Keys/Runs.antt =====
-- Any sequence of calls on a keyboard.
use rhkernel.Prelude.{
  ℕ, suc, ◌+◌, ◌%◌, ◌<◌, ◌≤◌, ◌≡◌, refl, sym, ap, subst, ◌∙◌, bit_and, bit_or, Bool, true, false,
  not, ◌||◌, ltb, ◌==◌, if◌then◌else◌, List, [], ◌∷◌, ◌++◌, length, length-append, arith,
  Bool-cases, inl, inr,
}
use rhkernel.Libc.ByteSet.Bits.{digit_zero}
use rhkernel.Input.{Event, EventRing, key_repeated, key_extended, ring_push, add64}
use rhkernel.Input.Ring.{IsRing}
use rhkernel.Input.Keys.{Keyboard, key_is_down, repeat_period_ticks}
use rhkernel.Input.Keys.Calls.{
  key_event, kbd_push_key_event, stop_repeat, kbd_handle_key, kbd_handle_scancode,
  kbd_generate_one_repeat, emit_device_event, new_keyboard, take_offline, device_added,
  device_event,
}
use rhkernel.Input.Keys.Slots.{slot_test, slot_test-digit, key_is_down-slot}
use rhkernel.Input.Keys.Held.{IsLegal, IsKeyboard, after, push-IsKeyboard}
use rhkernel.Input.Keys.Handle.{Answered, accepted, value_of, kbd_handle_key-Answered}

-- A call; `now` is the tick at which it is made.
pub data Step (x : Keyboard × EventRing) : Keyboard × EventRing → Type 0 where
  handled :
      (now code : ℕ) (pressed : Bool) (text : ℕ) → Step x (kbd_handle_key now code pressed text x)
  scanned : (now scancode : ℕ) → Step x (kbd_handle_scancode now scancode x)
  repeated : (now : ℕ) → Step x (kbd_generate_one_repeat now x)
  unregistered : Step x (take_offline x)

-- What `n` steps reach from a registration.
pub data Reach : ℕ → Keyboard × EventRing → Type 0 where
  registered :
      (index : ℕ) (all : EventRing)
      → Reach 1 (emit_device_event device_added (new_keyboard index, all))
  step : {n : ℕ} {x y : Keyboard × EventRing} → Reach n x → Step x y → Reach (suc n) y

-- The keyboard fits some log of `n` events at most.
abbrev pub Fits : ℕ → Keyboard × EventRing → Type 0
Fits n (kbd, all) = (log : List Event) × IsKeyboard kbd log × (length log ≤ n)

IsKeyboard-same :
    (kbd kbd' : Keyboard) (log : List Event)
    → kbd'.down ≡ kbd.down
    → kbd'.events ≡ kbd.events
    → IsKeyboard kbd log
    → IsKeyboard kbd' log
IsKeyboard-same kbd kbd' log d e h = record {
  ring = subst (λ r. IsRing r log) (sym e) h.ring;
  keys = λ slot. ap (λ w. slot_test w slot) d ∙ h.keys slot;
  alternates = h.alternates;
}

longer : (log : List Event) (event : Event) → length (log ++ (event ∷ [])) ≡ length log + 1
longer log event = length-append log (event ∷ [])

Answered-Fits :
    (n : ℕ) (b : Bool) (code value : ℕ) (kbd : Keyboard) (all : EventRing) (log : List Event)
    (x : Keyboard × EventRing)
    → IsKeyboard kbd log
    → length log ≤ n
    → Answered b code value kbd all log x
    → Fits (suc n) x
Answered-Fits n true code value kbd all log (kbd', all') h l a =
    (log ++ (a.event ∷ []), a.shape, omega (arith, longer log a.event))
Answered-Fits n false code value kbd all log x h l a =
    subst (Fits (suc n)) (sym a) (log, h, omega arith)

handled-Fits :
    (n now code : ℕ) (pressed : Bool) (text : ℕ) (x : Keyboard × EventRing)
    → n < 18446744073709551615
    → Fits n x
    → Fits (suc n) (kbd_handle_key now code pressed text x)
handled-Fits n now code pressed text (kbd, all) u (log, h, l) =
    Answered-Fits n (accepted code pressed kbd) code (value_of pressed) kbd all log
      (kbd_handle_key now code pressed text (kbd, all)) h l
      (kbd_handle_key-Answered now code pressed text kbd all log h (omega arith))

Fits-suc : (n : ℕ) (x : Keyboard × EventRing) → Fits n x → Fits (suc n) x
Fits-suc n (kbd, all) (log, h, l) = (log, h, omega arith)

scanned-Fits :
    (n now scancode : ℕ) (x : Keyboard × EventRing)
    → n < 18446744073709551615
    → Fits n x
    → Fits (suc n) (kbd_handle_scancode now scancode x)
unfolding kbd_handle_scancode
scanned-Fits n now scancode (kbd, all) u (log, h, l) = elim (Bool-cases (not kbd.online)) [
  | inl q ↦ rw (kbd_handle_scancode, q) (Fits-suc n (kbd, all) (log, h, l))
  | inr q ↦ elim (Bool-cases (scancode == 224)) [
    | inl r ↦
        rw (kbd_handle_scancode, q, r)
          (Fits-suc n (record kbd { e0 = true }, all)
            (log, IsKeyboard-same kbd (record kbd { e0 = true }) log refl refl h, l))
    | inr r ↦ elim (Bool-cases (scancode == 225)) [
      | inl p ↦
          rw (kbd_handle_scancode, q, r, p) (Fits-suc n (record kbd { e0 = false }, all) plain)
      | inr p ↦
          rw (kbd_handle_scancode, q, r, p)
            (handled-Fits n now
              (if kbd.e0 then bit_or (bit_and scancode 127) key_extended else bit_and scancode 127)
              (bit_and scancode 128 == 0) 0 (record kbd { e0 = false }, all) u plain)
    ]
  ]
]
  where
    plain : Fits n (record kbd { e0 = false }, all)
    plain = (log, IsKeyboard-same kbd (record kbd { e0 = false }) log refl refl h, l)

-- One more event of any kind.
pushed-Fits :
    (n : ℕ) (event : Event) (kbd kbd' : Keyboard) (all' : EventRing) (log : List Event)
    → n < 18446744073709551615
    → IsKeyboard kbd log
    → length log ≤ n
    → IsLegal (slot_test kbd.down) event
    → kbd'.events ≡ ring_push event kbd.events
    → ((slot : ℕ) → slot_test kbd'.down slot ≡ after event (slot_test kbd.down) slot)
    → Fits (suc n) (kbd', all')
pushed-Fits n event kbd kbd' all' log u h l legal e k = (
  log ++ (event ∷ []),
  push-IsKeyboard event kbd kbd' log h (omega arith) legal e k,
  omega (arith, longer log event),
)

repeated-Fits :
    (n now : ℕ) (x : Keyboard × EventRing)
    → n < 18446744073709551615
    → Fits n x
    → Fits (suc n) (kbd_generate_one_repeat now x)
unfolding kbd_generate_one_repeat kbd_push_key_event key_event stop_repeat
repeated-Fits n now (kbd, all) u (log, h, l) =
    elim (Bool-cases (not kbd.online || not kbd.repeat_active || ltb now kbd.repeat_next_tick)) [
      | inl q ↦ rw (kbd_generate_one_repeat, q) (Fits-suc n (kbd, all) (log, h, l))
      | inr q ↦ elim (Bool-cases (key_is_down kbd kbd.repeat_code)) [
        | inl r ↦
            rw (kbd_generate_one_repeat, q, r)
              (pushed-Fits n event kbd
                (record (kbd_push_key_event kbd.repeat_code key_repeated kbd.repeat_text
                  (kbd, all)).0 { repeat_next_tick = add64 now repeat_period_ticks })
                (kbd_push_key_event kbd.repeat_code key_repeated kbd.repeat_text (kbd, all)).1 log u
                h l (legal r) refl (λ slot. refl))
        | inr r ↦
            rw (kbd_generate_one_repeat, q, r)
              (Fits-suc n (stop_repeat kbd, all)
                (log, IsKeyboard-same kbd (stop_repeat kbd) log refl refl h, l))
      ]
    ]
  where
    event : Event
    event = key_event kbd kbd.repeat_code key_repeated kbd.repeat_text

    legal : key_is_down kbd kbd.repeat_code ≡ true → IsLegal (slot_test kbd.down) event
    legal r = sym (key_is_down-slot kbd kbd.repeat_code) ∙ r

emit-Fits :
    (n value : ℕ) (x : Keyboard × EventRing)
    → n < 18446744073709551615
    → Fits n x
    → Fits (suc n) (emit_device_event value x)
unfolding emit_device_event device_event
emit-Fits n value (kbd, all) u (log, h, l) =
    pushed-Fits n (device_event value kbd) kbd (emit_device_event value (kbd, all)).0
      (emit_device_event value (kbd, all)).1 log u h l tt refl (λ slot. refl)

offline-Fits :
    (n : ℕ) (x : Keyboard × EventRing)
    → n < 18446744073709551615
    → Fits n x
    → Fits (suc n) (take_offline x)
unfolding take_offline
offline-Fits n (kbd, all) u (log, h, l) = elim (Bool-cases kbd.online) [
  | inl q ↦
      simp (take_offline, q)
        (emit-Fits n 2 (record kbd { online = false }, all) u
          (log, IsKeyboard-same kbd (record kbd { online = false }) log refl refl h, l))
  | inr q ↦ simp (take_offline, q) (Fits-suc n (kbd, all) (log, h, l))
]

new_keyboard-IsKeyboard : (index : ℕ) → IsKeyboard (new_keyboard index) []
unfolding new_keyboard
new_keyboard-IsKeyboard index = record {
  ring = record { next = refl; first = refl; kept = λ i a b. absurd (omega arith) };
  keys = λ slot. slot_test-digit (λ w. 0) slot ∙ (rw (digit_zero (slot % 32)) refl);
  alternates = tt;
}

step-Fits :
    {n : ℕ} {x y : Keyboard × EventRing}
    → n < 18446744073709551615
    → Step x y
    → Fits n x
    → Fits (suc n) y
step-Fits u (handled now code pressed text) f = handled-Fits _ now code pressed text _ u f
step-Fits u (scanned now scancode) f = scanned-Fits _ now scancode _ u f
step-Fits u (repeated now) f = repeated-Fits _ now _ u f
step-Fits u unregistered f = offline-Fits _ _ u f

-- After fewer than 2^64 calls the keyboard fits some log.
pub Reach-Fits :
    {n : ℕ} {x : Keyboard × EventRing} → Reach n x → n < 18446744073709551616 → Fits n x
Reach-Fits (registered index all) u =
    emit-Fits 0 device_added (new_keyboard index, all) (omega arith)
      ([], new_keyboard-IsKeyboard index, omega arith)
Reach-Fits (step r s) u = step-Fits (omega arith) s (Reach-Fits r (omega arith))
