-- ===== src/Input.antt =====
-- The event rings and the key states of module/kbd_core/src/kbd_core.c. A function that holds a lock over its whole body is one
-- step on what the lock guards.
pub mod Ring
pub mod Reading
pub mod Keys
mod Tests
use rhkernel.Prelude.{
  ℕ, zero, suc, ◌+◌, ◌-◌, ◌/◌, ◌%◌, ◌^◌, bit_and, bit_or, bit_xor, Bool, true, false, not, ◌&&◌,
  ◌||◌, ltb, leb, ◌==◌, if◌then◌else◌, Option, none, some, List, [], ◌∷◌,
}

-- `struct input_event` of public/input.h.
pub record Event : Type 0 where
  pub sequence : ℕ
  pub kind : ℕ
  pub device : ℕ
  pub code : ℕ
  pub value : ℕ
  pub modifiers : ℕ
  pub text : ℕ
  pub reserved : ℕ

pub record EventRing : Type 0 where
  pub events : ℕ → Event
  pub first : ℕ
  pub next : ℕ

-- A reader of one keyboard, whose index it has, or of all of them.
pub record Reader : Type 0 where
  pub keyboard : Option ℕ
  pub next : ℕ

-- KBD_EVENT_BUFFER_SIZE, and the constants of public/input.h.
abbrev pub event_buffer_size : ℕ
event_buffer_size = 512

abbrev pub event_key : ℕ
event_key = 1

abbrev pub event_sync : ℕ
event_sync = 3

abbrev pub sync_dropped : ℕ
sync_dropped = 1

abbrev pub key_released : ℕ
key_released = 0

abbrev pub key_pressed : ℕ
key_pressed = 1

abbrev pub key_repeated : ℕ
key_repeated = 2

abbrev pub stream_aggregate : ℕ
stream_aggregate = 4294967295

abbrev pub key_extended : ℕ
key_extended = 65536

-- A difference of two `uint64_t`.
abbrev pub sub64 : ℕ → ℕ → ℕ
sub64 a b = (a + 18446744073709551616 - b) % 18446744073709551616

abbrev pub add64 : ℕ → ℕ → ℕ
add64 a b = (a + b) % 18446744073709551616

unfoldable pub ring_push : Event → EventRing → EventRing
ring_push event ring =
    let out = record event { sequence = ring.next } in
    let next = add64 ring.next 1 in
    record {
      events = λ i. if i == ring.next % event_buffer_size then out else ring.events i;
      first =
          if ltb event_buffer_size (sub64 next ring.first)
          then sub64 next event_buffer_size
          else ring.first;
      next = next;
    }

-- `out` of a reader that has fallen behind.
unfoldable pub dropped_event : Reader → ℕ → Event
dropped_event reader first =
    let dropped = sub64 first reader.next in
    record {
      sequence = first;
      kind = event_sync;
      device = elim reader.keyboard [ none ↦ stream_aggregate | some index ↦ index ];
      code = sync_dropped;
      value = if ltb 4294967295 dropped then 4294967295 else dropped;
      modifiers = 0;
      text = 0;
      reserved = 0;
    }

-- `none` is the answer 0.
unfoldable pub ring_pop_one : EventRing → Reader → Reader × Option Event
ring_pop_one ring reader =
    if ltb reader.next ring.first
    then (record reader { next = ring.first }, some (dropped_event reader ring.first))
    else if leb ring.next reader.next
    then (reader, none)
    else (
      record reader { next = add64 reader.next 1 },
      some (ring.events (reader.next % event_buffer_size)),
    )

-- `while (n < max && ring_pop_one(…)) n++` of `reader_read`, for the `left` events that the buffer has room for.
unfoldable pub pop_events : ℕ → EventRing → Reader → Reader × List Event
pop_events zero ring reader = (reader, [])
pop_events (suc left) ring reader =
    let popped = ring_pop_one ring reader in
    let rest = pop_events left ring popped.0 in
    elim popped.1 [ none ↦ (popped.0, []) | some event ↦ (rest.0, event ∷ rest.1) ]
