-- ===== src/Evdev.antt =====
-- What the program reads through the evdev crate: the event types, the key and axis codes that
-- the source names, an input event, and what an opened device answers about itself.
use Prim.Native.String.{String}
use libinput_rs.Common.{ℕ, ◌*◌, ◌/◌, Bool, false, ◌||◌, Option, List, [], ◌∷◌, ◌==◌, is_some_and}
use libinput_rs.Common.Int.{ℤ, pos, negsuc}
use libinput_rs.Common.Word.{u64}

pub data EventType : Type 0 where
  synchronization key relative absolute : EventType
  other : ℕ → EventType

abbrev pub key_r : ℕ
key_r = 19

abbrev pub key_leftctrl : ℕ
key_leftctrl = 29

abbrev pub key_a : ℕ
key_a = 30

abbrev pub key_leftalt : ℕ
key_leftalt = 56

abbrev pub key_rightctrl : ℕ
key_rightctrl = 97

abbrev pub key_rightalt : ℕ
key_rightalt = 100

abbrev pub btn_left : ℕ
btn_left = 0x110

abbrev pub btn_right : ℕ
btn_right = 0x111

abbrev pub btn_middle : ℕ
btn_middle = 0x112

abbrev pub btn_side : ℕ
btn_side = 0x113

abbrev pub btn_extra : ℕ
btn_extra = 0x114

abbrev pub btn_touch : ℕ
btn_touch = 0x14a

abbrev pub btn_tool_doubletap : ℕ
btn_tool_doubletap = 0x14d

abbrev pub btn_tool_tripletap : ℕ
btn_tool_tripletap = 0x14e

abbrev pub btn_tool_quadtap : ℕ
btn_tool_quadtap = 0x14f

abbrev pub rel_x : ℕ
rel_x = 0x00

abbrev pub rel_y : ℕ
rel_y = 0x01

abbrev pub rel_hwheel : ℕ
rel_hwheel = 0x06

abbrev pub rel_wheel : ℕ
rel_wheel = 0x08

abbrev pub abs_x : ℕ
abs_x = 0x00

abbrev pub abs_y : ℕ
abs_y = 0x01

abbrev pub abs_mt_slot : ℕ
abs_mt_slot = 0x2f

abbrev pub abs_mt_position_x : ℕ
abs_mt_position_x = 0x35

abbrev pub abs_mt_position_y : ℕ
abs_mt_position_y = 0x36

abbrev pub abs_mt_tracking_id : ℕ
abs_mt_tracking_id = 0x39

abbrev pub abs_mt_distance : ℕ
abs_mt_distance = 0x3b

-- The kernel's time stamp is in nanoseconds from the UNIX epoch, and may lie before it.
pub record InputEvent : Type 0 where
  pub timestamp : ℤ
  pub event_type : EventType
  pub code : ℕ
  pub value : ℤ

-- What the crate answers about an opened device: its name, whether `supported_events` and
-- `properties` contain the types that the source asks for, and `supported_keys`.
pub record Device : Type 0 where
  pub name : Option String
  pub absolute_events : Bool
  pub relative_events : Bool
  pub key_events : Bool
  pub prop_pointer : Bool
  pub prop_buttonpad : Bool
  pub supported_keys : Option (List ℕ)

pub contains : List ℕ → ℕ → Bool
contains [] k = false
contains (x ∷ xs) k = x == k || contains xs k

-- The test `supported_keys().is_some_and(|k| k.contains(KEY_A))`.
unfoldable pub has_key_a : Device → Bool
unfolding contains
has_key_a d = is_some_and d.supported_keys (λ keys. contains keys key_a)

-- Microseconds since the UNIX epoch; a time before it counts as the epoch.
unfoldable pub systime_to_usec : ℤ → ℕ
systime_to_usec (pos nanos) = u64 (nanos / 1000)
systime_to_usec (negsuc n) = 0

-- What the program sees of the clock in one call of a handler. `Instant::now()` and `elapsed()`
-- read it anew each time; reading `i` is the time in nanoseconds at the `i`-th place in the
-- handler's text that reads it.
abbrev pub Readings : Type 0
Readings = ℕ → ℕ

abbrev pub millis : ℕ → ℕ
millis n = n * 1_000_000
