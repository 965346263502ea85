-- ===== src/Api/Config/Offered.antt =====
-- src/lib.rs: which settings and parts a device says that it has.
use Prim.Native.String.{String}
use libinput_rs.Common.{
  ℕ, ◌*◌, ◌/◌, ◌%◌, ◌==◌, ◌&&◌, ◌||◌, ◌≡◌, Bool, false, not, Option, some, List, [], ◌∷◌, arith,
  All, bool_to_nat, if◌then◌else◌,
}
use libinput_rs.Evdev.{Device, has_key_a}
use libinput_rs.Floats.{Floats}
use libinput_rs.Ffi.{Ptr, null}
use libinput_rs.Ffi.Device.{LibinputDevice, new_device}
use libinput_rs.Backend.Open.{announce, opens_as_pointer}
use libinput_rs.Api.Config.{
  query, has_capability, accel_get_default_profile, scroll_get_default_method,
  click_get_default_method,
}
use libinput_rs.Api.Objects.Info.{
  libinput_device_touch_get_touch_count, libinput_device_config_tap_get_finger_count,
}

module _ {fl : Floats} where
  unfoldable pub accel_is_available : Option (LibinputDevice fl) → ℕ
  unfolding query
  accel_is_available = query 0 (λ dev. bool_to_nat dev.has_pointer)

  unfoldable pub accel_get_profiles : Option (LibinputDevice fl) → ℕ
  unfolding query
  accel_get_profiles = query 0 (λ dev. if dev.has_pointer then 0b11 else 0)

  unfoldable pub scroll_has_natural_scroll : Option (LibinputDevice fl) → ℕ
  unfolding query
  scroll_has_natural_scroll = query 0 (λ dev. bool_to_nat dev.has_pointer)

  unfoldable pub left_handed_is_available : Option (LibinputDevice fl) → ℕ
  unfolding query
  left_handed_is_available = query 0 (λ dev. bool_to_nat dev.has_pointer)

  unfoldable pub scroll_get_methods : Option (LibinputDevice fl) → ℕ
  unfolding query
  scroll_get_methods = query 0 (λ dev. if dev.has_touch || dev.has_pointer then 0b111 else 0)

  unfoldable pub click_get_methods : Option (LibinputDevice fl) → ℕ
  unfolding query
  click_get_methods = query 0 (λ dev. if dev.has_pointer then 0b11 else 0)

  unfoldable pub middle_emulation_is_available : Option (LibinputDevice fl) → ℕ
  unfolding query
  middle_emulation_is_available = query 0 (λ dev. bool_to_nat dev.has_pointer)

  unfoldable pub dwt_is_available : Option (LibinputDevice fl) → ℕ
  unfolding query
  dwt_is_available = query 0 (λ dev. bool_to_nat (dev.has_pointer || dev.has_touch))

  unfoldable pub dwtp_is_available : Option (LibinputDevice fl) → ℕ
  dwtp_is_available dev = 0

  unfoldable pub calibration_has_matrix : Option (LibinputDevice fl) → ℕ
  unfolding query
  calibration_has_matrix = query 0 (λ dev. bool_to_nat dev.has_touch)

  unfoldable pub area_has_rectangle : Option (LibinputDevice fl) → ℕ
  unfolding query
  area_has_rectangle = query 0 (λ dev. bool_to_nat dev.has_touch)

  unfoldable pub rotation_is_available : Option (LibinputDevice fl) → ℕ
  unfolding query
  rotation_is_available = query 0 (λ dev. bool_to_nat dev.has_touch)

  unfoldable pub three_finger_drag_get_finger_count : Option (LibinputDevice fl) → ℕ
  unfolding query
  three_finger_drag_get_finger_count = query 0 (λ dev. if not dev.has_touch then 0 else 0)

  -- The key, the button, the switch and the code that are asked for are not looked at.
  unfoldable pub keyboard_has_key : ℕ → Option (LibinputDevice fl) → ℕ
  unfolding query
  keyboard_has_key key = query 0 (λ dev. bool_to_nat dev.has_keyboard)

  unfoldable pub pointer_has_button : ℕ → Option (LibinputDevice fl) → ℕ
  unfolding query
  pointer_has_button button = query 0 (λ dev. bool_to_nat dev.has_pointer)

  unfoldable pub switch_has_switch : ℕ → Option (LibinputDevice fl) → ℕ
  unfolding query
  switch_has_switch sw = query 0 (λ dev. bool_to_nat dev.has_switch)

  unfoldable pub tablet_pad_has_key : ℕ → Option (LibinputDevice fl) → ℕ
  unfolding query
  tablet_pad_has_key code = query 0 (λ dev. bool_to_nat dev.has_tablet)

  unfoldable pub tablet_pad_get_num_buttons : Option (LibinputDevice fl) → ℕ
  tablet_pad_get_num_buttons dev = 0

  unfoldable pub tablet_pad_get_num_dials : Option (LibinputDevice fl) → ℕ
  tablet_pad_get_num_dials dev = 0

  unfoldable pub tablet_pad_get_num_mode_groups : Option (LibinputDevice fl) → ℕ
  tablet_pad_get_num_mode_groups dev = 0

  unfoldable pub tablet_pad_get_num_rings : Option (LibinputDevice fl) → ℕ
  tablet_pad_get_num_rings dev = 0

  unfoldable pub tablet_pad_get_num_strips : Option (LibinputDevice fl) → ℕ
  tablet_pad_get_num_strips dev = 0

  unfoldable pub tablet_pad_get_mode_group : ℕ → Option (LibinputDevice fl) → Ptr
  tablet_pad_get_mode_group index dev = null

  -- The queries that a pointer answers with 1; and those of a touchpad, a keyboard and a tablet.
  abbrev pub pointer_queries : ℕ → List (Option (LibinputDevice fl) → ℕ)
  pointer_queries code =
      has_capability 2
      ∷ accel_is_available
      ∷ scroll_has_natural_scroll
      ∷ left_handed_is_available
      ∷ middle_emulation_is_available
      ∷ dwt_is_available
      ∷ pointer_has_button code
      ∷ []

  abbrev pub pad_queries : List (Option (LibinputDevice fl) → ℕ)
  pad_queries =
      has_capability 3
      ∷ has_capability 4
      ∷ calibration_has_matrix
      ∷ area_has_rectangle
      ∷ rotation_is_available
      ∷ []

  abbrev pub keyboard_queries : ℕ → List (Option (LibinputDevice fl) → ℕ)
  keyboard_queries code = has_capability 1 ∷ keyboard_has_key code ∷ []

  abbrev pub absent_queries : ℕ → List (Option (LibinputDevice fl) → ℕ)
  absent_queries code =
      has_capability 5
      ∷ has_capability 6
      ∷ dwtp_is_available
      ∷ three_finger_drag_get_finger_count
      ∷ switch_has_switch code
      ∷ tablet_pad_has_key code
      ∷ tablet_pad_get_num_buttons
      ∷ tablet_pad_get_num_dials
      ∷ tablet_pad_get_num_mode_groups
      ∷ tablet_pad_get_num_rings
      ∷ tablet_pad_get_num_strips
      ∷ tablet_pad_get_mode_group code
      ∷ []

  abbrev pub AllAnswer :
      Option (LibinputDevice fl) → Bool → List (Option (LibinputDevice fl) → ℕ) → Type 0
  AllAnswer dev b qs = All (λ q. q dev ≡ bool_to_nat b) qs

-- The bit of a choice is set in what is offered.
abbrev pub has_bit : ℕ → ℕ → Bool
has_bit offered choice = (offered / choice) % 2 == 1

-- Of a device that the backend opened, the settings of a pointer are available exactly where it
-- has the property of a pointer or of a button pad, or relative axes, and then what is the default
-- profile, scroll method and click method is among those that are offered, and tapping with three
-- fingers is; the settings of a touchpad exactly where it has absolute axes too; it has any key
-- that is asked for exactly where it has the key A; and it never has switches, or anything of a
-- tablet.
pub announce_offered :
    (fl : Floats) (path : String) (seat ctx : Ptr) (d : Device) (code : ℕ)
    → let dev = some (announce {fl = fl} path seat ctx d) in
      let p = opens_as_pointer d in
      AllAnswer dev p (pointer_queries code)
      × AllAnswer dev (d.absolute_events && p) pad_queries
      × AllAnswer dev (has_key_a d) (keyboard_queries code)
      × AllAnswer dev false (absent_queries code)
      × (has_bit (accel_get_profiles dev) accel_get_default_profile ≡ p)
      × (has_bit (scroll_get_methods dev) scroll_get_default_method ≡ p)
      × (has_bit (click_get_methods dev) click_get_default_method ≡ p)
      × (libinput_device_config_tap_get_finger_count dev ≡ 3 * bool_to_nat p)
      × (libinput_device_touch_get_touch_count dev ≡ 10 * bool_to_nat (d.absolute_events && p))
unfolding announce new_device query has_capability accel_is_available accel_get_profiles
    scroll_has_natural_scroll left_handed_is_available scroll_get_methods click_get_methods
    middle_emulation_is_available dwt_is_available dwtp_is_available calibration_has_matrix
    area_has_rectangle rotation_is_available three_finger_drag_get_finger_count keyboard_has_key
    pointer_has_button switch_has_switch tablet_pad_has_key tablet_pad_get_num_buttons
    tablet_pad_get_num_dials tablet_pad_get_num_mode_groups tablet_pad_get_num_rings
    tablet_pad_get_num_strips tablet_pad_get_mode_group accel_get_default_profile
    scroll_get_default_method click_get_default_method libinput_device_touch_get_touch_count
    libinput_device_config_tap_get_finger_count
announce_offered fl path seat ctx d code = ground arith
