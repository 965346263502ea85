-- ===== src/Api/Objects/Info.antt =====
-- src/lib.rs: what a client reads of a device, a seat and a context, and the few things it writes. A
-- null pointer to one of these is `none`, and a string that is not there too.
use Prim.Native.String.{String}
use libinput_rs.Common.{
  ℕ, ◌==◌, ◌||◌, Option, none, some, ◌≡◌, refl, inl, inr, List, Bool-cases, if◌then◌else◌,
}
use libinput_rs.Common.Int.{ℤ, pos, negsuc}
use libinput_rs.Floats.{Floats}
use libinput_rs.Ffi.{Ptr, null, LibinputEvent}
use libinput_rs.Ffi.Device.{LibinputDevice, LibinputSeat}
use libinput_rs.Api.Config.{query}
use libinput_rs.Api.Context.{LibinputContext}

-- The end of `libinput_device_set_seat_logical_name`, by what `CString::new` gives.
unfoldable pub give_name :
    {fl : Floats} → Option String → LibinputContext fl → LibinputContext fl × ℤ
give_name none c = (c, negsuc 0)
give_name (some name) c = (record c { seat = record c.seat { logical_name = name } }, pos 0)

module _ {fl : Floats} where
  unfoldable pub libinput_device_get_name : Option (LibinputDevice fl) → Option String
  unfolding query
  libinput_device_get_name = query none (λ dev. some dev.name)

  unfoldable pub libinput_device_get_sysname : Option (LibinputDevice fl) → Option String
  unfolding query
  libinput_device_get_sysname = query none (λ dev. some dev.sysname)

  unfoldable pub libinput_device_get_devnode : Option (LibinputDevice fl) → Option String
  unfolding query
  libinput_device_get_devnode = query none (λ dev. some dev.devnode)

  unfoldable pub libinput_device_get_id_vendor : Option (LibinputDevice fl) → ℕ
  unfolding query
  libinput_device_get_id_vendor = query 0 (λ dev. dev.vendor_id)

  unfoldable pub libinput_device_get_id_product : Option (LibinputDevice fl) → ℕ
  unfolding query
  libinput_device_get_id_product = query 0 (λ dev. dev.product_id)

  unfoldable pub libinput_device_get_context : Option (LibinputDevice fl) → Ptr
  unfolding query
  libinput_device_get_context = query null (λ dev. dev.context)

  unfoldable pub libinput_device_get_seat : Option (LibinputDevice fl) → Ptr
  unfolding query
  libinput_device_get_seat = query null (λ dev. dev.seat)

  unfoldable pub libinput_device_touch_get_touch_count : Option (LibinputDevice fl) → ℕ
  unfolding query
  libinput_device_touch_get_touch_count = query 0 (λ dev. if dev.has_touch then 10 else 0)

  unfoldable pub libinput_device_config_tap_get_finger_count : Option (LibinputDevice fl) → ℕ
  unfolding query
  libinput_device_config_tap_get_finger_count =
      query 0 (λ dev. if dev.has_touch || dev.has_pointer then 3 else 0)

  -- The context keeps the device; only its name is emptied.
  unfoldable pub libinput_path_remove_device :
      Option (LibinputDevice fl) → Option (LibinputDevice fl)
  libinput_path_remove_device none = none
  libinput_path_remove_device (some dev) = some (record dev { name = "" })

  unfoldable pub libinput_device_set_user_data :
      Ptr → Option (LibinputDevice fl) → Option (LibinputDevice fl)
  libinput_device_set_user_data value none = none
  libinput_device_set_user_data value (some dev) = some (record dev { user_data = value })

  unfoldable pub libinput_device_get_user_data : Option (LibinputDevice fl) → Ptr
  unfolding query
  libinput_device_get_user_data = query null (λ dev. dev.user_data)

  unfoldable pub libinput_event_get_context : Option (LibinputEvent fl) → Ptr
  libinput_event_get_context none = null
  libinput_event_get_context (some e) = e.context

  unfoldable pub libinput_event_get_device : Option (LibinputEvent fl) → Ptr
  libinput_event_get_device none = null
  libinput_event_get_device (some e) = e.device

  unfoldable pub libinput_get_fd : Option (LibinputContext fl) → ℤ
  libinput_get_fd none = negsuc 0
  libinput_get_fd (some c) = c.epoll_fd

  unfoldable pub libinput_set_user_data :
      Ptr → Option (LibinputContext fl) → Option (LibinputContext fl)
  libinput_set_user_data value none = none
  libinput_set_user_data value (some c) = some (record c { user_data = value })

  unfoldable pub libinput_get_user_data : Option (LibinputContext fl) → Ptr
  libinput_get_user_data none = null
  libinput_get_user_data (some c) = c.user_data

  -- The seat of a device is its context's, if it is not null. The name is its bytes, as the client
  -- passes them; `to_string_lossy` decodes them, and `c_string_new` is `none` where `CString::new`
  -- gives an error.
  unfoldable pub libinput_device_set_seat_logical_name :
      (List ℕ → String)
      → (String → Option String)
      → Option (List ℕ)
      → Option (LibinputDevice fl)
      → LibinputContext fl
      → LibinputContext fl × ℤ
  libinput_device_set_seat_logical_name to_string_lossy c_string_new name none c = (c, negsuc 0)
  libinput_device_set_seat_logical_name to_string_lossy c_string_new none (some dev) c =
      (c, negsuc 0)
  libinput_device_set_seat_logical_name to_string_lossy c_string_new (some name) (some dev) c =
      if dev.seat == null then (c, negsuc 0) else give_name (c_string_new (to_string_lossy name)) c

unfoldable pub libinput_seat_get_physical_name : Option LibinputSeat → Option String
libinput_seat_get_physical_name none = none
libinput_seat_get_physical_name (some seat) = some seat.physical_name

unfoldable pub libinput_seat_get_logical_name : Option LibinputSeat → Option String
libinput_seat_get_logical_name none = none
libinput_seat_get_logical_name (some seat) = some seat.logical_name

unfoldable pub libinput_seat_get_context : Option LibinputSeat → Ptr
libinput_seat_get_context none = null
libinput_seat_get_context (some seat) = seat.context

unfoldable pub libinput_seat_set_user_data : Ptr → Option LibinputSeat → Option LibinputSeat
libinput_seat_set_user_data value none = none
libinput_seat_set_user_data value (some seat) = some (record seat { user_data = value })

unfoldable pub libinput_seat_get_user_data : Option LibinputSeat → Ptr
libinput_seat_get_user_data none = null
libinput_seat_get_user_data (some seat) = seat.user_data

unfoldable pub libinput_config_status_to_str : ℕ → Option String
libinput_config_status_to_str status =
    if status == 0
    then some "success"
    else (if status == 1
        then some "unsupported"
        else (if status == 2 then some "invalid" else none))

module _ {fl : Floats} (to_string_lossy : List ℕ → String)
    (c_string_new : String → Option String) where
  -- The name that a call gives to the seat, if it gives one: there are a name and a device, the
  -- device has a seat, and the decoded name is one that C can hold.
  abbrev pub given_name : Option (List ℕ) → Option (LibinputDevice fl) → Option String
  given_name none dev = none
  given_name (some name) none = none
  given_name (some name) (some dev) =
      if dev.seat == null then none else c_string_new (to_string_lossy name)

  -- What the client reads of the seat of a context.
  abbrev pub seat_strings : LibinputContext fl → Option String × Option String × Ptr × Ptr
  seat_strings c =
      let seat = some c.seat in
      (
        libinput_seat_get_logical_name seat,
        libinput_seat_get_physical_name seat,
        libinput_seat_get_user_data seat,
        libinput_seat_get_context seat,
      )

  abbrev pub Named : Option String → LibinputContext fl → LibinputContext fl × ℤ → Type 0
  Named none c r = r ≡ (c, negsuc 0)
  Named (some given) c (c', status) =
      (status ≡ pos 0)
      × (seat_strings c' ≡ (
        some given,
        libinput_seat_get_physical_name (some c.seat),
        libinput_seat_get_user_data (some c.seat),
        libinput_seat_get_context (some c.seat),
      ))
      × (record c' { seat = c.seat } ≡ c)

  give_name-Named :
      (given : Option String) (c : LibinputContext fl) → Named given c (give_name given c)
  unfolding give_name libinput_seat_get_logical_name libinput_seat_get_physical_name
      libinput_seat_get_user_data libinput_seat_get_context
  give_name-Named none c = refl
  give_name-Named (some given) c = (refl, refl, refl)

  -- Where the name and the device are not null, the device's seat is not null and the decoded name
  -- is accepted by `CString::new`, the call reports success, the seat then has the decoded name and
  -- reads otherwise as before, and nothing of the context but its seat has changed. Where one of
  -- these fails, the call returns -1 and changes nothing.
  pub device_set_seat_logical_name_lem :
      (name : Option (List ℕ)) (dev : Option (LibinputDevice fl)) (c : LibinputContext fl)
      → Named
          (given_name name dev)
          c
          (libinput_device_set_seat_logical_name to_string_lossy c_string_new name dev c)
  unfolding libinput_device_set_seat_logical_name
  device_set_seat_logical_name_lem none none c = refl
  device_set_seat_logical_name_lem (some name) none c = refl
  device_set_seat_logical_name_lem none (some dev) c = refl
  device_set_seat_logical_name_lem (some name) (some dev) c = elim (Bool-cases (dev.seat == null)) [
    | inl no_seat ↦ rw no_seat refl
    | inr seated ↦ rw seated (give_name-Named (c_string_new (to_string_lossy name)) c)
  ]
