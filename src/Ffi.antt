-- ===== src/Ffi.antt =====
-- src/ffi_types.rs: the event types of the ABI, the payloads, the events and the objects that
-- the library hands out as pointers. A pointer is a number, and 0 is null.
pub mod Device
pub mod Kinds
use libinput_rs.Common.{ℕ, Bool}
use libinput_rs.Common.Int.{ℤ}
use libinput_rs.Floats.{Floats}

abbrev pub Ptr : Type 0
Ptr = ℕ

abbrev pub null : Ptr
null = 0

pub data LibinputEventType : Type 0 where
  event_none device_added device_removed keyboard_key pointer_motion : LibinputEventType
  pointer_motion_absolute pointer_button pointer_axis : LibinputEventType
  pointer_scroll_wheel pointer_scroll_finger pointer_scroll_continuous : LibinputEventType
  touch_down touch_up touch_motion touch_cancel touch_frame : LibinputEventType
  gesture_swipe_begin gesture_swipe_update gesture_swipe_end : LibinputEventType
  gesture_pinch_begin gesture_pinch_update gesture_pinch_end : LibinputEventType
  switch_toggle tablet_tool_axis tablet_tool_proximity tablet_tool_tip : LibinputEventType
  tablet_tool_button tablet_pad_button tablet_pad_ring tablet_pad_strip : LibinputEventType

pub record PointerMotionEvent (fl : Floats) : Type 0 where
  pub time_usec : ℕ
  pub dx : fl.F64
  pub dy : fl.F64
  pub dx_unaccel : fl.F64
  pub dy_unaccel : fl.F64

pub record PointerMotionAbsoluteEvent (fl : Floats) : Type 0 where
  pub time_usec : ℕ
  pub abs_x : fl.F64
  pub abs_y : fl.F64

pub record PointerButtonEvent : Type 0 where
  pub time_usec : ℕ
  pub button : ℕ
  pub state : ℕ

pub record PointerAxisEvent (fl : Floats) : Type 0 where
  pub time_usec : ℕ
  pub axis : ℕ
  pub value : fl.F64
  pub value_discrete : ℤ
  pub source : ℕ

pub record KeyboardKeyEvent : Type 0 where
  pub time_usec : ℕ
  pub key : ℕ
  pub state : ℕ

pub record TouchEvent (fl : Floats) : Type 0 where
  pub time_usec : ℕ
  pub slot : ℤ
  pub seat_slot : ℤ
  pub x : fl.F64
  pub y : fl.F64

pub record GestureEvent (fl : Floats) : Type 0 where
  pub time_usec : ℕ
  pub finger_count : ℤ
  pub dx : fl.F64
  pub dy : fl.F64
  pub scale : fl.F64
  pub angle : fl.F64
  pub cancelled : Bool

pub record SwitchEvent : Type 0 where
  pub time_usec : ℕ
  pub switch : ℕ
  pub state : ℕ

pub data EventPayload (fl : Floats) : Type 0 where
  pointer_motion : PointerMotionEvent fl → EventPayload fl
  pointer_motion_absolute : PointerMotionAbsoluteEvent fl → EventPayload fl
  pointer_button : PointerButtonEvent → EventPayload fl
  pointer_axis : PointerAxisEvent fl → EventPayload fl
  keyboard_key : KeyboardKeyEvent → EventPayload fl
  touch_down : TouchEvent fl → EventPayload fl
  touch_up : TouchEvent fl → EventPayload fl
  touch_motion : TouchEvent fl → EventPayload fl
  touch_cancel : TouchEvent fl → EventPayload fl
  touch_frame : ℕ → EventPayload fl
  gesture_swipe_begin : GestureEvent fl → EventPayload fl
  gesture_swipe_update : GestureEvent fl → EventPayload fl
  gesture_swipe_end : GestureEvent fl → EventPayload fl
  gesture_pinch_begin : GestureEvent fl → EventPayload fl
  gesture_pinch_update : GestureEvent fl → EventPayload fl
  gesture_pinch_end : GestureEvent fl → EventPayload fl
  switch_toggle : SwitchEvent → EventPayload fl
  device_added device_removed : EventPayload fl

pub record LibinputEvent (fl : Floats) : Type 0 where
  pub event_type : LibinputEventType
  pub payload : EventPayload fl
  pub context : Ptr
  pub device : Ptr
