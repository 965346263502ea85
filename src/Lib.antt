-- ===== src/Lib.antt =====
-- A verification library for libinput-rs, a Rust replacement for libinput.so.
--
-- A compositor calls the C functions of src/lib.rs; these own a context (src/ffi_types.rs) and let
-- the backend (src/backend.rs) open devices, read the kernel's events from them and turn these into
-- libinput events, which wait in the context's queue until the client takes them. The program
-- also has a stand-alone daemon (src/main.rs, src/event_loop.rs, src/device.rs, src/config.rs,
-- src/virtual_device.rs).
--
-- Common holds shared names, tests, lists, signed integers, machine words, and paths of files,
-- which are compared by their components. Evdev is what the program reads through the evdev crate,
-- and Floats the floating-point operations, as a parameter. Ffi models the types of
-- src/ffi_types.rs; its Kinds says which payload belongs to which event type. Backend models
-- src/backend.rs: Tracked the state of a device; Keyboard (`process_keyboard_event`,
-- `emit_key_repeats`), Relative (`process_relative_event`) and Touchpad (`process_absolute_event`,
-- by parts: Touch for fingers that land and lift, Click, Axis, Sync) the handlers; Batch the loop
-- over the events that were fetched from one device; World what the backend shares with the
-- context; Open how devices come to be tracked (`try_open`, `handle_hotplug`); and Drain the whole
-- of `drain_into_queue`. Api models src/lib.rs: Context the functions on a context with its
-- references, Session a client that calls them in any order, Casts and Accessors the functions on
-- events, Config the settings of a device (with Fixed and Area those that no device keeps, and
-- Offered which it says it has), Tablet the functions for tablets, which return constants, Objects
-- the references to devices, what is read of devices and seats, and user data, Life a context from
-- its creation to its drop in src/ffi_types.rs, and Capability the kinds of events that a device
-- may send.
--
-- Daemon models the daemon, which takes the devices for itself and writes to a virtual one: Config
-- src/config.rs; Wrapper and Process `DeviceWrapper` and its `process_event`, and Open the rest of
-- src/device.rs; Batch the loop over the events of one device, Loop the whole `run` of
-- src/event_loop.rs, and Main src/main.rs. It uses the arithmetic of movements that the model of the
-- backend declares, since the two sources have the same. Witness holds tests.
--
-- Memory: device objects are on a heap, an association list from pointers, and a read through a
-- pointer that is not there makes the drain return `none`. A context or event that may be null is
-- an Option. What happens outside the process is recorded as a list of effects (epoll, callbacks,
-- closed file descriptors), and what it answers (the result of opening a path, inotify's events,
-- each device's batch, clock readings) is an argument. The map of devices is an association list;
-- its order, which Rust leaves open, is arbitrary. Handlers of the daemon that return `Result` are
-- functions from the device and the virtual device to both and an outcome. Each `emit_raw` makes
-- two writes, that of the event and that of the SYN_REPORT which evdev's `emit` appends; which
-- writes to the virtual device fail is a function of their number.
--
-- Integers: an i32 is an integer whose additions and subtractions wrap modulo 2^32, as in a release
-- build; casts between widths are written out. Time: instants are nanoseconds in ℕ, whose truncated
-- subtraction is that of `elapsed`, which stops at zero; each place that reads the clock has its own
-- reading. All loops run over lists, so no fuel is needed.
--
-- Not modelled: logging; the vendored crates, of which the builder of the virtual device is one; of
-- the C interface the box of an event that was handed out, the handler of log messages, and
-- functions whose body is empty. Tokens of the daemon are natural numbers: that of inotify, the
-- greatest `usize`, is never given to a device.
pub mod Common
pub mod Evdev
pub mod Floats
pub mod Ffi
pub mod Backend
pub mod Api
pub mod Daemon
mod Witness
