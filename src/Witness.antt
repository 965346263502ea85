-- ===== src/Witness.antt =====
-- Tests of the models, and the properties at concrete inputs.
mod Data
mod Pad
mod Keyboard
mod Table
mod Client
mod Life
mod Capability
mod Objects
mod Daemon
mod Loop
