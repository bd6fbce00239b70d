-- ===== src/Examples.antt =====
-- Each theorem at concrete values, by the device whose code it is about.
mod Stick
mod Desktop
mod Dictation
mod App
mod Link
mod Cloud
