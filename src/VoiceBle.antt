-- ===== src/VoiceBle.antt =====
-- firmware/components/voice_ble/voice_ble.c: the stick's Bluetooth service. `Ota` is the firmware
-- update over `ota_rx`, `Link` the connection with its audio window, `Notify` what the stick tells
-- the desktop of its buttons. GATT tables and the start of NimBLE are not modelled.
pub mod Ota
pub mod Link
pub mod Notify
