-- ===== src/Device.antt =====
-- nemu/src/device: the keyboard's queue, the alarm, the handlers of the serial port and the clock, the
-- devices' maps, and device_update.
pub mod Alarm
pub mod Keyboard
pub mod Maps
pub mod Ports
pub mod Update
