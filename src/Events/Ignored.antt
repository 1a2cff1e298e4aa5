-- ===== src/Events/Ignored.antt =====
-- The events of a driver that a probe has taken.
use sc_control.Firmware.State.{Firmware}
