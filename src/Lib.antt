-- ===== src/Lib.antt =====
-- Verification of driver/legion-laptop.c, the Linux platform driver that controls the fans, the power
-- mode and related settings of Lenovo laptops through the embedded controller (EC) and the firmware.
--
-- The driver matches the machine against a list of models, each with a configuration: the registers of
-- its EC, the access method of each function, and ACPI paths. sysfs and hwmon handlers parse a text,
-- take the mutex of the driver, read a value by the access method, change it, write it and remember it.
--
-- Files, and the code of driver/legion-laptop.c that each models:
--   Base          helpers: Boolean tests, lists with native indices, integers, tables by evaluation
--   Errno         the error codes, and the result of a function that returns 0 or a negative code
--   Model         ec_register_offsets (Registers), model_config (Config), every configuration
--                 (Configs), and optimistic_allowlist (Allowlist)
--   Ec            ecram_read and ecram_write; the port protocol (Portio); laws of writes (Writes, Bytes);
--                 read_ec_id and read_ec_version (Ident)
--   FanCurve      struct fancurve, its setters (Setters, Bounds, Size), speed units (Speed), and the four
--                 layouts in the EC RAM (Layout): Legion, Ideapad, Loq and Legion2024
--   Firmware      the state and the monad (State), wmi_exec_* (Wmi), ACPI methods (Acpi), simple
--                 attributes (Simple), the other-method interface (Other); what calls keep (Keeps), that
--                 they succeed (Runs), and the errors they never give (Raises)
--   PowerMode     the codes (Codes), reading, writing and toggling (Access), powermode_store and the
--                 platform profile (Store)
--   FanControl    switches (Switches), full speed (FullSpeed), the WMI fan table (WmiTable),
--                 read_fancurve and write_fancurve (Curve), autopoint_show and autopoint_store
--                 (Autopoint), and any sequence of these (Reachable)
--   Capdata       capdata_clamp and clamped_value; the loops of legion_add that collect the capability
--                 data (Collect)
--   Sensors       temperatures and fan speeds by each access method, and sensor_show (Show)
--   Attributes    the sysfs attributes over one WMI value (Simple, Wmi), over ACPI (Battery), of the fans
--                 (Fans), and over an EFI variable (FlipToStart)
--   PowerLimits   the limits of the CPU (Cpu) and the GPU (Gpu), clamped and coupled (Coupling)
--   Lights        the brightness of the lights over WMI and in the EC register
--   Probe         what the probe takes and gives back; the LEDs (Leds), legion_add (Add) and
--                 legion_remove (Remove)
--   Visible       which attributes a model shows: legion_sysfs_is_visible and the tests of the hwmon attributes
--                 (Sensors); which sensors a model can read (Readable, Answers)
--   Events        the WMI events, and what a loaded driver does with them (Ready, Ignored)
--   Debug         the dumps of the EC memory in debugfs, and the memory-mapped access to the EC
--   Samples       concrete inputs, to which the theorems are applied
--
-- How the code is read: the state of the driver is the record `State` of Firmware/State.antt; a
-- handler is a function from a state to a result and a state. The EC RAM is a function from 16-bit
-- addresses to bytes. The kernel and the firmware are a parameter, the record `Firmware`: any
-- answer to any call is possible, and each call may change the firmware's own state. The text that
-- a handler parses is a parameter too: the result of kstrtoint or kstrtouint. So are the EFI
-- services. A local structure that the code does not initialise is an argument of which only the
-- types of its fields are known. The chip behind the I/O ports is a parameter with the laws of its
-- datasheet (Ec/Portio.antt), and DIV_ROUND_CLOSEST of the kernel one with its documented rounding
-- (Capdata/Laws.antt). Machine integers keep their wrap-around (u8, u16, u32, signed32). Mutexes
-- are not modelled: a handler is one step, as it runs under the mutex of the driver. Loops run over
-- at most ten points or over a given list, by structural recursion, so no fuel is needed. Delays,
-- notifications and messages do not change the state and are left out, but for those of the handler
-- of WMI events.
--
-- A probe is a step on the record `Driver` of Probe.antt, which holds the resources that are registered
-- with the kernel, the last taken first; the kernel's answers to the registrations are the record
-- `Kernel`. The collecting loops run over the instances that are left, with the room that is left in
-- their arrays of 80, 64, 8 and 32 places.
--
-- Not modelled: the callbacks of resume, which only print, the printing of the fan curve into debugfs,
-- legion_init and legion_exit of the module, and mutexes. The programs under gui/, kbd-idle/, helper/ and
-- the scripts are not C and only use the sysfs files.
pub mod Base
pub mod Model
pub mod Ec
pub mod Errno
pub mod FanCurve
pub mod Firmware
pub mod PowerMode
pub mod Sensors
pub mod Attributes
pub mod PowerLimits
pub mod Lights
pub mod Probe
pub mod Visible
pub mod Debug
pub mod Events
pub mod FanControl
pub mod Capdata
pub mod Samples
