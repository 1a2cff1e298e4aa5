-- ===== src/Events.antt =====
-- The WMI events: the ids of the driver's table, `legion_wmi_probe` and `legion_wmi_notify`.
pub mod Ready
pub mod Ignored
use sc_control.Base.{Bool, true, false, not, ◌||◌, if◌then◌else◌, String, List, [], ◌∷◌}
use sc_control.Errno.{Result, ok, err, enomem}
use sc_control.PowerMode.Access.{gamezone_guid}
use sc_control.Probe.{Kernel, Driver}

-- `enum LEGION_WMI_EVENT`
pub data WmiEvent : Type 0 where
  event_gamezone event_a event_b event_c event_d event_e event_f event_g : WmiEvent

-- `legion_wmi_ids`, with the event of each context
abbrev pub legion_wmi_ids : List (String × WmiEvent)
legion_wmi_ids =
    (gamezone_guid, event_gamezone)
    ∷ ("D320289E-8FEA-41E0-86F9-611D83151B5F", event_a)
    ∷ ("bc72a435-e8c1-4275-b3e2-d8b8074aba59", event_b)
    ∷ ("10afc6d9-ea8b-4590-a2e7-1cd3c84bb4b1", event_c)
    ∷ ("bfd42481-aee3-4502-a107-afb68425c5f8", event_d)
    ∷ ("d062906b-12d4-4510-999d-4831ee80e985", event_e)
    ∷ ("bfd42481-aee3-4501-a107-afb68425c5f8", event_f)
    ∷ ("8FC0DE0C-B4E4-43FD-B0F3-8871711C1294", event_gamezone)
    ∷ []

-- `legion_wmi_probe`: the event that the device keeps, if there is memory for it
unfoldable pub legion_wmi_probe : Bool → WmiEvent → Result WmiEvent
legion_wmi_probe allocated context = if allocated then ok context else err enomem

-- The message that the handler prints.
pub data Message : Type 0 where
  not_initialized fan_event other_event : Message

unfoldable pub message_of : WmiEvent → Message
message_of event_a = fan_event
message_of _ = other_event

-- `legion_platform_profile_notify`: whether the kernel is notified
unfoldable pub legion_platform_profile_notify : Kernel → Bool
legion_platform_profile_notify k = if not k.enable_platformprofile then false else true

-- `legion_wmi_notify`: the message, and whether the kernel is notified of the platform profile after the
-- delay
unfoldable pub legion_wmi_notify : {F : Type 0} → Kernel → WmiEvent → Driver F → Message × Bool
unfolding message_of legion_platform_profile_notify
legion_wmi_notify k event d = (
  if not d.shared || d.loaded then not_initialized else message_of event,
  if k.since_6_14
      then (if d.shared then legion_platform_profile_notify k else false)
      else legion_platform_profile_notify k,
)
