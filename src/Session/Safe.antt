-- ===== src/Session/Safe.antt =====
-- The monitor from `init_MQTT` of mqtt.c on: the state stays sound, and the next frame is handled
-- without a fault.
use iftop_dotqoo.Options.{Options}
use iftop_dotqoo.Mqtt.{Mqtt}
use iftop_dotqoo.Capture.{Capture}
