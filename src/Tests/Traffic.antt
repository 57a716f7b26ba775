-- ===== src/Tests/Traffic.antt =====
-- The traffic of a program that has been started with a net filter.
use iftop_dotqoo.Prelude.{All, Bool, arith, false, none, refl, true, ◌<◌, ◌≡◌}
use iftop_dotqoo.Run.{Run, fault, ok}
use iftop_dotqoo.Text.{atoi, codes, drop_while}
use iftop_dotqoo.Options.NetFilter.Prefix.{same_prefix}
use iftop_dotqoo.Config.{config_get_string, config_set_string}
use iftop_dotqoo.Options.NetFilter.{options_config_get_net_filter}
use iftop_dotqoo.Options.Make.NetFilter6.{make_first, options_config_get_net_filter6}
use iftop_dotqoo.Mqtt.{connect_and_subscribe}
use iftop_dotqoo.Options.Make.{
  Display, options_config_get_bw_rate, options_config_get_promiscuous, options_config_get_string,
}
use iftop_dotqoo.Options.Make.Start.{start_up}
use iftop_dotqoo.Mqtt.Topic.{construct_topic, get_device_id}
use iftop_dotqoo.Capture.{Capture}
use iftop_dotqoo.Packet.{Interface, host32, ip_dst, ip_src, key_of, settle, unknown}
use iftop_dotqoo.Frame.{packet_handler}
use iftop_dotqoo.Session.{start}
use iftop_dotqoo.Program.{
  Handler, Monitor, connect_client, ended, main, monitors, open_capture, packet_init,
}
use iftop_dotqoo.Program.Traffic.{main-key_of}
use iftop_dotqoo.Tests.{capture, iface, world}
use iftop_dotqoo.Tests.CommandLine.{filtered, filtered-fits, slashless}
use iftop_dotqoo.Tests.Packets.{request}
use iftop_dotqoo.Tests.Startup.{outside}

-- What the program monitors with, if it does.
abbrev iface_of : Run Monitor → Interface
iface_of (fault e) = iface
iface_of (ok (ended n)) = iface
iface_of (ok (monitors display i handler s)) = i

abbrev handler_of : Run Monitor → Handler
handler_of (fault e) = λ caplen packet. none
handler_of (ok (ended n)) = λ caplen packet. none
handler_of (ok (monitors display i handler s)) = handler

abbrev capture_of : Run Monitor → Capture
capture_of (fault e) = capture
capture_of (ok (ended n)) = capture
capture_of (ok (monitors display i handler s)) = s

abbrev is_monitoring : Run Monitor → Bool
is_monitoring (fault e) = false
is_monitoring (ok (ended n)) = false
is_monitoring (ok (monitors display i handler s)) = true

monitoring :
    (m : Run Monitor)
    → is_monitoring m ≡ true
    → (display : Display) × (m ≡ ok (monitors display (iface_of m) (handler_of m) (capture_of m)))
monitoring (fault e) h = absurd (ground arith)
monitoring (ok (ended n)) h = absurd (ground arith)
monitoring (ok (monitors display i handler s)) h = (display, refl)

outside-is_monitoring : is_monitoring (main outside) ≡ true
unfolding main start_up open_capture packet_init connect_client options_config_get_net_filter6
    config_get_string options_config_get_net_filter options_config_get_bw_rate config_set_string
    make_first options_config_get_promiscuous options_config_get_string packet_handler get_device_id
    construct_topic connect_and_subscribe atoi
outside-is_monitoring = refl

abbrev run : Run Monitor
run = main outside

request-bytes : All (λ x. x < 256) request
request-bytes = omega arith

-- A packet from 192.168.1.1 to 8.8.8.8 leaves the net of -F 192.168.1.77/24.
main-key_of_example :
    key_of (capture_of run).options (iface_of run) request unknown
    ≡ settle (iface_of run) request (false, true)
unfolding same_prefix ip_src ip_dst host32 drop_while atoi
main-key_of_example =
    let (display, runs) = monitoring run outside-is_monitoring in
    main-key_of outside filtered (codes "192.168.1.77") (codes "24") 1291954368 24 display
      (iface_of run) (handler_of run) world (capture_of run) (capture_of run) request unknown refl
      refl filtered-fits refl slashless refl refl refl (omega arith) (omega arith) runs start
      request-bytes
