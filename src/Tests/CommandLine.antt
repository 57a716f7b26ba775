-- ===== src/Tests/CommandLine.antt =====
-- Command lines, and the start of the program.
use iftop_dotqoo.Prelude.{
  All, Bool, List, Option, [], arith, false, if◌then◌else◌, none, refl, replicate, some, true, ℕ,
  ◌==◌, ◌↔◌, ◌∷◌, ◌≡◌, ◌≢◌,
}
use iftop_dotqoo.Prelude.Int.{negsuc, pos, ℤ}
use iftop_dotqoo.Run.{fault, ok, uninitialised_read}
use iftop_dotqoo.StringMap.{nil}
use iftop_dotqoo.Text.{Text, atoi, codes, decimal, drop_while, equal, strtok, take_while}
use iftop_dotqoo.PortList.{OneOf, before_end, in_port_list}
use iftop_dotqoo.Options.Args.{
  Args, Opt, goes_on, net_filter, ports, read_opt, read_opts, send_interval,
}
use iftop_dotqoo.Options.Args.File.{read_args_from_file}
use iftop_dotqoo.Options.Args.Lists.{read_opt-ports}
use iftop_dotqoo.Options.Args.Reads.{IsRead, IsSetUp, fits}
use iftop_dotqoo.Config.{
  config_get_string, config_init, is_cfgdirective_valid, read_config_file, read_lines,
}
use iftop_dotqoo.Options.Args.Last.{read_opts_lem}
use iftop_dotqoo.Options.Make.{reads_unset}
use iftop_dotqoo.Options.Make.NetFilter6.{Library}
use iftop_dotqoo.Options.Make.Defaults.{
  Host, get_first_interface, is_bad_interface_name, starts_with,
}
use iftop_dotqoo.Options.Make.Settled.{unset_rate}
use iftop_dotqoo.Tests.{options}

-- The one address that the tests know.
abbrev pub one_address : Text → Option ℕ
one_address s = if equal s (codes "192.168.1.77") then some 1291954368 else none

abbrev pub library : Library
library = record {
  inet_aton = one_address;
  inet_pton = λ s. none;
  strtol = λ s. (atoi s, [], false);
  value = 0;
}

abbrev pub host : Host
host = record {
  need_promiscuous_for_outgoing = false;
  nameindex = some (codes "lo" ∷ codes "wlan0" ∷ []);
  iff_up = λ name. true;
  time = 50;
}

-- -F 192.168.1.77/24 -M 5
abbrev pub filtered : List Opt
filtered = net_filter (codes "192.168.1.77/24") ∷ send_interval (codes "5") ∷ []

abbrev pub getopt : List Text → List Opt × Bool
getopt argv = (filtered, false)

abbrev pub file : Option (List Text)
file = some (codes "dns-resolution: yes\n" ∷ codes "net-filter: 10.0.0.0/8\n" ∷ [])

pub filtered-fits : All (λ o. fits o ≡ true) filtered
unfolding fits atoi drop_while
filtered-fits = (refl, (refl, tt))

-- The file has no rate.
pub file-rated : unset_rate file ≡ false
unfolding reads_unset read_config_file config_init read_lines is_cfgdirective_valid
    config_get_string
file-rated = refl

first_interface : get_first_interface host ≡ some (codes "wlan0")
unfolding get_first_interface is_bad_interface_name starts_with
first_interface = refl

pub slashless : All (λ c. (c == b'/') ≡ false) (codes "192.168.1.77")
slashless = (
  refl,
  (refl, (refl, (refl, (refl, (refl, (refl, (refl, (refl, (refl, (refl, (refl, tt))))))))))),
)

abbrev args : Args
args = record {
  config = some nil;
  options = record options { block_protocols = replicate 32 (negsuc 0) };
  port_list = replicate 10 (pos 0);
  mqtt_addr = codes "tcp://broker:1883";
}

read_opts_lem_example :
    (s' : Args) × (read_opts filtered false args ≡ ok (goes_on s'))
    × IsSetUp s'
    × IsRead filtered args s'
read_opts_lem_example =
    read_opts_lem filtered args (record { tree = (nil, refl); room = refl }) filtered-fits

abbrev netbios : ℕ
netbios = 138

read_opt-ports_example :
    (l : List ℤ) × (read_opt (ports (codes "137,138")) args
      ≡ ok (goes_on (record args { port_list = l })))
    × ((in_port_list l netbios ≡ true)
        ↔ ((netbios ≢ 0) × OneOf (pos netbios) (before_end (pos 137 ∷ pos 138 ∷ []))))
unfolding strtok atoi decimal take_while drop_while
read_opt-ports_example = read_opt-ports (codes "137,138") args netbios (omega arith) (omega arith)

-- A file of arguments that has nothing but comments.
only_comments : read_args_from_file (some (codes "# none\n" ∷ [])) ≡ fault uninitialised_read
unfolding read_args_from_file take_while
only_comments = refl
