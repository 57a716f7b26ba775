-- ===== src/Lib.antt =====
-- A model of iftop-dotqoo, the traffic monitor of a network box, and the theorems about it. The
-- program captures packets with pcap, finds the IP packet in each frame, adds it to the record of
-- its connection in a hash table, sweeps that table from time to time, and reports the connections
-- that have lasted to an MQTT broker.
--
-- The parts, and how they call each other. A frame (Frame) gives a datagram and a direction; the
-- packet handler (Packet) first runs `tick` (Capture), then filters the packet by protocol,
-- direction and port (PortList) and accounts it in the history. `tick` sweeps the history
-- (History), builds the message of the connections that are left (Message), and lets the client
-- send it (Mqtt). The history is a hash table (Hash) under address pairs (AddrHash). The broker's
-- call-backs, the frames and the key loop together are the steps of Session. Before all that,
-- `main` (Program) makes the options (Options) from the defaults, the command line and the
-- configuration file (Config), looks for the addresses of the interface (Adapter), opens it, and
-- starts the client. Next to it, a resolver (Resolver) turns addresses into names.
--
-- - Hash and its children: hash.c and hash.h, for any keys. The function pointers of `hash_type`
--   are the record `HashType`; `IsLawful` is what the table relies on, and each key type proves it.
--   `hash_find` is the map that a table stands for, `flatten` the order of its walk. Hash/Refine
--   sets sequences of calls against a map.
-- - AddrHash, NsHash, ServHash: addr_hash.c, ns_hash.c, serv_hash.c. What getservent and
--   getprotobyname return are arguments.
-- - Options: the fields of `options_t` in options.h that the capture reads. Options/Args and its
--   children: `options_read_args` and `read_args_from_file` of options.c, with one constructor of
--   `Opt` for each result of getopt. Options/Make: the getters, `options_make` (in
--   Options/Make/NetFilter6), the defaults, and the first lines of `main` in iftop.c
--   (Options/Make/Start). Options/NetFilter: the net filter for IPv4, and what it is in octets.
-- - Config: cfgfile.c, the configuration as a string map. Its reader takes the list of what `fgets`
--   returns; Config/Fgets has what that is for the text of a file. Text: C strings as lists of
--   character codes, and the functions of the C library that work on them.
-- - Resolver: resolver.c, its ring of waiting addresses and its table of names. Resolver/Pending is
--   what it promises, a bounded queue and a map.
-- - Resolver/Lookup and its children: the variants of `do_resolve` in resolver.c, of which a build
--   has one.
-- - Edline: edline.c, the line that is edited. Edline/Zipper is the editor that it is meant to be.
-- - Bits: bit masks on numbers.
-- - History: `history_type` and `history_rotate` of iftop.c with its tests. `verdict` tells the
--   fate of one record without the table.
-- - Message: the record format and the loop of `construct_MQTT_msg` in mqtt.c. Message/Client is
--   the reader, `save_data` of Python_Client/mqtt_client.py up to the table that it fills, and
--   Message/Reader the round trip.
-- - Mqtt: mqtt.c, its variables as the record `Mqtt`, its functions under their own names in snake
--   case. The heap blocks `data` and `out` are live, freed or NULL. Mqtt/Topic has `init_MQTT`,
--   Mqtt/Shutdown `destory_MQTT`.
-- - Capture: the state of the capture thread in iftop.c, `init_history` and `tick`.
-- - PortList: `in_port_list` of iftop_api.c and the loop over the blocked protocols in iftop.c.
-- - Packet: `handle_ip_packet` and `assign_addr_pair` of iftop.c, in the pieces its branches make.
--   Packet/Handled has the call as a whole. Packet/Race cuts the account of a packet in two, for a
--   sweep of another thread in between.
-- - Frame: the handlers of the link layers in iftop.c, `packet_init`'s choice among them, and
--   `packet_loop`.
-- - Session: the steps of the whole program and what they reach. Session/Safe has the next frame in
--   a state that is reached.
-- - Adapter: `get_addrs_ioctl` of addrs_ioctl.c, as it is built for Linux. What the system calls
--   return is the record `System`.
-- - Program: `main`, `packet_init` and `set_filter_code` of iftop.c and the key loop of tui.c. What
--   the program finds outside is the record `Outside`.
-- - Printout: `sprint_host` and `print_all_history` of ui_common.c, as the text that they print.
--   TargetList: the list of read_target_ip.c, whose nodes are live or freed.
-- - SortedList, StringMap, Vector: the containers of sorted_list.c, stringmap.c and vector.c.
-- - Run and Prelude: runs that may end in undefined behaviour, and what the modules share.
-- - Tests: the theorems at concrete tables, packets and messages.
--
-- Numbers. Counters of 64 bits keep their wrap-around, ports and lengths are what 16 bits of a
-- packet hold, and conversions between signed and unsigned 64-bit numbers are written out. A number
-- of the command line is what glibc's atol and atoi give where a `long` has 8 bytes: the nearest
-- `long`, cast to an `int` of 32 bits; a product that overflows an `int` is a fault. The rate of
-- max-bandwidth, which is only displayed, is not bounded. Sums of times, which would have to pass
-- 2^63 to matter, are not bounded.
--
-- Fuel. `history_rotate`, `construct_MQTT_msg` and `print_all_history` loop over `hash_next_item`;
-- their fuel is one round for each entry and one for the end. The theorems show that it is enough
-- for every valid table, so they end. The loop of the resolver's worker, with no other thread in
-- between, has one round for each waiting address and one for the end, and `destory_MQTT` looks as
-- often as its list of reports says; the theorems state how many are enough. The loop of resolver.c
-- that doubles its buffer has one round for each doubling. All other loops are structural, or are
-- given the list of what their rounds find.
--
-- What is a parameter: zlib's deflate, the broker's answers and tokens, the results of `time`, the
-- first line of the `boxid` command, the service database, pcap's BPF_WORDALIGN and the functions
-- that open a device and compile a filter, socket, ioctl and getifaddrs, getopt, isprint, isspace,
-- inet_aton, inet_pton, inet_ntop and strtol, the functions that look up a host's name
-- (getnameinfo, gethostbyaddr_r, res_search, ares), fork and socketpair, the names of the
-- interfaces, the sizes of `long` and `time_t`, the contents of freed memory, and the index that
-- `handle_ip_packet` never sets, with which a search of the blocked protocols that leaves their
-- array is a fault. A rate that is computed from a variable that is not set is a fault of
-- `start_up`. The theorems on whole ticks suppose that freed memory keeps its contents;
-- `history_rotate_report` says what happens otherwise.
--
-- What is not modelled: the path of the configuration file, a line of it that starts with a zero
-- byte, `config_get_float`, which nothing calls, the number format of ui_common.c, which is
-- floating-point, the rest of iftop_api.c, communication_info_server.c and screenfilter.c, which
-- nothing calls, what the line editor draws, the terminal settings of tui.c, the Solaris variant of
-- the interface's addresses (addrs_dlpi.c, with dlcommon.c, sample code of another project), the
-- functions that free a whole table, map or vector, and the signals of `main`. Threads interleave
-- by whole calls, but for the rounds of the resolver's worker, which are two steps, the account of
-- a packet, between whose halves a sweep may come (Packet/Race), and `check_status`, of which two
-- threads may run the statements in any order (Mqtt/Race). Memory is never exhausted.
mod Prelude
pub mod Bits
pub mod Hash
pub mod Adapter
pub mod AddrHash
pub mod NsHash
pub mod ServHash
pub mod Options
pub mod History
pub mod Run
pub mod Message
pub mod Mqtt
pub mod Capture
pub mod PortList
pub mod Packet
pub mod Frame
pub mod TargetList
pub mod Printout
pub mod Program
pub mod Session
pub mod StringMap
pub mod SortedList
pub mod Vector
pub mod Resolver
pub mod Text
pub mod Config
pub mod Edline
mod Tests
