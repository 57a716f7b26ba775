-- ===== src/Message/Client.antt =====
-- The reader of the message: `save_data` of Python_Client/mqtt_client.py, up to its table. It unpacks
-- records of the format '=LHLHHQQLL', whose numbers have 4, 2, 4, 2, 2, 8, 8, 4 and 4 bytes.
use iftop_dotqoo.Prelude.{
  Bool, List, [], bit_and, if◌then◌else◌, suc, zero, ℕ, ◌%◌, ◌&&◌, ◌*◌, ◌+◌, ◌/◌, ◌<◌, ◌==◌, ◌^◌,
  ◌∷◌,
}
use iftop_dotqoo.Hash.{Chain}
use iftop_dotqoo.AddrHash.{AddrPair}
use iftop_dotqoo.History.{HistoryType}

abbrev pub Nodes : Type 0
Nodes = Chain AddrPair HistoryType

pub record Reported : Type 0 where
  pub outer_ip : ℕ
  pub outer_port : ℕ
  pub inner_ip : ℕ
  pub inner_port : ℕ
  pub protocol : ℕ
  pub recv : ℕ
  pub send : ℕ
  pub create : ℕ
  pub end_time : ℕ

-- A number of `n` bytes, and the bytes behind it.
unfoldable pub take_le : ℕ → List ℕ → ℕ × List ℕ
take_le zero bs = (0, bs)
take_le (suc n) [] = (0, [])
take_le (suc n) (b ∷ bs) = let rest = take_le n bs in (b + 256 * rest.0, rest.1)

unfoldable pub unpack : List ℕ → Reported × List ℕ
unpack message =
    let outer_ip = take_le 4 message in
    let outer_port = take_le 2 outer_ip.1 in
    let inner_ip = take_le 4 outer_port.1 in
    let inner_port = take_le 2 inner_ip.1 in
    let protocol = take_le 2 inner_port.1 in
    let recv = take_le 8 protocol.1 in
    let send = take_le 8 recv.1 in
    let create = take_le 4 send.1 in
    let end_time = take_le 4 create.1 in
    (
      record {
        outer_ip = outer_ip.0;
        outer_port = outer_port.0;
        inner_ip = inner_ip.0;
        inner_port = inner_port.0;
        protocol = protocol.0;
        recv = recv.0;
        send = send.0;
        create = create.0;
        end_time = end_time.0;
      },
      end_time.1,
    )

-- `struct.unpack("<L", struct.pack(">L", ip))`.
unfoldable pub swap_bytes : ℕ → ℕ
unfolding take_le
swap_bytes ip =
    (take_le 4 (ip / 2 ^ 24 % 256 ∷ ip / 2 ^ 16 % 256 ∷ ip / 2 ^ 8 % 256 ∷ ip % 256 ∷ [])).0

unfoldable pub swap_addresses : Reported → Reported
swap_addresses r = record r { outer_ip = swap_bytes r.outer_ip; inner_ip = swap_bytes r.inner_ip }

-- The body of the loop of `save_data`, up to its table: a record outside of the inner net is skipped.
unfoldable pub save_one : Reported → List Reported → List Reported
unfolding swap_addresses
save_one r others =
    let swapped = swap_addresses r in
    if bit_and swapped.inner_ip 0xFFFF0000 == 0xAC100000 then swapped ∷ others else others

-- The records of a message of `n` that `save_data` goes on to put into its table.
unfoldable pub save_data : ℕ → List ℕ → List Reported
unfolding unpack
save_data zero message = []
save_data (suc n) message = let (first, rest) = unpack message in save_one first (save_data n rest)

-- The number whose highest byte is the first octet of an address.
unfoldable pub host_order : ℕ → ℕ
host_order ip =
    ip % 256 * 2 ^ 24 + ip / 2 ^ 8 % 256 * 2 ^ 16 + ip / 2 ^ 16 % 256 * 2 ^ 8 + ip / 2 ^ 24 % 256

-- What the history says of a connection, under the names of the reader.
unfoldable pub report : AddrPair → HistoryType → Reported
report key stat = record {
  outer_ip = key.src;
  outer_port = key.src_port;
  inner_ip = key.dst;
  inner_port = key.dst_port;
  protocol = key.protocol;
  recv = stat.total_sent;
  send = stat.total_recv;
  create = stat.create_time;
  end_time = stat.last_update_time;
}

-- The first two octets of the destination are 172 and 16.
unfoldable pub is_inner : AddrPair → Bool
is_inner key = key.dst % 256 == 172 && key.dst / 2 ^ 8 % 256 == 16

-- The approved connections to the inner net.
unfoldable pub inner_reports : Nodes → List Reported
inner_reports [] = []
inner_reports ((key, stat) ∷ c) =
    let others = inner_reports c in
    if stat.approval && is_inner key
    then record (report key stat) { outer_ip = host_order key.src; inner_ip = host_order key.dst }
      ∷ others
    else others

-- Every field is within its C type, on a platform of 4-byte `long` and `time_t`.
pub record InRange (key : AddrPair) (stat : HistoryType) : Type 0 where
  pub src : key.src < 2 ^ 32
  pub src_port : key.src_port < 2 ^ 16
  pub dst : key.dst < 2 ^ 32
  pub dst_port : key.dst_port < 2 ^ 16
  pub protocol : key.protocol < 2 ^ 16
  pub total_sent : stat.total_sent < 2 ^ 64
  pub total_recv : stat.total_recv < 2 ^ 64
  pub create_time : stat.create_time < 2 ^ 32
  pub last_update_time : stat.last_update_time < 2 ^ 32
