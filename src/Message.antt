-- ===== src/Message.antt =====
-- The message of mqtt.c: `construct_MQTT_msg` writes one fixed-size record for each approved
-- connection into a buffer of `struct_size * n` bytes. Numbers are little-endian; the sizes of
-- `long` and `time_t` are those of the platform, `unsigned long long` has 8 bytes and `short int` 2.
pub mod Layout
pub mod Client
pub mod Reader
use iftop_dotqoo.Prelude.{
  List, [], flatten, if◌then◌else◌, leb, length, not, replicate, suc, zero, ℕ, ◌%◌, ◌*◌, ◌++◌, ◌+◌,
  ◌-◌, ◌/◌, ◌∷◌,
}
use iftop_dotqoo.Hash.{Chain, next_item}
use iftop_dotqoo.AddrHash.{AddrPair, addr_ops}
use iftop_dotqoo.History.{History, HistoryType}
use iftop_dotqoo.Run.{Run, fault, ok, ◌>>=◌, buffer_overflow, out_of_fuel}

-- The bytes of a number of `n` bytes in memory.
unfoldable pub le_bytes : ℕ → ℕ → List ℕ
le_bytes zero x = []
le_bytes (suc n) x = x % 256 ∷ le_bytes n (x / 256)

-- The platform: `sizeof(long)` and `sizeof(time_t)`, and what stands in memory behind the two
-- addresses of a key, which have 4 bytes each: `memcpy` copies `sizeof(long)` bytes from them.
pub record Platform : Type 0 where
  pub long_size : ℕ
  pub time_size : ℕ
  pub behind_src : AddrPair → ℕ
  pub behind_dst : AddrPair → ℕ

module _ (platform : Platform) where
  open platform use {long_size, time_size, behind_src, behind_dst}

  -- `init_MQTT`: sizeof(long)*2 + sizeof(short int)*3 + sizeof(unsigned long long)*2 + sizeof(time_t)*2
  unfoldable pub struct_size : ℕ
  struct_size = long_size * 2 + 2 * 3 + 8 * 2 + time_size * 2

  -- The bytes that `memcpy` reads at a 4-byte address.
  unfoldable pub long_at : ℕ → ℕ → List ℕ
  long_at addr behind = le_bytes 4 addr ++ le_bytes (long_size - 4) behind

  unfoldable pub encode : AddrPair → HistoryType → List ℕ
  encode addr_info stat =
      long_at addr_info.src (behind_src addr_info)
      ++ (le_bytes 2 addr_info.src_port
          ++ (long_at addr_info.dst (behind_dst addr_info)
              ++ (le_bytes 2 addr_info.dst_port
                  ++ (le_bytes 2 addr_info.protocol
                      ++ (le_bytes 8 stat.total_sent
                          ++ (le_bytes 8 stat.total_recv
                              ++ (le_bytes time_size stat.create_time
                                  ++ le_bytes time_size stat.last_update_time)))))))

  -- The body of the loop: the record goes behind the bytes written so far. A write past the end of
  -- the buffer is a fault.
  unfoldable pub write_record : ℕ → List ℕ → AddrPair → HistoryType → Run (List ℕ)
  write_record capacity written addr_info stat =
      let written' = written ++ encode addr_info stat in
      if not stat.approval
      then ok written
      else if leb (length written') capacity
      then ok written'
      else fault buffer_overflow

  -- The loop over the table, which fetches the next node before it looks at this one.
  unfoldable pub write_loop : ℕ → ℕ → History → Chain AddrPair HistoryType → List ℕ → Run (List ℕ)
  write_loop zero capacity history node written = fault out_of_fuel
  write_loop (suc fuel) capacity history [] written = ok written
  write_loop (suc fuel) capacity history ((key, stat) ∷ c) written =
      let next = next_item addr_ops history ((key, stat) ∷ c) in
      write_record capacity written key stat >>= write_loop fuel capacity history next

  -- The buffer after the loop: what was written, in front of the zeroes of `calloc`.
  unfoldable pub fill_message : ℕ → History → Run (List ℕ)
  fill_message n history = do
    let capacity = struct_size * n
    let first = next_item addr_ops history []
    written ← write_loop (suc (length (flatten history))) capacity history first []
    ok (written ++ replicate (capacity - length written) 0)
