-- ===== src/Bytes/Packet.antt =====
-- The packets of bytebuffer/mangosByteBuffer: `SendData` of server.cpp, and the loop of client.cpp
-- that cuts the stream into packets.
pub mod Wire
pub mod Cut
pub mod Loop
pub mod Stream
pub mod Setup
use linux_study_notes.Bytes.Buffer.{
  Access, stops, gives, asserts, outside, ◌>>=◌, append, clear, empty_buffer,
}
use linux_study_notes.Bytes.Message.{Message, read_message}
use linux_study_notes.Bytes.Value.{to_bytes, from_bytes, from_bits}
use linux_study_notes.Libc.Int.{ℤ}
use linux_study_notes.Libc.{c_str}
use linux_study_notes.Prelude.{
  ℕ, zero, suc, ◌+◌, ◌-◌, ◌*◌, ◌^◌, ◌%◌, Bool, true, false, ◌||◌, List, [], ◌∷◌, ◌++◌, ltb, leb,
  ◌==◌, if◌then◌else◌, length, take, drop, min,
}

-- `sizeof(NetPacketHeader)`
abbrev pub header_size : ℕ
header_size = 4

-- `NET_PACKET_SIZE`
abbrev pub packet_size : ℕ
packet_size = (header_size + 1024) * 10

-- `SendData` for a socket that takes all that `send` is given: the bytes on the wire, and the
-- array. The size of a packet is an `unsigned short`.
unfoldable pub send_data : ℕ → List ℕ → List ℕ → Access (List ℕ × List ℕ)
send_data opcode bytes send_buf =
    let send_size = (length bytes + header_size) % 2 ^ 16 in
    let filled =
      to_bytes 2 send_size
      ++ (to_bytes 2 opcode ++ (bytes ++ drop (header_size + length bytes) send_buf)) in
    if leb (header_size + length bytes) packet_size
    then gives (take send_size filled, filled)
    else stops outside

-- What `OnNetPacket` is called with; an unknown code is only printed.
pub data Delivered : Type 0 where
  pod : ℤ → List ℕ → Delivered
  serialized : Message → Delivered
  unknown : ℕ → Delivered

-- `OnNetMessage`: the data stand behind the header in `m_cbDataBuf`. NET_TEST_POD is 1 and reads a
-- struct there whatever the size is; NET_TEST_SERIALIZE is 2.
unfoldable pub on_net_message : ℕ → ℕ → List ℕ → Access Delivered
on_net_message opcode data_size data_buf =
    if opcode == 1
    then gives (pod (from_bits 4 (from_bytes (take 4 (drop 4 data_buf)))) (c_str (drop 8 data_buf)))
    else if opcode == 2
    then (if leb (header_size + data_size) packet_size
        then (append (take data_size (drop 4 data_buf)) (clear empty_buffer) >>= λ b.
            read_message b >>= λ m. gives (serialized m.0))
        else stops outside)
    else gives (unknown opcode)

-- The members of the client that `run` uses, its `nCount`, whether it has closed the socket, and
-- what it has delivered, oldest first.
pub record Client : Type 0 where
  pub recv_buf : List ℕ
  pub recv_size : ℕ
  pub data_buf : List ℕ
  pub count : ℕ
  pub closed : Bool
  pub delivered : List Delivered

-- `pHeader->wDataSize`
abbrev pub next_size : Client → ℕ
next_size c = from_bytes (take 2 c.recv_buf)

-- The round of the inner loop behind its three tests. `memmove` moves `m_nRecvSize` bytes.
unfoldable pub take_packet : Client → Access Client
take_packet c =
    let n = next_size c in
    let packet = take n c.recv_buf ++ drop n c.data_buf in
    let rest = take c.recv_size (drop n c.recv_buf) ++ drop c.recv_size c.recv_buf in
    if leb (n + c.recv_size) packet_size
    then (on_net_message (from_bytes (take 2 (drop 2 packet))) ((n + 2 ^ 16 - header_size) % 2 ^ 16)
          packet
        >>= λ d. gives (record c {
          recv_buf = rest;
          recv_size = c.recv_size - n;
          data_buf = packet;
          count = c.count + 1;
          delivered = c.delivered ++ d ∷ [];
        }))
    else stops outside

-- The inner loop. A round that goes on has counted a packet, and the loop ends at ten, so that
-- eleven rounds are enough.
unfoldable pub packet_loop : ℕ → Client → Access Client
packet_loop zero c = gives c
packet_loop (suc fuel) c =
    if ltb c.recv_size header_size
    then gives c
    else if leb 10 c.count
    then gives (record c { closed = true })
    else if ltb c.recv_size (next_size c)
    then gives c
    else take_packet c >>= λ c'. packet_loop fuel c'

-- `recv` behind what is held.
abbrev pub received : List ℕ → Client → Client
received got c = record c {
  recv_buf = take c.recv_size c.recv_buf ++ (got ++ drop (c.recv_size + length got) c.recv_buf);
  recv_size = c.recv_size + length got;
}

-- `run`: each number is how many bytes the kernel has ready for a `recv`, which takes at most what
-- is free in the array.
unfoldable pub run : List ℕ → List ℕ → Client → Access Client
run [] stream c = gives c
run (ready ∷ more) stream c =
    let n = min ready (packet_size - c.recv_size) in
    let got = take n stream in
    if c.closed || length got == 0
    then gives c
    else packet_loop 11 (received got c) >>= λ c'. run more (drop n stream) c'
