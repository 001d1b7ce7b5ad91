-- ===== src/Net/Tests.antt =====
-- The theorems on kernel/net at concrete inputs, and runs of its code.
use pythonos.Prelude.{
  ◌≡◌, ◌≢◌, refl, List, [], ◌∷◌, none, some, true, false, lookup, insert, arith, All, Eq-Bytes,
  Eq-ℕ,
}
use pythonos.Prelude.Bytes.{Bytes}
use pythonos.Net.Ip.{IPv4Packet, inet_cksum, inet_cksum_verifies}
use pythonos.Net.Ip
use pythonos.Net.Arp
use pythonos.Net.Tcp
use pythonos.Net.Tcp.{
  TcpSegment, TcpConnection, TcpState, established, syn_sent, fin_wait_1, has_flag, f_fin, f_ack,
  f_syn, f_psh, handle_segment, close, send,
}
use pythonos.Net.Tcp.Stream.{Collected, deliver, send-delivers, IsPayload}
use pythonos.Net.Tcp.Lifecycle.{Step, Keeps, handle_segment-Step-Keeps, deliver-close}
use pythonos.Net.Tcp.Stack.{Key, Eq-Key, TcpStack, new_stack, new_connection, handle_ip_packet}
use pythonos.Net.Tcp.Demux.{OnlyAt, packet_key, handle_ip_packet-OnlyAt}
use pythonos.Net.Tcp.Tables.{IsValid, Op, run, run-IsValid, ports_after, alloc_port_distinct}
use pythonos.Net.Tcp.Tables

cksum_runs : inet_cksum (0x45 ∷ 0 ∷ 0 ∷ 0x1C ∷ 0xFF ∷ []) ≡ 0xBBE2
unfolding inet_cksum
cksum_runs = refl

abbrev packet : IPv4Packet
packet = record {
  src = 10 ∷ 0 ∷ 2 ∷ 2 ∷ [];
  dst = 10 ∷ 0 ∷ 2 ∷ 15 ∷ [];
  proto = 6;
  ttl = 64;
  payload = 1 ∷ 2 ∷ 3 ∷ [];
  tos = 0;
  flags = 0x4000;
}

packet-IsWire : Ip.IsWire packet
packet-IsWire = omega arith

abbrev segment : TcpSegment
segment = record {
  src_port = 17010;
  dst_port = 49152;
  seq = 4294967295;
  ack = 7;
  flags = 0x18;
  window = 65535;
  payload = 104 ∷ 105 ∷ [];
}

segment-IsWire : Tcp.IsWire segment
segment-IsWire = omega arith

abbrev key : Key
key = record {
  local_ip = packet.dst;
  local_port = 49152;
  remote_ip = packet.src;
  remote_port = 17010;
}

abbrev receiver : TcpConnection
receiver = new_connection key established 50 4294967295

abbrev sender : TcpConnection
sender = new_connection key established 4294967295 50

send-delivers_example :
    All (λ seg. IsPayload seg.payload) (send (1 ∷ 2 ∷ []) sender).0
    × Collected
        (send (1 ∷ 2 ∷ []) sender).1
        receiver
        (deliver true (send (1 ∷ 2 ∷ []) sender).0 receiver)
        (1 ∷ 2 ∷ [])
send-delivers_example =
    send-delivers true (1 ∷ 2 ∷ []) sender receiver (record { open_end = refl; expected = refl })

handle_segment-Step-Keeps_example :
    Step established (handle_segment true segment receiver).0.state
    × Keeps receiver (handle_segment true segment receiver).0
handle_segment-Step-Keeps_example = handle_segment-Step-Keeps true segment receiver

deliver-close_example :
    ((close receiver).0.state ≡ fin_wait_1)
    × (deliver false (segment ∷ []) (close receiver).0 ≡ (close receiver).0)
deliver-close_example = deliver-close false (segment ∷ []) receiver refl

-- A stack with a listener on port 80.
abbrev listening : TcpStack
listening = record new_stack { listeners = (80, 1) ∷ [] }

-- Two bytes for the connection of the key.
abbrev data_packet : IPv4Packet
data_packet = record packet {
  payload =
      66 ∷ 114 ∷ 192 ∷ 0 ∷ 255 ∷ 255 ∷ 255 ∷ 255 ∷ 0 ∷ 0 ∷ 0 ∷ 7 ∷ 80 ∷ 0x18 ∷ 255 ∷ 255 ∷ 0 ∷ 0 ∷ 0
      ∷ 0 ∷ 104 ∷ 105 ∷ [];
}

abbrev one_connection : TcpStack
one_connection = record new_stack { connections = (key, receiver) ∷ [] }

-- It reaches the connection.
data_run :
    (handle_ip_packet false data_packet 1 one_connection).1.connections
    ≡ (key, (handle_segment false segment receiver).0) ∷ []
unfolding handle_ip_packet lookup insert Tcp.decode
data_run = refl

handle_ip_packet-OnlyAt_example :
    ((seg : TcpSegment)
      → Tcp.decode data_packet.payload ≡ some seg
      → OnlyAt
          (packet_key data_packet seg)
          one_connection
          (handle_ip_packet false data_packet 1 one_connection).1)
    × (Tcp.decode data_packet.payload ≡ none
        → (handle_ip_packet false data_packet 1 one_connection).1 ≡ one_connection)
    × (data_packet.proto ≢ 6
        → (handle_ip_packet false data_packet 1 one_connection).1 ≡ one_connection)
handle_ip_packet-OnlyAt_example = handle_ip_packet-OnlyAt false data_packet 1 one_connection

new_stack-IsValid : IsValid new_stack
unfolding lookup
new_stack-IsValid = record {
  keyed = λ k c h. absurd (cc h);
  port_low = omega arith;
  port_high = omega arith;
}

abbrev ops : List Op
ops = Tables.connects packet.dst 80 packet.src 5 ∷ Tables.packet false packet 1 ∷ []

run-IsValid_example : IsValid (run ops new_stack)
run-IsValid_example = run-IsValid ops new_stack new_stack-IsValid

abbrev my_mac : Bytes
my_mac = 2 ∷ 0 ∷ 0 ∷ 0 ∷ 0 ∷ 1 ∷ []

abbrev my_ip : Bytes
my_ip = 10 ∷ 0 ∷ 2 ∷ 15 ∷ []

abbrev your_ip : Bytes
your_ip = 10 ∷ 0 ∷ 2 ∷ 2 ∷ []

abbrev empty_table : Arp.ArpTable
empty_table = record { table = []; pending = [] }

unknown_there : lookup your_ip empty_table.table ≡ none
unfolding lookup
unknown_there = refl
