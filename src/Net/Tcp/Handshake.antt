-- ===== src/Net/Tcp/Handshake.antt =====
-- The three-way handshake between the stacks of two hosts: `connect` on one, a listener on the other, and the
-- segments that the code builds. On the way each end's `advance` follows its own transmission.
use pythonos.Prelude.{ℕ, ◌+◌, ◌%◌, ◌^◌, [], Option, none, some, false, lookup, insert, Eq-ℕ}
use pythonos.Prelude.Bytes.{Bytes}
use pythonos.Net.Ip.{IPv4Packet}
use pythonos.Net.Tcp.Segment.{syn_sent, syn_rcvd, TcpSegment, f_syn, f_ack}
use pythonos.Net.Tcp.Connection.{TcpConnection, pending, build, advance, handle_segment}
use pythonos.Net.Tcp.Stack.{Key, Eq-Key, TcpStack, new_connection, connect_start, handle_decoded}

-- The connection of a key sends a segment without data, and goes on from there.
unfoldable pub sent_from : Option TcpConnection → Key → ℕ → TcpStack → Option TcpSegment × TcpStack
unfolding build advance
sent_from none key flags st = (none, st)
sent_from (some c) key flags st = (
  some (build c flags []),
  record st { connections = insert key (advance flags [] c) st.connections },
)

abbrev pub sent_by : Key → ℕ → TcpStack → Option TcpSegment × TcpStack
sent_by key flags st = sent_from (lookup key st.connections) key flags st

-- The packet that brings a segment from `src` to `dst`, as far as the stack reads it.
abbrev pub packet_between : Bytes → Bytes → IPv4Packet
packet_between src dst = record {
  src = src;
  dst = dst;
  proto = 6;
  ttl = 64;
  payload = [];
  tos = 0;
  flags = 0x4000;
}

abbrev pub arrives : Bytes → Bytes → Option TcpSegment → ℕ → TcpStack → TcpStack
arrives src dst seg isn st = (handle_decoded seg false (packet_between src dst) isn st).1

-- The keys of the two ends, on the next port of the client.
abbrev pub client_key : Bytes → ℕ → Bytes → TcpStack → Key
client_key remote port local cs = record {
  local_ip = local;
  local_port = cs.next_port;
  remote_ip = remote;
  remote_port = port;
}

abbrev pub server_key : Bytes → ℕ → Bytes → TcpStack → Key
server_key remote port local cs = record {
  local_ip = remote;
  local_port = port;
  remote_ip = local;
  remote_port = cs.next_port;
}

-- `connect` at `local`, to `port` at `remote`: SYN, SYN-ACK and ACK, each built by one stack and handled by the
-- other. The initial numbers are `x` and `y`.
unfoldable pub handshake : Bytes → ℕ → Bytes → ℕ → ℕ → TcpStack → TcpStack → TcpStack × TcpStack
unfolding connect_start sent_from handle_decoded
handshake remote port local x y cs ss =
    let ck = client_key remote port local cs in
    let sk = server_key remote port local cs in
    let syn = sent_by ck f_syn (connect_start remote port local x cs).1 in
    let syn_ack = sent_by sk (f_syn + f_ack) (arrives local remote syn.0 y ss) in
    let ack = sent_by ck f_ack (arrives remote local syn_ack.0 0 syn.1) in
    (ack.1, arrives local remote ack.0 0 syn_ack.1)

-- The client of `connect` and the server that an incoming SYN creates.
abbrev client_start : Key → ℕ → TcpConnection
client_start k isn = record (new_connection k syn_sent isn 0) { connected = some pending }

abbrev server_start : Key → ℕ → TcpSegment → TcpConnection
server_start k isn syn = new_connection k syn_rcvd isn ((syn.seq + 1) % 2 ^ 32)

-- The two connections, when the third segment has been handled.
module _ (ck sk : Key) (x y : ℕ) where
  abbrev client_sent : TcpConnection
  client_sent = advance f_syn [] (client_start ck x)

  abbrev server_new : TcpConnection
  server_new = server_start sk y (build (client_start ck x) f_syn [])

  abbrev server_sent : TcpConnection
  server_sent = advance (f_syn + f_ack) [] server_new

  abbrev client_told : TcpConnection
  client_told = (handle_segment false (build server_new (f_syn + f_ack) []) client_sent).0

  abbrev client_done : TcpConnection
  client_done = advance f_ack [] client_told

  abbrev server_done : TcpConnection
  server_done = (handle_segment false (build client_told f_ack []) server_sent).0
