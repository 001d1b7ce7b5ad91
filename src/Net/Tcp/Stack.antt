-- ===== src/Net/Tcp/Stack.antt =====
-- `TCPStack`: connections by address pair, listeners by port, and the demultiplexer. A listener is
-- named by a number, which stands for the object's identity; `spawned` is the handshake task that an
-- incoming SYN starts, and the sends of a connection are those of `Connection`.
use pythonos.Prelude.{
  ℕ, ◌+◌, ◌-◌, ◌%◌, ◌^◌, ◌≡◌, ◌↔◌, List, [], Option, none, some, Bool, true, false, ◌&&◌, not, ◌==◌,
  if◌then◌else◌, Dict, lookup, insert, erase, has_key, Eq, Eq-ℕ, bytes_eq, bytes_eq_iff, ok, err,
  Exec, arith,
}
use pythonos.Prelude.Bytes.{Bytes}
use pythonos.Net.Ip.{IPv4Packet}
use pythonos.Net.Tcp.Segment.{
  TcpState, syn_sent, syn_rcvd, TcpSegment, decode, has_flag, f_syn, f_ack,
}
use pythonos.Net.Tcp.Connection.{TcpConnection, pending, Send, handle_segment}

-- (local address, local port, remote address, remote port).
pub record Key : Type 0 where
  pub local_ip : Bytes
  pub local_port : ℕ
  pub remote_ip : Bytes
  pub remote_port : ℕ

abbrev pub key_eq : Key → Key → Bool
key_eq a b =
    bytes_eq a.local_ip b.local_ip
    && (a.local_port == b.local_port
        && (bytes_eq a.remote_ip b.remote_ip && a.remote_port == b.remote_port))

pub key_eq_iff : (a b : Key) → (key_eq a b ≡ true) ↔ (a ≡ b)
key_eq_iff a b =
    ground (arith, bytes_eq_iff a.local_ip b.local_ip, bytes_eq_iff a.remote_ip b.remote_ip)

instance abbrev pub Eq-Key : Eq Key
Eq-Key = record { beq = key_eq; beq_iff = key_eq_iff }

pub record TcpStack : Type 0 where
  pub connections : Dict Key TcpConnection
  pub listeners : Dict ℕ ℕ
  pub next_port : ℕ

abbrev pub new_stack : TcpStack
new_stack = record { connections = []; listeners = []; next_port = 49152 }

abbrev pub key_of : TcpConnection → Key
key_of c = record {
  local_ip = c.local_ip;
  local_port = c.local_port;
  remote_ip = c.remote_ip;
  remote_port = c.remote_port;
}

-- `_next_port + 1 - 49152` is not negative, since the port is one of the ephemeral range.
unfoldable pub alloc_port : TcpStack → ℕ × TcpStack
alloc_port st = (st.next_port, record st { next_port = (st.next_port + 1 - 49152) % 16384 + 49152 })

-- `TCPConnection(...)` with the defaults of the class; `isn` is the random initial number.
abbrev pub new_connection : Key → TcpState → ℕ → ℕ → TcpConnection
new_connection k state isn snd_ack = record {
  local_ip = k.local_ip;
  remote_ip = k.remote_ip;
  local_port = k.local_port;
  remote_port = k.remote_port;
  state = state;
  snd_seq = isn;
  snd_ack = snd_ack;
  snd_wnd = 65535;
  rcv_buf = [];
  rx_event = false;
  accept_event = false;
  connected = none;
}

-- `connect` up to its first `await`: the connection in SYN_SENT is in the table, under its key.
unfoldable pub connect_start : Bytes → ℕ → Bytes → ℕ → TcpStack → Key × TcpStack
unfolding alloc_port
connect_start remote_ip remote_port local_ip isn st =
    let (port, st') = alloc_port st in
    let key : Key = record {
      local_ip = local_ip;
      local_port = port;
      remote_ip = remote_ip;
      remote_port = remote_port;
    } in
    let conn = record (new_connection key syn_sent isn 0) { connected = some pending } in
    (key, record st' { connections = insert key conn st'.connections })

-- The handler of `connect` when the wait fails.
unfoldable pub connect_failed : Key → TcpStack → TcpStack
connect_failed key st = record st { connections = erase key st.connections }

pub data ListenError : Type 0 where
  port_in_use : ℕ → ListenError

-- `id` is the identity of the new listener.
unfoldable pub listen : ℕ → ℕ → Exec TcpStack ListenError ℕ
listen port id st =
    if has_key port st.listeners
    then (err (port_in_use port), st)
    else (ok id, record st { listeners = insert port id st.listeners })

abbrev pub same_listener : ℕ → Option ℕ → Bool
same_listener current none = true
same_listener current (some id) = current == id

unfoldable pub unlisten_current : ℕ → Option ℕ → Option ℕ → TcpStack → TcpStack
unlisten_current port listener none st = st
unlisten_current port listener (some current) st =
    if same_listener current listener then record st { listeners = erase port st.listeners } else st

unfoldable pub unlisten : ℕ → Option ℕ → TcpStack → TcpStack
unfolding unlisten_current
unlisten port listener st = unlisten_current port listener (lookup port st.listeners) st

unfoldable pub remove_connection : TcpConnection → TcpStack → TcpStack
remove_connection conn st = record st { connections = erase (key_of conn) st.connections }

-- What a packet makes the stack do besides changing its tables.
pub data Output : Type 0 where
  sends : Key → List Send → Output
  spawned : Key → ℕ → Output
  silent : Output

unfoldable pub accept_syn : Option ℕ → Key → TcpSegment → ℕ → TcpStack → Output × TcpStack
accept_syn none key seg isn st = (silent, st)
accept_syn (some listener) key seg isn st =
    let conn = new_connection key syn_rcvd isn ((seg.seq + 1) % 2 ^ 32) in
    (spawned key listener, record st { connections = insert key conn st.connections })

unfoldable pub demux :
    Option TcpConnection → Bool → Key → TcpSegment → ℕ → TcpStack → Output × TcpStack
unfolding accept_syn
demux (some conn) sync key seg isn st =
    let (conn', out) = handle_segment sync seg conn in
    (sends key out, record st { connections = insert key conn' st.connections })
demux none sync key seg isn st =
    if has_flag seg.flags f_syn && not (has_flag seg.flags f_ack)
    then accept_syn (lookup seg.dst_port st.listeners) key seg isn st
    else (silent, st)

unfoldable pub handle_decoded :
    Option TcpSegment → Bool → IPv4Packet → ℕ → TcpStack → Output × TcpStack
unfolding demux
handle_decoded none sync pkt isn st = (silent, st)
handle_decoded (some seg) sync pkt isn st =
    let key : Key = record {
      local_ip = pkt.dst;
      local_port = seg.dst_port;
      remote_ip = pkt.src;
      remote_port = seg.src_port;
    } in
    demux (lookup key st.connections) sync key seg isn st

unfoldable pub handle_ip_packet : Bool → IPv4Packet → ℕ → TcpStack → Output × TcpStack
unfolding handle_decoded
handle_ip_packet sync pkt isn st =
    if pkt.proto == 6 then handle_decoded (decode pkt.payload) sync pkt isn st else (silent, st)
