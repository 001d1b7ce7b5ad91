-- ===== src/Net/Tcp/Tables.antt =====
-- The invariants of the stack's tables under every operation, and the ephemeral ports.
use pythonos.Prelude.{
  ℕ, zero, suc, ◌+◌, ◌-◌, ◌%◌, ◌<◌, ◌≤◌, ◌≡◌, ◌≢◌, ◌∙◌, refl, List, [], ◌∷◌, Option, none, some,
  Bool, ◌&&◌, not, ◌==◌, lookup, insert, erase, lookup-erase, Eq-ℕ, Bool-cases, inl, inr, arith,
}
use pythonos.Prelude.Bytes.{Bytes}
use pythonos.Net.Ip.{IPv4Packet}
use pythonos.Net.Tcp.Segment.{TcpSegment, decode, has_flag, f_syn, f_ack}
use pythonos.Net.Tcp.Connection.{TcpConnection, handle_segment}
use pythonos.Net.Tcp.Lifecycle.{handle_segment-Keeps}
use pythonos.Net.Tcp.Stack.{
  Key, Eq-Key, TcpStack, key_of, alloc_port, connect_start, connect_failed, remove_connection,
  accept_syn, demux, handle_decoded, handle_ip_packet,
}
use pythonos.Net.Tcp.Demux.{IsKeyed, insert-IsKeyed, packet_key}

-- The connections stand under their own keys, and the next port is an ephemeral one.
pub record IsValid (st : TcpStack) : Type 0 where
  pub keyed : IsKeyed st
  pub port_low : 49152 ≤ st.next_port
  pub port_high : st.next_port < 65536

key_of-handle_segment :
    (sync : Bool) (seg : TcpSegment) (c : TcpConnection)
    → key_of (handle_segment sync seg c).0 ≡ key_of c
key_of-handle_segment sync seg c = ground (arith, handle_segment-Keeps sync seg c)

put-IsValid :
    (c : TcpConnection) (k : Key) (st : TcpStack)
    → key_of c ≡ k
    → IsValid st
    → IsValid (record st { connections = insert k c st.connections })
put-IsValid c k st e v = record {
  keyed = insert-IsKeyed c k st e v.keyed;
  port_low = v.port_low;
  port_high = v.port_high;
}

accept_syn-IsValid :
    (o : Option ℕ) (k : Key) (seg : TcpSegment) (isn : ℕ) (st : TcpStack)
    → IsValid st
    → IsValid (accept_syn o k seg isn st).1
unfolding accept_syn
accept_syn-IsValid none k seg isn st v = v
accept_syn-IsValid (some l) k seg isn st v = put-IsValid _ k st refl v

demux-IsValid :
    (o : Option TcpConnection) (sync : Bool) (k : Key) (seg : TcpSegment) (isn : ℕ) (st : TcpStack)
    → lookup k st.connections ≡ o
    → IsValid st
    → IsValid (demux o sync k seg isn st).1
unfolding demux
demux-IsValid (some c) sync k seg isn st e v =
    put-IsValid (handle_segment sync seg c).0 k st
      (key_of-handle_segment sync seg c ∙ v.keyed k c e) v
demux-IsValid none sync k seg isn st e v =
    elim (Bool-cases (has_flag seg.flags f_syn && not (has_flag seg.flags f_ack))) [
      | inl t ↦ rw t (accept_syn-IsValid (lookup seg.dst_port st.listeners) k seg isn st v)
      | inr t ↦ rw t v
    ]

decoded-IsValid :
    (o : Option TcpSegment) (sync : Bool) (pkt : IPv4Packet) (isn : ℕ) (st : TcpStack)
    → IsValid st
    → IsValid (handle_decoded o sync pkt isn st).1
unfolding handle_decoded
decoded-IsValid none sync pkt isn st v = v
decoded-IsValid (some seg) sync pkt isn st v =
    demux-IsValid _ sync (packet_key pkt seg) seg isn st refl v

handle_ip_packet-IsValid :
    (sync : Bool) (pkt : IPv4Packet) (isn : ℕ) (st : TcpStack)
    → IsValid st
    → IsValid (handle_ip_packet sync pkt isn st).1
unfolding handle_ip_packet
handle_ip_packet-IsValid sync pkt isn st v = elim (Bool-cases (pkt.proto == 6)) [
  | inl t ↦ rw t (decoded-IsValid (decode pkt.payload) sync pkt isn st v)
  | inr t ↦ rw t v
]

connect_start-IsValid :
    (remote_ip : Bytes) (remote_port : ℕ) (local_ip : Bytes) (isn : ℕ) (st : TcpStack)
    → IsValid st
    → IsValid (connect_start remote_ip remote_port local_ip isn st).1
unfolding connect_start alloc_port
connect_start-IsValid remote_ip remote_port local_ip isn st v =
    put-IsValid _ _ (record st { next_port = (st.next_port + 1 - 49152) % 16384 + 49152 }) refl
      (record { keyed = v.keyed; port_low = omega arith; port_high = omega arith })

erase-IsValid :
    (k : Key) (st : TcpStack)
    → IsValid st
    → IsValid (record st { connections = erase k st.connections })
erase-IsValid k st v = record {
  keyed = λ j d f. ground (arith, v.keyed j d, lookup-erase k j st.connections);
  port_low = v.port_low;
  port_high = v.port_high;
}

-- The operations of the stack that write its connection table or its next port.
pub data Op : Type 0 where
  packet : Bool → IPv4Packet → ℕ → Op
  connects : Bytes → ℕ → Bytes → ℕ → Op
  fails : Key → Op
  removes : TcpConnection → Op

pub step : Op → TcpStack → TcpStack
step (packet sync pkt isn) st = (handle_ip_packet sync pkt isn st).1
step (connects remote_ip remote_port local_ip isn) st =
    (connect_start remote_ip remote_port local_ip isn st).1
step (fails key) st = connect_failed key st
step (removes conn) st = remove_connection conn st

pub run : List Op → TcpStack → TcpStack
unfolding step
run [] st = st
run (op ∷ ops) st = run ops (step op st)

step-IsValid : (op : Op) (st : TcpStack) → IsValid st → IsValid (step op st)
unfolding step connect_failed remove_connection
step-IsValid (packet sync pkt isn) st v = handle_ip_packet-IsValid sync pkt isn st v
step-IsValid (connects r p l isn) st v = connect_start-IsValid r p l isn st v
step-IsValid (fails key) st v = erase-IsValid key st v
step-IsValid (removes conn) st v = erase-IsValid (key_of conn) st v

-- After any sequence of packets, connection attempts, failures and removals, from a valid stack,
-- every connection stands under the key of its own addresses and ports, so that the packets which
-- name it reach it, and the next port lies in the ephemeral range.
pub run-IsValid : (ops : List Op) (st : TcpStack) → IsValid st → IsValid (run ops st)
unfolding run
run-IsValid [] st v = v
run-IsValid (op ∷ ops) st v = run-IsValid ops (step op st) (step-IsValid op st v)

unfoldable pub ports_after : ℕ → TcpStack → ℕ × TcpStack
unfolding alloc_port
ports_after zero st = alloc_port st
ports_after (suc n) st = ports_after n (alloc_port st).1

ports_after_lem :
    (n : ℕ) (st : TcpStack)
    → 49152 ≤ st.next_port
    → st.next_port < 65536
    → (ports_after n st).0 ≡ (st.next_port - 49152 + n) % 16384 + 49152
unfolding ports_after
ports_after_lem zero st lo hi = omega arith
ports_after_lem (suc n) st lo hi =
    omega (arith, ports_after_lem n (alloc_port st).1 (omega arith) (omega arith))

-- Allocated ports repeat only after the whole range of 16384: any two of that many consecutive
-- allocations differ, and each lies in 49152 to 65535.
pub alloc_port_distinct :
    (m n : ℕ) (st : TcpStack)
    → 49152 ≤ st.next_port
    → st.next_port < 65536
    → m < n
    → n < m + 16384
    → (49152 ≤ (ports_after m st).0)
      × ((ports_after m st).0 < 65536)
      × ((ports_after m st).0 ≢ (ports_after n st).0)
alloc_port_distinct m n st lo hi lt near = (
  omega (arith, ports_after_lem m st lo hi),
  omega (arith, ports_after_lem m st lo hi),
  λ e. absurd (omega (arith, ports_after_lem m st lo hi, ports_after_lem n st lo hi)),
)
