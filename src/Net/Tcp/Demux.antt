-- ===== src/Net/Tcp/Demux.antt =====
-- What the demultiplexer leaves alone, and the invariants of the stack's tables.
use pythonos.Prelude.{
  ℕ, ◌≡◌, ◌≢◌, refl, Option, none, some, Bool, ◌&&◌, not, ◌==◌, lookup, insert, lookup-insert, Eq-ℕ,
  Bool-cases, inl, inr, arith,
}
use pythonos.Net.Ip.{IPv4Packet}
use pythonos.Net.Tcp.Segment.{TcpSegment, decode, has_flag, f_syn, f_ack}
use pythonos.Net.Tcp.Connection.{TcpConnection}
use pythonos.Net.Tcp.Stack.{
  Key, Eq-Key, key_eq_iff, TcpStack, key_of, accept_syn, demux, handle_decoded, handle_ip_packet,
}

-- Two stacks that differ at most in the connection of one key.
pub record OnlyAt (k : Key) (before after : TcpStack) : Type 0 where
  pub listeners : after.listeners ≡ before.listeners
  pub next_port : after.next_port ≡ before.next_port
  pub others : (j : Key) → k ≢ j → lookup j after.connections ≡ lookup j before.connections

abbrev pub OnlyAt-refl : (k : Key) (st : TcpStack) → OnlyAt k st st
OnlyAt-refl k st = record { listeners = refl; next_port = refl; others = λ j h. refl }

put_connection :
    (k : Key) (c : TcpConnection) (st : TcpStack)
    → OnlyAt k st (record st { connections = insert k c st.connections })
put_connection k c st = record {
  listeners = refl;
  next_port = refl;
  others = λ j h. ground (arith, lookup-insert k j c st.connections, key_eq_iff k j);
}

accept_syn-OnlyAt :
    (o : Option ℕ) (k : Key) (seg : TcpSegment) (isn : ℕ) (st : TcpStack)
    → OnlyAt k st (accept_syn o k seg isn st).1
unfolding accept_syn
accept_syn-OnlyAt none k seg isn st = OnlyAt-refl k st
accept_syn-OnlyAt (some l) k seg isn st = put_connection k _ st

demux-OnlyAt :
    (o : Option TcpConnection) (sync : Bool) (k : Key) (seg : TcpSegment) (isn : ℕ) (st : TcpStack)
    → OnlyAt k st (demux o sync k seg isn st).1
unfolding demux
demux-OnlyAt (some c) sync k seg isn st = put_connection k _ st
demux-OnlyAt none sync k seg isn st =
    elim (Bool-cases (has_flag seg.flags f_syn && not (has_flag seg.flags f_ack))) [
      | inl t ↦ rw t (accept_syn-OnlyAt (lookup seg.dst_port st.listeners) k seg isn st)
      | inr t ↦ rw t (OnlyAt-refl k st)
    ]

-- The connection that a packet is for, if its payload decodes.
abbrev pub packet_key : IPv4Packet → TcpSegment → Key
packet_key pkt seg = record {
  local_ip = pkt.dst;
  local_port = seg.dst_port;
  remote_ip = pkt.src;
  remote_port = seg.src_port;
}

-- A packet touches no connection but the one that its addresses and ports name, and no listener; one
-- that is not TCP, or whose payload is too short to decode, touches nothing.
pub handle_ip_packet-OnlyAt :
    (sync : Bool) (pkt : IPv4Packet) (isn : ℕ) (st : TcpStack)
    → ((seg : TcpSegment)
        → decode pkt.payload ≡ some seg
        → OnlyAt (packet_key pkt seg) st (handle_ip_packet sync pkt isn st).1)
      × (decode pkt.payload ≡ none → (handle_ip_packet sync pkt isn st).1 ≡ st)
      × (pkt.proto ≢ 6 → (handle_ip_packet sync pkt isn st).1 ≡ st)
unfolding handle_ip_packet handle_decoded
handle_ip_packet-OnlyAt sync pkt isn st = elim (Bool-cases (pkt.proto == 6)) [
  | inl t ↦ (
    (λ seg e.
        rw (t, handle_ip_packet)
          (rw (e, handle_decoded) (demux-OnlyAt _ sync (packet_key pkt seg) seg isn st))),
    (λ e. rw (t) (rw (e, handle_decoded))),
    (λ e. absurd (ground arith)),
  )
  | inr t ↦ ((λ seg e. rw t (OnlyAt-refl _ st)), (λ e. rw t), (λ e. rw t))
]

-- Every connection stands under the key of its own addresses and ports.
abbrev pub IsKeyed : TcpStack → Type 0
IsKeyed st = (k : Key) (c : TcpConnection) → lookup k st.connections ≡ some c → key_of c ≡ k

pub insert-IsKeyed :
    (c : TcpConnection) (k : Key) (st : TcpStack)
    → key_of c ≡ k
    → IsKeyed st
    → IsKeyed (record st { connections = insert k c st.connections })
insert-IsKeyed c k st e h j d f =
    ground (arith, h j d, lookup-insert k j c st.connections, key_eq_iff k j)
