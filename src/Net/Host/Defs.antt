-- ===== src/Net/Host/Defs.antt =====
-- The synchronous path of kernel/net/stack.py: `poll_once`, `_dispatch_sync`, `_maybe_send_arp_reply_sync`,
-- `_send_frame_nowait` and `send_tcp_segment_nowait`. The variables of the module and the objects that it
-- uses are one record. A card is a parameter: whether it takes a frame, and the frame that it has received.
use pythonos.Prelude.{
  ℕ, List, [], ◌∷◌, ◌++◌, Option, none, some, Bool, true, false, ◌||◌, not, ltb, ◌==◌,
  if◌then◌else◌, Outcome, Exec, ok, err, pure, continue, ◌>>=◌, ◌>>◌, bytes_eq, length, take,
}
use pythonos.Prelude.Bytes.{Bytes, slice, be_value, pack, pack_b, pack_h, pack_s}
use pythonos.Net.Ethernet
use pythonos.Net.Ethernet.{EtherFrame, FrameError, ethertype_arp, ethertype_ipv4}
use pythonos.Net.Ip
use pythonos.Net.Ip.{IPv4Packet, IpError}
use pythonos.Net.Arp
use pythonos.Net.Arp.{ArpTable, Answer, lookup_mac, build_request}
use pythonos.Net.Tcp
use pythonos.Net.Tcp.{TcpSegment, Send, now, later}
use pythonos.Net.Tcp.Stack.{TcpStack, Output, sends, handle_ip_packet}

-- `_nic`: there is none, it cannot send at once, or it can, and takes a frame or not.
pub data Nic : Type 0 where
  no_nic no_sending : Nic
  sending : (Bytes → Bool) → Nic

-- The variables of the module, the tables of ARP and TCP, the counter of IP, and what was sent.
pub record Host : Type 0 where
  pub local_ip : Bytes
  pub local_mac : Bytes
  pub gateway : Bytes
  pub nic : Nic
  pub arp : ArpTable
  pub tcp : TcpStack
  pub ip_id : ℕ
  pub sent : List Bytes

pub data NetError : Type 0 where
  frame_error : FrameError → NetError
  ip_error : IpError → NetError
  struct_error : NetError

abbrev pub Net : Type 0 → Type 0
Net A = Exec Host NetError A

abbrev pub lift_frame : {A : Type 0} → Outcome FrameError A → Net A
lift_frame (ok a) h = (ok a, h)
lift_frame (err e) h = (err (frame_error e), h)

abbrev pub lift_struct : {A : Type 0} → Option A → Net A
lift_struct none h = (err struct_error, h)
lift_struct (some a) h = (ok a, h)

abbrev pub counted : {A : Type 0} → Host → Outcome IpError A × ℕ → Outcome NetError A × Host
counted h (ok a, n) = (ok a, record h { ip_id = n })
counted h (err e, n) = (err (ip_error e), record h { ip_id = n })

-- `ip_pkt.encode()`.
unfoldable pub encode_ip : IPv4Packet → Net Bytes
encode_ip p h = counted h (Ip.encode p h.ip_id)

abbrev pub has_nic : Nic → Bool
has_nic no_nic = false
has_nic _ = true

abbrev pub transmit : Nic → Bytes → Host → Bool × Host
transmit (sending accepts) frame h = (accepts frame, record h { sent = h.sent ++ frame ∷ [] })
transmit _ frame h = (false, h)

unfoldable pub send_frame_nowait : Bytes → Net Bool
send_frame_nowait frame h = let (taken, h') = transmit h.nic frame h in (ok taken, h')

-- The reply to a request of `sender_mac` at `sender_ip`.
abbrev pub reply_fields : Host → Bytes → Bytes → Option Bytes
reply_fields h sender_mac sender_ip = pack (
    pack_h 1
    ∷ pack_h 0x0800
    ∷ pack_b 6
    ∷ pack_b 4
    ∷ pack_h 2
    ∷ pack_s 6 h.local_mac
    ∷ pack_s 4 h.local_ip
    ∷ pack_s 6 sender_mac
    ∷ pack_s 4 sender_ip
    ∷ [])

unfoldable pub send_arp_reply : Bytes → Bytes → Net (Unit {0})
unfolding send_frame_nowait
send_arp_reply sender_mac sender_ip h =
    (do
      arp ← lift_struct (reply_fields h sender_mac sender_ip)
      frame ← lift_frame (
          Ethernet.encode (record {
            dst = sender_mac;
            src = h.local_mac;
            ethertype = ethertype_arp;
            payload = arp;
          }))
      _ ← send_frame_nowait frame
      pure tt)
      h

unfoldable pub maybe_send_arp_reply : Bytes → Net (Unit {0})
unfolding send_arp_reply
maybe_send_arp_reply payload h =
    if ltb (length payload) 28 || not (has_nic h.nic)
    then (ok tt, h)
    else if not (be_value (slice 6 8 payload) == 1)
        || not (bytes_eq (slice 24 28 payload) h.local_ip)
    then (ok tt, h)
    else send_arp_reply (slice 8 14 payload) (slice 14 18 payload) h

unfoldable pub next_hop : Bytes → Host → Bytes
next_hop dst h = if bytes_eq (take 3 dst) (take 3 h.local_ip) then dst else h.gateway

-- `src_ip or local_ip`.
abbrev pub source : Bytes → Host → Bytes
source [] h = h.local_ip
source (b ∷ src) h = b ∷ src

unfoldable pub send_to : Option Bytes → TcpSegment → Bytes → Bytes → Net Bool
unfolding send_frame_nowait next_hop encode_ip
send_to none seg src dst h =
    (do
      frame ← lift_frame (build_request h.local_mac h.local_ip (next_hop dst h))
      _ ← send_frame_nowait frame
      pure false)
      h
send_to (some mac) seg src dst h =
    (do
      payload ← lift_struct (Tcp.encode seg (source src h) dst)
      ip ← encode_ip (record {
        src = source src h;
        dst = dst;
        proto = 6;
        ttl = 64;
        payload = payload;
        tos = 0;
        flags = 0x4000;
      })
      frame ← lift_frame (
          Ethernet.encode
            (record { dst = mac; src = h.local_mac; ethertype = ethertype_ipv4; payload = ip }))
      send_frame_nowait frame)
      h

unfoldable pub send_tcp_segment_nowait : TcpSegment → Bytes → Bytes → Net Bool
unfolding send_to
send_tcp_segment_nowait seg src dst h =
    if has_nic h.nic
    then send_to (lookup_mac (next_hop dst h) h.arp) seg src dst h
    else (ok false, h)

-- What a frame did: the future that ARP completes, and what TCP does.
pub data Event : Type 0 where
  arp_event : Answer → Event
  tcp_event : Answer → Output → Event
  ignored : Event

abbrev pub learned : Host → Answer × ArpTable → Host
learned h (a, t) = record h { arp = t }

-- What `handle_segment` sends before it returns, between these addresses. What it does to the connection
-- does not depend on the answers; no acknowledgement of a connection that stands under its own key raises,
-- since its fields fit. A task sends later, and not here.
unfoldable pub send_now : List Send → Bytes → Bytes → Net (Unit {0})
unfolding send_tcp_segment_nowait
send_now [] src dst = pure tt
send_now (later flags ∷ out) src dst = send_now out src dst
send_now (now seg ∷ out) src dst = do _ ← send_tcp_segment_nowait seg src dst; send_now out src dst

unfoldable pub send_output : Output → Net (Unit {0})
unfolding send_now
send_output (sends key out) = send_now out key.local_ip key.remote_ip
send_output _ = pure tt

-- The last call of `_dispatch_sync` for IPv4, with what TCP sends at once.
unfoldable pub handed : Answer → Host → Output × TcpStack → Outcome NetError Event × Host
unfolding send_output
handed a h (out, st) = (do send_output out; pure (tcp_event a out)) (record h { tcp = st })

unfoldable pub dispatch_ip : (ℕ → Bool) → ℕ → Bytes → Outcome IpError IPv4Packet → Net Event
unfolding handed
dispatch_ip done isn src (err e) h = (err (ip_error e), h)
dispatch_ip done isn src (ok pkt) h =
    let r = Arp.learn done pkt.src src h.arp in
    handed r.0 (learned h r) (handle_ip_packet true pkt isn h.tcp)

unfoldable pub dispatch_sync : (ℕ → Bool) → ℕ → EtherFrame → Net Event
unfolding maybe_send_arp_reply dispatch_ip
dispatch_sync done isn frame h =
    if frame.ethertype == ethertype_arp
    then (let r = Arp.handle_frame done frame.payload h.arp in
        continue (maybe_send_arp_reply frame.payload (learned h r)) (λ _. pure (arp_event r.0)))
    else if frame.ethertype == ethertype_ipv4
    then dispatch_ip done isn frame.src (Ip.decode frame.payload) h
    else (ok ignored, h)

-- An exception is logged, and what was done before it stays.
abbrev pub caught : {A : Type 0} → Outcome NetError A × Host → Bool × Host
caught (o, h) = (true, h)

-- `arrived` is what `recv_nowait` of the card gives, and `none` where the card has no such method.
unfoldable pub poll_once : (ℕ → Bool) → ℕ → Option Bytes → Host → Bool × Host
unfolding dispatch_sync
poll_once done isn none h = (false, h)
poll_once done isn (some raw) h =
    if not (has_nic h.nic)
    then (false, h)
    else if ltb (length raw) 14
    then (true, h)
    else caught ((do frame ← lift_frame (Ethernet.decode raw); dispatch_sync done isn frame) h)
