-- ===== src/Net/Host/Sends.antt =====
-- What sending changes on a host: the frames that were sent, and the counter of IP.
use pythonos.Prelude.{
  ◌≡◌, ◌∙◌, refl, sym, ap, List, [], ◌∷◌, ◌++◌, Option, none, some, Outcome, Exec, ok, err,
  continue, ℕ, Bool, false, pure, ◌>>=◌, Bool-cases, inl, inr, append_assoc, append-nil,
}
use pythonos.Prelude.Bytes.{Bytes}
use pythonos.Net.Ethernet
use pythonos.Net.Ethernet.{FrameError, ethertype_ipv4}
use pythonos.Net.Ip
use pythonos.Net.Ip.{IPv4Packet, IpError}
use pythonos.Net.Arp.{lookup_mac, build_request}
use pythonos.Net.Tcp
use pythonos.Net.Tcp.{TcpSegment, Send, now, later}
use pythonos.Net.Tcp.Stack.{Output, sends, spawned, silent}
use pythonos.Net.Host.Defs.{
  Host, Nic, no_nic, no_sending, sending, NetError, lift_frame, lift_struct, counted, encode_ip,
  transmit, send_frame_nowait, has_nic, next_hop, source, send_to, send_tcp_segment_nowait,
  send_now, send_output,
}

-- Everything is as before but the counter of IP and the frames that were sent, which were added to.
pub record OnlySends (h h' : Host) : Type 0 where
  pub local_ip : h'.local_ip ≡ h.local_ip
  pub local_mac : h'.local_mac ≡ h.local_mac
  pub gateway : h'.gateway ≡ h.gateway
  pub nic : h'.nic ≡ h.nic
  pub arp : h'.arp ≡ h.arp
  pub tcp : h'.tcp ≡ h.tcp
  pub more : List Bytes
  pub sent : h'.sent ≡ h.sent ++ more

pub same-OnlySends : (h : Host) → OnlySends h h
same-OnlySends h = record {
  local_ip = refl;
  local_mac = refl;
  gateway = refl;
  nic = refl;
  arp = refl;
  tcp = refl;
  more = [];
  sent = sym (append-nil h.sent);
}

OnlySends-trans : (h k l : Host) → OnlySends h k → OnlySends k l → OnlySends h l
OnlySends-trans h k l s t = record {
  local_ip = t.local_ip ∙ s.local_ip;
  local_mac = t.local_mac ∙ s.local_mac;
  gateway = t.gateway ∙ s.gateway;
  nic = t.nic ∙ s.nic;
  arp = t.arp ∙ s.arp;
  tcp = t.tcp ∙ s.tcp;
  more = s.more ++ t.more;
  sent = t.sent ∙ (ap (λ x. x ++ t.more) s.sent ∙ append_assoc h.sent s.more t.more);
}

continue-OnlySends :
    {A B : Type 0} (h : Host) (r : Outcome NetError A × Host) (f : A → Exec Host NetError B)
    → OnlySends h r.1
    → ((a : A) (k : Host) → OnlySends k (f a k).1)
    → OnlySends h (continue r f).1
continue-OnlySends h (ok a, k) f s t = OnlySends-trans h k (f a k).1 s (t a k)
continue-OnlySends h (err e, k) f s t = s

lift_frame-OnlySends :
    {A : Type 0} (o : Outcome FrameError A) (h : Host) → OnlySends h (lift_frame o h).1
lift_frame-OnlySends (ok a) h = same-OnlySends h
lift_frame-OnlySends (err e) h = same-OnlySends h

lift_struct-OnlySends : {A : Type 0} (o : Option A) (h : Host) → OnlySends h (lift_struct o h).1
lift_struct-OnlySends (some a) h = same-OnlySends h
lift_struct-OnlySends none h = same-OnlySends h

numbered : (h : Host) (n : ℕ) → OnlySends h (record h { ip_id = n })
numbered h n = record {
  local_ip = refl;
  local_mac = refl;
  gateway = refl;
  nic = refl;
  arp = refl;
  tcp = refl;
  more = [];
  sent = sym (append-nil h.sent);
}

counted-OnlySends :
    {A : Type 0} (h : Host) (r : Outcome IpError A × ℕ) → OnlySends h (counted h r).1
counted-OnlySends h (ok a, n) = numbered h n
counted-OnlySends h (err e, n) = numbered h n

encode_ip-OnlySends : (p : IPv4Packet) (h : Host) → OnlySends h (encode_ip p h).1
unfolding encode_ip
encode_ip-OnlySends p h = counted-OnlySends h (Ip.encode p h.ip_id)

transmit-OnlySends : (n : Nic) (frame : Bytes) (h : Host) → OnlySends h (transmit n frame h).1
transmit-OnlySends no_nic frame h = same-OnlySends h
transmit-OnlySends no_sending frame h = same-OnlySends h
transmit-OnlySends (sending accepts) frame h = record {
  local_ip = refl;
  local_mac = refl;
  gateway = refl;
  nic = refl;
  arp = refl;
  tcp = refl;
  more = frame ∷ [];
  sent = refl;
}

send_frame_nowait-OnlySends : (frame : Bytes) (h : Host) → OnlySends h (send_frame_nowait frame h).1
unfolding send_frame_nowait
send_frame_nowait-OnlySends frame h = transmit-OnlySends h.nic frame h

-- What `send_to` does with the bytes of the segment.
abbrev ip_packet : Bytes → Bytes → Bytes → IPv4Packet
ip_packet src dst payload = record {
  src = src;
  dst = dst;
  proto = 6;
  ttl = 64;
  payload = payload;
  tos = 0;
  flags = 0x4000;
}

abbrev framed : Host → Bytes → Bytes → Outcome FrameError Bytes
framed h mac ip =
    Ethernet.encode
      (record { dst = mac; src = h.local_mac; ethertype = ethertype_ipv4; payload = ip })

abbrev framed_and_sent : Host → Bytes → Bytes → Exec Host NetError Bool
framed_and_sent h mac ip = do frame ← lift_frame (framed h mac ip); send_frame_nowait frame

abbrev packed_and_sent : Host → Bytes → Bytes → Bytes → Bytes → Exec Host NetError Bool
packed_and_sent h mac src dst payload = do
  ip ← encode_ip (ip_packet src dst payload)
  framed_and_sent h mac ip

framed_and_sent-OnlySends :
    (h : Host) (mac ip : Bytes) (k : Host) → OnlySends k (framed_and_sent h mac ip k).1
framed_and_sent-OnlySends h mac ip k =
    continue-OnlySends k (lift_frame (framed h mac ip) k) send_frame_nowait
      (lift_frame-OnlySends (framed h mac ip) k) send_frame_nowait-OnlySends

packed_and_sent-OnlySends :
    (h : Host) (mac src dst payload : Bytes) (k : Host)
    → OnlySends k (packed_and_sent h mac src dst payload k).1
packed_and_sent-OnlySends h mac src dst payload k =
    continue-OnlySends k (encode_ip (ip_packet src dst payload) k) (framed_and_sent h mac)
      (encode_ip-OnlySends (ip_packet src dst payload) k) (framed_and_sent-OnlySends h mac)

send_to-OnlySends :
    (mac : Option Bytes) (seg : TcpSegment) (src dst : Bytes) (h : Host)
    → OnlySends h (send_to mac seg src dst h).1
unfolding send_to
send_to-OnlySends none seg src dst h =
    continue-OnlySends h (lift_frame (build_request h.local_mac h.local_ip (next_hop dst h)) h)
      (λ frame k. (do _ ← send_frame_nowait frame; pure false) k)
      (lift_frame-OnlySends (build_request h.local_mac h.local_ip (next_hop dst h)) h)
      (λ frame k.
        continue-OnlySends k (send_frame_nowait frame k) (λ _. pure false)
          (send_frame_nowait-OnlySends frame k) (λ _ l. same-OnlySends l))
send_to-OnlySends (some mac) seg src dst h =
    continue-OnlySends h (lift_struct (Tcp.encode seg (source src h) dst) h)
      (packed_and_sent h mac (source src h) dst)
      (lift_struct-OnlySends (Tcp.encode seg (source src h) dst) h)
      (packed_and_sent-OnlySends h mac (source src h) dst)

send_tcp_segment_nowait-OnlySends :
    (seg : TcpSegment) (src dst : Bytes) (h : Host)
    → OnlySends h (send_tcp_segment_nowait seg src dst h).1
unfolding send_tcp_segment_nowait
send_tcp_segment_nowait-OnlySends seg src dst h = elim (Bool-cases (has_nic h.nic)) [
  | inl e ↦ rw e (send_to-OnlySends (lookup_mac (next_hop dst h) h.arp) seg src dst h)
  | inr e ↦ rw e (same-OnlySends h)
]

send_now-OnlySends :
    (out : List Send) (src dst : Bytes) (h : Host) → OnlySends h (send_now out src dst h).1
unfolding send_now
send_now-OnlySends [] src dst h = same-OnlySends h
send_now-OnlySends (later flags ∷ out) src dst h = send_now-OnlySends out src dst h
send_now-OnlySends (now seg ∷ out) src dst h =
    continue-OnlySends h (send_tcp_segment_nowait seg src dst h) (λ _. send_now out src dst)
      (send_tcp_segment_nowait-OnlySends seg src dst h) (λ _ k. send_now-OnlySends out src dst k)

pub send_output-OnlySends : (out : Output) (h : Host) → OnlySends h (send_output out h).1
unfolding send_output
send_output-OnlySends (sends key out) h = send_now-OnlySends out key.local_ip key.remote_ip h
send_output-OnlySends (spawned key listener) h = same-OnlySends h
send_output-OnlySends silent h = same-OnlySends h
