-- ===== src/Net/Host/Exchange.antt =====
-- An ARP request and its reply, between two hosts.
use pythonos.Prelude.{
  ℕ, ◌≡◌, refl, sym, ap, subst, ◌∙◌, [], ◌∷◌, ◌++◌, some, Bool, true, false, ok, length, bytes_eq,
  bytes_eq_iff, Bool-cases, inl, inr, ltb, length-append, arith,
}
use pythonos.Prelude.Bytes.{Bytes, be16, length_four, length_six}
use pythonos.Net.Ethernet
use pythonos.Net.Ethernet.{
  EtherFrame, ethertype_arp, ethertype_ipv4, broadcast_mac, decode-encode_frame,
}
use pythonos.Net.Arp.{
  ArpTable, run-handle_frame, arp_packet, build_request, handle_frame, learn, Knows, learn-Knows,
}
use pythonos.Net.Host.Defs.{
  Host, sending, has_nic, maybe_send_arp_reply, send_arp_reply, send_frame_nowait, dispatch_sync,
  poll_once, learned,
}

pub record IsHost (h : Host) : Type 0 where
  pub ip_size : length h.local_ip ≡ 4
  pub mac_size : length h.local_mac ≡ 6

-- The packet of a reply.
abbrev pub reply_packet : Bytes → Bytes → Bytes → Bytes → Bytes
reply_packet mac ip to_mac to_ip =
    be16 1 ++ (be16 0x0800 ++ (6 ∷ 4 ∷ (be16 2 ++ (mac ++ (ip ++ (to_mac ++ to_ip))))))

-- The frames, in bytes.
abbrev pub arp_bytes : Bytes → Bytes → Bytes → Bytes
arp_bytes dst src packet = dst ++ (src ++ (be16 ethertype_arp ++ packet))

run-request :
    (mac ip target : Bytes)
    → length mac ≡ 6
    → length ip ≡ 4
    → length target ≡ 4
    → build_request mac ip target ≡ ok (arp_bytes broadcast_mac mac (arp_packet mac ip target))
unfolding build_request Ethernet.encode
run-request mac ip target m i t =
    let (a, b, c, x, y, z, e) = length_six mac m in
    let (p, q, r, s, f) = length_four ip i in
    let (p', q', r', s', f') = length_four target t in rw (e, f, f') refl

run-decode :
    (dst src packet : Bytes)
    → length dst ≡ 6
    → length src ≡ 6
    → Ethernet.decode (arp_bytes dst src packet)
      ≡ ok (record { dst = dst; src = src; ethertype = ethertype_arp; payload = packet })
unfolding Ethernet.decode
run-decode dst src packet d s =
    let (a, b, c, x, y, z, e) = length_six dst d in
    let (a', b', c', x', y', z', e') = length_six src s in ground (arith, e, e')

same_ip : (ip : Bytes) → bytes_eq ip ip ≡ true
same_ip ip = (bytes_eq_iff ip ip).1 refl

run-send_arp_reply :
    (h : Host) (accepts : Bytes → Bool) (mac ip : Bytes)
    → IsHost h
    → h.nic ≡ sending accepts
    → length mac ≡ 6
    → length ip ≡ 4
    → send_arp_reply mac ip h ≡ (
      ok tt,
      record h {
        sent =
            h.sent ++ arp_bytes mac h.local_mac (reply_packet h.local_mac h.local_ip mac ip) ∷ [];
      },
    )
unfolding send_arp_reply send_frame_nowait Ethernet.encode
run-send_arp_reply h accepts mac ip v n m i =
    let (a, b, c, x, y, z, e) = length_six mac m in
    let (p, q, r, s, f) = length_four ip i in
    let (a', b', c', x', y', z', e') = length_six h.local_mac v.mac_size in
    let (p', q', r', s', f') = length_four h.local_ip v.ip_size in rw (e, f, e', f', n) refl

run-asked :
    (h : Host) (accepts : Bytes → Bool) (mac ip : Bytes)
    → IsHost h
    → h.nic ≡ sending accepts
    → length mac ≡ 6
    → length ip ≡ 4
    → maybe_send_arp_reply (arp_packet mac ip h.local_ip) h ≡ send_arp_reply mac ip h
unfolding maybe_send_arp_reply
run-asked h accepts mac ip v n m i =
    let (a, b, c, x, y, z, e) = length_six mac m in
    let (p, q, r, s, f) = length_four ip i in
    let (p', q', r', s', f') = length_four h.local_ip v.ip_size in
    rw (e, f, f', n, same_ip (p' ∷ q' ∷ r' ∷ s' ∷ [])) refl

run-told :
    (h : Host) (mac ip to_mac to_ip : Bytes)
    → length mac ≡ 6
    → length ip ≡ 4
    → length to_mac ≡ 6
    → length to_ip ≡ 4
    → maybe_send_arp_reply (reply_packet mac ip to_mac to_ip) h ≡ (ok tt, h)
unfolding maybe_send_arp_reply
run-told h mac ip to_mac to_ip m i m' i' =
    let (a, b, c, x, y, z, e) = length_six mac m in
    let (p, q, r, s, f) = length_four ip i in
    let (a', b', c', x', y', z', e') = length_six to_mac m' in
    let (p', q', r', s', f') = length_four to_ip i' in
    rw (e, f, e', f') (elim (Bool-cases (has_nic h.nic)) [ inl n ↦ rw n refl | inr n ↦ rw n refl ])

run-handle_reply :
    (done : ℕ → Bool) (mac ip to_mac to_ip : Bytes) (t : ArpTable)
    → length mac ≡ 6
    → length ip ≡ 4
    → length to_mac ≡ 6
    → length to_ip ≡ 4
    → handle_frame done (reply_packet mac ip to_mac to_ip) t ≡ learn done ip mac t
unfolding handle_frame
run-handle_reply done mac ip to_mac to_ip t m i m' i' =
    let (a, b, c, x, y, z, e) = length_six mac m in
    let (p, q, r, s, f) = length_four ip i in
    let (a', b', c', x', y', z', e') = length_six to_mac m' in
    let (p', q', r', s', f') = length_four to_ip i' in rw (e, f, e', f') refl

-- A frame of ARP that is polled.
run-poll_once :
    (done : ℕ → Bool) (isn : ℕ) (dst src packet : Bytes) (h h' : Host)
    → length dst ≡ 6
    → length src ≡ 6
    → has_nic h.nic ≡ true
    → maybe_send_arp_reply packet (learned h (handle_frame done packet h.arp)) ≡ (ok tt, h')
    → poll_once done isn (some (arp_bytes dst src packet)) h ≡ (true, h')
unfolding poll_once dispatch_sync
run-poll_once done isn dst src packet h h' d s up e =
    let long : ltb (length (arp_bytes dst src packet)) 14 ≡ false = ground (
      arith,
      d,
      s,
      length-append dst (src ++ (be16 ethertype_arp ++ packet)),
      length-append src (be16 ethertype_arp ++ packet),
    ) in
    rw (up, long, run-decode dst src packet d s, e) refl

-- Host `a`, which has a card, asks for the address of host `b`, with addresses of four and six bytes and a
-- card that takes frames at `b`. The request can be built. When `b` polls it, `b` sends one frame and changes
-- nothing else but its ARP table; when `a` polls that frame, `a` sends nothing and changes nothing
-- but its ARP table. Afterwards each host finds the address of the other in its table, and every other
-- address as before, and no future waits for it there.
pub request-reply :
    (done : ℕ → Bool) (isn : ℕ) (a b : Host) (accepts : Bytes → Bool)
    → IsHost a
    → IsHost b
    → has_nic a.nic ≡ true
    → b.nic ≡ sending accepts
    → (request reply : Bytes) × (build_request a.local_mac a.local_ip b.local_ip ≡ ok request)
      × (poll_once done isn (some request) b ≡ (
        true,
        record b { arp = (learn done a.local_ip a.local_mac b.arp).1; sent = b.sent ++ reply ∷ [] },
      ))
      × (poll_once done isn (some reply) a
          ≡ (true, record a { arp = (learn done b.local_ip b.local_mac a.arp).1 }))
      × Knows a.local_ip a.local_mac b.arp (poll_once done isn (some request) b).1.arp
      × Knows b.local_ip b.local_mac a.arp (poll_once done isn (some reply) a).1.arp
request-reply done isn a b accepts va vb up n =
    let packet = arp_packet a.local_mac a.local_ip b.local_ip in
    let answer = reply_packet b.local_mac b.local_ip a.local_mac a.local_ip in
    let reply = arp_bytes a.local_mac b.local_mac answer in
    let met : Host = record b { arp = (learn done a.local_ip a.local_mac b.arp).1 } in
    let back : Host = record a { arp = (learn done b.local_ip b.local_mac a.arp).1 } in
    let heard =
      run-handle_frame done a.local_mac a.local_ip b.local_ip b.arp va.mac_size va.ip_size
        vb.ip_size in
    let told =
      run-handle_reply done b.local_mac b.local_ip a.local_mac a.local_ip a.arp vb.mac_size
        vb.ip_size va.mac_size va.ip_size in
    let vm : IsHost met = record { ip_size = vb.ip_size; mac_size = vb.mac_size } in
    let asked : poll_once done isn (some (arp_bytes broadcast_mac a.local_mac packet)) b
        ≡ (true, record met { sent = b.sent ++ reply ∷ [] }) =
      run-poll_once done isn broadcast_mac a.local_mac packet b
        (record met { sent = b.sent ++ reply ∷ [] }) refl va.mac_size (ap has_nic n)
        (rw heard (
          run-asked met accepts a.local_mac a.local_ip vm n va.mac_size va.ip_size
          ∙ run-send_arp_reply met accepts a.local_mac a.local_ip vm n va.mac_size va.ip_size)) in
    let answered : poll_once done isn (some reply) a ≡ (true, back) =
      run-poll_once done isn a.local_mac b.local_mac answer a back va.mac_size vb.mac_size up (
        rw told (
          run-told back b.local_mac b.local_ip a.local_mac a.local_ip vb.mac_size vb.ip_size
            va.mac_size va.ip_size)) in
    (
      arp_bytes broadcast_mac a.local_mac packet,
      reply,
      run-request a.local_mac a.local_ip b.local_ip va.mac_size va.ip_size vb.ip_size,
      asked,
      answered,
      subst (λ r. Knows a.local_ip a.local_mac b.arp r.1.arp) (sym asked)
          (learn-Knows done a.local_ip a.local_mac b.arp),
      subst (λ r. Knows b.local_ip b.local_mac a.arp r.1.arp) (sym answered)
          (learn-Knows done b.local_ip b.local_mac a.arp),
    )
