-- ===== src/Net/Host/Tests.antt =====
-- Two hosts at concrete addresses, and the witnesses of kernel/net/stack.py.
use pythonos.Prelude.{
  ℕ, ◌≡◌, refl, [], ◌∷◌, ◌++◌, some, Bool, true, false, ok, length, lookup, insert, Eq-Bytes,
}
use pythonos.Prelude.Bytes.{Bytes}
use pythonos.Net.Arp.{learn, lookup_mac, build_request, Knows}
use pythonos.Net.Ethernet
use pythonos.Net.Ip
use pythonos.Net.Tcp
use pythonos.Net.Tcp.{TcpSegment, established}
use pythonos.Net.Tcp.Stack.{Key, Eq-Key, new_stack, new_connection, handle_ip_packet}
use pythonos.Net.Host.Defs.{Host, sending, poll_once, next_hop, send_output}
use pythonos.Net.Host.Answers.{Answers}
use pythonos.Net.Host.Exchange.{request-reply}
use pythonos.Net.Host.Delivery.{packet_of}

abbrev guest_mac : Bytes
guest_mac = 2 ∷ 0 ∷ 0 ∷ 0 ∷ 0 ∷ 1 ∷ []

abbrev router_mac : Bytes
router_mac = 2 ∷ 0 ∷ 0 ∷ 0 ∷ 0 ∷ 2 ∷ []

abbrev takes_all : Bytes → Bool
takes_all frame = true

abbrev not_done : ℕ → Bool
not_done fut = false

-- The guest knows its router.
abbrev guest : Host
guest = record {
  local_ip = 10 ∷ 0 ∷ 2 ∷ 15 ∷ [];
  local_mac = guest_mac;
  gateway = 10 ∷ 0 ∷ 2 ∷ 2 ∷ [];
  nic = sending takes_all;
  arp = record { table = (10 ∷ 0 ∷ 2 ∷ 2 ∷ [], router_mac) ∷ []; pending = [] };
  tcp = new_stack;
  ip_id = 0;
  sent = [];
}

abbrev router : Host
router = record guest {
  local_ip = 10 ∷ 0 ∷ 2 ∷ 2 ∷ [];
  local_mac = router_mac;
  arp = record { table = []; pending = [] };
}

request-reply_example :
    (request reply : Bytes) × (build_request guest_mac guest.local_ip router.local_ip ≡ ok request)
    × (poll_once not_done 7 (some request) router ≡ (
      true,
      record router {
        arp = (learn not_done guest.local_ip guest_mac router.arp).1;
        sent = [] ++ reply ∷ [];
      },
    ))
    × (poll_once not_done 7 (some reply) guest
        ≡ (true, record guest { arp = (learn not_done router.local_ip router_mac guest.arp).1 }))
    × Knows guest.local_ip guest_mac router.arp (poll_once not_done 7 (some request) router).1.arp
    × Knows router.local_ip router_mac guest.arp (poll_once not_done 7 (some reply) guest).1.arp
request-reply_example =
    request-reply not_done 7 guest router takes_all (record { ip_size = refl; mac_size = refl })
      (record { ip_size = refl; mac_size = refl }) refl refl

abbrev far : Bytes
far = 8 ∷ 8 ∷ 8 ∷ 8 ∷ []

-- Data for a connection of the router, which it takes for itself.
abbrev data_segment : TcpSegment
data_segment = record {
  src_port = 49152;
  dst_port = 80;
  seq = 1;
  ack = 0;
  flags = 0x18;
  window = 65535;
  payload = 65 ∷ 66 ∷ [];
}

-- The segment with its checksum.
abbrev data_bytes : Bytes
data_bytes =
    192 ∷ 0 ∷ 0 ∷ 80 ∷ 0 ∷ 0 ∷ 0 ∷ 1 ∷ 0 ∷ 0 ∷ 0 ∷ 0 ∷ 80 ∷ 0x18 ∷ 255 ∷ 255 ∷ 146 ∷ 24 ∷ 0 ∷ 0 ∷ 65
    ∷ 66 ∷ []

abbrev far_key : Key
far_key = record {
  local_ip = far;
  local_port = 80;
  remote_ip = guest.local_ip;
  remote_port = 49152;
}

abbrev connected : Host
connected = record router {
  tcp = record new_stack { connections = (far_key, new_connection far_key established 5 1) ∷ [] };
}

-- The acknowledgement is sent at once.
acknowledged_run :
    let (out, tcp) =
      handle_ip_packet true (packet_of guest.local_ip far data_bytes) 7 connected.tcp in
    let met = record connected {
      arp = (learn not_done guest.local_ip guest_mac connected.arp).1;
      tcp = tcp;
    } in
    ((send_output out met).1.ip_id ≡ 1) × (length (send_output out met).1.sent ≡ 1)
unfolding handle_ip_packet send_output lookup insert lookup_mac next_hop learn Tcp.encode Tcp.decode
    Tcp.handle_segment build_request Ethernet.encode Ip.encode Ip.inet_cksum
acknowledged_run = (refl, refl)
