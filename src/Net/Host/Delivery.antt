-- ===== src/Net/Host/Delivery.antt =====
-- A TCP segment on its way from one host to the TCP of another.
use pythonos.Prelude.Bytes.{Bytes}
use pythonos.Net.Ethernet
use pythonos.Net.Ethernet.{EtherFrame, ethertype_ipv4}
use pythonos.Net.Ip
use pythonos.Net.Ip.{IPv4Packet}
use pythonos.Net.Tcp
use pythonos.Net.Host.Defs.{Host}
use pythonos.Net.Host.Answers.{Answers}

-- The packet and the frame that a segment is sent in.
abbrev pub packet_of : Bytes → Bytes → Bytes → IPv4Packet
packet_of src dst bytes = record {
  src = src;
  dst = dst;
  proto = 6;
  ttl = 64;
  payload = bytes;
  tos = 0;
  flags = 0x4000;
}

abbrev frame_of : Bytes → Bytes → Bytes → EtherFrame
frame_of dst src bytes = record {
  dst = dst;
  src = src;
  ethertype = ethertype_ipv4;
  payload = bytes;
}
