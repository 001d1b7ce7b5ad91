-- ===== src/Net/Ip/Packet.antt =====
-- `IPv4Packet`: decode, and encode with the module's packet counter `_ip_id` as its state.
use pythonos.Prelude.{
  ℕ, ◌+◌, ◌*◌, ◌%◌, ◌<◌, ◌≡◌, refl, [], ◌∷◌, ◌++◌, Option, none, some, Outcome, Exec, ok, err,
  length, take, take_all, ◌-◌, drop, ltb, lt→ltb, if◌then◌else◌, arith,
}
use pythonos.Prelude.Bytes.{
  Bytes, slice, byte_at, be_value, be16, pack_b, pack_h, pack_s, pack, length_four,
}
use pythonos.Net.Ip.Checksum.{inet_cksum, inet_cksum_verifies}

pub record IPv4Packet : Type 0 where
  pub src : Bytes
  pub dst : Bytes
  pub proto : ℕ
  pub ttl : ℕ
  pub payload : Bytes
  pub tos : ℕ
  pub flags : ℕ

pub data IpError : Type 0 where
  too_short : IpError
  struct_error : IpError

-- `raw[0] & 0x0F` is the remainder by 16.
unfoldable pub decode : Bytes → Outcome IpError IPv4Packet
decode raw =
    if ltb (length raw) 20
    then err too_short
    else ok (record {
      src = slice 12 16 raw;
      dst = slice 16 20 raw;
      proto = byte_at raw 9;
      ttl = byte_at raw 8;
      payload = slice (byte_at raw 0 % 16 * 4) (be_value (slice 2 4 raw)) raw;
      tos = byte_at raw 1;
      flags = be_value (slice 6 8 raw);
    })

-- The header, its checksum field 0.
unfoldable pub header : IPv4Packet → ℕ → Option Bytes
header p ip_id = pack (
    pack_b 0x45
    ∷ pack_b p.tos
    ∷ pack_h (20 + length p.payload)
    ∷ pack_h ip_id
    ∷ pack_h p.flags
    ∷ pack_b p.ttl
    ∷ pack_b p.proto
    ∷ pack_h 0
    ∷ pack_s 4 p.src
    ∷ pack_s 4 p.dst
    ∷ [])

unfoldable pub with_checksum : Option Bytes → Bytes → Outcome IpError Bytes
with_checksum none payload = err struct_error
with_checksum (some h) payload = ok (take 10 h ++ (be16 (inet_cksum h) ++ (drop 12 h ++ payload)))

-- The counter moves on also where the header cannot be packed.
unfoldable pub encode : IPv4Packet → Exec ℕ IpError Bytes
unfolding header with_checksum
encode p ip_id = let next = (ip_id + 1) % 65536 in (with_checksum (header p next) p.payload, next)

-- The fields fit the header.
pub record IsWire (p : IPv4Packet) : Type 0 where
  pub src_size : length p.src ≡ 4
  pub dst_size : length p.dst ≡ 4
  pub proto_range : p.proto < 256
  pub ttl_range : p.ttl < 256
  pub tos_range : p.tos < 256
  pub flags_range : p.flags < 65536
  pub size_range : 20 + length p.payload < 65536

header_lem :
    (p : IPv4Packet) (ip_id a b c d e f g h : ℕ)
    → p.src ≡ a ∷ b ∷ c ∷ d ∷ []
    → p.dst ≡ e ∷ f ∷ g ∷ h ∷ []
    → IsWire p
    → ip_id < 65536
    → header p ip_id
      ≡ some (
          (0x45 ∷ p.tos ∷ be16 (20 + length p.payload))
          ++ (be16 ip_id
              ++ (be16 p.flags ++ (p.ttl ∷ p.proto ∷ 0 ∷ 0 ∷ a ∷ b ∷ c ∷ d ∷ e ∷ f ∷ g ∷ h ∷ []))))
unfolding header
header_lem p ip_id a b c d e f g h s t w r = rw (
  lt→ltb _ _ w.tos_range,
  lt→ltb _ _ w.size_range,
  lt→ltb _ _ r,
  lt→ltb _ _ w.flags_range,
  lt→ltb _ _ w.ttl_range,
  lt→ltb _ _ w.proto_range,
  s,
  t,
)

-- The bytes that `encode` sends: the checksum stands at 10 and 11.
abbrev sent : IPv4Packet → ℕ → ℕ → Bytes → Bytes
sent p ip_id c addresses =
    (0x45 ∷ p.tos ∷ be16 (20 + length p.payload))
    ++ (be16 ip_id ++ (be16 p.flags ++ (p.ttl ∷ p.proto ∷ (be16 c ++ (addresses ++ p.payload)))))

decode-sent :
    (p : IPv4Packet) (ip_id k a b c d e f g h : ℕ)
    → p.src ≡ a ∷ b ∷ c ∷ d ∷ []
    → p.dst ≡ e ∷ f ∷ g ∷ h ∷ []
    → decode (sent p ip_id k (a ∷ b ∷ c ∷ d ∷ e ∷ f ∷ g ∷ h ∷ [])) ≡ ok p
unfolding decode
decode-sent p ip_id k a b c d e f g h s t =
    let total : be_value (be16 (20 + length p.payload)) ≡ 20 + length p.payload = omega arith in
    let n : be_value (be16 (20 + length p.payload)) - 20 ≡ length p.payload = omega arith in
    ground (arith, take_all _ p.payload n)

-- A packet whose fields fit is always encoded, the counter one on; what is sent decodes to the
-- packet, and its header sums to 0 with the checksum in place.
pub decode-encode_packet :
    (p : IPv4Packet) (ip_id : ℕ)
    → IsWire p
    → (bytes : Bytes) × (encode p ip_id ≡ (ok bytes, (ip_id + 1) % 65536))
      × (decode bytes ≡ ok p)
      × (inet_cksum (take 20 bytes) ≡ 0)
unfolding encode with_checksum
decode-encode_packet p ip_id w =
    let (a, b, c, d, s) = length_four p.src w.src_size in
    let (e, f, g, h, t) = length_four p.dst w.dst_size in
    let next = (ip_id + 1) % 65536 in
    let addresses : Bytes = a ∷ b ∷ c ∷ d ∷ e ∷ f ∷ g ∷ h ∷ [] in
    let front : Bytes =
      (0x45 ∷ p.tos ∷ be16 (20 + length p.payload))
      ++ (be16 next ++ (be16 p.flags ++ (p.ttl ∷ p.proto ∷ []))) in
    let k = inet_cksum (front ++ 0 ∷ 0 ∷ addresses) in
    (
      sent p next k addresses,
      rw (header_lem p next a b c d e f g h s t w (omega arith)),
      decode-sent p next k a b c d e f g h s t,
      inet_cksum_verifies 5 front addresses refl,
    )
