-- ===== src/Net/Tcp/Wire.antt =====
-- A segment that fits its header survives the wire, and its checksum verifies.
use Prim.Native.Nat.{bit_or}
use pythonos.Prelude.{
  ℕ, ◌+◌, ◌*◌, ◌/◌, ◌%◌, ◌^◌, ◌<◌, ◌≡◌, refl, [], ◌∷◌, ◌++◌, some, Bool, true, length, lt→ltb, ◌==◌,
  ==_iff, arith,
}
use pythonos.Prelude.Bytes.{Bytes, be_value, be16, be32, length_four, table_ok, table_ok_at}
use pythonos.Net.Ip.{inet_cksum, inet_cksum_verifies}
use pythonos.Net.Tcp.Segment.{
  TcpSegment, IsWire, decode, pseudo_header, header, with_checksum, encode,
}

abbrev flags_apart : ℕ → Bool
flags_apart flags = bit_or (5 * 2 ^ 12) flags == 5 * 2 ^ 12 + flags

flags_table : table_ok flags_apart 512 ≡ true
unfolding table_ok
flags_table = refl

-- With nine flag bits the data offset and the flags do not meet.
offset_or_flags : (flags : ℕ) → flags < 512 → bit_or (5 * 2 ^ 12) flags ≡ 5 * 2 ^ 12 + flags
offset_or_flags flags small = (==_iff _ _).0 (table_ok_at flags_apart 512 flags small flags_table)

-- The header up to its checksum.
abbrev front : TcpSegment → Bytes
front s =
    be16 s.src_port
    ++ (be16 s.dst_port
        ++ (be32 s.seq ++ (be32 s.ack ++ (be16 (20480 + s.flags) ++ be16 s.window))))

header_lem : (s : TcpSegment) → IsWire s → header s ≡ some (front s ++ (0 ∷ 0 ∷ 0 ∷ 0 ∷ []))
unfolding header
header_lem s w = rw (
  lt→ltb _ _ w.src_range,
  lt→ltb _ _ w.dst_range,
  lt→ltb _ _ w.seq_range,
  lt→ltb _ _ w.ack_range,
  offset_or_flags s.flags w.flags_range,
  lt→ltb (20480 + s.flags) 65536 (omega arith),
  lt→ltb _ _ w.window_range,
)

abbrev sent : TcpSegment → ℕ → Bytes
sent s c = front s ++ (be16 c ++ (0 ∷ 0 ∷ s.payload))

decode-sent : (s : TcpSegment) (c : ℕ) → IsWire s → decode (sent s c) ≡ some s
unfolding decode
decode-sent s c w =
    let sp : be_value (be16 s.src_port) ≡ s.src_port = omega arith in
    let dp : be_value (be16 s.dst_port) ≡ s.dst_port = omega arith in
    let sq : be_value (be32 s.seq) ≡ s.seq = omega arith in
    let ak : be_value (be32 s.ack) ≡ s.ack = omega arith in
    let wn : be_value (be16 s.window) ≡ s.window = omega arith in
    let of : be_value (be16 (20480 + s.flags)) ≡ 20480 + s.flags = omega arith in
    let fl : (20480 + s.flags) % 512 ≡ s.flags = omega arith in
    let of' : (20480 + s.flags) / 4096 * 4 ≡ 20 = omega arith in
    rw (sp, dp, sq, ak, wn, of, fl, of') (ground arith)

-- A segment whose fields fit is encoded between addresses of four bytes, decodes to itself, and
-- sums to 0 with its pseudo header: the receiver's check succeeds.
pub decode-encode_segment :
    (s : TcpSegment) (src dst : Bytes)
    → IsWire s
    → length src ≡ 4
    → length dst ≡ 4
    → (bytes pseudo : Bytes) × (pseudo_header src dst (20 + length s.payload) ≡ some pseudo)
      × (encode s src dst ≡ some bytes)
      × (decode bytes ≡ some s)
      × (inet_cksum (pseudo ++ bytes) ≡ 0)
unfolding encode pseudo_header with_checksum
decode-encode_segment s src dst w l m =
    let (a, b, c, d, e) = length_four src l in
    let (f, g, h, i, e') = length_four dst m in
    let tail : Bytes = 0 ∷ 6 ∷ be32 (20 + length s.payload) in
    let k = inet_cksum (
      (a ∷ b ∷ c ∷ d ∷ f ∷ g ∷ h ∷ i ∷ tail) ++ ((front s ++ (0 ∷ 0 ∷ 0 ∷ 0 ∷ [])) ++ s.payload)) in
    (
      sent s k,
      a ∷ b ∷ c ∷ d ∷ f ∷ g ∷ h ∷ i ∷ tail,
      rw (lt→ltb _ _ w.size_range, e, e'),
      rw (header_lem s w, lt→ltb _ _ w.size_range, e, e'),
      decode-sent s k w,
      inet_cksum_verifies 15 ((a ∷ b ∷ c ∷ d ∷ f ∷ g ∷ h ∷ i ∷ tail) ++ front s) (0 ∷ 0 ∷ s.payload)
          refl,
    )
