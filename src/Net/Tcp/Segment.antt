-- ===== src/Net/Tcp/Segment.antt =====
-- `TCPState`, the flag bits, and `TCPSegment` with its wire format.
use Prim.Native.Nat.{bit_or}
use pythonos.Prelude.{
  ℕ, ◌+◌, ◌*◌, ◌/◌, ◌%◌, ◌^◌, ◌<◌, [], ◌∷◌, ◌++◌, Option, none, some, Bool, length, take, drop, ltb,
  ◌==◌, if◌then◌else◌,
}
use pythonos.Prelude.Bytes.{Bytes, slice, be_value, be16, pack_b, pack_h, pack_i, pack}
use pythonos.Net.Ip.{inet_cksum}

pub data TcpState : Type 0 where
  closed listen syn_sent syn_rcvd established fin_wait_1 fin_wait_2 : TcpState
  close_wait closing last_ack time_wait : TcpState

abbrev pub f_fin : ℕ
f_fin = 0x01

abbrev pub f_syn : ℕ
f_syn = 0x02

abbrev pub f_rst : ℕ
f_rst = 0x04

abbrev pub f_psh : ℕ
f_psh = 0x08

abbrev pub f_ack : ℕ
f_ack = 0x10

-- `flags & bit`, for a bit that is a power of two.
abbrev pub has_flag : ℕ → ℕ → Bool
has_flag flags bit = flags / bit % 2 == 1

pub record TcpSegment : Type 0 where
  pub src_port : ℕ
  pub dst_port : ℕ
  pub seq : ℕ
  pub ack : ℕ
  pub flags : ℕ
  pub window : ℕ
  pub payload : Bytes

-- `off_flags & 0x1FF` and `(off_flags >> 12) * 4`.
unfoldable pub decode : Bytes → Option TcpSegment
decode raw =
    let off_flags = be_value (slice 12 14 raw) in
    if ltb (length raw) 20
    then none
    else some (record {
      src_port = be_value (slice 0 2 raw);
      dst_port = be_value (slice 2 4 raw);
      seq = be_value (slice 4 8 raw);
      ack = be_value (slice 8 12 raw);
      flags = off_flags % 512;
      window = be_value (slice 14 16 raw);
      payload = drop (off_flags / 4096 * 4) raw;
    })

-- The 14 bytes summed in front of the segment.
unfoldable pub pseudo_header : Bytes → Bytes → ℕ → Option Bytes
pseudo_header src_ip dst_ip size =
    pack (some src_ip ∷ some dst_ip ∷ pack_b 0 ∷ pack_b 6 ∷ pack_i size ∷ [])

unfoldable pub first_20 : Option Bytes → Option Bytes
first_20 none = none
first_20 (some bytes) = some (take 20 bytes)

-- Nine fields make 22 bytes, of which `[:20]` keeps the first 20.
unfoldable pub header : TcpSegment → Option Bytes
unfolding first_20
header s = first_20 (
    pack (
      pack_h s.src_port
      ∷ pack_h s.dst_port
      ∷ pack_i s.seq
      ∷ pack_i s.ack
      ∷ pack_h (bit_or (5 * 2 ^ 12) s.flags)
      ∷ pack_h s.window
      ∷ pack_h 0
      ∷ pack_h 0
      ∷ pack_h 0
      ∷ []))

-- The checksum goes to bytes 16 and 17.
unfoldable pub with_checksum : Option Bytes → Option Bytes → Bytes → Option Bytes
with_checksum (some pseudo) (some h) payload =
    let cksum = inet_cksum (pseudo ++ (h ++ payload)) in
    some (take 16 h ++ (be16 cksum ++ (drop 18 h ++ payload)))
with_checksum _ _ payload = none

-- `none` is `struct.error`: a field does not fit its format.
unfoldable pub encode : TcpSegment → Bytes → Bytes → Option Bytes
unfolding pseudo_header header with_checksum
encode s src_ip dst_ip =
    with_checksum (pseudo_header src_ip dst_ip (20 + length s.payload)) (header s) s.payload

-- The fields fit the header.
pub record IsWire (s : TcpSegment) : Type 0 where
  pub src_range : s.src_port < 65536
  pub dst_range : s.dst_port < 65536
  pub seq_range : s.seq < 2 ^ 32
  pub ack_range : s.ack < 2 ^ 32
  pub flags_range : s.flags < 512
  pub window_range : s.window < 65536
  pub size_range : 20 + length s.payload < 2 ^ 32
