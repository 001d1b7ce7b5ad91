-- ===== src/Net/Ethernet.antt =====
-- kernel/net/ethernet.py: Ethernet frames.
use pythonos.Prelude.{
  ℕ, ◌<◌, ◌≡◌, [], ◌∷◌, ◌++◌, Outcome, ok, err, length, drop, ltb, if◌then◌else◌, arith, none, some,
}
use pythonos.Prelude.Bytes.{Bytes, slice, be_value, be16, pack_h, length_six}

abbrev pub ethertype_ipv4 : ℕ
ethertype_ipv4 = 0x0800

abbrev pub ethertype_arp : ℕ
ethertype_arp = 0x0806

abbrev pub broadcast_mac : Bytes
broadcast_mac = 0xFF ∷ 0xFF ∷ 0xFF ∷ 0xFF ∷ 0xFF ∷ 0xFF ∷ []

pub record EtherFrame : Type 0 where
  pub dst : Bytes
  pub src : Bytes
  pub ethertype : ℕ
  pub payload : Bytes

pub data FrameError : Type 0 where
  too_short : FrameError
  struct_error : FrameError

unfoldable pub decode : Bytes → Outcome FrameError EtherFrame
decode raw =
    if ltb (length raw) 14
    then err too_short
    else ok (record {
      dst = slice 0 6 raw;
      src = slice 6 12 raw;
      ethertype = be_value (slice 12 14 raw);
      payload = drop 14 raw;
    })

unfoldable pub encode : EtherFrame → Outcome FrameError Bytes
encode f = elim (pack_h f.ethertype) [
  | none ↦ err struct_error
  | some t ↦ ok (f.dst ++ (f.src ++ (t ++ f.payload)))
]

-- A frame with addresses of six bytes and a 16-bit type is always encoded, and decodes to itself.
pub decode-encode_frame :
    (f : EtherFrame)
    → length f.dst ≡ 6
    → length f.src ≡ 6
    → f.ethertype < 65536
    → (bytes : Bytes) × (encode f ≡ ok bytes) × (decode bytes ≡ ok f)
unfolding decode encode
decode-encode_frame f d s t =
    let (a, b, c, x, y, z, e) = length_six f.dst d in
    let (a', b', c', x', y', z', e') = length_six f.src s in
    let v : be_value (be16 f.ethertype) ≡ f.ethertype = omega arith in
    (
      f.dst ++ (f.src ++ (be16 f.ethertype ++ f.payload)),
      ground (arith, t),
      ground (arith, e, e', v),
    )
