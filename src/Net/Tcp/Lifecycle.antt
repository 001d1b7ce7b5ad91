-- ===== src/Net/Tcp/Lifecycle.antt =====
-- How the state of a connection moves, and what no segment changes.
use pythonos.Prelude.{
  ◌+◌, ◌%◌, ◌^◌, ◌<◌, ◌≡◌, ◌≢◌, ◌∙◌, refl, sym, ap, List, [], ◌∷◌, ◌++◌, append-nil, Bool, true,
  false, length, arith, Bool-cases, inl, inr, ◌&&◌,
}
use pythonos.Prelude.Bytes.{Bytes}
use pythonos.Net.Tcp.Segment.{
  TcpState, closed, syn_sent, syn_rcvd, established, fin_wait_1, close_wait, TcpSegment, has_flag,
  f_fin, f_syn, f_rst, f_ack,
}
use pythonos.Net.Tcp.Connection.{
  TcpConnection, take_payload, take_fin, handle_in, handle_segment, close_in, close,
}
use pythonos.Net.Tcp.Stream.{deliver}

-- The moves that a segment can make.
pub data Step : TcpState → TcpState → Type 0 where
  stays : (s : TcpState) → Step s s
  accepts : Step syn_rcvd established
  connects : Step syn_sent established
  refuses : Step syn_sent closed
  peer_closes : Step established close_wait

still : {s : TcpState} (c : TcpConnection) → c.state ≡ s → Step s c.state
still {s} c e = rw e (stays s)

state-take_payload :
    (sync : Bool) (seg : TcpSegment) (bs : Bytes) (c : TcpConnection)
    → (take_payload sync seg bs c).0.state ≡ c.state
unfolding take_payload
state-take_payload sync seg [] c = refl
state-take_payload sync seg (b ∷ bs) c = refl

take_fin-Step :
    (sync : Bool) (seg : TcpSegment) (c : TcpConnection)
    → c.state ≡ established
    → Step established (take_fin sync seg c).0.state
unfolding take_fin
take_fin-Step sync seg c e = elim (Bool-cases (has_flag seg.flags f_fin)) [
  | inl t ↦ rw t peer_closes
  | inr t ↦ rw t (still c e)
]

handle_in-Step :
    (s : TcpState) (sync : Bool) (seg : TcpSegment) (c : TcpConnection)
    → c.state ≡ s
    → Step s (handle_in s sync seg c).0.state
unfolding handle_in
handle_in-Step syn_rcvd sync seg c e = elim (Bool-cases (has_flag seg.flags f_ack)) [
  | inl t ↦ rw t accepts
  | inr t ↦ rw t (still c e)
]
handle_in-Step syn_sent sync seg c e =
    elim (Bool-cases (has_flag seg.flags f_syn && has_flag seg.flags f_ack)) [
      | inl t ↦ rw t connects
      | inr t ↦ rw t (elim (Bool-cases (has_flag seg.flags f_rst)) [
        | inl u ↦ rw u refuses
        | inr u ↦ rw u (still c e)
      ])
    ]
handle_in-Step established sync seg c e =
    take_fin-Step sync seg (take_payload sync seg seg.payload c).0
      (state-take_payload sync seg seg.payload c ∙ e)
handle_in-Step closed sync seg c e = still c e
handle_in-Step _ sync seg c e = still c e

-- A segment leaves the state as it is, or accepts, connects, is refused, or learns that the peer has
-- closed: no other move is possible, whatever the segment says.
handle_segment-Step :
    (sync : Bool) (seg : TcpSegment) (c : TcpConnection)
    → Step c.state (handle_segment sync seg c).0.state
unfolding handle_segment
handle_segment-Step sync seg c = handle_in-Step c.state sync seg c refl

-- What no segment changes: the addresses, the ports, the sender's number and window. The number to
-- acknowledge stays a 32-bit word.
pub record Keeps (c d : TcpConnection) : Type 0 where
  pub local_ip : d.local_ip ≡ c.local_ip
  pub remote_ip : d.remote_ip ≡ c.remote_ip
  pub local_port : d.local_port ≡ c.local_port
  pub remote_port : d.remote_port ≡ c.remote_port
  pub snd_seq : d.snd_seq ≡ c.snd_seq
  pub snd_wnd : d.snd_wnd ≡ c.snd_wnd
  pub snd_ack : c.snd_ack < 2 ^ 32 → d.snd_ack < 2 ^ 32

take_payload-Keeps :
    (sync : Bool) (seg : TcpSegment) (bs : Bytes) (c : TcpConnection)
    → Keeps c (take_payload sync seg bs c).0
unfolding take_payload
take_payload-Keeps sync seg [] c = ground arith
take_payload-Keeps sync seg (b ∷ bs) c = ground arith

take_fin-Keeps :
    (sync : Bool) (seg : TcpSegment) (c : TcpConnection) → Keeps c (take_fin sync seg c).0
unfolding take_fin
take_fin-Keeps sync seg c = ground arith

handle_in-Keeps :
    (s : TcpState) (sync : Bool) (seg : TcpSegment) (c : TcpConnection)
    → Keeps c (handle_in s sync seg c).0
unfolding handle_in
handle_in-Keeps established sync seg c =
    let one = take_payload-Keeps sync seg seg.payload c in
    let two = take_fin-Keeps sync seg (take_payload sync seg seg.payload c).0 in
    ground (arith, one, two)
handle_in-Keeps _ sync seg c = ground arith

-- No segment changes the addresses, the ports, or the sender's sequence number and window, and the
-- number to acknowledge stays below 2 ^ 32.
pub handle_segment-Keeps :
    (sync : Bool) (seg : TcpSegment) (c : TcpConnection) → Keeps c (handle_segment sync seg c).0
unfolding handle_segment
handle_segment-Keeps sync seg c = handle_in-Keeps c.state sync seg c

-- A segment leaves the state as it is, or accepts, connects, is refused, or learns that the peer has
-- closed: no other move is possible, whatever the segment says. And no segment changes the addresses, the
-- ports, or the sender's sequence number and window, and the number to acknowledge stays below 2 ^ 32.
pub handle_segment-Step-Keeps :
    (sync : Bool) (seg : TcpSegment) (c : TcpConnection)
    → Step c.state (handle_segment sync seg c).0.state × Keeps c (handle_segment sync seg c).0
handle_segment-Step-Keeps sync seg c =
    (handle_segment-Step sync seg c, handle_segment-Keeps sync seg c)

deaf :
    (sync : Bool) (segs : List TcpSegment) (d : TcpConnection)
    → d.state ≡ fin_wait_1
    → deliver sync segs d ≡ d
unfolding deliver handle_segment handle_in
deaf sync [] d h = refl
deaf sync (seg ∷ segs) d h =
    let one : (handle_segment sync seg d).0 ≡ d = rw (h, handle_segment) refl in
    rw one (deaf sync segs d h)

-- After `close` on an established connection no segment is heard any more: whatever the peer sends,
-- its data, its FIN and its acknowledgements included, the connection stays as `close` left it.
pub deliver-close :
    (sync : Bool) (segs : List TcpSegment) (c : TcpConnection)
    → c.state ≡ established
    → ((close c).0.state ≡ fin_wait_1) × (deliver sync segs (close c).0 ≡ (close c).0)
unfolding close close_in
deliver-close sync segs c e = rw e (refl, deaf sync segs (record c { state = fin_wait_1 }) refl)

-- A FIN that carries data is acknowledged as if it carried none: the number goes back to the one
-- after the segment's first byte, which never acknowledges the data and the FIN.
pub fin_with_data :
    (sync : Bool) (seg : TcpSegment) (c : TcpConnection)
    → c.state ≡ established
    → has_flag seg.flags f_fin ≡ true
    → 0 < length seg.payload
    → length seg.payload + 1 < 2 ^ 32
    → ((handle_segment sync seg c).0.snd_ack ≡ (seg.seq + 1) % 2 ^ 32)
      × ((handle_segment sync seg c).0.snd_ack ≢ (seg.seq + length seg.payload + 1) % 2 ^ 32)
unfolding handle_segment handle_in take_fin
fin_with_data sync seg c e f some_data fits = rw (e, f, handle_in) (refl, λ h. absurd (omega arith))

rcv_buf-take_payload :
    (sync : Bool) (seg : TcpSegment) (bs : Bytes) (c : TcpConnection)
    → (take_payload sync seg bs c).0.rcv_buf ≡ c.rcv_buf ++ bs
unfolding take_payload
rcv_buf-take_payload sync seg [] c = sym (append-nil c.rcv_buf)
rcv_buf-take_payload sync seg (b ∷ bs) c = refl

data_segment :
    (sync : Bool) (seg : TcpSegment) (c : TcpConnection)
    → c.state ≡ established
    → has_flag seg.flags f_fin ≡ false
    → let d = (handle_segment sync seg c).0 in
      (d.state ≡ established) × (d.rcv_buf ≡ c.rcv_buf ++ seg.payload)
unfolding handle_segment handle_in take_fin
data_segment sync seg c e f =
    let d : TcpConnection = record c { state = established } in
    rw (e, f, handle_segment)
      (state-take_payload sync seg seg.payload d, rcv_buf-take_payload sync seg seg.payload d)

-- The sequence number of a data segment is never compared: a retransmitted segment is appended again.
pub duplicate_data :
    (sync : Bool) (seg : TcpSegment) (c : TcpConnection)
    → c.state ≡ established
    → has_flag seg.flags f_fin ≡ false
    → (deliver sync (seg ∷ seg ∷ []) c).rcv_buf ≡ (c.rcv_buf ++ seg.payload) ++ seg.payload
unfolding deliver
duplicate_data sync seg c e f =
    let one = data_segment sync seg c e f in
    let two = data_segment sync seg (handle_segment sync seg c).0 one.0 f in
    two.1 ∙ ap (λ (bs : Bytes). bs ++ seg.payload) one.1
