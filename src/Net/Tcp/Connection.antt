-- ===== src/Net/Tcp/Connection.antt =====
-- `TCPConnection`: its fields, sending and receiving. What a method sends is an output: at once on
-- the synchronous path, or later, by a task that `ensure_future` starts and that builds its segment
-- from the connection as it is when the task runs.
use pythonos.Prelude.{
  ℕ, zero, suc, ◌+◌, ◌%◌, ◌^◌, List, [], ◌∷◌, ◌++◌, Option, some, Bool, true, false, ◌&&◌, ◌||◌,
  length, take, drop, ◌==◌, if◌then◌else◌, max,
}
use pythonos.Prelude.Bytes.{Bytes}
use pythonos.Net.Tcp.Segment.{
  TcpState, closed, syn_sent, syn_rcvd, established, fin_wait_1, close_wait, last_ack, TcpSegment,
  has_flag, f_fin, f_syn, f_rst, f_psh, f_ack,
}

abbrev pub tcp_max_payload : ℕ
tcp_max_payload = 1200

-- The future `_connected`.
pub data Promise : Type 0 where
  pending resolved refused : Promise

pub record TcpConnection : Type 0 where
  pub local_ip : Bytes
  pub remote_ip : Bytes
  pub local_port : ℕ
  pub remote_port : ℕ
  pub state : TcpState
  pub snd_seq : ℕ
  pub snd_ack : ℕ
  pub snd_wnd : ℕ
  pub rcv_buf : Bytes
  pub rx_event : Bool
  pub accept_event : Bool
  pub connected : Option Promise

-- What `handle_segment` and `close` have sent: the segment, or the flags of a task to come.
pub data Send : Type 0 where
  now : TcpSegment → Send
  later : ℕ → Send

unfoldable pub build : TcpConnection → ℕ → Bytes → TcpSegment
build c flags payload = record {
  src_port = c.local_port;
  dst_port = c.remote_port;
  seq = c.snd_seq;
  ack = c.snd_ack;
  flags = flags;
  window = c.snd_wnd;
  payload = payload;
}

-- `payload or (flags & (F_SYN | F_FIN))`.
unfoldable pub occupies : ℕ → Bytes → Bool
occupies flags [] = has_flag flags f_syn || has_flag flags f_fin
occupies flags (b ∷ payload) = true

-- What follows a transmission: data, SYN and FIN take up sequence numbers.
unfoldable pub advance : ℕ → Bytes → TcpConnection → TcpConnection
unfolding occupies
advance flags payload c =
    if occupies flags payload
    then record c { snd_seq = (c.snd_seq + max (length payload) 1) % 2 ^ 32 }
    else c

-- `send_segment_nowait`, where `ok` is the answer of the stack: the segment is built in any case,
-- and the numbers move on only if it was sent.
unfoldable pub send_segment_nowait : Bool → ℕ → Bytes → TcpConnection → TcpSegment × TcpConnection
unfolding build advance
send_segment_nowait ok flags payload c =
    (build c flags payload, if ok then advance flags payload c else c)

-- One round of `recv`: it returns, or waits for `_rx_event` and then makes the next round.
pub data Received : Type 0 where
  got : Bytes → Received
  end_of_stream : Received
  waiting : Received

abbrev pub is_over : TcpState → Bool
is_over close_wait = true
is_over closed = true
is_over _ = false

unfoldable pub recv_from : Bytes → ℕ → TcpConnection → Received × TcpConnection
recv_from [] n c =
    if is_over c.state then (end_of_stream, c) else (waiting, record c { rx_event = false })
recv_from (b ∷ buf) n c = (got (take n (b ∷ buf)), record c { rcv_buf = drop n (b ∷ buf) })

unfoldable pub recv : ℕ → TcpConnection → Received × TcpConnection
unfolding recv_from
recv n c = recv_from c.rcv_buf n c

-- `data[off:off + TCP_MAX_PAYLOAD]` for each multiple `off` below the length; the fuel is the length.
unfoldable pub chunks : ℕ → Bytes → List Bytes
chunks zero bs = []
chunks (suc fuel) [] = []
chunks (suc fuel) (b ∷ bs) =
    take tcp_max_payload (b ∷ bs) ∷ chunks fuel (drop tcp_max_payload (b ∷ bs))

-- `send`, run with no other sender between: the segments in order.
unfoldable pub send_chunks : List Bytes → TcpConnection → List TcpSegment × TcpConnection
unfolding build advance
send_chunks [] c = ([], c)
send_chunks (chunk ∷ rest) c =
    let (segs, c') = send_chunks rest (advance (f_ack + f_psh) chunk c) in
    (build c (f_ack + f_psh) chunk ∷ segs, c')

unfoldable pub send : Bytes → TcpConnection → List TcpSegment × TcpConnection
unfolding chunks send_chunks
send bs c = send_chunks (chunks (length bs) bs) c

abbrev pub tcp_tx_poll_burst : ℕ
tcp_tx_poll_burst = 32

-- `send_nowait`. The stack's answer to the n-th segment is `oks n`, and the first refusal ends it;
-- `poll` is what draining the receive path (`while stack.poll_once()`) does to this connection.
module _ (poll : TcpConnection → TcpConnection) (oks : ℕ → Bool) where
  unfoldable pub send_nowait_chunks :
      List Bytes → ℕ → TcpConnection → Bool × List TcpSegment × TcpConnection
  unfolding send_segment_nowait
  send_nowait_chunks [] count c = (true, [], poll c)
  send_nowait_chunks (chunk ∷ rest) count c =
      let (seg, c') = send_segment_nowait true (f_ack + f_psh) chunk c in
      let polled = if suc count % tcp_tx_poll_burst == 0 then poll c' else c' in
      let (done, segs, c'') = send_nowait_chunks rest (suc count) polled in
      if oks count then (done, seg ∷ segs, c'') else (false, [], c)

  unfoldable pub send_nowait : Bytes → TcpConnection → Bool × List TcpSegment × TcpConnection
  unfolding send_nowait_chunks chunks
  send_nowait bs c = send_nowait_chunks (chunks (length bs) bs) 0 c

unfoldable pub close_in : TcpState → TcpConnection → TcpConnection × List Send
close_in established c = (record c { state = fin_wait_1 }, later (f_fin + f_ack) ∷ [])
close_in close_wait c = (record c { state = last_ack }, later (f_fin + f_ack) ∷ [])
close_in _ c = (c, [])

unfoldable pub close : TcpConnection → TcpConnection × List Send
unfolding close_in
close c = close_in c.state c

-- `if self._connected and not self._connected.done()`.
unfoldable pub settle : Promise → Option Promise → Option Promise
settle p (some pending) = some p
settle p o = o

-- The acknowledgement of `handle_segment`, on the synchronous path or as a task.
unfoldable pub acknowledge : Bool → TcpConnection → Send
unfolding build
acknowledge sync c = if sync then now (build c f_ack []) else later f_ack

unfoldable pub take_payload : Bool → TcpSegment → Bytes → TcpConnection → TcpConnection × List Send
unfolding acknowledge
take_payload sync seg [] c = (c, [])
take_payload sync seg (b ∷ payload) c =
    let c' = record c {
      snd_ack = (seg.seq + length (b ∷ payload)) % 2 ^ 32;
      rcv_buf = c.rcv_buf ++ b ∷ payload;
      rx_event = true;
    } in
    (c', acknowledge sync c' ∷ [])

unfoldable pub take_fin : Bool → TcpSegment → TcpConnection → TcpConnection × List Send
unfolding acknowledge
take_fin sync seg c =
    let c' = record c { snd_ack = (seg.seq + 1) % 2 ^ 32 } in
    if has_flag seg.flags f_fin
    then (record c' { state = close_wait; rx_event = true }, acknowledge sync c' ∷ [])
    else (c, [])

unfoldable pub handle_in : TcpState → Bool → TcpSegment → TcpConnection → TcpConnection × List Send
unfolding take_payload take_fin settle
handle_in syn_rcvd sync seg c =
    if has_flag seg.flags f_ack
    then (record c { state = established; accept_event = true }, [])
    else (c, [])
handle_in syn_sent sync seg c =
    if has_flag seg.flags f_syn && has_flag seg.flags f_ack
    then (
      record c {
        snd_ack = (seg.seq + 1) % 2 ^ 32;
        state = established;
        connected = settle resolved c.connected;
      },
      later f_ack ∷ [],
    )
    else if has_flag seg.flags f_rst
    then (record c { state = closed; connected = settle refused c.connected }, [])
    else (c, [])
handle_in established sync seg c =
    let (c', sends) = take_payload sync seg seg.payload c in
    let (c'', more) = take_fin sync seg c' in (c'', sends ++ more)
handle_in _ sync seg c = (c, [])

unfoldable pub handle_segment : Bool → TcpSegment → TcpConnection → TcpConnection × List Send
unfolding handle_in
handle_segment sync seg c = handle_in c.state sync seg c
