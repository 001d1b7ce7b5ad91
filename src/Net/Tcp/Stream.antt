-- ===== src/Net/Tcp/Stream.antt =====
-- A byte stream through a connection: what `send` emits is what a receiver collects.
use pythonos.Prelude.{
  ℕ, zero, suc, ◌+◌, ◌<◌, ◌≤◌, ◌≡◌, ◌∙◌, sym, subst, refl, ap, List, [], ◌∷◌, ◌++◌, append-nil,
  append_assoc, Bool, length, take, drop, take-append-drop, length-take, length-drop, arith, All,
  max,
}
use pythonos.Prelude.Bytes.{Bytes}
use pythonos.Net.Tcp.Segment.{established, TcpSegment, f_psh, f_ack}
use pythonos.Net.Tcp.Connection.{
  TcpConnection, build, advance, chunks, send_chunks, send, handle_segment, tcp_max_payload,
}

abbrev pub join : List Bytes → Bytes
join [] = []
join (b ∷ bs) = b ++ join bs

-- A payload that the code may send: not empty, and within the limit.
abbrev pub IsPayload : Bytes → Type 0
IsPayload b = (0 < length b) × (length b ≤ tcp_max_payload)

join-chunks : (fuel : ℕ) (bs : Bytes) → length bs ≤ fuel → join (chunks fuel bs) ≡ bs
unfolding chunks
join-chunks zero [] h = refl
join-chunks zero (b ∷ bs) h = absurd (omega arith)
join-chunks (suc fuel) [] h = refl
join-chunks (suc fuel) (b ∷ bs) h =
    ap (◌++◌ (take tcp_max_payload (b ∷ bs))) (
      join-chunks fuel (drop tcp_max_payload (b ∷ bs))
        (omega (arith, length-drop tcp_max_payload (b ∷ bs))))
    ∙ take-append-drop tcp_max_payload (b ∷ bs)

chunks-All : (fuel : ℕ) (bs : Bytes) → All IsPayload (chunks fuel bs)
unfolding chunks
chunks-All zero bs = tt
chunks-All (suc fuel) [] = tt
chunks-All (suc fuel) (b ∷ bs) = (
  (
    omega (arith, length-take tcp_max_payload (b ∷ bs)),
    omega (arith, length-take tcp_max_payload (b ∷ bs)),
  ),
  chunks-All fuel (drop tcp_max_payload (b ∷ bs)),
)

-- Handing segments to a connection one after the other.
unfoldable pub deliver : Bool → List TcpSegment → TcpConnection → TcpConnection
deliver sync [] c = c
deliver sync (seg ∷ segs) c = deliver sync segs (handle_segment sync seg c).0

-- The receiver expects the sender's next byte.
pub record InStep (s r : TcpConnection) : Type 0 where
  pub open_end : r.state ≡ established
  pub expected : r.snd_ack ≡ s.snd_seq

receive_chunk :
    (sync : Bool) (chunk : Bytes) (s r : TcpConnection)
    → 0 < length chunk
    → r.state ≡ established
    → let r' = (handle_segment sync (build s (f_ack + f_psh) chunk) r).0 in
      (r'.state ≡ established)
      × (r'.snd_ack ≡ (advance (f_ack + f_psh) chunk s).snd_seq)
      × (r'.rcv_buf ≡ r.rcv_buf ++ chunk)
unfolding handle_segment build advance
receive_chunk sync [] s r h e = absurd (omega arith)
receive_chunk sync (b ∷ chunk) s r h e =
    let m : max (suc (length chunk)) 1 ≡ suc (length chunk) = omega arith in
    rw (e, handle_segment) (refl, rw m, refl)

-- What the receiver has after all segments of a sender.
pub record Collected (s' r r' : TcpConnection) (bs : Bytes) : Type 0 where
  pub in_step : InStep s' r'
  pub buffer : r'.rcv_buf ≡ r.rcv_buf ++ bs

payloads :
    (cs : List Bytes) (s : TcpConnection)
    → All IsPayload cs
    → All (λ seg. IsPayload seg.payload) (send_chunks cs s).0
unfolding send_chunks build
payloads [] s ok = tt
payloads (c ∷ cs) s ok = (ok.0, payloads cs (advance (f_ack + f_psh) c s) ok.1)

deliver_chunks :
    (sync : Bool) (cs : List Bytes) (s r : TcpConnection)
    → All IsPayload cs
    → InStep s r
    → Collected (send_chunks cs s).1 r (deliver sync (send_chunks cs s).0 r) (join cs)
unfolding send_chunks deliver
deliver_chunks sync [] s r ok k = record { in_step = k; buffer = sym (append-nil r.rcv_buf) }
deliver_chunks sync (c ∷ cs) s r ok k =
    let one = receive_chunk sync c s r ok.0.0 k.open_end in
    let r' = (handle_segment sync (build s (f_ack + f_psh) c) r).0 in
    let s' = advance (f_ack + f_psh) c s in
    let rest = deliver_chunks sync cs s' r' ok.1 (record { open_end = one.0; expected = one.1 }) in
    record { in_step = rest.in_step; buffer = rest.buffer ∙ rw (one.2, append_assoc) }

-- `send` cuts its data into segments of 1 to 1200 bytes. Whatever their number, a receiver that is
-- established and expects the sender's next byte has, once they arrive in order, exactly the data
-- appended to its buffer, is still established, and expects the byte after the last one sent.
pub send-delivers :
    (sync : Bool) (bs : Bytes) (s r : TcpConnection)
    → InStep s r
    → All (λ seg. IsPayload seg.payload) (send bs s).0
      × Collected (send bs s).1 r (deliver sync (send bs s).0 r) bs
unfolding send
send-delivers sync bs s r k =
    let ok = chunks-All (length bs) bs in
    let whole = join-chunks (length bs) bs (omega arith) in
    (
      payloads (chunks (length bs) bs) s ok,
      subst (Collected _ r _) whole (deliver_chunks sync _ s r ok k),
    )
