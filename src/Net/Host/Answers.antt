-- ===== src/Net/Host/Answers.antt =====
-- What TCP sends at once when a frame is polled.
use pythonos.Prelude.{ℕ, ◌≡◌, refl, List, [], ◌∷◌, Bool, Outcome, ok, err, continue}
use pythonos.Prelude.Bytes.{Bytes}
use pythonos.Net.Tcp.{TcpSegment, Send, now, later}
use pythonos.Net.Tcp.Stack.{Output, sends, spawned, silent}
use pythonos.Net.Host.Defs.{Host, NetError, send_tcp_segment_nowait, send_now, send_output}

-- What a list of sends between two addresses does: a task sends later; the others are transmitted one after
-- the other, up to the first that raises.
pub data Transmits (src dst : Bytes) : List Send → Host → Host → Type 0 where
  all_sent : (h : Host) → Transmits src dst [] h h
  put_off :
      (flags : ℕ) (out : List Send) (h h' : Host)
      → Transmits src dst out h h'
      → Transmits src dst (later flags ∷ out) h h'
  sent_now :
      (seg : TcpSegment) (out : List Send) (taken : Bool) (h k h' : Host)
      → send_tcp_segment_nowait seg src dst h ≡ (ok taken, k)
      → Transmits src dst out k h'
      → Transmits src dst (now seg ∷ out) h h'
  raised :
      (seg : TcpSegment) (out : List Send) (e : NetError) (h k : Host)
      → send_tcp_segment_nowait seg src dst h ≡ (err e, k)
      → Transmits src dst (now seg ∷ out) h k

-- What TCP answers to a packet on a host.
abbrev pub Answers : Output → Host → Host → Type 0
Answers (sends key out) h h' = Transmits key.local_ip key.remote_ip out h h'
Answers _ h h' = h' ≡ h

first-Transmits :
    (seg : TcpSegment) (out : List Send) (src dst : Bytes) (h : Host)
    (r : Outcome NetError Bool × Host)
    → send_tcp_segment_nowait seg src dst h ≡ r
    → ((k : Host) → Transmits src dst out k (send_now out src dst k).1)
    → Transmits src dst (now seg ∷ out) h (continue r (λ _. send_now out src dst)).1
first-Transmits seg out src dst h (ok taken, k) e rest = sent_now seg out taken h k _ e (rest k)
first-Transmits seg out src dst h (err x, k) e rest = raised seg out x h k e

send_now-Transmits :
    (out : List Send) (src dst : Bytes) (h : Host)
    → Transmits src dst out h (send_now out src dst h).1
unfolding send_now
send_now-Transmits [] src dst h = all_sent h
send_now-Transmits (later flags ∷ out) src dst h =
    put_off flags out h _ (send_now-Transmits out src dst h)
send_now-Transmits (now seg ∷ out) src dst h =
    first-Transmits seg out src dst h (send_tcp_segment_nowait seg src dst h) refl
      (send_now-Transmits out src dst)

pub send_output-Answers : (out : Output) (h : Host) → Answers out h (send_output out h).1
unfolding send_output
send_output-Answers (sends key out) h = send_now-Transmits out key.local_ip key.remote_ip h
send_output-Answers (spawned key listener) h = refl
send_output-Answers silent h = refl
