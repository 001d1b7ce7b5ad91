-- ===== src/Net/Arp.antt =====
-- kernel/net/arp.py: the ARP table, the requests that wait for an answer, and the packets. A future is
-- named by a number; a future that `learn` completes is an output.
use pythonos.Prelude.{
  ℕ, ◌≡◌, ◌≢◌, refl, [], ◌∷◌, ◌++◌, Option, none, some, Bool, false, Outcome, err, length,
  replicate, if◌then◌else◌, ltb, arith, Dict, lookup, insert, erase, lookup-insert,
  lookup-insert_self, lookup-erase_self, Eq-Bytes, bytes_eq_iff,
}
use pythonos.Prelude.Bytes.{
  Bytes, slice, be16, pack, pack_b, pack_h, pack_s, length_four, length_six,
}
use pythonos.Net.Ethernet.{FrameError, struct_error, encode, ethertype_arp, broadcast_mac}

abbrev pub arp_request : ℕ
arp_request = 1

pub record ArpTable : Type 0 where
  pub table : Dict Bytes Bytes
  pub pending : Dict Bytes ℕ

-- A future and the address that it is completed with.
abbrev pub Answer : Type 0
Answer = Option (ℕ × Bytes)

unfoldable pub answer : (ℕ → Bool) → Bytes → Option ℕ → Answer
answer done mac none = none
answer done mac (some fut) = if done fut then none else some (fut, mac)

unfoldable pub learn : (ℕ → Bool) → Bytes → Bytes → ArpTable → Answer × ArpTable
unfolding answer
learn done ip mac t = (
  answer done mac (lookup ip t.pending),
  record { table = insert ip mac t.table; pending = erase ip t.pending },
)

unfoldable pub lookup_mac : Bytes → ArpTable → Option Bytes
lookup_mac ip t = lookup ip t.table

-- `resolve` up to its `await`: a known address that is not empty, or the new future `fut`, which
-- takes the place of an older one for the same address.
unfoldable pub resolve_found : ℕ → Bytes → Option Bytes → ArpTable → Option Bytes × ArpTable
resolve_found fut ip (some (b ∷ mac)) t = (some (b ∷ mac), t)
resolve_found fut ip _ t = (none, record t { pending = insert ip fut t.pending })

unfoldable pub resolve_start : ℕ → Bytes → ArpTable → Option Bytes × ArpTable
unfolding resolve_found
resolve_start fut ip t = resolve_found fut ip (lookup ip t.table) t

-- The handler of `resolve` for a time-out: the entry of the address goes, whosever it is.
unfoldable pub resolve_timeout : Bytes → ArpTable → ArpTable
resolve_timeout ip t = record t { pending = erase ip t.pending }

abbrev pub request_fields : Bytes → Bytes → Bytes → Option Bytes
request_fields sender_mac sender_ip target_ip = pack (
    pack_h 1
    ∷ pack_h 0x0800
    ∷ pack_b 6
    ∷ pack_b 4
    ∷ pack_h arp_request
    ∷ pack_s 6 sender_mac
    ∷ pack_s 4 sender_ip
    ∷ pack_s 6 (replicate 6 0)
    ∷ pack_s 4 target_ip
    ∷ [])

unfoldable pub build_request : Bytes → Bytes → Bytes → Outcome FrameError Bytes
build_request sender_mac sender_ip target_ip =
    elim (request_fields sender_mac sender_ip target_ip) [
      | none ↦ err struct_error
      | some arp ↦ encode (record {
        dst = broadcast_mac;
        src = sender_mac;
        ethertype = ethertype_arp;
        payload = arp;
      })
    ]

-- The operation code is read and not looked at.
unfoldable pub handle_frame : (ℕ → Bool) → Bytes → ArpTable → Answer × ArpTable
unfolding learn
handle_frame done payload t =
    if ltb (length payload) 28
    then (none, t)
    else learn done (slice 14 18 payload) (slice 8 14 payload) t

-- The packet that `build_request` packs.
abbrev pub arp_packet : Bytes → Bytes → Bytes → Bytes
arp_packet mac ip target =
    be16 1
    ++ (be16 0x0800 ++ (6 ∷ 4 ∷ (be16 arp_request ++ (mac ++ (ip ++ (replicate 6 0 ++ target))))))

run-build_request :
    (mac ip target : Bytes)
    → length mac ≡ 6
    → length ip ≡ 4
    → length target ≡ 4
    → build_request mac ip target
      ≡ encode (record {
        dst = broadcast_mac;
        src = mac;
        ethertype = ethertype_arp;
        payload = arp_packet mac ip target;
      })
unfolding build_request
run-build_request mac ip target m i g =
    let (a, b, c, x, y, z, e) = length_six mac m in
    let (p, q, r, s, f) = length_four ip i in
    let (p', q', r', s', f') = length_four target g in rw (e, f, f') refl

pub run-handle_frame :
    (done : ℕ → Bool) (mac ip target : Bytes) (t : ArpTable)
    → length mac ≡ 6
    → length ip ≡ 4
    → length target ≡ 4
    → handle_frame done (arp_packet mac ip target) t ≡ learn done ip mac t
unfolding handle_frame
run-handle_frame done mac ip target t m i g =
    let (a, b, c, x, y, z, e) = length_six mac m in
    let (p, q, r, s, f) = length_four ip i in
    let (p', q', r', s', f') = length_four target g in rw (e, f, f') refl

-- The table knows this address, knows every other one as before, and nothing waits for it.
pub record Knows (ip mac : Bytes) (t t' : ArpTable) : Type 0 where
  pub there : lookup_mac ip t' ≡ some mac
  pub others : (other : Bytes) → other ≢ ip → lookup_mac other t' ≡ lookup_mac other t
  pub no_wait : lookup ip t'.pending ≡ none

pub learn-Knows :
    (done : ℕ → Bool) (ip mac : Bytes) (t : ArpTable) → Knows ip mac t (learn done ip mac t).1
unfolding learn lookup_mac
learn-Knows done ip mac t = record {
  there = lookup-insert_self ip mac t.table;
  others =
      λ other ne. ground (arith, lookup-insert ip other mac t.table, bytes_eq_iff ip other, ne);
  no_wait = lookup-erase_self ip t.pending;
}

-- A request with addresses of six and four bytes is built as a broadcast ARP frame with the packet as
-- its payload, and whoever handles it knows the sender from then on: the sender's address is in the table,
-- every other entry is as it was, a future that waits for the sender and is not done gets the
-- address, and no future waits for it any more.
pub handle_frame-build_request :
    (done : ℕ → Bool) (mac ip target : Bytes) (t : ArpTable)
    → length mac ≡ 6
    → length ip ≡ 4
    → length target ≡ 4
    → (build_request mac ip target
        ≡ encode (record {
          dst = broadcast_mac;
          src = mac;
          ethertype = ethertype_arp;
          payload = arp_packet mac ip target;
        }))
      × (lookup_mac ip (handle_frame done (arp_packet mac ip target) t).1 ≡ some mac)
      × ((other : Bytes)
          → other ≢ ip
          → lookup_mac other (handle_frame done (arp_packet mac ip target) t).1
            ≡ lookup_mac other t)
      × ((handle_frame done (arp_packet mac ip target) t).0 ≡ answer done mac (lookup ip t.pending))
      × (lookup ip (handle_frame done (arp_packet mac ip target) t).1.pending ≡ none)
unfolding lookup_mac learn
handle_frame-build_request done mac ip target t m i g =
    let run = run-handle_frame done mac ip target t m i g in
    (
      run-build_request mac ip target m i g,
      rw run (lookup-insert_self ip mac t.table),
      λ other ne.
          rw run (ground (arith, lookup-insert ip other mac t.table, bytes_eq_iff ip other, ne)),
      rw run refl,
      rw run (lookup-erase_self ip t.pending),
    )

-- When two tasks ask for the same unknown address, the second future takes the place of the first:
-- the answer completes the second alone, and afterwards no entry is left that could complete the first.
pub learn-resolve_start :
    (done : ℕ → Bool) (first second : ℕ) (ip mac : Bytes) (t : ArpTable)
    → lookup ip t.table ≡ none
    → done second ≡ false
    → let t' = (resolve_start second ip (resolve_start first ip t).1).1 in
      ((resolve_start first ip t).0 ≡ none)
      × ((resolve_start second ip (resolve_start first ip t).1).0 ≡ none)
      × ((learn done ip mac t').0 ≡ some (second, mac))
      × (lookup ip (learn done ip mac t').1.pending ≡ none)
unfolding resolve_start resolve_found learn answer
learn-resolve_start done first second ip mac t unknown not_done =
    let waits = lookup-insert_self ip second (insert ip first t.pending) in
    (
      rw unknown refl,
      rw (unknown, unknown) refl,
      rw (unknown, unknown, waits, not_done) refl,
      rw (unknown, unknown) (lookup-erase_self ip (insert ip second (insert ip first t.pending))),
    )
