-- ===== src/Packet/Loop/Stream.antt =====
-- A message in any number of segments of TCP, each a packet of its own, through the whole of
-- `processPacket`.
use mathlib.Core.Path.{subst}
use nfsdump.Packet.Loop.Segments.{
  IsSegment, process_packet-tcp, with_table-IsRunning, buffer-IsLast,
}
use nfsdump.Packet.Loop.Udp.{ran_of}
use nfsdump.Packet.Loop.{exited, start, process_packet}
use nfsdump.Packet.Message.{rpc_message}
use nfsdump.Packet.Reassembly.Fits.{IsSound, AtMessage, IsFed, feed-IsFed}
use nfsdump.Packet.Reassembly.Holds.{Agree, IsInside}
use nfsdump.Packet.Reassembly.Many.{
  IsRecent, Holds, IsTimely, Continues, feed-begins, feed-extends, feed-finishes,
}
use nfsdump.Packet.Reassembly.Whole.{first_length, next_key, Begins}
use nfsdump.Packet.Reassembly.{
  Cursor, ready, waits, max_rpc_len, key_at, payload_length, skip_rpc_len,
}
use nfsdump.Packet.Record.Keeps.{IsRunning}
use nfsdump.Packet.Record.{Outside, World}
use nfsdump.Packet.{Segment, minus}
use nfsdump.Prelude.{ℕ, ◌+◌, ◌≤◌, ◌<◌, ◌≡◌, refl, none, List, [], ◌∷◌, add32}
use nfsdump.TcpTable.{Stream, TcpTable, tcp_lookup}

-- A captured packet, with the segment that is found in it.
pub record Piece : Type 0 where
  pub secs : ℕ
  pub usecs : ℕ
  pub byte : ℕ → ℕ
  pub tot_len : ℕ
  pub segment : Segment

module _ (out : Outside) where
  abbrev pub cursor_of : Piece → Cursor
  cursor_of p = start out p.secs p.usecs p.byte p.tot_len p.segment

  abbrev pub length_of : Piece → ℕ
  length_of p = payload_length p.segment (cursor_of p)

  abbrev pub key_after : Piece → Stream
  key_after p = key_at p.segment (add32 p.segment.seq (length_of p))

  abbrev pub IsWhole : Piece → Type 0
  IsWhole p = IsSegment out p.secs p.usecs p.byte p.tot_len p.segment

  -- The packets are taken one after the other, and nothing is printed for any.
  abbrev pub Silent : List Piece → (w w' : World) → Type 0
  Silent [] w w' = w ≡ w'
  Silent (p ∷ ps) w w' =
      (w₁ : World) × (process_packet out p.secs p.usecs p.byte p.tot_len w
        ≡ exited (minus 13) w₁ [])
      × Silent ps w₁ w'

  module _ (m : ℕ → ℕ) (size last : ℕ) where
    -- The packets have the segments from `k` on, with the bytes of `m` from `n` on; those of `q` are
    -- the last.
    abbrev pub AreParts : (k : Stream) (n : ℕ) → List Piece → (q : Piece) → Type 0
    AreParts k n [] q =
        IsWhole q
        × Continues m out.junk size last q.secs q.segment (cursor_of q) k n
        × (size ≤ n + length_of q)
    AreParts k n (p ∷ ps) q =
        IsWhole p
        × Continues m out.junk size last p.secs p.segment (cursor_of p) k n
        × (n + length_of p < size)
        × AreParts (key_after p) (n + length_of p) ps q

    -- `q` is decoded as the message, from a buffer that holds just its bytes, and ends with it.
    abbrev pub Delivers : (q : Piece) → World → Type 0
    Delivers q w =
        (c : Cursor) × (t : TcpTable) × (process_packet out q.secs q.usecs q.byte q.tot_len w
          ≡ ran_of (rpc_message out q.segment q.secs q.usecs 1 c (record w { tcp_table = t })))
        × (c.tot_len ≡ size)
        × (c.consumed ≡ 0)
        × Agree m c.byte size

    last-Delivers :
        (k : Stream) (n : ℕ) (q : Piece) (w : World)
        → IsRunning w
        → Holds m size last k n w.tcp_table
        → AreParts k n [] q
        → Delivers q w
    last-Delivers k n q w v held (segment, on, all) =
        let c₀ = cursor_of q in
        let (c, t, fed, len, at, whole) =
          feed-finishes m out.junk size last q.secs q.segment c₀ k n w.tcp_table held on all in
        let (message, sound) : AtMessage c₀ c × IsSound t =
          subst (IsFed c₀) fed (feed-IsFed out.junk q.secs q.segment c₀ w.tcp_table v.segments) in
        (
          c,
          t,
          process_packet-tcp out q.secs q.usecs q.byte q.tot_len q.segment w (ready c t) segment fed
              (buffer-IsLast out q.secs q.usecs q.segment c₀ c (record w { tcp_table = t }) message
                at (with_table-IsRunning out q.secs q.usecs w t v sound)),
          len,
          at,
          whole,
        )

    parts-Delivers :
        (k : Stream) (n : ℕ) (ps : List Piece) (q : Piece) (w : World)
        → IsRunning w
        → Holds m size last k n w.tcp_table
        → AreParts k n ps q
        → (t : TcpTable) × Silent ps w (record w { tcp_table = t })
          × IsRunning (record w { tcp_table = t })
          × Delivers q (record w { tcp_table = t })
    parts-Delivers k n [] q w v held parts =
        (w.tcp_table, refl, v, last-Delivers k n q w v held parts)
    parts-Delivers k n (p ∷ ps) q w v held (segment, on, more, parts) =
        let (t₁, fed, held₁) =
          feed-extends m out.junk size last p.secs p.segment (cursor_of p) k n w.tcp_table held on
            more in
        let w₁ = record w { tcp_table = t₁ } in
        let v₁ = with_table-IsRunning out p.secs p.usecs w t₁ v held₁.sound in
        let (t, silent, running, delivered) =
          parts-Delivers (key_after p) (n + length_of p) ps q w₁ v₁ held₁ parts in
        (
          t,
          (
            w₁,
            process_packet-tcp out p.secs p.usecs p.byte p.tot_len p.segment w (waits 13 t₁) segment
                fed v₁,
            silent,
          ),
          running,
          delivered,
        )

    -- The first packet has the message's length and its first bytes, but not all; no message waits for
    -- it, and none in the table is stale at the time `last`.
    pub record IsFirst (p : Piece) (w : World) : Type 0 where
      pub segment : IsWhole p
      pub recent : IsRecent last w.tcp_table
      pub timely : IsTimely m out.junk size last p.secs p.segment (cursor_of p)
      pub none_waits : (tcp_lookup p.secs (key_at p.segment p.segment.seq) w.tcp_table).0 ≡ none
      pub inside : IsInside m out.junk p.secs p.segment (skip_rpc_len (cursor_of p))
      pub begins : Begins m out.junk p.secs p.segment (cursor_of p)
      pub length : (skip_rpc_len (cursor_of p)).rpc_len ≡ size
      pub more : first_length m out.junk p.secs p.segment (cursor_of p) < size
      pub fits : size ≤ max_rpc_len

    -- A message of at most 16384 bytes in two segments of TCP or more, which are packets of their own,
    -- one after the other, at times from 30 seconds on, below 2 ^ 32, and in the 30 seconds up to a
    -- time at which no fragment of the table is stale; no message waits for the first: this is answered
    -- by -12 and each of those in the middle by -13, nothing is printed for these, and they leave the
    -- calls and the counters alone; the last is decoded as the message, from a buffer that holds just
    -- its bytes, and ends with it.
    pub process_packet-message :
        (p : Piece) (ps : List Piece) (q : Piece) (w : World)
        → IsRunning w
        → IsFirst p w
        → AreParts
            (next_key m out.junk p.secs p.segment (cursor_of p))
            (first_length m out.junk p.secs p.segment (cursor_of p))
            ps
            q
        → (t₁ : TcpTable) × (process_packet out p.secs p.usecs p.byte p.tot_len w
            ≡ exited (minus 12) (record w { tcp_table = t₁ }) [])
          × (t : TcpTable) × Silent ps (record w { tcp_table = t₁ }) (record w { tcp_table = t })
          × IsRunning (record w { tcp_table = t })
          × Delivers q (record w { tcp_table = t })
    process_packet-message p ps q w v first parts =
        let (t₁, fed, held) =
          feed-begins m out.junk size last p.secs p.segment (cursor_of p) w.tcp_table v.segments
            first.recent first.timely first.none_waits first.inside first.begins first.length
            first.more first.fits in
        let v₁ = with_table-IsRunning out p.secs p.usecs w t₁ v held.sound in
        let (t, silent, running, delivered) =
          parts-Delivers (next_key m out.junk p.secs p.segment (cursor_of p))
            (first_length m out.junk p.secs p.segment (cursor_of p)) ps q
            (record w { tcp_table = t₁ }) v₁ held parts in
        (
          t₁,
          process_packet-tcp out p.secs p.usecs p.byte p.tot_len p.segment w (waits 12 t₁)
              first.segment fed v₁,
          t,
          silent,
          running,
          delivered,
        )
