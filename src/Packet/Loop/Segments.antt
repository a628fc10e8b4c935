-- ===== src/Packet/Loop/Segments.antt =====
-- A message in two segments of TCP, each a packet of its own, through the whole of `processPacket`.
use mathlib.Core.Path.{subst}
use nfsdump.Packet.Loop.Ends.{IsRound-weaken}
use nfsdump.Packet.Loop.Udp.{IsLast, ran_of, rounds-end}
use nfsdump.Packet.Loop.{
  exited, fed_message, round, after_round, rounds, start, run_opened, process_packet,
}
use nfsdump.Packet.Message.Runs.{Moves, IsRound, rpc_message-IsRound}
use nfsdump.Packet.Message.{Round, again, exits, dies, rpc_message}
use nfsdump.Packet.Reassembly.Fits.{IsSound, AtMessage, IsFed, feed-IsFed}
use nfsdump.Packet.Reassembly.Holds.{Agree, IsInside}
use nfsdump.Packet.Reassembly.Whole.{first_length, next_key, Begins, feed-whole}
use nfsdump.Packet.Reassembly.{
  Cursor, Fed, ready, waits, max_rpc_len, key_at, payload_length, skip_rpc_len, feed,
}
use nfsdump.Packet.Record.Keeps.{IsRunning}
use nfsdump.Packet.Record.{Outside, World}
use nfsdump.Packet.{Segment, minus, opened, open_packet}
use nfsdump.Prelude.{
  ℕ, zero, suc, ◌+◌, ◌-◌, ◌^◌, ◌≤◌, ◌<◌, ◌≡◌, refl, ap, ◌∙◌, true, false, inl, inr, none, [], All,
  leb, arith,
}
use nfsdump.Table.View.{view}
use nfsdump.Table.{max_age}
use nfsdump.TcpTable.{TcpTable, tcp_keying, tcp_lookup}

not_done : (c : Cursor) → c.consumed < c.tot_len → leb c.tot_len c.consumed ≡ false
not_done c before = ground arith

-- A message that fills its buffer takes the cursor to the end of it.
buffer-Moves : (c c' c'' : Cursor) → AtMessage c c' → c'.consumed ≡ 0 → Moves c' c'' → IsLast c''
buffer-Moves c c' c'' (inl (same, at, len)) here moves = absurd (omega arith)
buffer-Moves c c' c'' (inr (at, len, limit)) here (same', inl end) = end
buffer-Moves c c' c'' (inr (at, len, limit)) here (same', inr on) = omega arith

module _ (out : Outside) (secs usecs : ℕ) where
  after_round-ends :
      (fuel : ℕ) (s : Segment) (cnt : ℕ) (r : Round)
      → IsRound IsLast r
      → after_round out secs usecs (λ c' w' t. rounds out secs usecs (suc fuel) s cnt c' w' t) [] r
        ≡ ran_of r
  after_round-ends fuel s cnt (again c' w' t) (last, v) =
      rounds-end out secs usecs fuel s cnt c' w' t last
  after_round-ends fuel s cnt (exits code w' t) v = refl
  after_round-ends fuel s cnt (dies fault) v = refl

  round-tcp :
      (s : Segment) (cnt : ℕ) (c : Cursor) (w : World) (fed : Fed)
      → s.tcp ≡ true
      → feed out.junk secs s c w.tcp_table ≡ fed
      → round out secs usecs s cnt c w ≡ fed_message out secs usecs s cnt w fed
  unfolding round
  round-tcp s cnt c w fed tcp same = simp tcp (ap (fed_message out secs usecs s cnt w) same)

  -- The first round, if it is the last.
  rounds-tcp :
      (fuel : ℕ) (s : Segment) (c : Cursor) (w : World) (fed : Fed)
      → 1 < fuel
      → s.tcp ≡ true
      → c.consumed < c.tot_len
      → feed out.junk secs s c w.tcp_table ≡ fed
      → IsRound IsLast (fed_message out secs usecs s 1 w fed)
      → rounds out secs usecs fuel s 0 c w [] ≡ ran_of (fed_message out secs usecs s 1 w fed)
  unfolding rounds
  rounds-tcp zero s c w fed two tcp before same last = absurd (omega arith)
  rounds-tcp (suc zero) s c w fed two tcp before same last = absurd (omega arith)
  rounds-tcp (suc (suc fuel)) s c w fed two tcp before same last =
      let more = not_done c before in
      rw (more, rounds, round-tcp s (0 + 1) c w fed tcp same)
        (after_round-ends fuel s 1 (fed_message out secs usecs s 1 w fed) last)

  -- A segment of TCP at the place where its message begins or goes on.
  pub record IsSegment (byte : ℕ → ℕ) (tot_len : ℕ) (s : Segment) : Type 0 where
    pub taken : open_packet byte tot_len ≡ opened s
    pub tcp : s.tcp ≡ true
    pub room : s.e_len + s.i_len + s.h_len < tot_len

  pub process_packet-tcp :
      (byte : ℕ → ℕ) (tot_len : ℕ) (s : Segment) (w : World) (fed : Fed)
      → IsSegment byte tot_len s
      → feed out.junk secs s (start out secs usecs byte tot_len s) w.tcp_table ≡ fed
      → IsRound IsLast (fed_message out secs usecs s 1 w fed)
      → process_packet out secs usecs byte tot_len w ≡ ran_of (fed_message out secs usecs s 1 w fed)
  unfolding process_packet
  process_packet-tcp byte tot_len s w fed is same last =
      ap (run_opened out secs usecs byte tot_len w) is.taken
      ∙ rounds-tcp (tot_len + 2) s (start out secs usecs byte tot_len s) w fed (omega arith) is.tcp
          is.room same last

  pub with_table-IsRunning :
      (w : World) (t : TcpTable) → IsRunning w → IsSound t → IsRunning (record w { tcp_table = t })
  with_table-IsRunning w t v sound = record {
    calls = v.calls;
    segments = sound;
    calls2_add = v.calls2_add;
    resps2_add = v.resps2_add;
  }

  -- A whole buffer is the last message.
  pub buffer-IsLast :
      (s : Segment) (c c'' : Cursor) (w : World)
      → AtMessage c c''
      → c''.consumed ≡ 0
      → IsRunning w
      → IsRound IsLast (rpc_message out s secs usecs 1 c'' w)
  buffer-IsLast s c c'' w at here v =
      IsRound-weaken {P = Moves c''} (λ c' moves. buffer-Moves c c'' c' at here moves)
        (rpc_message out s secs usecs 1 c'' w) (rpc_message-IsRound out s secs usecs 1 c'' w v)

module _ (out : Outside) (m : ℕ → ℕ) (secs usecs : ℕ) (byte : ℕ → ℕ) (tot_len : ℕ) (s : Segment)
    (secs' usecs' : ℕ) (byte' : ℕ → ℕ) (tot_len' : ℕ) (s' : Segment) where
  abbrev pub first_start : Cursor
  first_start = start out secs usecs byte tot_len s

  abbrev pub second_start : Cursor
  second_start = start out secs' usecs' byte' tot_len' s'

  -- The length of the message, and of its part in the first packet.
  abbrev pub message_length : ℕ
  message_length = (skip_rpc_len first_start).rpc_len

  abbrev pub part : ℕ
  part = first_length m out.junk secs s first_start

  -- Two packets with segments of TCP, one after the other, that hold the message `m` and nothing in
  -- front of it, when the table of unfinished messages is `t`: no message waits for the first, and
  -- no stale one for the second.
  pub record AreHalves (t : TcpTable) : Type 0 where
    pub first : IsSegment out secs usecs byte tot_len s
    pub second : IsSegment out secs' usecs' byte' tot_len' s'
    pub none_waits : (tcp_lookup secs (key_at s s.seq) t).0 ≡ none
    pub fresh :
        All
          (λ f. secs - max_age ≤ f.time)
          (view tcp_keying
            (tcp_lookup secs (key_at s s.seq) t).1
            (next_key m out.junk secs s first_start))
    pub inside : IsInside m out.junk secs s (skip_rpc_len first_start)
    pub begins : Begins m out.junk secs s first_start
    pub more : part < message_length
    pub fits : message_length ≤ max_rpc_len
    pub next : key_at s' s'.seq ≡ next_key m out.junk secs s first_start
    pub inside' : IsInside m out.junk secs' s' second_start
    pub goes_on :
        (j : ℕ)
        → j < payload_length s' second_start
        → byte' (second_start.consumed + j) ≡ m (part + j)
    pub all : message_length ≤ part + payload_length s' second_start

  -- A message of at most 16384 bytes in two segments of TCP, which are packets of their own, one after
  -- the other, the first at a time from 30 seconds on and below 2 ^ 32: the first is answered by -12;
  -- the second is decoded as the message, from a buffer that holds just its bytes, and ends with it.
  pub process_packet-segments :
      (w : World)
      → AreHalves w.tcp_table
      → IsRunning w
      → max_age ≤ secs
      → secs < 2 ^ 32
      → (w₁ : World) × (process_packet out secs usecs byte tot_len w ≡ exited (minus 12) w₁ [])
        × IsRunning w₁
        × (c : Cursor) × (t : TcpTable) × (process_packet out secs' usecs' byte' tot_len' w₁
            ≡ ran_of (rpc_message out s' secs' usecs' 1 c (record w₁ { tcp_table = t })))
        × (c.tot_len ≡ message_length)
        × (c.consumed ≡ 0)
        × Agree m c.byte message_length
  process_packet-segments w halves v lo hi =
      let (t₁, first, c, t₂, second, len, at, whole) =
        feed-whole m out.junk secs s first_start secs' s' second_start w.tcp_table v.segments lo hi
          halves.none_waits halves.fresh halves.inside halves.begins halves.more halves.fits
          halves.next halves.inside' halves.goes_on halves.all in
      let sound₁ : IsSound t₁ =
        subst (IsFed first_start) first
          (feed-IsFed out.junk secs s first_start w.tcp_table v.segments) in
      let (message, sound₂) : AtMessage second_start c × IsSound t₂ =
        subst (IsFed second_start) second (feed-IsFed out.junk secs' s' second_start t₁ sound₁) in
      let w₁ = record w { tcp_table = t₁ } in
      let v₁ = with_table-IsRunning out secs usecs w t₁ v sound₁ in
      (
        w₁,
        process_packet-tcp out secs usecs byte tot_len s w (waits 12 t₁) halves.first first v₁,
        v₁,
        c,
        t₂,
        process_packet-tcp out secs' usecs' byte' tot_len' s' w₁ (ready c t₂) halves.second second (
            buffer-IsLast out secs' usecs' s' second_start c (record w₁ { tcp_table = t₂ }) message
              at (with_table-IsRunning out secs' usecs' w₁ t₂ v₁ sound₂)),
        len,
        at,
        whole,
      )
