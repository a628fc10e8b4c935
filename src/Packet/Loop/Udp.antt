-- ===== src/Packet/Loop/Udp.antt =====
-- A call and its reply, each in a datagram of UDP, from packet to packet.
use nfsdump.Packet.Loop.Ends.{InLoop, Moves-end}
use nfsdump.Packet.Loop.{
  Ran, exited, died, round, after_round, rounds, start, run_opened, process_packet,
}
use nfsdump.Packet.Message.Runs.{Moves, IsRound, rpc_message-IsRound}
use nfsdump.Packet.Message.{
  Round, again, exits, dies, words_at, call_message, reply_message, after_header, dispatch,
  with_text, rpc_message,
}
use nfsdump.Packet.Reassembly.{Cursor}
use nfsdump.Packet.Record.Keeps.{IsRunning}
use nfsdump.Packet.Record.{Outside, World}
use nfsdump.Packet.{Segment, interesting, opened, open_packet}
use nfsdump.Prelude.{
  ℕ, zero, suc, ◌+◌, ◌^◌, ◌≤◌, ◌<◌, ◌≡◌, refl, ap, ◌∙◌, true, false, inl, inr, Option, some, List,
  [], leb, ◌==◌, arith, add32, sub32,
}
use nfsdump.Print.{Item}
use nfsdump.Rpc.{Header, get_rpc_header}

-- How the loop ends where a round was its last.
abbrev pub ran_of : Round → Ran
ran_of (again c w text) = exited interesting w text
ran_of (exits code w text) = exited code w text
ran_of (dies fault) = died fault

-- The round has come to the end of the packet.
abbrev pub IsLast : Cursor → Type 0
IsLast c = c.tot_len ≤ c.consumed

module _ (out : Outside) (secs usecs : ℕ) where
  pub rounds-end :
      (fuel : ℕ) (s : Segment) (cnt : ℕ) (c : Cursor) (w : World) (text : List Item)
      → IsLast c
      → rounds out secs usecs (suc fuel) s cnt c w text ≡ exited interesting w text
  unfolding rounds
  rounds-end fuel s cnt c w text last =
      let done : leb c.tot_len c.consumed ≡ true = ground arith in rw (done, rounds) refl

  after_round-last :
      (fuel : ℕ) (s : Segment) (cnt : ℕ) (c : Cursor) (r : Round)
      → s.tcp ≡ false
      → InLoop s c
      → c.consumed < c.tot_len
      → IsRound (Moves c) r
      → after_round out secs usecs (λ c' w' t. rounds out secs usecs (suc fuel) s cnt c' w' t) [] r
        ≡ ran_of r
  after_round-last fuel s cnt c (again c' w' t) udp inside before (moves, v) =
      rounds-end fuel s cnt c' w' t (Moves-end out secs usecs s c c' inside before udp moves)
  after_round-last fuel s cnt c (exits code w' t) udp inside before v = refl
  after_round-last fuel s cnt c (dies fault) udp inside before v = refl

  round-udp :
      (s : Segment) (cnt : ℕ) (c : Cursor) (w : World)
      → s.tcp ≡ false
      → round out secs usecs s cnt c w ≡ rpc_message out s secs usecs cnt c w
  unfolding round
  round-udp s cnt c w udp = simp udp refl

  rounds-udp :
      (fuel : ℕ) (s : Segment) (c : Cursor) (w : World)
      → 1 < fuel
      → s.tcp ≡ false
      → InLoop s c
      → c.consumed < c.tot_len
      → IsRunning w
      → rounds out secs usecs fuel s 0 c w [] ≡ ran_of (rpc_message out s secs usecs 1 c w)
  unfolding rounds
  rounds-udp zero s c w two udp inside before v = absurd (omega arith)
  rounds-udp (suc zero) s c w two udp inside before v = absurd (omega arith)
  rounds-udp (suc (suc fuel)) s c w two udp inside before v =
      let more : leb c.tot_len c.consumed ≡ false = ground arith in
      rw (more, rounds, round-udp s (0 + 1) c w udp)
        (after_round-last fuel s 1 c (rpc_message out s secs usecs 1 c w) udp inside before
          (rpc_message-IsRound out s secs usecs 1 c w v))

  -- The cursor at the header of a datagram.
  abbrev datagram : (byte : ℕ → ℕ) (tot_len : ℕ) → Segment → Cursor
  datagram byte tot_len s = start out secs usecs byte tot_len s

  process_packet-udp :
      (byte : ℕ → ℕ) (tot_len : ℕ) (s : Segment) (w : World)
      → open_packet byte tot_len ≡ opened s
      → s.tcp ≡ false
      → s.e_len + s.i_len + s.h_len < tot_len
      → tot_len < 2 ^ 30
      → IsRunning w
      → process_packet out secs usecs byte tot_len w
        ≡ ran_of (rpc_message out s secs usecs 1 (datagram byte tot_len s) w)
  unfolding process_packet
  process_packet-udp byte tot_len s w taken udp room short v =
      ap (run_opened out secs usecs byte tot_len w) taken
      ∙ rounds-udp (tot_len + 2) s (datagram byte tot_len s) w (omega arith) udp
          (record { short = short; rest = inr (inl (omega arith)) }) room v

  -- Past a header of `rh_len` bytes.
  abbrev past : Cursor → (rh_len : ℕ) → Cursor
  past c rh_len = record c { consumed = add32 c.consumed rh_len }

  after_header-call :
      (s : Segment) (word : ℕ → ℕ) (c : Cursor) (rh_len : ℕ) (ids : Option (ℕ × ℕ)) (w : World)
      → (past c rh_len).consumed < c.tot_len
      → after_header out s secs usecs 1 0 word c rh_len ids w
        ≡ call_message out s secs usecs 1 word (past c rh_len) rh_len ids w
  unfolding after_header
  after_header-call s word c rh_len ids w before =
      let going : ((past c rh_len).consumed == c.tot_len) ≡ false = ground arith in
      let left : leb c.tot_len (past c rh_len).consumed ≡ false = ground arith in
      rw (going, left) refl

  after_header-reply :
      (s : Segment) (word : ℕ → ℕ) (c : Cursor) (rh_len : ℕ) (ids : Option (ℕ × ℕ)) (w : World)
      → (past c rh_len).consumed < c.tot_len
      → after_header out s secs usecs 1 1 word c rh_len ids w
        ≡ reply_message out s secs usecs 1 word (past c rh_len) rh_len ids w
  unfolding after_header
  after_header-reply s word c rh_len ids w before =
      let going : ((past c rh_len).consumed == c.tot_len) ≡ false = ground arith in
      let left : leb c.tot_len (past c rh_len).consumed ≡ false = ground arith in
      rw (going, left) refl

  -- A header that is accepted.
  rpc_message-header :
      (s : Segment) (dir : ℕ) (h : Header) (c : Cursor) (rh_len : ℕ) (w : World)
      → get_rpc_header (words_at c) (sub32 c.tot_len c.consumed) ≡ (dir, h)
      → h.result ≡ some rh_len
      → 0 < rh_len
      → rh_len < 2 ^ 31
      → rpc_message out s secs usecs 1 c w
        ≡ with_text out s secs usecs h.text
            (after_header out s secs usecs 1 dir (words_at c) c rh_len h.ids w)
  unfolding rpc_message dispatch
  rpc_message-header s dir h c rh_len w parsed accepted some_len small =
      let not_zero : (rh_len == 0) ≡ false = ground arith in
      let positive : leb (2 ^ 31) rh_len ≡ false = ground arith in
      rw (parsed, accepted, not_zero, positive) refl

-- A datagram with one RPC message, whose header is accepted and is followed by a payload: `dir` is 0
-- for a call and 1 for a reply.
pub record IsMessage (out : Outside) (secs usecs : ℕ) (byte : ℕ → ℕ) (tot_len dir : ℕ) (s : Segment)
    (h : Header) (rh_len : ℕ) : Type 0 where
  pub taken : open_packet byte tot_len ≡ opened s
  pub udp : s.tcp ≡ false
  pub room : s.e_len + s.i_len + s.h_len < tot_len
  pub short : tot_len < 2 ^ 30
  pub parsed :
      get_rpc_header
        (words_at (start out secs usecs byte tot_len s))
        (sub32 tot_len (s.e_len + s.i_len + s.h_len))
      ≡ (dir, h)
  pub accepted : h.result ≡ some rh_len
  pub some_len : 0 < rh_len
  pub small : rh_len < 2 ^ 31
  pub payload : add32 (s.e_len + s.i_len + s.h_len) rh_len < tot_len

module _ (out : Outside) (secs usecs : ℕ) (byte : ℕ → ℕ) (tot_len : ℕ) (s : Segment) (h : Header)
    (rh_len : ℕ) where
  abbrev pub header_at : Cursor
  header_at = start out secs usecs byte tot_len s

  abbrev pub payload_at : Cursor
  payload_at = past out secs usecs header_at rh_len

  pub process_packet-call :
      (w : World)
      → IsMessage out secs usecs byte tot_len 0 s h rh_len
      → IsRunning w
      → process_packet out secs usecs byte tot_len w
        ≡ ran_of (
            with_text out s secs usecs h.text
              (call_message out s secs usecs 1 (words_at header_at) payload_at rh_len h.ids w))
  process_packet-call w is v =
      process_packet-udp out secs usecs byte tot_len s w is.taken is.udp is.room is.short v
      ∙ ap ran_of (
          rpc_message-header out secs usecs s 0 h header_at rh_len w is.parsed is.accepted
            is.some_len is.small
          ∙ ap (with_text out s secs usecs h.text) (
              after_header-call out secs usecs s (words_at header_at) header_at rh_len h.ids w
                is.payload))

  pub process_packet-reply :
      (w : World)
      → IsMessage out secs usecs byte tot_len 1 s h rh_len
      → IsRunning w
      → process_packet out secs usecs byte tot_len w
        ≡ ran_of (
            with_text out s secs usecs h.text
              (reply_message out s secs usecs 1 (words_at header_at) payload_at rh_len h.ids w))
  process_packet-reply w is v =
      process_packet-udp out secs usecs byte tot_len s w is.taken is.udp is.room is.short v
      ∙ ap ran_of (
          rpc_message-header out secs usecs s 1 h header_at rh_len w is.parsed is.accepted
            is.some_len is.small
          ∙ ap (with_text out s secs usecs h.text) (
              after_header-reply out secs usecs s (words_at header_at) header_at rh_len h.ids w
                is.payload))
