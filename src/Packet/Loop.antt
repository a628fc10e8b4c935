-- ===== src/Packet/Loop.antt =====
-- The loop of `processPacket` of nfsdump2/nfsrecord.c, and the whole function.
pub mod Ends
pub mod Udp
pub mod Segments
pub mod Stream
pub mod Pair
use nfsdump.Packet.Message.{Round, again, exits, dies, rpc_message}
use nfsdump.Packet.Reassembly.{Cursor, Fed, ready, waits, broken, feed}
use nfsdump.Packet.Record.{Outside, World}
use nfsdump.Packet.{Segment, Code, interesting, minus, Fault, Opened, closed, opened, open_packet}
use nfsdump.Prelude.{ℕ, zero, suc, ◌+◌, ◌-◌, true, false, List, [], ◌++◌, leb, if◌then◌else◌}
use nfsdump.Print.{Item}

-- How a packet ends: with the result of `processPacket`, or with the process. The loop has fuel.
pub data Ran : Type 0 where
  exited : Code → World → List Item → Ran
  died : Fault → Ran
  out_of_fuel : Ran

module _ (out : Outside) (secs usecs : ℕ) where
  abbrev pub fed_message : Segment → (cnt : ℕ) → World → Fed → Round
  fed_message s cnt w (ready c t) = rpc_message out s secs usecs cnt c (record w { tcp_table = t })
  fed_message s cnt w (waits code t) = exits (minus code) (record w { tcp_table = t }) []
  fed_message s cnt w (broken fault) = dies fault

  -- A round of the loop.
  unfoldable pub round : Segment → (cnt : ℕ) → Cursor → World → Round
  unfolding feed rpc_message
  round s cnt c w =
      if s.tcp
      then fed_message s cnt w (feed out.junk secs s c w.tcp_table)
      else rpc_message out s secs usecs cnt c w

  -- `go_on` is the loop from its next round on.
  abbrev pub after_round : (go_on : Cursor → World → List Item → Ran) → List Item → Round → Ran
  after_round go_on text (again c w t) = go_on c w (text ++ t)
  after_round go_on text (exits code w t) = exited code w (text ++ t)
  after_round go_on text (dies fault) = died fault

  unfoldable pub rounds : (fuel : ℕ) → Segment → (cnt : ℕ) → Cursor → World → List Item → Ran
  unfolding round
  rounds zero s cnt c w text = out_of_fuel
  rounds (suc fuel) s cnt c w text = elim (leb c.tot_len c.consumed) [
    | true ↦ exited interesting w text
    | false ↦ after_round (λ c' w' t. rounds fuel s (cnt + 1) c' w' t) text (round s (cnt + 1) c w)
  ]

  -- The cursor that the headers leave. Only UDP has an `rpc_len` then.
  abbrev pub start : (byte : ℕ → ℕ) (tot_len : ℕ) → Segment → Cursor
  start byte tot_len s =
      let consumed = s.e_len + s.i_len + s.h_len in
      record {
        byte = byte;
        tot_len = tot_len;
        e_len = s.e_len;
        i_len = s.i_len;
        h_len = s.h_len;
        consumed = consumed;
        rpc_len = tot_len - consumed;
      }

  abbrev pub run_opened : (byte : ℕ → ℕ) (tot_len : ℕ) → World → Opened → Ran
  run_opened byte tot_len w (closed code) = exited code w []
  run_opened byte tot_len w (opened s) = rounds (tot_len + 2) s 0 (start byte tot_len s) w []

  unfoldable pub process_packet : (byte : ℕ → ℕ) (tot_len : ℕ) → World → Ran
  unfolding rounds open_packet
  process_packet byte tot_len w = run_opened byte tot_len w (open_packet byte tot_len)
