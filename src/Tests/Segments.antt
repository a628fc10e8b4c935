-- ===== src/Tests/Segments.antt =====
-- Segments of TCP.
use nfsdump.Packet.Loop.{exited, process_packet}
use nfsdump.Packet.Reassembly.Fits.{IsPartial, IsSound, IsFed, feed-IsFed, feed-Fits, feed-overruns}
use nfsdump.Packet.Loop.Stream.{
  Piece, cursor_of, Silent, AreParts, Delivers, IsFirst, process_packet-message,
}
use nfsdump.Packet.Reassembly.Whole.{next_key}
use nfsdump.Packet.Reassembly.{Cursor, broken, feed}
use nfsdump.Packet.Record.Keeps.{IsRunning}
use nfsdump.Packet.{Segment, overrun, minus, open_packet}
use nfsdump.Prelude.{
  ℕ, ◌+◌, ◌-◌, ◌%◌, ◌≡◌, ◌≢◌, refl, true, [], ◌∷◌, keep, leb, ◌==◌, if◌then◌else◌, arith,
}
use nfsdump.Table.Chain.{unlink}
use nfsdump.Table.Each.{push-Each}
use nfsdump.Table.Keep.{empty-IsValid, push-IsValid}
use nfsdump.Table.View.{view}
use nfsdump.Table.{empty, push, lookup}
use nfsdump.TcpTable.{Fragment, TcpTable, tcp_keying, tcp_lookup, new_fragment}
use nfsdump.Tests.Setting.{outside, idle, idle-IsRunning}

-- The first segment of a message of 1000 bytes, with 600 of them, and the second, with the rest.
abbrev message : ℕ → ℕ
message i = i % 256

abbrev segment : (length seq : ℕ) → Segment
segment length seq = record {
  tcp = true;
  length = length;
  e_len = 14;
  i_len = 20;
  h_len = 20;
  src_host = 1;
  dst_host = 2;
  src_port = 40000;
  dst_port = 2049;
  seq = seq;
}

abbrev cursor : (ℕ → ℕ) → (tot_len : ℕ) → Cursor
cursor byte tot_len = record {
  byte = byte;
  tot_len = tot_len;
  e_len = 14;
  i_len = 20;
  h_len = 20;
  consumed = 54;
  rpc_len = tot_len - 54;
}

abbrev first_bytes : ℕ → ℕ
first_bytes i =
    if i == 54
    then 128
    else if i == 55
    then 0
    else if i == 56
    then 3
    else if i == 57
    then 232
    else message (i - 58)

abbrev second_bytes : ℕ → ℕ
second_bytes i = message (600 + (i - 54))

-- The table between the two segments.
abbrev half : Fragment
half =
    new_fragment 100
      (record { seq = 1604; src_host = 1; src_port = 40000; dst_host = 2; dst_port = 2049 }) message
      1000 1004

abbrev unfinished : TcpTable
unfinished = push tcp_keying half empty

unfinished-IsSound : IsSound unfinished
unfinished-IsSound = record {
  valid = push-IsValid tcp_keying half empty (empty-IsValid tcp_keying);
  partial =
      push-Each tcp_keying IsPartial half empty
        (record { limited = omega arith; based = omega arith; unfinished = omega arith }) (λ i. tt);
}

feed-IsFed_example :
    IsFed
      (cursor second_bytes 454)
      (feed (λ i. 0xa5) 101 (segment 440 1604) (cursor second_bytes 454) unfinished)
feed-IsFed_example =
    feed-IsFed (λ i. 0xa5) 101 (segment 440 1604) (cursor second_bytes 454) unfinished
      unfinished-IsSound

feed-Fits_example :
    feed (λ i. 0xa5) 101 (segment 440 1604) (cursor second_bytes 454) unfinished ≢ broken overrun
feed-Fits_example =
    feed-Fits (λ i. 0xa5) 101 (segment 440 1604) (cursor second_bytes 454) unfinished
      unfinished-IsSound (omega arith) (omega arith)

-- An IP length of 30, with 40 bytes of headers.
feed-overruns_example :
    feed (λ i. 0xa5) 101 (segment 30 1604) (cursor second_bytes 454) unfinished ≡ broken overrun
unfolding tcp_lookup tcp_keying lookup unlink push
feed-overruns_example =
    feed-overruns (λ i. 0xa5) 101 (segment 30 1604) (cursor second_bytes 454) unfinished half
      unfinished-IsSound refl (omega arith) (omega arith) (omega arith)

-- The headers of a segment of TCP, with the low halves of its IP length and sequence number.
abbrev tcp_headers : (length_hi length_lo seq_hi seq_lo : ℕ) → ℕ → ℕ
tcp_headers length_hi length_lo seq_hi seq_lo i =
    if i == 12
    then 8
    else if i == 14
    then 0x45
    else if i == 16
    then length_hi
    else if i == 17
    then length_lo
    else if i == 23
    then 6
    else if i == 29
    then 1
    else if i == 33
    then 2
    else if i == 34
    then 156
    else if i == 35
    then 64
    else if i == 36
    then 8
    else if i == 37
    then 1
    else if i == 40
    then seq_hi
    else if i == 41
    then seq_lo
    else if i == 46
    then 0x50
    else 0

abbrev first_packet : ℕ → ℕ
first_packet i = if leb 54 i then first_bytes i else tcp_headers 2 132 3 232 i

-- The segments of 250 and of 150 bytes that come then.
abbrev middle_packet : ℕ → ℕ
middle_packet i = if leb 54 i then second_bytes i else tcp_headers 1 34 6 68 i

abbrev last_packet : ℕ → ℕ
last_packet i = if leb 54 i then message (850 + (i - 54)) else tcp_headers 0 190 7 62 i

abbrev piece : (secs : ℕ) → (ℕ → ℕ) → (tot_len : ℕ) → Segment → Piece
piece secs byte tot_len s = record {
  secs = secs;
  usecs = 0;
  byte = byte;
  tot_len = tot_len;
  segment = s;
}

abbrev first : Piece
first = piece 100 first_packet 658 (segment 644 1000)

abbrev middle : Piece
middle = piece 101 middle_packet 304 (segment 290 1604)

abbrev last : Piece
last = piece 102 last_packet 204 (segment 190 1854)

first-IsFirst : IsFirst outside message 1000 102 first idle
unfolding open_packet tcp_lookup tcp_keying lookup view unlink keep
first-IsFirst = record {
  segment = record { taken = refl; tcp = refl; room = omega arith };
  recent = λ i. tt;
  timely = record {
    old_enough = omega arith;
    now_u32 = omega arith;
    before = omega arith;
    young = omega arith;
  };
  none_waits = refl;
  inside = (omega arith, omega arith);
  begins = λ j h. ground arith;
  length = refl;
  more = omega arith;
  fits = omega arith;
}

parts :
    AreParts outside message 1000 102
      (next_key message outside.junk 100 (segment 644 1000) (cursor_of outside first))
      600
      (middle ∷ [])
      last
unfolding open_packet
parts = (
  record { taken = refl; tcp = refl; room = omega arith },
  record {
    timely = record {
      old_enough = omega arith;
      now_u32 = omega arith;
      before = omega arith;
      young = omega arith;
    };
    place = refl;
    inside = (omega arith, omega arith);
    goes_on = λ j h. ground arith;
  },
  omega arith,
  (
    record { taken = refl; tcp = refl; room = omega arith },
    record {
      timely = record {
        old_enough = omega arith;
        now_u32 = omega arith;
        before = omega arith;
        young = omega arith;
      };
      place = refl;
      inside = (omega arith, omega arith);
      goes_on = λ j h. ground arith;
    },
    omega arith,
  ),
)

process_packet-message_example :
    (t₁ : TcpTable) × (process_packet outside 100 0 first_packet 658 idle
      ≡ exited (minus 12) (record idle { tcp_table = t₁ }) [])
    × (t : TcpTable) × Silent outside
        (middle ∷ [])
        (record idle { tcp_table = t₁ })
        (record idle { tcp_table = t })
    × IsRunning (record idle { tcp_table = t })
    × Delivers outside message 1000 102 last (record idle { tcp_table = t })
process_packet-message_example =
    process_packet-message outside message 1000 102 first (middle ∷ []) last idle idle-IsRunning
      first-IsFirst parts
