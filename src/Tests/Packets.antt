-- ===== src/Tests/Packets.antt =====
-- Datagrams of UDP.
use nfsdump.Packet.Loop.{start}
use nfsdump.Rpc.{Header, get_rpc_header}
use nfsdump.Frame.{be32}
use nfsdump.Packet.Message.{words_at}
use nfsdump.Packet.Reassembly.{Cursor}
use nfsdump.Packet.Record.{World}
use nfsdump.Packet.{Segment, shift}
use nfsdump.Prelude.{ℕ, ◌-◌, ◌*◌, ◌/◌, ◌%◌, ◌^◌, false, leb, ◌==◌, if◌then◌else◌}
use nfsdump.Table.{push}
use nfsdump.Tests.Headers.{a_call}
use nfsdump.Tests.Setting.{outside, idle}
use nfsdump.XidTable.{Call, xid_keying, new_call}

-- A call of version 2, GETATTR, in UDP, with 32 bytes of payload.
abbrev getattr_call : ℕ → ℕ
getattr_call i = if i == 4 then 2 else if i == 5 then 1 else a_call i

abbrev pub udp_packet : ℕ → ℕ
udp_packet i =
    if leb 42 i
    then getattr_call ((i - 42) / 4) / 2 ^ (8 * (3 - (i - 42) % 4)) % 256
    else if i == 12
    then 8
    else if i == 14
    then 0x45
    else if i == 17
    then 124
    else if i == 23
    then 17
    else if i == 29
    then 1
    else if i == 33
    then 2
    else if i == 35
    then 200
    else if i == 36
    then 8
    else if i == 37
    then 1
    else 0

-- The reply goes the other way: an accepted GETATTR with its status and 40 bytes of results.
abbrev a_reply : ℕ → ℕ
a_reply i = if i == 1 then 1 else 0

abbrev reply_packet : ℕ → ℕ
reply_packet i =
    if leb 42 i
    then a_reply ((i - 42) / 4) / 2 ^ (8 * (3 - (i - 42) % 4)) % 256
    else if i == 12
    then 8
    else if i == 14
    then 0x45
    else if i == 17
    then 96
    else if i == 23
    then 17
    else if i == 29
    then 2
    else if i == 33
    then 1
    else if i == 34
    then 8
    else if i == 35
    then 1
    else if i == 37
    then 200
    else 0

abbrev call_segment : Segment
call_segment = record {
  tcp = false;
  length = 124;
  e_len = 14;
  i_len = 20;
  h_len = 8;
  src_host = 1;
  dst_host = 2;
  src_port = 200;
  dst_port = 2049;
  seq = be32 (shift 34 udp_packet) 4;
}

abbrev reply_segment : Segment
reply_segment = record {
  tcp = false;
  length = 96;
  e_len = 14;
  i_len = 20;
  h_len = 8;
  src_host = 2;
  dst_host = 1;
  src_port = 2049;
  dst_port = 200;
  seq = be32 (shift 34 reply_packet) 4;
}

abbrev call_start : Cursor
call_start = start outside 100 0 udp_packet 138 call_segment

abbrev reply_start : Cursor
reply_start = start outside 101 0 reply_packet 110 reply_segment

abbrev parsed_call : Header
parsed_call = (get_rpc_header (words_at call_start) 96).1

abbrev parsed_reply : Header
parsed_reply = (get_rpc_header (words_at reply_start) 68).1

-- The call of the reply, outstanding.
abbrev outstanding : Call
outstanding = new_call 100 (words_at reply_start 0) 1 200 2 1

abbrev asked : World
asked = record idle { xid_table = push xid_keying outstanding idle.xid_table }
