-- ===== src/Packet/Reassembly.antt =====
-- The part of the loop of `processPacket`, nfsdump2/nfsrecord.c, that finds an RPC message in the
-- segments of TCP. A segment that does not end its message leaves it in the table of nfsdump2/
-- tcp_reassembly.c, with the bytes so far, and the process goes on to the next packet.
pub mod Fits
pub mod Holds
pub mod Many
pub mod Whole
use nfsdump.Frame.{be32}
use nfsdump.Packet.{Segment, Fault, assertion, overrun}
use nfsdump.Prelude.{
  ℕ, ◌+◌, ◌-◌, ◌%◌, ◌^◌, ◌&&◌, Option, none, some, leb, ltb, ◌==◌, if◌then◌else◌, add32, sub32,
}
use nfsdump.TcpTable.{Fragment, Stream, TcpTable, tcp_lookup, tcp_insert}

-- The variables of the loop: the bytes that `pp` points to, with `tot_len`, the sizes of the
-- headers in front, `consumed`, and `rpc_len`.
pub record Cursor : Type 0 where
  pub byte : ℕ → ℕ
  pub tot_len : ℕ
  pub e_len : ℕ
  pub i_len : ℕ
  pub h_len : ℕ
  pub consumed : ℕ
  pub rpc_len : ℕ

-- `memcpy (dst + off, src + from, n)`
abbrev pub copy : (dst : ℕ → ℕ) (off n : ℕ) (src : ℕ → ℕ) (from : ℕ) → ℕ → ℕ
copy dst off n src from i = if leb off i && ltb i (off + n) then src (from + (i - off)) else dst i

-- A message begins at the cursor; or the packet is done with, at the return of a negative number;
-- or the process dies.
pub data Fed : Type 0 where
  ready : Cursor → TcpTable → Fed
  waits : ℕ → TcpTable → Fed
  broken : Fault → Fed

-- The longest message that is put together.
abbrev pub max_rpc_len : ℕ
max_rpc_len = 16384

abbrev pub waiting : ℕ → Option TcpTable → Fed
waiting code none = broken assertion
waiting code (some t) = waits code t

-- Past the length field. It is added to `h_len` as well.
abbrev pub skip_rpc_len : Cursor → Cursor
skip_rpc_len c = record c {
  rpc_len = be32 c.byte c.consumed % 2 ^ 31;
  h_len = c.h_len + 4;
  consumed = c.consumed + 4;
}

module _ (s : Segment) where
  abbrev pub key_at : ℕ → Stream
  key_at seq = record {
    seq = seq;
    src_host = s.src_host;
    src_port = s.src_port;
    dst_host = s.dst_host;
    dst_port = s.dst_port;
  }

  -- `tcpPayloadLength`, a `size_t` of 32 bits
  abbrev pub payload_length : Cursor → ℕ
  payload_length c = sub32 (sub32 s.length c.i_len) c.h_len

  -- Where in the buffer the segment's bytes begin and end, and how many are copied.
  abbrev pub first_offset : Fragment → ℕ
  first_offset f = sub32 s.seq f.first_seq

  abbrev pub last_offset : Cursor → Fragment → ℕ
  last_offset c f =
      let last = add32 (first_offset f) (payload_length c) in
      if ltb f.rpc_len last then f.rpc_len else last

  abbrev pub copied : Cursor → Fragment → ℕ
  copied c f = sub32 (last_offset c f) (first_offset f)

  abbrev pub filled : Cursor → Fragment → ℕ → ℕ
  filled c f = copy f.buffer (first_offset f) (copied c f) c.byte c.consumed

-- `junk` is what `malloc` leaves in a buffer.
module _ (junk : ℕ → ℕ) (now : ℕ) (s : Segment) where
  unfoldable pub first_segment : Cursor → TcpTable → Fed
  first_segment c t =
      let c' = skip_rpc_len c in
      let n = payload_length s c' in
      if leb c'.rpc_len n
      then ready c' t
      else if ltb max_rpc_len c'.rpc_len
      then waits 11 t
      else waiting 12 (
          tcp_insert now (key_at s (add32 (add32 s.seq 4) n)) (copy junk 0 n c.byte c'.consumed)
            c'.rpc_len (add32 s.seq 4) t)

  -- The buffer has `rpc_len` bytes. With the last of them the message is read from the buffer.
  unfoldable pub later_segment : Cursor → Fragment → TcpTable → Fed
  later_segment c f t =
      if ltb f.rpc_len (first_offset s f + copied s c f)
      then broken overrun
      else if last_offset s c f == f.rpc_len
      then ready
          (record {
            byte = filled s c f;
            tot_len = f.rpc_len;
            e_len = 0;
            i_len = 0;
            h_len = 0;
            consumed = 0;
            rpc_len = f.rpc_len;
          })
          t
      else waiting 13 (
          tcp_insert now (key_at s (add32 s.seq (payload_length s c))) (filled s c f) f.rpc_len
            f.first_seq t)

  unfoldable pub feed : Cursor → TcpTable → Fed
  unfolding first_segment later_segment
  feed c t =
      let (found, t') = tcp_lookup now (key_at s s.seq) t in
      elim found [ none ↦ first_segment c t' | some f ↦ later_segment c f t' ]
