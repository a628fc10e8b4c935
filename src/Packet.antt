-- ===== src/Packet.antt =====
-- `processPacket` of nfsdump2/nfsrecord.c up to its loop: the headers of a packet, and what the
-- loop is given of them. `byte` is the captured packet, also past its `caplen` bytes.
pub mod Reassembly
pub mod Record
pub mod Message
pub mod Loop
use nfsdump.Frame.{
  Ip, not_ip4, fragment, header, be16, be32, get_ether_header, get_ip_header, get_tcp_header,
  get_udp_header,
}
use nfsdump.Prelude.{ℕ, ◌+◌, Bool, true, false, not, leb, ◌==◌, if◌then◌else◌}

-- The results of `processPacket`: 1, 0, and the negative numbers.
pub data Code : Type 0 where
  interesting : Code
  discarded : Code
  minus : ℕ → Code

-- Why the process dies: a failed `assert`, a `memcpy` past the end of its buffer, or a read
-- through NULL. A read past the packet is not one of these here, though it may end the process too
-- if it goes far enough: it gives what memory is taken to hold there, and how far a printer reads is
-- its `reach`.
pub data Fault : Type 0 where
  assertion : Fault
  overrun : Fault
  null_read : Fault

-- What the headers say: IPPROTO_TCP or not, `length` of the IP header, the sizes of the three
-- headers, the two ends of the connection, and `th_seq`, which only TCP reads.
pub record Segment : Type 0 where
  pub tcp : Bool
  pub length : ℕ
  pub e_len : ℕ
  pub i_len : ℕ
  pub h_len : ℕ
  pub src_host : ℕ
  pub dst_host : ℕ
  pub src_port : ℕ
  pub dst_port : ℕ
  pub seq : ℕ

-- `closed` is an early return.
pub data Opened : Type 0 where
  closed : Code → Opened
  opened : Segment → Opened

abbrev pub shift : ℕ → (ℕ → ℕ) → ℕ → ℕ
shift n byte i = byte (n + i)

-- MIN_ETHER_HDR_LEN + MIN_IP_HDR_LEN + MIN_UDP_HDR_LEN
abbrev pub min_len : ℕ
min_len = 14 + 20 + 8

module _ (byte : ℕ → ℕ) (tot_len : ℕ) where
  -- The headers before the transport's take no more than 82 bytes, so that no sum wraps.
  unfoldable pub open_transport : (e_len i_len proto length src dst : ℕ) → Opened
  unfolding get_tcp_header
  open_transport e_len i_len proto length src dst =
      let consumed = e_len + i_len in
      let here = shift consumed byte in
      let found = λ (tcp : Bool) (h_len : ℕ).
        (if leb tot_len (consumed + h_len)
          then closed discarded
          else opened (record {
            tcp = tcp;
            length = length;
            e_len = e_len;
            i_len = i_len;
            h_len = h_len;
            src_host = src;
            dst_host = dst;
            src_port = be16 here 0;
            dst_port = be16 here 2;
            seq = be32 here 4;
          })) in
      if leb tot_len consumed
      then closed discarded
      else if proto == 6
      then (if leb tot_len (consumed + 20)
          then closed discarded
          else if get_tcp_header here == 0
          then closed (minus 3)
          else found true (get_tcp_header here))
      else if proto == 17
      then (if leb tot_len (consumed + 8)
          then closed discarded
          else if get_udp_header == 0
          then closed (minus 4)
          else found false get_udp_header)
      else closed discarded

  -- A header of IP of no words is refused as the others are.
  unfoldable pub open_ip : (e_len : ℕ) → Ip → Opened
  unfolding open_transport
  open_ip e_len not_ip4 = closed (minus 2)
  open_ip e_len fragment = closed (minus 2)
  open_ip e_len (header size proto length src dst) =
      if size == 0 then closed (minus 2) else open_transport e_len size proto length src dst

  -- The size of an Ethernet header is never 0, which the source also tests.
  unfoldable pub open_packet : Opened
  unfolding get_ether_header get_ip_header open_ip
  open_packet =
      let ether = get_ether_header byte tot_len in
      if leb tot_len min_len
      then closed discarded
      else if ether.size == 0
      then closed (minus 1)
      else if not (ether.proto == 0x0800)
      then closed discarded
      else open_ip ether.size (get_ip_header (shift ether.size byte))
