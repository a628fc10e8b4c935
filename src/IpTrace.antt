-- ===== src/IpTrace.antt =====
-- nfsdump2/iprecord.c, a decoder that prints a line for the headers of a packet: its `processPacket`,
-- header parsers and `printPacketHeader`. `byte` is the captured packet.
pub mod Agrees
use nfsdump.Frame.{Ether, be16, be32, get_tcp_header, get_udp_header}
use nfsdump.Packet.{Code, interesting, discarded, minus, shift, min_len}
use nfsdump.Prelude.{
  ℕ, zero, suc, ◌+◌, ◌*◌, ◌/◌, ◌%◌, Bool, ◌&&◌, ◌||◌, not, List, [], ◌∷◌, ◌++◌, leb, ◌==◌,
  if◌then◌else◌, sub32,
}
use nfsdump.Print.{Item, lit, hex2, hex4, hex8, dec, dec6, dec_right5, chr}

-- ICMP_ECHO, `sizeof (struct icmp)`, ICMP_PAYLOAD_SZ
abbrev pub icmp_echo : ℕ
icmp_echo = 8

abbrev pub icmp_size : ℕ
icmp_size = 28

abbrev pub icmp_payload_sz : ℕ
icmp_payload_sz = 16

-- `nfs_pkt_t` of this program. The fields of ICMP are only set, and printed, for ICMP; else they are
-- 0 and empty here.
pub record HeaderRecord : Type 0 where
  pub secs : ℕ
  pub usecs : ℕ
  pub src_host : ℕ
  pub dst_host : ℕ
  pub src_port : ℕ
  pub dst_port : ℕ
  pub ip_len : ℕ
  pub ip_proto : ℕ
  pub ip_identifier : ℕ
  pub icmp_type : ℕ
  pub icmp_payload : List ℕ

unfoldable pub hex_bytes : List ℕ → List Item
hex_bytes [] = []
hex_bytes (b ∷ bs) = hex2 b ∷ hex_bytes bs

abbrev pub icmp_text : HeaderRecord → List Item
icmp_text h =
    (lit " " ∷ dec h.icmp_type ∷ lit " " ∷ [])
    ++ (if h.icmp_type == icmp_echo then hex_bytes h.icmp_payload else [])

unfoldable pub print_packet_header : HeaderRecord → List Item
unfolding hex_bytes
print_packet_header h =
    (dec h.secs
      ∷ lit "."
      ∷ dec6 h.usecs
      ∷ lit " "
      ∷ hex8 h.src_host
      ∷ lit " "
      ∷ hex8 h.dst_host
      ∷ lit " "
      ∷ dec_right5 h.dst_port
      ∷ lit " "
      ∷ dec_right5 h.ip_len
      ∷ lit " "
      ∷ chr h.ip_proto
      ∷ lit " "
      ∷ hex4 h.ip_identifier
      ∷ [])
    ++ (if h.ip_proto == b'C' then icmp_text h else [])
    ++ lit "\n" ∷ []

-- The end of `processPacket`: an early return with what it has written, or the record that is
-- printed, after which it returns 0.
pub data Traced : Type 0 where
  ended : Code → List Item → Traced
  recorded : HeaderRecord → Traced

-- The results of `getIpHeader` of this program.
pub data IpHeader : Type 0 where
  not_ip4 : IpHeader
  fragment : (offset length : ℕ) → IpHeader
  header : (size proto id len src dst : ℕ) → IpHeader

module _ (byte : ℕ → ℕ) where
  -- `getEtherHeader`, without VLAN tags
  unfoldable pub plain_ether_header : (packet_len : ℕ) → Ether
  plain_ether_header packet_len =
      let length = be16 byte 12 in
      if leb length 1500
        || (length == sub32 packet_len 22
            && (byte 14 == 0xaa && (byte 15 == 0xaa && byte 16 == 0x03)))
      then record { size = 22; proto = be16 byte 20; len = length }
      else record { size = 14; proto = length; len = sub32 packet_len 14 }

  unfoldable pub full_ip_header : IpHeader
  full_ip_header =
      if byte 0 / 16 == 4
      then (if be16 byte 6 % 8192 == 0
          then header (byte 0 % 16 * 4) (byte 9) (be16 byte 4) (be16 byte 2) (be32 byte 12)
              (be32 byte 16)
          else fragment (be16 byte 6 % 8192) (be16 byte 2))
      else not_ip4

-- `memmove` of the first bytes from `from` on.
unfoldable pub bytes_at : (byte : ℕ → ℕ) (from n : ℕ) → List ℕ
bytes_at byte from zero = []
bytes_at byte from (suc n) = byte from ∷ bytes_at byte (from + 1) n

module _ (secs usecs : ℕ) (byte : ℕ → ℕ) (tot_len : ℕ) where
  -- The record of a packet whose transport header begins at `consumed`.
  abbrev pub header_record :
      (ip_proto src_port dst_port id length src dst icmp_type : ℕ) (payload : List ℕ) → HeaderRecord
  header_record ip_proto src_port dst_port id length src dst icmp_type payload = record {
    secs = secs;
    usecs = usecs;
    src_host = src;
    dst_host = dst;
    src_port = src_port;
    dst_port = dst_port;
    ip_len = length;
    ip_proto = ip_proto;
    ip_identifier = id;
    icmp_type = icmp_type;
    icmp_payload = payload;
  }

  abbrev pub silent : Code → Traced
  silent code = ended code []

  -- The bytes after the header are read whether or not they are captured.
  unfoldable pub trace_icmp : (consumed id length src dst : ℕ) → Traced
  unfolding bytes_at
  trace_icmp consumed id length src dst =
      let icmp_type = byte consumed in
      if leb tot_len (consumed + icmp_size)
      then silent discarded
      else recorded (
          header_record b'C' 0 0 id length src dst icmp_type (
            if icmp_type == icmp_echo
            then bytes_at byte (consumed + icmp_size) icmp_payload_sz
            else []))

  unfoldable pub trace_transport : (e_len i_len proto id length src dst : ℕ) → Traced
  unfolding get_tcp_header trace_icmp
  trace_transport e_len i_len proto id length src dst =
      let consumed = e_len + i_len in
      let here = shift consumed byte in
      let found = λ (ip_proto h_len : ℕ).
        (if leb tot_len (consumed + h_len)
          then silent discarded
          else recorded
              (header_record ip_proto (be16 here 0) (be16 here 2) id length src dst 0 [])) in
      if leb tot_len consumed
      then silent discarded
      else if proto == 6
      then (if leb tot_len (consumed + 20)
          then silent discarded
          else if get_tcp_header here == 0
          then silent (minus 3)
          else found b'T' (get_tcp_header here))
      else if proto == 17
      then (if leb tot_len (consumed + 8)
          then silent discarded
          else if get_udp_header == 0
          then silent (minus 4)
          else found b'U' get_udp_header)
      else if proto == 1
      then trace_icmp consumed id length src dst
      else silent discarded

  -- A fragment is told of on the standard output.
  unfoldable pub trace_ip : (e_len : ℕ) → IpHeader → Traced
  unfolding trace_transport
  trace_ip e_len not_ip4 = silent (minus 2)
  trace_ip e_len (fragment offset length) =
      ended (minus 2)
        (lit "# it's a fragment (offset=" ∷ dec offset ∷ lit ") of " ∷ dec length ∷ lit "\n" ∷ [])
  trace_ip e_len (header size proto id length src dst) =
      if size == 0 then silent (minus 2) else trace_transport e_len size proto id length src dst

  unfoldable pub trace_packet : Traced
  unfolding plain_ether_header full_ip_header trace_ip
  trace_packet =
      let ether = plain_ether_header byte tot_len in
      if leb tot_len min_len
      then silent discarded
      else if ether.size == 0
      then silent (minus 1)
      else if not (ether.proto == 0x0800)
      then silent discarded
      else trace_ip ether.size (full_ip_header (shift ether.size byte))
