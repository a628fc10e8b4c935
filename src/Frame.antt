-- ===== src/Frame.antt =====
-- The link and IP headers of nfsdump2/nfsrecord.c: `getEtherHeader`, `getIpHeader`, `getTcpHeader`
-- and `getUdpHeader`, over the bytes of a header, from its start on.
pub mod Laws
use nfsdump.Prelude.{ℕ, ◌+◌, ◌*◌, ◌/◌, ◌%◌, ◌&&◌, ◌||◌, leb, ◌==◌, if◌then◌else◌, sub32}

-- The result of `getEtherHeader`, and what it sets `*proto` and `*len` to.
pub record Ether : Type 0 where
  pub size : ℕ
  pub proto : ℕ
  pub len : ℕ

-- The results of `getIpHeader`: -1, 0, or the size of the header with the values that it sets.
pub data Ip : Type 0 where
  not_ip4 : Ip
  fragment : Ip
  header : (size proto len src dst : ℕ) → Ip

module _ (byte : ℕ → ℕ) where
  -- `(bp [i] << 8) | bp [i + 1]`, and `ntohs`
  abbrev pub be16 : ℕ → ℕ
  be16 i = byte i * 256 + byte (i + 1)

  -- `ntohl`
  abbrev pub be32 : ℕ → ℕ
  be32 i = be16 i * 65536 + be16 (i + 2)

  -- ETHERMTU is 1500. The length of the packet is unsigned, so that taking 22 from it wraps.
  unfoldable pub get_ether_header : (packet_len : ℕ) → Ether
  get_ether_header packet_len =
      let length = be16 12 in
      if length == 0x8100
      then record { size = 18; proto = be16 20; len = be16 16 }
      else if leb length 1500
          || (length == sub32 packet_len 22
              && (byte 14 == 0xaa && (byte 15 == 0xaa && byte 16 == 0x03)))
      then record { size = 22; proto = be16 20; len = length }
      else record { size = 14; proto = length; len = sub32 packet_len 14 }

  -- The version is the high half of byte 0 and the size, in words, the low half.
  unfoldable pub get_ip_header : Ip
  get_ip_header =
      if byte 0 / 16 == 4
      then (if be16 6 % 8192 == 0
          then Ip.header (byte 0 % 16 * 4) (byte 9) (be16 2) (be32 12) (be32 16)
          else Ip.fragment)
      else Ip.not_ip4

  unfoldable pub get_tcp_header : ℕ
  get_tcp_header = 4 * (byte 12 / 16)

-- `getUdpHeader`
abbrev pub get_udp_header : ℕ
get_udp_header = 8
