-- ===== src/Frame/Laws.antt =====
-- What the link and IP headers of nfsdump2/nfsrecord.c may give.
use nfsdump.Prelude.{ℕ, ◌+◌, ◌%◌, ◌^◌, ◌<◌, ◌≤◌, ◌≡◌, ◌≢◌, ◌⊎◌, arith}
use nfsdump.Frame.{Ip, get_ether_header, get_ip_header}

module _ (byte : ℕ → ℕ) (packet_len : ℕ) where
  -- For a packet of 14 to 2 ^ 32 - 1 bytes: the header is of one of three sizes, and in a frame of
  -- RFC 894, of 14 bytes, the size and the length that is set make up the packet, and the protocol
  -- is above the greatest length of an 802.3 frame.
  pub get_ether_header-sizes :
      14 ≤ packet_len
      → packet_len < 2 ^ 32
      → let r = get_ether_header byte packet_len in
        (r.size ≡ 14) × (r.size + r.len ≡ packet_len) × (1500 < r.proto) × (r.proto ≢ 0x8100)
        ⊎ (r.size ≡ 18)
        ⊎ (r.size ≡ 22)
  unfolding get_ether_header
  get_ether_header-sizes lo hi = ground arith

module _ (byte : ℕ → ℕ) where
  -- A header of IP that is taken has at most 60 bytes, in whole words, and sets a protocol of 8
  -- bits, a length of 16 and addresses of 32, if its bytes are bytes.
  pub get_ip_header-bounds :
      ((i : ℕ) → byte i < 256)
      → (size proto len src dst : ℕ) → get_ip_header byte ≡ Ip.header size proto len src dst
      → (size ≤ 60)
        × (size % 4 ≡ 0)
        × (proto < 256)
        × (len < 65536)
        × (src < 2 ^ 32)
        × (dst < 2 ^ 32)
  unfolding get_ip_header
  get_ip_header-bounds bytes size proto len src dst h = ground (
    arith,
    bytes 0,
    bytes 2,
    bytes 3,
    bytes 9,
    bytes 12,
    bytes 13,
    bytes 14,
    bytes 15,
    bytes 16,
    bytes 17,
    bytes 18,
    bytes 19,
  )
