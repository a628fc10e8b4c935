-- ===== src/IpTrace/Agrees.antt =====
-- The two decoders, of nfsdump2/iprecord.c and nfsdump2/nfsrecord.c, take the headers of a packet in
-- the same way.
use nfsdump.Frame.{be16, be32, get_ether_header, get_ip_header, get_tcp_header}
use nfsdump.IpTrace.{
  Traced, ended, recorded, plain_ether_header, full_ip_header, trace_icmp, trace_transport,
  trace_ip, trace_packet, icmp_size,
}
use nfsdump.Packet.{
  discarded, Opened, closed, opened, shift, min_len, open_transport, open_ip, open_packet,
}
use nfsdump.Prelude.{
  ℕ, ◌+◌, ◌*◌, ◌/◌, ◌%◌, ◌≡◌, ◌≢◌, refl, false, inl, inr, Bool-cases, leb, ◌==◌, if◌then◌else◌,
  arith,
}

-- Both give the same result or both take the packet, with the same protocol, hosts, ports and
-- length; only ICMP is recorded by the one and discarded by the other.
abbrev pub Agree : Opened → Traced → Type 0
Agree (closed code) (ended code' text) = code ≡ code'
Agree (closed code) (recorded h) = (code ≡ discarded) × (h.ip_proto ≡ b'C')
Agree (opened s) (ended code text) = ⊥
Agree (opened s) (recorded h) =
    (h.ip_proto ≡ (if s.tcp then b'T' else b'U'))
    × (h.src_host ≡ s.src_host)
    × (h.dst_host ≡ s.dst_host)
    × (h.src_port ≡ s.src_port)
    × (h.dst_port ≡ s.dst_port)
    × (h.ip_len ≡ s.length)

-- Without a tag the link headers are the same.
get_ether_header-plain :
    (byte : ℕ → ℕ) (packet_len : ℕ)
    → be16 byte 12 ≢ 0x8100
    → get_ether_header byte packet_len ≡ plain_ether_header byte packet_len
unfolding get_ether_header plain_ether_header
get_ether_header-plain byte packet_len plain =
    let untagged : (be16 byte 12 == 0x8100) ≡ false = ground arith in rw untagged refl

module _ (secs usecs : ℕ) (byte : ℕ → ℕ) (tot_len : ℕ) where
  trace_icmp-Agree :
      (consumed id length src dst : ℕ)
      → Agree (closed discarded) (trace_icmp secs usecs byte tot_len consumed id length src dst)
  unfolding trace_icmp
  trace_icmp-Agree consumed id length src dst =
      elim (Bool-cases (leb tot_len (consumed + icmp_size))) [
        | inl short ↦ rw short refl
        | inr long ↦ rw long (refl, refl)
      ]

  transport-Agree :
      (e_len i_len proto id length src dst : ℕ)
      → Agree
          (open_transport byte tot_len e_len i_len proto length src dst)
          (trace_transport secs usecs byte tot_len e_len i_len proto id length src dst)
  unfolding open_transport trace_transport
  transport-Agree e_len i_len proto id length src dst =
      let consumed = e_len + i_len in
      let tcp_len = get_tcp_header (shift consumed byte) in
      elim (Bool-cases (leb tot_len consumed)) [
        | inl none_left ↦ rw none_left refl
        | inr some_left ↦ elim (Bool-cases (proto == 6)) [
          | inl tcp ↦ elim (Bool-cases (leb tot_len (consumed + 20))) [
            | inl short ↦ rw (some_left, tcp, short) refl
            | inr fits ↦ elim (Bool-cases (tcp_len == 0)) [
              | inl zero_len ↦ rw (some_left, tcp, fits, zero_len) refl
              | inr some_len ↦ elim (Bool-cases (leb tot_len (consumed + tcp_len))) [
                | inl header_only ↦ rw (some_left, tcp, fits, some_len, header_only) refl
                | inr payload ↦
                    rw (some_left, tcp, fits, some_len, payload)
                      (refl, refl, refl, refl, refl, refl)
              ]
            ]
          ]
          | inr not_tcp ↦ elim (Bool-cases (proto == 17)) [
            | inl udp ↦ elim (Bool-cases (leb tot_len (consumed + 8))) [
              | inl short ↦ rw (some_left, not_tcp, udp, short) refl
              | inr fits ↦ rw (some_left, not_tcp, udp, fits) (refl, refl, refl, refl, refl, refl)
            ]
            | inr not_udp ↦ elim (Bool-cases (proto == 1)) [
              | inl icmp ↦
                  rw (some_left, not_tcp, not_udp, icmp)
                    (trace_icmp-Agree consumed id length src dst)
              | inr other ↦ rw (some_left, not_tcp, not_udp, other) refl
            ]
          ]
        ]
      ]

  ip-Agree :
      (e_len : ℕ) (here : ℕ → ℕ)
      → Agree
          (open_ip byte tot_len e_len (get_ip_header here))
          (trace_ip secs usecs byte tot_len e_len (full_ip_header here))
  unfolding open_ip trace_ip get_ip_header full_ip_header
  ip-Agree e_len here = elim (Bool-cases (here 0 / 16 == 4)) [
    | inl ip4 ↦ elim (Bool-cases (be16 here 6 % 8192 == 0)) [
      | inl whole ↦ elim (Bool-cases (here 0 % 16 * 4 == 0)) [
        | inl empty ↦ rw (ip4, whole, empty) refl
        | inr some_words ↦
            rw (ip4, whole, some_words)
              (transport-Agree e_len (here 0 % 16 * 4) (here 9) (be16 here 4) (be16 here 2)
                (be32 here 12) (be32 here 16))
      ]
      | inr part ↦ rw (ip4, part) refl
    ]
    | inr other ↦ rw other refl
  ]

  -- Of a packet whose link header has no VLAN tag the two decoders end with the same result, or both
  -- take it for TCP or both for UDP, with the same hosts, ports and IP length; but ICMP, which
  -- nfsdump2/iprecord.c may record, is discarded by nfsdump2/nfsrecord.c.
  pub trace_packet-Agree :
      be16 byte 12 ≢ 0x8100
      → Agree (open_packet byte tot_len) (trace_packet secs usecs byte tot_len)
  unfolding open_packet trace_packet
  trace_packet-Agree plain =
      let ether = plain_ether_header byte tot_len in
      let same = get_ether_header-plain byte tot_len plain in
      elim (Bool-cases (leb tot_len min_len)) [
        | inl short ↦ rw short refl
        | inr long ↦ elim (Bool-cases (ether.size == 0)) [
          | inl no_header ↦ rw (same, long, no_header) refl
          | inr header ↦ elim (Bool-cases (ether.proto == 0x0800)) [
            | inl ip ↦ rw (same, long, header, ip) (ip-Agree ether.size (shift ether.size byte))
            | inr other ↦ rw (same, long, header, other) refl
          ]
        ]
      ]
