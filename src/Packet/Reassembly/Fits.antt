-- ===== src/Packet/Reassembly/Fits.antt =====
-- What the table of unfinished messages keeps, segment by segment: a message has at most 16384
-- bytes, and of these fewer than all have come.
use nfsdump.Packet.Reassembly.{
  Cursor, Fed, ready, waits, broken, max_rpc_len, waiting, key_at, payload_length, skip_rpc_len,
  first_segment, first_offset, last_offset, copied, later_segment, feed,
}
use mathlib.Core.Path.{subst}
use nfsdump.Packet.{Segment, assertion, overrun, null_read}
use nfsdump.Prelude.{
  ℕ, ◌+◌, ◌^◌, ◌≤◌, ◌<◌, ◌≡◌, ◌≢◌, ◌⊎◌, refl, ap, inl, inr, Bool-cases, Option, none, some,
  Option-cases, leb, ltb, ◌==◌, arith, add32, sub32,
}
use nfsdump.Table.Cull.{insert-total}
use nfsdump.Table.Each.{Each, Found, lookup-Each, lookup-key, insert-Each}
use nfsdump.Table.Keep.{lookup-IsValid}
use nfsdump.Table.{IsValid}
use nfsdump.TcpTable.{
  Fragment, Stream, TcpTable, key, tcp_keying, tcp_lookup, tcp_insert, new_fragment,
}

-- How many bytes of a fragment have come.
abbrev pub received : Fragment → ℕ
received f = sub32 f.next_seq f.first_seq

pub record IsPartial (f : Fragment) : Type 0 where
  pub limited : f.rpc_len ≤ max_rpc_len
  pub based : f.first_seq < 2 ^ 32
  pub unfinished : received f < f.rpc_len

-- A well-formed table of such fragments.
pub record IsSound (t : TcpTable) : Type 0 where
  pub valid : IsValid tcp_keying t
  pub partial : Each tcp_keying IsPartial t

-- The cursor at a message: in the packet, past the length that was read there, or at the start of
-- a buffer that the message fills.
abbrev pub AtMessage : Cursor → Cursor → Type 0
AtMessage c c' =
    ((c'.tot_len ≡ c.tot_len) × (c'.consumed ≡ c.consumed + 4) × (c'.rpc_len < 2 ^ 31))
    ⊎ ((c'.consumed ≡ 0) × (c'.rpc_len ≡ c'.tot_len) × (c'.tot_len ≤ max_rpc_len))

abbrev pub IsFed : Cursor → Fed → Type 0
IsFed c (ready c' t) = AtMessage c c' × IsSound t
IsFed c (waits code t) = IsSound t
IsFed c (broken assertion) = ⊥
IsFed c (broken overrun) = Unit {0}
IsFed c (broken null_read) = ⊥

module _ (junk : ℕ → ℕ) (now : ℕ) (s : Segment) where
  waiting-IsFed :
      (code : ℕ) (c : Cursor) (k : Stream) (buffer : ℕ → ℕ) (rpc_len first_seq : ℕ) (t : TcpTable)
      → IsSound t
      → IsPartial (new_fragment now k buffer rpc_len first_seq)
      → IsFed c (waiting code (tcp_insert now k buffer rpc_len first_seq t))
  unfolding tcp_insert
  waiting-IsFed code c k buffer rpc_len first_seq t sound new =
      let f = new_fragment now k buffer rpc_len first_seq in
      let (t', ran, valid, _) = insert-total tcp_keying now f t sound.valid in
      rw ran (record {
        valid = valid;
        partial = insert-Each tcp_keying IsPartial now f t new sound.partial ran;
      })

  first_segment-IsFed :
      (c : Cursor) (t : TcpTable) → IsSound t → IsFed c (first_segment junk now s c t)
  unfolding first_segment
  first_segment-IsFed c t sound =
      let c' = skip_rpc_len c in
      let n = payload_length s c' in
      elim (Bool-cases (leb c'.rpc_len n)) [
        | inl sole ↦ rw sole (inl (refl, refl, omega arith), sound)
        | inr more ↦ elim (Bool-cases (ltb max_rpc_len c'.rpc_len)) [
          | inl long ↦ rw (more, long) sound
          | inr fits ↦
              rw (more, fits)
                (waiting-IsFed 12 c _ _ c'.rpc_len (add32 s.seq 4) t sound (record {
                  limited = ground arith;
                  based = omega arith;
                  unfinished = ground arith;
                }))
        ]
      ]

  later_segment-IsFed :
      (c : Cursor) (f : Fragment) (t : TcpTable)
      → IsSound t
      → IsPartial f
      → f.next_seq ≡ s.seq
      → IsFed c (later_segment junk now s c f t)
  unfolding later_segment
  later_segment-IsFed c f t sound old here =
      elim (Bool-cases (ltb f.rpc_len (first_offset s f + copied s c f))) [
        | inl past ↦ rw past tt
        | inr within ↦ elim (Bool-cases (last_offset s c f == f.rpc_len)) [
          | inl last ↦ rw (within, last) (inr (refl, refl, old.limited), sound)
          | inr more ↦
              rw (within, more)
                (waiting-IsFed 13 c _ _ f.rpc_len f.first_seq t sound
                  (record { limited = old.limited; based = old.based; unfinished = ground arith }))
        ]
      ]

  -- A lookup leaves a sound table, and gives a part of a message that goes on here.
  found-IsPartial :
      (t : TcpTable) (f : Fragment)
      → IsSound t
      → (tcp_lookup now (key_at s s.seq) t).0 ≡ some f
      → IsPartial f × (f.next_seq ≡ s.seq)
  unfolding tcp_lookup key
  found-IsPartial t f sound found = (
    subst (Found tcp_keying IsPartial) found
        (lookup-Each tcp_keying IsPartial (key_at s s.seq) t sound.partial).0,
    ap (λ k. k.seq) (lookup-key tcp_keying IsPartial (key_at s s.seq) t f found),
  )

  pub tcp_lookup-IsSound :
      (t : TcpTable) → IsSound t → IsSound (tcp_lookup now (key_at s s.seq) t).1
  unfolding tcp_lookup
  tcp_lookup-IsSound t sound = record {
    valid = lookup-IsValid tcp_keying (key_at s s.seq) t sound.valid;
    partial = (lookup-Each tcp_keying IsPartial (key_at s s.seq) t sound.partial).1;
  }

  -- The step at a segment of TCP keeps the table sound, whatever the segment holds, and its
  -- insertion never fails its assertion; a message that is ready begins past its length in the
  -- packet, or is a whole buffer.
  pub feed-IsFed : (c : Cursor) (t : TcpTable) → IsSound t → IsFed c (feed junk now s c t)
  unfolding feed
  feed-IsFed c t sound =
      let t' = (tcp_lookup now (key_at s s.seq) t).1 in
      elim (Option-cases (tcp_lookup now (key_at s s.seq) t).0) [
        | inl first ↦
            rw (first, IsFed, feed) (first_segment-IsFed c t' (tcp_lookup-IsSound t sound))
        | inr (f, later) ↦
            let (old, here) = found-IsPartial t f sound later in
            rw (later, IsFed, feed)
              (later_segment-IsFed c f t' (tcp_lookup-IsSound t sound) old here)
      ]

  waiting-Fits : (code : ℕ) (o : Option TcpTable) → waiting code o ≢ broken overrun
  waiting-Fits code none h = cc
  waiting-Fits code (some t) h = cc

  first_segment-Fits : (c : Cursor) (t : TcpTable) → first_segment junk now s c t ≢ broken overrun
  unfolding first_segment
  first_segment-Fits c t h = ground (arith, waiting-Fits 12)

  later_segment-Fits :
      (c : Cursor) (f : Fragment) (t : TcpTable)
      → IsPartial f
      → f.next_seq ≡ s.seq
      → c.i_len + c.h_len ≤ s.length
      → s.length < 65536
      → later_segment junk now s c f t ≢ broken overrun
  unfolding later_segment
  later_segment-Fits c f t old here headers short h = ground (arith, waiting-Fits 13)

  -- Where the total length that the IP header tells is at least that of the headers, the copy of a
  -- segment never runs past its buffer.
  pub feed-Fits :
      (c : Cursor) (t : TcpTable)
      → IsSound t
      → c.i_len + c.h_len ≤ s.length
      → s.length < 65536
      → feed junk now s c t ≢ broken overrun
  unfolding feed
  feed-Fits c t sound headers short =
      let t' = (tcp_lookup now (key_at s s.seq) t).1 in
      elim (Option-cases (tcp_lookup now (key_at s s.seq) t).0) [
        | inl first ↦ rw (first, feed) (first_segment-Fits c t')
        | inr (f, later) ↦
            let (old, here) = found-IsPartial t f sound later in
            rw (later, feed) (later_segment-Fits c f t' old here headers short)
      ]

  -- Where it is less, the copy runs past the buffer of a message of which at least as many bytes
  -- have come as are missing from the headers.
  pub feed-overruns :
      (c : Cursor) (t : TcpTable) (f : Fragment)
      → IsSound t
      → (tcp_lookup now (key_at s s.seq) t).0 ≡ some f
      → s.length < c.i_len + c.h_len
      → c.i_len + c.h_len < 2 ^ 31
      → c.i_len + c.h_len ≤ s.length + received f
      → feed junk now s c t ≡ broken overrun
  unfolding feed later_segment
  feed-overruns c t f sound later missing small many =
      let (old, here) = found-IsPartial t f sound later in rw (later, feed) (ground arith)
