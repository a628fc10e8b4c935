-- ===== src/Packet/Reassembly/Whole.antt =====
-- A message that was cut into two segments comes out of the reassembly as it was.
use nfsdump.Packet.Reassembly.Fits.{received, IsPartial, IsSound, tcp_lookup-IsSound}
use nfsdump.Packet.Reassembly.Holds.{
  Agree, IsPrefix, IsInside, copy-Agree, payload_length-short, later_segment-completes,
}
use nfsdump.Packet.Reassembly.{
  Cursor, copy, ready, waits, max_rpc_len, waiting, key_at, payload_length, skip_rpc_len,
  first_segment, feed,
}
use nfsdump.Packet.{Segment}
use nfsdump.Prelude.{
  ℕ, ◌+◌, ◌-◌, ◌^◌, ◌≤◌, ◌<◌, ◌≡◌, refl, sym, ap, ◌∙◌, false, none, some, All, leb, ltb, arith,
  add32,
}
use nfsdump.Table.View.{view}
use nfsdump.Table.{max_age}
use nfsdump.TcpTable.Laws.{tcp_lookup-tcp_insert}
use nfsdump.TcpTable.{Fragment, Stream, TcpTable, tcp_keying, tcp_lookup, tcp_insert, new_fragment}

module _ (m junk : ℕ → ℕ) (now : ℕ) (s : Segment) (c : Cursor) where
  -- How many bytes of the message the first segment has, and the fragment that it leaves.
  abbrev pub first_length : ℕ
  first_length = payload_length s (skip_rpc_len c)

  abbrev pub next_key : Stream
  next_key = key_at s (add32 (add32 s.seq 4) first_length)

  abbrev pub first_fragment : Fragment
  first_fragment =
      new_fragment now next_key (copy junk 0 first_length c.byte (c.consumed + 4))
        (skip_rpc_len c).rpc_len (add32 s.seq 4)

  -- A segment with the beginning of `m`.
  abbrev pub Begins : Type 0
  Begins = (j : ℕ) → j < first_length → c.byte (c.consumed + 4 + j) ≡ m j

  pub received-first :
      IsInside m junk now s (skip_rpc_len c) → received first_fragment ≡ first_length
  received-first inside =
      let short = payload_length-short m junk now s (skip_rpc_len c) inside in omega arith

  pub first_segment-begins :
      (t : TcpTable)
      → first_length < (skip_rpc_len c).rpc_len
      → (skip_rpc_len c).rpc_len ≤ max_rpc_len
      → first_segment junk now s c t
        ≡ waiting 12 (
            tcp_insert now next_key
              (copy junk 0 first_length c.byte (c.consumed + 4))
              (skip_rpc_len c).rpc_len
              (add32 s.seq 4)
              t)
  unfolding first_segment
  first_segment-begins t more fits =
      let sole : leb (skip_rpc_len c).rpc_len first_length ≡ false = ground arith in
      let short : ltb max_rpc_len (skip_rpc_len c).rpc_len ≡ false = ground arith in
      rw (sole, short) refl

  pub first_fragment-IsPrefix :
      IsInside m junk now s (skip_rpc_len c) → Begins → IsPrefix m first_fragment
  first_fragment-IsPrefix inside begins i h =
      let same = received-first inside in
      copy-Agree m junk now s junk 0 first_length c.byte (c.consumed + 4) (λ j g. omega arith)
        (λ j g. begins j g ∙ ap m (omega arith)) i (omega arith)

  -- Both segments of a message of `m`, in their order. The first is of the connection and at the
  -- place of `s`, which no fragment waits for, and tells in front of its bytes the length of the
  -- message: more than the bytes that it has, and no more than 16384. No fragment that is stale
  -- waits for the place after it, where the second begins, which has the rest of the message. The
  -- total lengths of IP are no less than the headers. Then the first is answered by -12, and the
  -- second gives a buffer that holds the bytes of `m`, and is as long as the message.
  pub feed-whole :
      (later : ℕ) (s' : Segment) (c' : Cursor) (t : TcpTable)
      → IsSound t
      → max_age ≤ now
      → now < 2 ^ 32
      → (tcp_lookup now (key_at s s.seq) t).0 ≡ none
      → All
          (λ f. now - max_age ≤ f.time)
          (view tcp_keying (tcp_lookup now (key_at s s.seq) t).1 next_key)
      → IsInside m junk now s (skip_rpc_len c)
      → Begins
      → first_length < (skip_rpc_len c).rpc_len
      → (skip_rpc_len c).rpc_len ≤ max_rpc_len
      → key_at s' s'.seq ≡ next_key
      → IsInside m junk later s' c'
      → ((j : ℕ) → j < payload_length s' c' → c'.byte (c'.consumed + j) ≡ m (first_length + j))
      → (skip_rpc_len c).rpc_len ≤ first_length + payload_length s' c'
      → (t₁ : TcpTable) × (feed junk now s c t ≡ waits 12 t₁)
        × (c'' : Cursor) × (t₂ : TcpTable) × (feed junk later s' c' t₁ ≡ ready c'' t₂)
        × (c''.tot_len ≡ (skip_rpc_len c).rpc_len)
        × (c''.consumed ≡ 0)
        × Agree m c''.byte (skip_rpc_len c).rpc_len
  unfolding feed
  feed-whole later s' c' t sound lo hi none_waits fresh inside begins more fits next inside' on
        all =
      let n = first_length in
      let f = first_fragment in
      let t₀ = (tcp_lookup now (key_at s s.seq) t).1 in
      let same = received-first inside in
      let (t₁, ran, found) =
        tcp_lookup-tcp_insert now next_key f.buffer f.rpc_len f.first_seq t₀
          (tcp_lookup-IsSound junk now s t sound).valid lo hi fresh later in
      let first : feed junk now s c t ≡ waits 12 t₁ =
        rw (none_waits, feed) (first_segment-begins t₀ more fits ∙ ap (waiting 12) ran) in
      let old : IsPartial f = record {
        limited = fits;
        based = omega arith;
        unfinished = omega arith;
      } in
      let here : (tcp_lookup later (key_at s' s'.seq) t₁).0 ≡ some f = rw next found in
      let (c'', done, len, at, whole) =
        later_segment-completes m junk later s' c' f (tcp_lookup later (key_at s' s'.seq) t₁).1 old
          (first_fragment-IsPrefix inside begins) (ap (λ k. k.seq) (sym next)) inside'
          (λ j h. on j h ∙ ap (λ x. m (x + j)) (sym same)) (omega arith) in
      (
        t₁,
        first,
        c'',
        (tcp_lookup later (key_at s' s'.seq) t₁).1,
        rw (here, feed) done,
        len,
        at,
        whole,
      )
