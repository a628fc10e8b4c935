-- ===== src/Packet/Reassembly/Holds.antt =====
-- The reassembly gives back the message that was cut into segments.
use mathlib.Core.Path.{subst}
use nfsdump.Packet.Reassembly.Fits.{received, IsPartial}
use nfsdump.Packet.Reassembly.{
  Cursor, copy, ready, waiting, key_at, payload_length, first_offset, last_offset, copied, filled,
  later_segment,
}
use nfsdump.Packet.{Segment}
use nfsdump.Prelude.{
  ℕ, ◌+◌, ◌-◌, ◌≤◌, ◌<◌, ◌≡◌, refl, sym, ap, ◌∙◌, true, false, inl, inr, Bool-cases, leb, ltb, ◌==◌,
  arith, add32, sub32,
}
use nfsdump.TcpTable.{Fragment, TcpTable, tcp_insert}

-- The first bytes of a buffer are those of the message `m`.
abbrev pub Agree : (m buffer : ℕ → ℕ) (n : ℕ) → Type 0
Agree m buffer n = (i : ℕ) → i < n → buffer i ≡ m i

-- A fragment that waits holds the bytes of `m` that have come.
abbrev pub IsPrefix : (m : ℕ → ℕ) → Fragment → Type 0
IsPrefix m f = Agree m f.buffer (received f)

module _ (m : ℕ → ℕ) (junk : ℕ → ℕ) (now : ℕ) (s : Segment) where
  pub copy-Agree :
      (dst : ℕ → ℕ) (off n : ℕ) (src : ℕ → ℕ) (from : ℕ)
      → Agree m dst off
      → ((j : ℕ) → j < n → src (from + j) ≡ m (off + j))
      → Agree m (copy dst off n src from) (off + n)
  copy-Agree dst off n src from old new i h = elim (Bool-cases (leb off i)) [
    | inl past ↦
        let at : off + (i - off) ≡ i = ground arith in
        let inside : ltb i (off + n) ≡ true = ground arith in
        rw (past, inside) (new (i - off) (ground arith) ∙ ap m at)
    | inr before ↦ rw before (old i (ground arith))
  ]

  -- The bytes of the segment go on with `m` where the fragment ends.
  abbrev pub GoesOn : Cursor → Fragment → Type 0
  GoesOn c f = (j : ℕ) → j < payload_length s c → c.byte (c.consumed + j) ≡ m (received f + j)

  -- No length wraps.
  abbrev pub IsInside : Cursor → Type 0
  IsInside c = (c.i_len + c.h_len ≤ s.length) × (s.length < 65536)

  pub payload_length-short : (c : Cursor) → IsInside c → payload_length s c < 65536
  payload_length-short c (headers, short) = omega arith

  -- Where the segment's bytes go, and how many of them.
  abbrev Lands : (c : Cursor) (f : Fragment) → Type 0
  Lands c f =
      (first_offset s f ≡ received f)
      × (received f + copied s c f ≡ last_offset s c f)
      × (last_offset s c f ≤ f.rpc_len)
      × (copied s c f ≤ payload_length s c)
      × (f.rpc_len ≤ received f + payload_length s c → last_offset s c f ≡ f.rpc_len)
      × (received f + payload_length s c < f.rpc_len
          → last_offset s c f ≡ received f + payload_length s c)

  lands : (c : Cursor) (f : Fragment) → IsPartial f → f.next_seq ≡ s.seq → IsInside c → Lands c f
  lands c f old here inside =
      let same : first_offset s f ≡ received f = ap (λ x. sub32 x f.first_seq) (sym here) in
      let short = payload_length-short c inside in
      let unfinished = old.unfinished in
      let limited = old.limited in
      (same, ground arith, ground arith, ground arith, λ all. ground arith, λ left. ground arith)

  filled-Agree :
      (c : Cursor) (f : Fragment)
      → IsPartial f
      → IsPrefix m f
      → f.next_seq ≡ s.seq
      → IsInside c
      → GoesOn c f
      → Agree m (filled s c f) (last_offset s c f)
  filled-Agree c f old before here inside on =
      let (same, sum, _, few, _, _) = lands c f old here inside in
      subst (Agree m (filled s c f)) (ap (λ x. x + copied s c f) same ∙ sum) (
        copy-Agree f.buffer (first_offset s f) (copied s c f) c.byte c.consumed
          (subst (Agree m f.buffer) (sym same) before)
          (λ j h. on j (omega arith) ∙ ap (λ x. m (x + j)) (sym same)))

  -- The last segment of a message.
  pub later_segment-completes :
      (c : Cursor) (f : Fragment) (t : TcpTable)
      → IsPartial f
      → IsPrefix m f
      → f.next_seq ≡ s.seq
      → IsInside c
      → GoesOn c f
      → f.rpc_len ≤ received f + payload_length s c
      → (c' : Cursor) × (later_segment junk now s c f t ≡ ready c' t)
        × (c'.tot_len ≡ f.rpc_len)
        × (c'.consumed ≡ 0)
        × Agree m c'.byte f.rpc_len
  unfolding later_segment
  later_segment-completes c f t old before here inside on all =
      let (same, sum, fits, few, whole, _) = lands c f old here inside in
      let last = whole all in
      let within : ltb f.rpc_len (first_offset s f + copied s c f) ≡ false = ground arith in
      let is_last : (last_offset s c f == f.rpc_len) ≡ true = ground arith in
      (
        record {
          byte = filled s c f;
          tot_len = f.rpc_len;
          e_len = 0;
          i_len = 0;
          h_len = 0;
          consumed = 0;
          rpc_len = f.rpc_len;
        },
        rw (within, is_last) refl,
        refl,
        refl,
        subst (Agree m (filled s c f)) last (filled-Agree c f old before here inside on),
      )

  pub later_segment-extends :
      (c : Cursor) (f : Fragment) (t : TcpTable)
      → IsPartial f
      → IsPrefix m f
      → f.next_seq ≡ s.seq
      → IsInside c
      → GoesOn c f
      → received f + payload_length s c < f.rpc_len
      → (later_segment junk now s c f t
          ≡ waiting 13 (
              tcp_insert now
                (key_at s (add32 s.seq (payload_length s c)))
                (filled s c f)
                f.rpc_len
                f.first_seq
                t))
        × Agree m (filled s c f) (received f + payload_length s c)
  unfolding later_segment
  later_segment-extends c f t old before here inside on some_left =
      let (same, sum, fits, few, _, part) = lands c f old here inside in
      let last = part some_left in
      let within : ltb f.rpc_len (first_offset s f + copied s c f) ≡ false = ground arith in
      let not_last : (last_offset s c f == f.rpc_len) ≡ false = ground arith in
      (
        rw (within, not_last) refl,
        subst (Agree m (filled s c f)) last (filled-Agree c f old before here inside on),
      )
