-- ===== src/Packet/Reassembly/Many.antt =====
-- A message that was cut into any number of segments, while the table waits for the next of them.
use mathlib.Core.Path.{subst}
use nfsdump.Packet.Reassembly.Fits.{
  received, IsPartial, IsSound, IsFed, tcp_lookup-IsSound, feed-IsFed,
}
use nfsdump.Packet.Reassembly.Holds.{
  Agree, IsPrefix, IsInside, later_segment-completes, later_segment-extends,
}
use nfsdump.Packet.Reassembly.Whole.{
  first_length, next_key, first_fragment, Begins, received-first, first_segment-begins,
  first_fragment-IsPrefix,
}
use nfsdump.Packet.Reassembly.{
  Cursor, ready, waits, max_rpc_len, waiting, key_at, payload_length, skip_rpc_len, filled, feed,
}
use nfsdump.Packet.{Segment}
use nfsdump.Prelude.{
  ℕ, ◌+◌, ◌-◌, ◌^◌, ◌≤◌, ◌<◌, ◌≡◌, sym, ap, ◌∙◌, none, some, List, [], ◌∷◌, inl, inr, All, All-map,
  Bool-cases, Bool, keep, arith, add32, sub32,
}
use nfsdump.Table.Each.{Each, lookup-Each, lookup-key, insert-Each}
use nfsdump.Table.View.{view}
use nfsdump.Table.{max_age}
use nfsdump.TcpTable.Laws.{tcp_lookup-tcp_insert}
use nfsdump.TcpTable.{
  Fragment, Stream, TcpTable, key, tcp_keying, tcp_lookup, tcp_insert, new_fragment,
}

-- No fragment is stale at the time `last`.
abbrev pub IsRecent : (last : ℕ) → TcpTable → Type 0
IsRecent last t = Each tcp_keying (λ f. last - max_age ≤ f.time) t

All-keep : {A : Type 0} (P : A → Type 0) (p : A → Bool) (xs : List A) → All P xs → All P (keep p xs)
unfolding keep
All-keep P p [] h = tt
All-keep P p (x ∷ xs) h = elim (Bool-cases (p x)) [
  | inl kept ↦ rw kept (h.0, All-keep P p xs h.1)
  | inr passed ↦ rw passed (All-keep P p xs h.1)
]

-- The table waits for the segment `k` of the message `m` of `size` bytes, of which it has the first
-- `n`; no fragment in it is stale at the time `last`.
pub record Holds (m : ℕ → ℕ) (size last : ℕ) (k : Stream) (n : ℕ) (t : TcpTable) : Type 0 where
  pub fragment : Fragment
  pub found : (tcp_lookup last k t).0 ≡ some fragment
  pub old : IsPartial fragment
  pub begun : IsPrefix m fragment
  pub length : fragment.rpc_len ≡ size
  pub so_far : received fragment ≡ n
  pub sound : IsSound t
  pub recent : IsRecent last t

module _ (m junk : ℕ → ℕ) (size last now : ℕ) (s : Segment) (c : Cursor) where
  -- A time that is not before the age of `last`, and from 30 seconds on.
  pub record IsTimely : Type 0 where
    pub old_enough : max_age ≤ now
    pub now_u32 : now < 2 ^ 32
    pub before : now ≤ last
    pub young : last - max_age ≤ now

  -- The segment is that of `k`, and has the bytes of `m` from `n` on.
  pub record Continues (k : Stream) (n : ℕ) : Type 0 where
    pub timely : IsTimely
    pub place : key_at s s.seq ≡ k
    pub inside : IsInside m junk now s c
    pub goes_on : (j : ℕ) → j < payload_length s c → c.byte (c.consumed + j) ≡ m (n + j)

  fresh-view :
      (t : TcpTable) (k : Stream)
      → IsTimely
      → IsRecent last t
      → All (λ f. now - max_age ≤ f.time) (view tcp_keying t k)
  unfolding view
  fresh-view t k timely recent =
      All-map (λ f young. let before = timely.before in omega arith) _ (All-keep _ _ _ (recent _))

  -- A fragment that is inserted waits for its segment.
  waiting-Holds :
      (code n : ℕ) (k : Stream) (buffer : ℕ → ℕ) (rpc_len first_seq : ℕ) (t : TcpTable)
      → IsTimely
      → IsSound t
      → IsRecent last t
      → IsPartial (new_fragment now k buffer rpc_len first_seq)
      → rpc_len ≡ size
      → sub32 k.seq first_seq ≡ n
      → Agree m buffer n
      → (t₁ : TcpTable) × (waiting code (tcp_insert now k buffer rpc_len first_seq t)
          ≡ waits code t₁)
        × (IsSound t₁ → Holds m size last k n t₁)
  unfolding tcp_insert
  waiting-Holds code n k buffer rpc_len first_seq t timely sound recent old length so_far begun =
      let f = new_fragment now k buffer rpc_len first_seq in
      let (t₁, ran, found) =
        tcp_lookup-tcp_insert now k buffer rpc_len first_seq t sound.valid timely.old_enough
          timely.now_u32 (fresh-view t k timely recent) last in
      (
        t₁,
        ap (waiting code) ran,
        λ sound₁. record {
          fragment = f;
          found = found;
          old = old;
          begun = subst (Agree m buffer) (sym so_far) begun;
          length = length;
          so_far = so_far;
          sound = sound₁;
          recent =
              insert-Each tcp_keying (λ g. last - max_age ≤ g.time) now f t timely.young recent ran;
        },
      )

  lookup-IsRecent :
      (k : Stream) (t : TcpTable) → IsRecent last t → IsRecent last (tcp_lookup now k t).1
  unfolding tcp_lookup
  lookup-IsRecent k t recent = (lookup-Each tcp_keying _ k t recent).1

  -- The segment finds its fragment.
  found-here :
      (k : Stream) (n : ℕ) (t : TcpTable) (held : Holds m size last k n t)
      → key_at s s.seq ≡ k
      → ((tcp_lookup now (key_at s s.seq) t).0 ≡ some held.fragment)
        × (held.fragment.next_seq ≡ s.seq)
  unfolding tcp_lookup key
  found-here k n t held place = (
    rw place held.found,
    ap (λ (q : Stream). q.seq)
        (lookup-key tcp_keying IsPartial k t held.fragment held.found ∙ sym place),
  )

  fed-IsSound :
      (code : ℕ) (t t₁ : TcpTable) → IsSound t → feed junk now s c t ≡ waits code t₁ → IsSound t₁
  fed-IsSound code t t₁ sound fed = subst (IsFed c) fed (feed-IsFed junk now s c t sound)

  -- A segment in the middle.
  pub feed-extends :
      (k : Stream) (n : ℕ) (t : TcpTable)
      → Holds m size last k n t
      → Continues k n
      → n + payload_length s c < size
      → (t₁ : TcpTable) × (feed junk now s c t ≡ waits 13 t₁)
        × Holds m size last
            (key_at s (add32 s.seq (payload_length s c)))
            (n + payload_length s c)
            t₁
  unfolding feed
  feed-extends k n t held on more =
      let f = held.fragment in
      let (here, seq) = found-here k n t held on.place in
      let t' = (tcp_lookup now (key_at s s.seq) t).1 in
      let old = held.old in
      let old_limit = old.limited in
      let old_base = old.based in
      let length = held.length in
      let so_far = held.so_far in
      let (extends, agree) =
        later_segment-extends m junk now s c f t' old held.begun seq on.inside
          (λ j h. on.goes_on j h ∙ ap (λ x. m (x + j)) (sym so_far)) (omega arith) in
      let sum : sub32 (add32 s.seq (payload_length s c)) f.first_seq ≡ n + payload_length s c =
        omega arith in
      let (t₁, ran, holds) =
        waiting-Holds 13 (n + payload_length s c) (key_at s (add32 s.seq (payload_length s c)))
          (filled s c f) f.rpc_len f.first_seq t' on.timely
          (tcp_lookup-IsSound junk now s t held.sound)
          (lookup-IsRecent (key_at s s.seq) t held.recent)
          (record { limited = old.limited; based = old.based; unfinished = omega arith }) length sum
          (subst (Agree m (filled s c f)) (ap (λ x. x + payload_length s c) so_far) agree) in
      let fed : feed junk now s c t ≡ waits 13 t₁ = rw (here, feed) (extends ∙ ran) in
      (t₁, fed, holds (fed-IsSound 13 t t₁ held.sound fed))

  -- The last segment.
  pub feed-finishes :
      (k : Stream) (n : ℕ) (t : TcpTable)
      → Holds m size last k n t
      → Continues k n
      → size ≤ n + payload_length s c
      → (c' : Cursor) × (t₁ : TcpTable) × (feed junk now s c t ≡ ready c' t₁)
        × (c'.tot_len ≡ size)
        × (c'.consumed ≡ 0)
        × Agree m c'.byte size
  unfolding feed
  feed-finishes k n t held on all =
      let f = held.fragment in
      let (here, seq) = found-here k n t held on.place in
      let t' = (tcp_lookup now (key_at s s.seq) t).1 in
      let length = held.length in
      let so_far = held.so_far in
      let (c', done, len, at, whole) =
        later_segment-completes m junk now s c f t' held.old held.begun seq on.inside
          (λ j h. on.goes_on j h ∙ ap (λ x. m (x + j)) (sym so_far)) (omega arith) in
      (c', t', rw (here, feed) done, len ∙ length, at, subst (Agree m c'.byte) length whole)

  -- The first segment, of a message that no fragment waits for and whose length is in front.
  pub feed-begins :
      (t : TcpTable)
      → IsSound t
      → IsRecent last t
      → IsTimely
      → (tcp_lookup now (key_at s s.seq) t).0 ≡ none
      → IsInside m junk now s (skip_rpc_len c)
      → Begins m junk now s c
      → (skip_rpc_len c).rpc_len ≡ size
      → first_length m junk now s c < size
      → size ≤ max_rpc_len
      → (t₁ : TcpTable) × (feed junk now s c t ≡ waits 12 t₁)
        × Holds m size last (next_key m junk now s c) (first_length m junk now s c) t₁
  unfolding feed
  feed-begins t sound recent timely none_waits inside begins length more fits =
      let n = first_length m junk now s c in
      let f = first_fragment m junk now s c in
      let t₀ = (tcp_lookup now (key_at s s.seq) t).1 in
      let same = received-first m junk now s c inside in
      let (t₁, ran, holds) =
        waiting-Holds 12 n (next_key m junk now s c) f.buffer f.rpc_len f.first_seq t₀ timely
          (tcp_lookup-IsSound junk now s t sound) (lookup-IsRecent (key_at s s.seq) t recent)
          (record { limited = omega arith; based = omega arith; unfinished = omega arith }) length
          same
          (subst (Agree m f.buffer) same (first_fragment-IsPrefix m junk now s c inside begins)) in
      let fed : feed junk now s c t ≡ waits 12 t₁ =
        rw (none_waits, feed)
          (first_segment-begins m junk now s c t₀ (omega arith) (omega arith) ∙ ran) in
      (t₁, fed, holds (fed-IsSound 12 t t₁ sound fed))
