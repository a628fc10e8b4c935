-- ===== src/TcpTable/Laws.antt =====
-- What the table of unfinished messages promises to the reassembly.
use nfsdump.Prelude.{ℕ, ◌-◌, ◌^◌, ◌≤◌, ◌<◌, ◌≡◌, refl, some, All}
use nfsdump.Table.Find.{insert-finds}
use nfsdump.Table.View.{view}
use nfsdump.Table.{max_age, IsValid}
use nfsdump.TcpTable.{Stream, TcpTable, key, tcp_keying, tcp_lookup, tcp_insert, new_fragment}

module _ (now : ℕ) (k : Stream) (buffer : ℕ → ℕ) (rpc_len first_seq : ℕ) (t : TcpTable)
    (valid : IsValid tcp_keying t) (old_enough : max_age ≤ now) (now_u32 : now < 2 ^ 32) where
  -- The next segment finds its message: after an insertion into a well-formed table, at a time from
  -- `max_age` on and below 2 ^ 32, when no fragment that waits for the same segment of the same
  -- connection has aged out, a lookup of that segment returns the fragment with its buffer.
  pub tcp_lookup-tcp_insert :
      All (λ f. now - max_age ≤ f.time) (view tcp_keying t k)
      → (later : ℕ)
      → (t' : TcpTable) × (tcp_insert now k buffer rpc_len first_seq t ≡ some t')
        × ((tcp_lookup later k t').0 ≡ some (new_fragment now k buffer rpc_len first_seq))
  unfolding tcp_insert tcp_lookup key
  tcp_lookup-tcp_insert fresh later =
      let (t', ran, _, found) =
        insert-finds tcp_keying now (new_fragment now k buffer rpc_len first_seq) t valid old_enough
          now_u32 refl fresh in
      (t', ran, found)
