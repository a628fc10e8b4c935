-- ===== src/XidTable/Laws.antt =====
-- What the table of outstanding calls promises to the matching of replies with calls.
use nfsdump.Prelude.{ℕ, ◌-◌, ◌^◌, ◌≤◌, ◌<◌, ◌≡◌, refl, some, [], ◌∷◌, All}
use nfsdump.Table.Find.{insert-finds, insert-loses}
use nfsdump.Table.View.{view}
use nfsdump.Table.{max_age, IsValid}
use nfsdump.XidTable.{
  Call, Caller, XidTable, key, hash, xid_keying, hash_lookup_xid, hash_insert_xid, new_call,
}

module _ (now xid host port version proc : ℕ) (t : XidTable) (valid : IsValid xid_keying t)
    (old_enough : max_age ≤ now) (now_u32 : now < 2 ^ 32) where
  abbrev pub caller : Caller
  caller = record { xid = xid; host = host; port = port }

  -- A call is found again by the reply: after an insertion into a well-formed table, at a time from
  -- `max_age` on and below 2 ^ 32, when no outstanding call of the same transaction, host and port
  -- has aged out, a lookup by these returns that call with its version and procedure.
  pub hash_lookup_xid-hash_insert_xid :
      All (λ c. now - max_age ≤ c.call_time) (view xid_keying t caller)
      → (later : ℕ)
      → (t' : XidTable) × (hash_insert_xid now xid host port version proc t ≡ some t')
        × ((hash_lookup_xid later xid host port t').0
            ≡ some (new_call now xid host port version proc))
  unfolding hash_insert_xid hash_lookup_xid key
  hash_lookup_xid-hash_insert_xid fresh later =
      let (t', ran, _, found) =
        insert-finds xid_keying now (new_call now xid host port version proc) t valid old_enough
          now_u32 refl fresh in
      (t', ran, found)

  -- A call that is sent again is lost: if the bucket to be culled is that of the call, and the one
  -- outstanding call of the same transaction, host and port has aged out, the insertion throws the
  -- new call away, and a lookup returns the aged one.
  pub hash_lookup_xid-aged :
      (old : Call)
      → t.cull_index ≡ hash caller
      → view xid_keying t caller ≡ old ∷ []
      → old.call_time < now - max_age
      → (later : ℕ)
      → (t' : XidTable) × (hash_insert_xid now xid host port version proc t ≡ some t')
        × ((hash_lookup_xid later xid host port t').0 ≡ some old)
  unfolding hash_insert_xid hash_lookup_xid key
  hash_lookup_xid-aged old turn one aged later =
      insert-loses xid_keying now (new_call now xid host port version proc) old t valid old_enough
        now_u32 refl turn one aged
