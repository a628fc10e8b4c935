-- ===== src/Table.antt =====
-- The chained hash table that nfsdump2/nfsrecord.c (`xidHashTable`) and nfsdump2/tcp_reassembly.c
-- (`tcpHashTable`) both implement, once, over an interface that gives what the two copies differ
-- in: the entry, the key, the hash macro and the field that ages.
-- A chain of nodes linked by `next` is a list, its head first. The buckets are an array indexed by
-- ℕ, of which the first `hash_size` cells are used. `malloc` does not fail.
pub mod Chain
pub mod View
pub mod Keep
pub mod Cull
pub mod Find
pub mod Each
pub mod Refines
use nfsdump.Prelude.{
  ℕ, ◌+◌, ◌-◌, ◌%◌, ◌<◌, ◌≡◌, ◌↔◌, Bool, true, Option, none, some, List, [], ◌∷◌, ltb,
  if◌then◌else◌, ◌>>=◌, update, total, All, length, sub32,
}
use nfsdump.Table.Chain.{unlink}

-- `HASHSIZE`
abbrev pub hash_size : ℕ
hash_size = 3301

-- `MAX_AGE`
abbrev pub max_age : ℕ
max_age = 30

-- What an entry type gives the table: its key, the comparison that the lookup loop makes, the
-- `HASH` macro, and the time that the culling loop compares.
pub record Keying (E K : Type 0) : Type 0 where
  pub key : E → K
  pub same : K → E → Bool
  pub same_iff : (k : K) (e : E) → (same k e ≡ true) ↔ (key e ≡ k)
  pub hash : K → ℕ
  pub hash_lt : (k : K) → hash k < hash_size
  pub time : E → ℕ

-- The bucket array, the element count, and the static `CullIndex` of the insertion.
pub record Table (E : Type 0) : Type 0 where
  pub chains : ℕ → List E
  pub count : ℕ
  pub cull_index : ℕ

abbrev pub empty : {E : Type 0} → Table E
empty = record { chains = λ _. []; count = 0; cull_index = 0 }

module _ {E K : Type 0} (keying : Keying E K) where
  open keying use {key, same, hash, time}

  -- The state of a table whose chain at `i` becomes `c`, with `n` elements in all.
  abbrev pub put_chain : Table E → ℕ → List E → ℕ → Table E
  put_chain t i c n = record t { chains = update t.chains i c; count = n }

  -- Walk the key's chain; take the first match off and count it out.
  unfoldable pub lookup : K → Table E → Option E × Table E
  lookup k t = elim (unlink (same k) (t.chains (hash k))) [
    | none ↦ (none, t)
    | some (e, rest) ↦ (some e, put_chain t (hash k) rest (t.count - 1))
  ]

  -- `new->next = table [hashval]; table [hashval] = new; count++`
  unfoldable pub push : E → Table E → Table E
  push e t = let i = hash (key e) in put_chain t i (e ∷ t.chains i) (t.count + 1)

  -- What `assert (old != NULL)` lets through.
  abbrev pub assert_found : Option E × Table E → Option (Table E)
  assert_found (none, t) = none
  assert_found (some old, t) = some t

  -- One round of the culling loop, at the node `e`: a stale key is looked up, which removes it.
  unfoldable pub cull_one : (threshold : ℕ) → E → Table E → Option (Table E)
  unfolding lookup
  cull_one threshold e t =
      if ltb (time e) threshold then assert_found (lookup (key e) t) else some t

  -- The culling loop, over the nodes still to visit. `none` is a failed assertion.
  unfoldable pub cull : (threshold : ℕ) → List E → Table E → Option (Table E)
  unfolding cull_one
  cull threshold [] t = some t
  cull threshold (e ∷ rest) t = cull_one threshold e t >>= cull threshold rest

  -- `CullIndex = (CullIndex + 1) % HASHSIZE`
  unfoldable pub advance : Table E → Table E
  advance t = record t { cull_index = (t.cull_index + 1) % hash_size }

  -- The whole insertion at the time `now`: push, cull the bucket at `CullIndex`, advance it.
  unfoldable pub insert : (now : ℕ) → E → Table E → Option (Table E)
  unfolding push cull advance
  insert now e t =
      let t₁ = push e t in
      cull (sub32 now max_age) (t₁.chains t₁.cull_index) t₁ >>= (λ t₂. some (advance t₂))

  -- Every entry stands in its key's bucket, the count is that of the entries, and the culling
  -- index is one of the buckets.
  pub record IsValid (t : Table E) : Type 0 where
    pub placed : (i : ℕ) → All (λ e. hash (key e) ≡ i) (t.chains i)
    pub counted : t.count ≡ total hash_size t.chains
    pub in_range : t.cull_index < hash_size
