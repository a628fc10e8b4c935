-- ===== src/Table/Keep.antt =====
-- The operations keep a table well formed.
use nfsdump.Prelude.{
  ℕ, zero, suc, sym, All-update, ◌+◌, ◌-◌, ◌<◌, ◌≡◌, refl, Option, List, [], ◌∷◌, total,
  total-update, All, length, arith,
}
use nfsdump.Table.Chain.{All-Unlinks, length-Unlinks}
use nfsdump.Table.View.{Looked, missing, taken, lookup-Looked}
use nfsdump.Table.{Table, Keying, put_chain, hash_size, empty, lookup, push, IsValid}

total-nothing : (E : Type 0) (n : ℕ) → total {A = E} n (λ _. []) ≡ 0
unfolding total
total-nothing E zero = refl
total-nothing E (suc n) = omega (arith, total-nothing E n)

module _ {E K : Type 0} (keying : Keying E K) where
  open keying use {key, same, same_iff, hash, hash_lt, time}

  pub empty-IsValid : IsValid keying empty
  empty-IsValid = record {
    placed = λ _. tt;
    counted = sym (total-nothing E hash_size);
    in_range = omega arith;
  }

  -- One bucket replaced by a chain of its own entries, counted.
  put_chain-IsValid :
      (t : Table E) (i : ℕ) (c : List E) (n : ℕ)
      → IsValid keying t
      → i < hash_size
      → All (λ e. hash (key e) ≡ i) c
      → n + length (t.chains i) ≡ t.count + length c
      → IsValid keying (put_chain keying t i c n)
  put_chain-IsValid t i c n v lt home count = record {
    placed = All-update (λ j e. hash (key e) ≡ j) t.chains i c home v.placed;
    counted = omega (arith, total-update hash_size i t.chains c lt, v.counted);
    in_range = v.in_range;
  }

  Looked-IsValid :
      {k : K} {t : Table E} {r : Option E × Table E}
      → IsValid keying t
      → Looked keying k t r
      → IsValid keying r.1
  Looked-IsValid v (missing _) = v
  Looked-IsValid {k} {t} v (taken {rest = c} u) =
      put_chain-IsValid t (hash k) c (t.count - 1) v (hash_lt k)
        (All-Unlinks (same k) (λ e. hash (key e) ≡ hash k) u (v.placed (hash k)))
        (omega (
          arith,
          length-Unlinks (same k) u,
          total-update hash_size (hash k) t.chains [] (hash_lt k),
          v.counted,
        ))

  -- A lookup in a well-formed table leaves it well formed, found or not: every entry is in its
  -- key's bucket, and the count is that of the entries.
  pub lookup-IsValid :
      (k : K) (t : Table E) → IsValid keying t → IsValid keying (lookup keying k t).1
  lookup-IsValid k t v = Looked-IsValid v (lookup-Looked keying k t)

  pub push-IsValid : (e : E) (t : Table E) → IsValid keying t → IsValid keying (push keying e t)
  unfolding push
  push-IsValid e t v =
      put_chain-IsValid t (hash (key e)) (e ∷ t.chains (hash (key e))) (t.count + 1) v
        (hash_lt (key e)) (refl, v.placed (hash (key e))) (omega arith)
