-- ===== src/Table/Cull.antt =====
-- The culling loop of the insertion. It walks the chain while lookups unlink nodes of it; what it
-- has still to visit is never unlinked, so that its saved `next` stays a node of the chain.
use nfsdump.Prelude.{
  ℕ, ◌+◌, ◌-◌, ◌%◌, ◌≡◌, refl, sym, ap, ◌∙◌, Option, none, some, List, [], ltb, ◌∷◌, ◌++◌, inl, inr,
  All, All-append, ◌>>=◌, arith, Bool-cases, append_assoc, sub32,
}
use mathlib.Core.Path.{subst}
use nfsdump.Table.Chain.{unlink, unlink-through}
use nfsdump.Table.Keep.{lookup-IsValid, push-IsValid}
use nfsdump.Table.View.{update_same}
use nfsdump.Table.{
  Table, Keying, put_chain, assert_found, hash_size, max_age, lookup, push, cull_one, cull, advance,
  insert, IsValid,
}

module _ {E K : Type 0} (keying : Keying E K) where
  open keying use {key, same, same_iff, hash, hash_lt, time}

  lookup-cull_index : (k : K) (t : Table E) → (lookup keying k t).1.cull_index ≡ t.cull_index
  unfolding lookup
  lookup-cull_index k t = ground arith

  -- What a round of the loop at a node, with `rest` to visit, leaves in the chain at `i`.
  pub record Visited (i : ℕ) (rest : List E) (t t' : Table E) : Type 0 where
    pub valid : IsValid keying t'
    pub front : List E
    pub intact : t'.chains i ≡ front ++ rest
    pub index : t'.cull_index ≡ t.cull_index

  at_home :
      (t : Table E) (i : ℕ) (before : List E) (e : E) (rest : List E)
      → IsValid keying t
      → t.chains i ≡ before ++ e ∷ rest
      → hash (key e) ≡ i
  at_home t i before e rest v chain =
      (All-append (λ x. hash (key x) ≡ i) before (e ∷ rest)
        (subst (All (λ x. hash (key x) ≡ i)) chain (v.placed i))).1.0

  lookup-found :
      (k : K) (t : Table E) (e : E) (c : List E)
      → unlink (same k) (t.chains (hash k)) ≡ some (e, c)
      → lookup keying k t ≡ (some e, put_chain keying t (hash k) c (t.count - 1))
  unfolding lookup
  lookup-found k t e c h = rw (h, lookup)

  assert_found-some :
      (r : Option E × Table E) (old : E) → r.0 ≡ some old → assert_found keying r ≡ some r.1
  assert_found-some (none, t) old h = cc
  assert_found-some (some e, t) old h = refl

  -- A lookup of a node's own key succeeds, and takes nothing that stands after the node.
  lookup-Visited :
      (t : Table E) (before : List E) (e : E) (rest : List E)
      → IsValid keying t
      → t.chains (hash (key e)) ≡ before ++ e ∷ rest
      → (assert_found keying (lookup keying (key e) t) ≡ some (lookup keying (key e) t).1)
        × Visited (hash (key e)) rest t (lookup keying (key e) t).1
  lookup-Visited t before e rest v chain =
      let (old, front, eq) =
        unlink-through (same (key e)) before e rest ((same_iff (key e) e).1 refl) in
      let found = lookup-found (key e) t old (front ++ rest) (rw chain eq) in
      (
        assert_found-some (lookup keying (key e) t) old (ap (λ r. r.0) found),
        record {
          valid = lookup-IsValid keying (key e) t v;
          front = front;
          intact = ap (λ r. r.1.chains (hash (key e))) found ∙ update_same t.chains _ _;
          index = lookup-cull_index (key e) t;
        },
      )

  cull_one_home :
      (threshold : ℕ) (before : List E) (e : E) (rest : List E) (t : Table E)
      → IsValid keying t
      → t.chains (hash (key e)) ≡ before ++ e ∷ rest
      → (t' : Table E) × (cull_one keying threshold e t ≡ some t')
        × Visited (hash (key e)) rest t t'
  unfolding cull_one
  cull_one_home threshold before e rest t v chain =
      let (some_old, visited) = lookup-Visited t before e rest v chain in
      elim (Bool-cases (ltb (time e) threshold)) [
        | inl stale ↦ ((lookup keying (key e) t).1, rw stale some_old, visited)
        | inr fresh ↦ (
          t,
          rw fresh,
          record {
            valid = v;
            front = before ++ e ∷ [];
            intact = chain ∙ sym (append_assoc before (e ∷ []) rest);
            index = refl;
          },
        )
      ]

  -- One round of the culling loop, at a node of a chain of a well-formed table: the assertion holds,
  -- the table stays well formed, and the nodes after this one, which the loop has still to visit, are
  -- the end of that chain as they were.
  pub cull_one-Visited :
      (threshold i : ℕ) (before : List E) (e : E) (rest : List E) (t : Table E)
      → IsValid keying t
      → t.chains i ≡ before ++ e ∷ rest
      → (t' : Table E) × (cull_one keying threshold e t ≡ some t') × Visited i rest t t'
  cull_one-Visited threshold i before e rest t v chain =
      let home = at_home t i before e rest v chain in
      subst (λ j. (t' : Table E) × (cull_one keying threshold e t ≡ some t') × Visited j rest t t')
        home (cull_one_home threshold before e rest t v (ap t.chains home ∙ chain))

  cull-total :
      (threshold i : ℕ) (before rest : List E) (t : Table E)
      → IsValid keying t
      → t.chains i ≡ before ++ rest
      → (t' : Table E) × (cull keying threshold rest t ≡ some t')
        × IsValid keying t'
        × (t'.cull_index ≡ t.cull_index)
  unfolding cull
  cull-total threshold i before [] t v chain = (t, refl, v, refl)
  cull-total threshold i before (e ∷ rest) t v chain =
      let (t₁, ran, visited) = cull_one-Visited threshold i before e rest t v chain in
      let (t', done, v', index) =
        cull-total threshold i visited.front rest t₁ visited.valid visited.intact in
      (t', ap (λ o. o >>= cull keying threshold rest) ran ∙ done, v', index ∙ visited.index)

  -- The insertion into a well-formed table never fails its assertion, leaves a well-formed table,
  -- and moves the culling index on by one bucket, back to the first after the last.
  pub insert-total :
      (now : ℕ) (e : E) (t : Table E)
      → IsValid keying t
      → (t' : Table E) × (insert keying now e t ≡ some t')
        × IsValid keying t'
        × (t'.cull_index ≡ (t.cull_index + 1) % hash_size)
  unfolding insert push advance
  insert-total now e t v =
      let t₁ = push keying e t in
      let (t₂, ran, v₂, index) =
        cull-total (sub32 now max_age) t.cull_index [] (t₁.chains t.cull_index) t₁
          (push-IsValid keying e t v) refl in
      (
        advance keying t₂,
        ap (λ o. o >>= (λ u. some (advance keying u))) ran,
        record { placed = v₂.placed; counted = v₂.counted; in_range = omega arith },
        rw index,
      )
