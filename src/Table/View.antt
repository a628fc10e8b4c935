-- ===== src/Table/View.antt =====
-- The abstract view of a table: for each key, the entries held under it, the newest first. A push
-- is a cons on that stack, and a lookup is a pop.
use mathlib.Core.List.{head?, tail}
use nfsdump.Prelude.{
  ℕ, ◌-◌, ◌≡◌, ◌≢◌, refl, sym, ap, ◌∙◌, true, false, Option, none, some, List, ◌∷◌, inl, inr,
  Bool-cases, if◌then◌else◌, update, All, keep, keep_none, arith, ==→eq,
}
use nfsdump.Table.Chain.{Unlinks, Search, unlink-Search, keep-Unlinks, keep-Unlinks_other}
use nfsdump.Table.{Table, Keying, put_chain, lookup, push}

pub update_same : {A : Type 0} (f : ℕ → A) (i : ℕ) (a : A) → update f i a i ≡ a
update_same f i a = ground arith

module _ {E K : Type 0} (keying : Keying E K) where
  open keying use {key, same, same_iff, hash}

  unfoldable pub view : Table E → K → List E
  view t k = keep (same k) (t.chains (hash k))

  -- What a lookup may return: nothing, with no match in the chain; or the first match, unlinked.
  pub data Looked (k : K) (t : Table E) : Option E × Table E → Type 0 where
    missing : All (λ e. same k e ≡ false) (t.chains (hash k)) → Looked k t (none, t)
    taken :
        {e : E} {rest : List E}
        → Unlinks (same k) e (t.chains (hash k)) rest
        → Looked k t (some e, put_chain keying t (hash k) rest (t.count - 1))

  Search-Looked :
      (k : K) (t : Table E) {o : Option (E × List E)}
      → Search (same k) (t.chains (hash k)) o
      → Looked k t (elim o [
        | none ↦ (none, t)
        | some (e, rest) ↦ (some e, put_chain keying t (hash k) rest (t.count - 1))
      ])
  Search-Looked k t (Search.failed a) = missing a
  Search-Looked k t (Search.found u) = taken u

  pub lookup-Looked : (k : K) (t : Table E) → Looked k t (lookup keying k t)
  unfolding lookup
  lookup-Looked k t = Search-Looked k t (unlink-Search (same k) (t.chains (hash k)))

  -- Distinct keys match no common entry.
  pub same_apart : (k q : K) → q ≢ k → (e : E) → same k e ≡ true → same q e ≡ false
  same_apart k q ne e h = elim (Bool-cases (same q e)) [
    | inr no_match ↦ no_match
    | inl h' ↦ absurd (ne (sym ((same_iff q e).0 h') ∙ (same_iff k e).0 h))
  ]

  -- A result of a lookup, seen through `view`: a pop at the key, and no change elsewhere.
  pub record Pops (k : K) (t : Table E) (r : Option E × Table E) : Type 0 where
    pub newest : r.0 ≡ head? (view t k)
    pub popped : view r.1 k ≡ tail (view t k)
    pub others : (q : K) → q ≢ k → view r.1 q ≡ view t q

  Looked-Pops : {k : K} {t : Table E} {r : Option E × Table E} → Looked k t r → Pops k t r
  unfolding view
  Looked-Pops {k} {t} (missing a) =
      let nothing = keep_none (same k) (t.chains (hash k)) a in
      record { newest = rw nothing; popped = rw nothing; others = λ q ne. refl }
  Looked-Pops {k} {t} (taken {e = e} {rest = c} u) =
      let first = keep-Unlinks (same k) u in
      record {
        newest = rw first;
        popped = rw (update_same t.chains (hash k) c, first);
        others = λ q ne. ground (arith, keep-Unlinks_other (same k) (same q) (same_apart k q ne) u);
      }

  pub lookup-Pops : (k : K) (t : Table E) → Pops k t (lookup keying k t)
  lookup-Pops k t = Looked-Pops (lookup-Looked k t)

  -- A lookup returns the newest entry under its key, if there is one, and takes just it away; the
  -- entries under any other key stay.
  pub lookup-view :
      (k q : K) (t : Table E)
      → q ≢ k
      → ((lookup keying k t).0 ≡ head? (view t k))
        × (view (lookup keying k t).1 k ≡ tail (view t k))
        × (view (lookup keying k t).1 q ≡ view t q)
  lookup-view k q t ne = let pops = lookup-Pops k t in (pops.newest, pops.popped, pops.others q ne)

  -- A push makes the entry the newest under its key, and leaves every other key's entries alone.
  pub view-push :
      (e : E) (t : Table E) (q : K)
      → view (push keying e t) q ≡ (if same q e then e ∷ view t q else view t q)
  unfolding push view keep
  view-push e t q =
      ground (
        arith,
        λ (h : same q e ≡ true). ap hash ((same_iff q e).0 h),
        ==→eq (hash q) (hash (key e)),
      )
