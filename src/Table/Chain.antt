-- ===== src/Table/Chain.antt =====
-- One chain: the search loop that the two lookup functions share, which unlinks the first node
-- that matches by writing through `prev_p`.
use mathlib.Core.Path.{subst}
use nfsdump.Prelude.{
  suc, ◌≡◌, refl, ap, Bool, true, false, Option, none, some, List, [], ◌∷◌, ◌++◌, if◌then◌else◌,
  inl, inr, Bool-cases, length, All, keep, append_assoc, arith,
}

module _ {E : Type 0} where
  -- The first element that passes the test, and the chain without it.
  unfoldable pub unlink : (E → Bool) → List E → Option (E × List E)
  unlink p [] = none
  unlink p (e ∷ c) =
      if p e
      then some (e, c)
      else elim (unlink p c) [ none ↦ none | some (x, c') ↦ some (x, e ∷ c') ]

module _ {E : Type 0} (p : E → Bool) where
  -- `Unlinks e c c'`: `e` is the first element of `c` that passes, and `c'` is the rest.
  pub data Unlinks : E → List E → List E → Type 0 where
    hit : {e : E} {c : List E} → p e ≡ true → Unlinks e (e ∷ c) c
    miss : {e x : E} {c c' : List E} → p x ≡ false → Unlinks e c c' → Unlinks e (x ∷ c) (x ∷ c')

  -- What a search of `c` may return.
  pub data Search : List E → Option (E × List E) → Type 0 where
    failed : {c : List E} → All (λ x. p x ≡ false) c → Search c none
    found : {e : E} {c c' : List E} → Unlinks e c c' → Search c (some (e, c'))

  miss-Search :
      {x : E} {c : List E} {o : Option (E × List E)}
      → p x ≡ false
      → Search c o
      → Search (x ∷ c) (elim o [ none ↦ none | some (e, c') ↦ some (e, x ∷ c') ])
  miss-Search m (failed a) = failed (m, a)
  miss-Search m (found u) = found (miss m u)

  pub unlink-Search : (c : List E) → Search c (unlink p c)
  unfolding unlink
  unlink-Search [] = failed tt
  unlink-Search (x ∷ c) = elim (Bool-cases (p x)) [
    | inl h ↦ rw h (found (hit h))
    | inr m ↦ rw m (miss-Search m (unlink-Search c))
  ]

  found-Unlinks : {e : E} {c c' : List E} → Search c (some (e, c')) → Unlinks e c c'
  found-Unlinks (found u) = u

  failed-Misses : {c : List E} → Search c none → All (λ x. p x ≡ false) c
  failed-Misses (failed a) = a

  pub unlink-Unlinks :
      (c : List E) {e : E} {c' : List E} → unlink p c ≡ some (e, c') → Unlinks e c c'
  unlink-Unlinks c h = found-Unlinks (subst (Search c) h (unlink-Search c))

  pub unlink-Misses : (c : List E) → unlink p c ≡ none → All (λ x. p x ≡ false) c
  unlink-Misses c h = failed-Misses (subst (Search c) h (unlink-Search c))

  pub keep-Unlinks : {e : E} {c c' : List E} → Unlinks e c c' → keep p c ≡ e ∷ keep p c'
  unfolding keep
  keep-Unlinks (hit h) = rw h
  keep-Unlinks (miss m u) = rw m (keep-Unlinks u)

  -- A test that fails wherever `p` passes does not see the change.
  pub keep-Unlinks_other :
      (q : E → Bool)
      → ((x : E) → p x ≡ true → q x ≡ false)
      → {e : E} {c c' : List E} → Unlinks e c c'
      → keep q c' ≡ keep q c
  unfolding keep
  keep-Unlinks_other q apart (hit {e = e} h) = rw (apart e h)
  keep-Unlinks_other q apart (miss {x = x} m u) = ground (arith, keep-Unlinks_other q apart u)

  pub length-Unlinks : {e : E} {c c' : List E} → Unlinks e c c' → length c ≡ suc (length c')
  length-Unlinks (hit h) = refl
  length-Unlinks (miss m u) = ap suc (length-Unlinks u)

  pub passes : {e : E} {c c' : List E} → Unlinks e c c' → p e ≡ true
  passes (hit h) = h
  passes (miss m u) = passes u

  pub All-Unlinks {κ} :
      (P : E → Type κ) {e : E} {c c' : List E} → Unlinks e c c' → All P c → All P c'
  All-Unlinks P (hit h) a = a.1
  All-Unlinks P (miss m u) a = (a.0, All-Unlinks P u a.1)

  pub Unlinks-All {κ} : (P : E → Type κ) {e : E} {c c' : List E} → Unlinks e c c' → All P c → P e
  Unlinks-All P (hit h) a = a.0
  Unlinks-All P (miss m u) a = Unlinks-All P u a.1

  -- An element that passes makes the search succeed, and what follows that element stays.
  pub unlink-through :
      (before : List E) (e : E) (after : List E)
      → p e ≡ true
      → (x : E) × (front : List E) × (unlink p (before ++ e ∷ after) ≡ some (x, front ++ after))
  unfolding unlink
  unlink-through [] e after h = (e, [], rw h)
  unlink-through (y ∷ before) e after h =
      let (x, front, eq) = unlink-through before e after h in
      elim (Bool-cases (p y)) [
        | inl here ↦ (y, before ++ e ∷ [], rw (here, append_assoc))
        | inr out ↦ (x, y ∷ front, rw (out, eq))
      ]
