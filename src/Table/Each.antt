-- ===== src/Table/Each.antt =====
-- A property of every entry of a table outlasts the operations.
use mathlib.Core.Path.{subst}
use nfsdump.Prelude.{
  ℕ, ◌≡◌, sym, ap, ◌∙◌, Option, none, some, some-injective, List, [], ◌∷◌, inl, inr, All,
  All-update, ◌>>=◌, Option-cases, Bool-cases, if◌then◌else◌, ltb, sub32,
}
use nfsdump.Table.Chain.{All-Unlinks, Unlinks-All, passes}
use nfsdump.Table.Find.{cull_one-state}
use nfsdump.Table.View.{Looked, missing, taken, lookup-Looked}
use nfsdump.Table.{Table, Keying, max_age, lookup, push, cull_one, cull, advance, insert}

module _ {E K : Type 0} (keying : Keying E K) (P : E → Type 0) where
  open keying use {key, same, same_iff, hash, time}

  abbrev pub Each : Table E → Type 0
  Each t = (i : ℕ) → All P (t.chains i)

  abbrev pub Found : Option E → Type 0
  Found none = Unit {0}
  Found (some e) = P e

  Looked-Each :
      {k : K} {t : Table E} {r : Option E × Table E}
      → Each t
      → Looked keying k t r
      → Found r.0 × Each r.1
  Looked-Each each (missing _) = (tt, each)
  Looked-Each {k} {t} each (taken {rest = c} u) = (
    Unlinks-All (same k) P u (each (hash k)),
    All-update (λ _. P) t.chains (hash k) c (All-Unlinks (same k) P u (each (hash k))) each,
  )

  pub lookup-Each :
      (k : K) (t : Table E) → Each t → Found (lookup keying k t).0 × Each (lookup keying k t).1
  lookup-Each k t each = Looked-Each each (lookup-Looked keying k t)

  Looked-key :
      {k : K} {t : Table E} {r : Option E × Table E}
      → Looked keying k t r
      → (e : E) → r.0 ≡ some e
      → key e ≡ k
  Looked-key (missing _) e h = cc
  Looked-key {k} (taken {e = e'} u) e h =
      subst (λ x. key x ≡ k) (some-injective _ _ h) ((same_iff k e').0 (passes (same k) u))

  -- What a lookup finds has the key.
  pub lookup-key : (k : K) (t : Table E) (e : E) → (lookup keying k t).0 ≡ some e → key e ≡ k
  lookup-key k t = Looked-key (lookup-Looked keying k t)

  pub push-Each : (e : E) (t : Table E) → P e → Each t → Each (push keying e t)
  unfolding push
  push-Each e t new each =
      All-update (λ _. P) t.chains (hash (key e)) _ (new, each (hash (key e))) each

  if-Each : (s t : Table E) → Each s → Each t → (b : _) → Each (if b then s else t)
  if-Each s t h h' b = elim (Bool-cases b) [ inl e ↦ rw e h | inr e ↦ rw e h' ]

  cull-Each :
      (threshold : ℕ) (rest : List E) (t : Table E) {t' : Table E}
      → Each t
      → cull keying threshold rest t ≡ some t'
      → Each t'
  unfolding cull
  cull-Each threshold [] t each h = subst Each (some-injective _ _ h) each
  cull-Each threshold (e ∷ rest) t each h = elim (Option-cases (cull_one keying threshold e t)) [
    | inl failed ↦ cc
    | inr (t₁, ran) ↦
        cull-Each threshold rest t₁
          (subst Each (sym (cull_one-state keying threshold e t ran)) (
            if-Each (lookup keying (key e) t).1 t (lookup-Each (key e) t each).1 each
              (ltb (time e) threshold)))
          (rw ran at h)
  ]

  -- The new entry must have the property as well.
  pub insert-Each :
      (now : ℕ) (e : E) (t : Table E) {t' : Table E}
      → P e
      → Each t
      → insert keying now e t ≡ some t'
      → Each t'
  unfolding insert advance
  insert-Each now e t new each h =
      let t₁ = push keying e t in
      elim (Option-cases (cull keying (sub32 now max_age) (t₁.chains t₁.cull_index) t₁)) [
        | inl failed ↦ absurd (cc)
        | inr (t₂, ran) ↦
            let each₂ =
              cull-Each (sub32 now max_age) (t₁.chains t₁.cull_index) t₁ (push-Each e t new each)
                ran in
            subst Each
              (some-injective _ _ (sym (ap (λ o. o >>= (λ u. some (advance keying u))) ran) ∙ h))
              each₂
      ]
