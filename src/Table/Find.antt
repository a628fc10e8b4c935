-- ===== src/Table/Find.antt =====
-- What an insertion does to the entries that later lookups find, culling included.
use mathlib.Core.List.{tail}
use mathlib.Core.Path.{subst}
use nfsdump.Prelude.{
  ℕ, ◌^◌, ◌-◌, ◌<◌, ◌≤◌, ◌==◌, eq→==, ==→eq, ◌≡◌, refl, sym, ap, ◌∙◌, Bool, true, false, ◌&&◌,
  Option, none, some, some-injective, List, [], ltb, ◌∷◌, inl, keep-and, keep_none, All-map, inr,
  All, if◌then◌else◌, ◌>>=◌, arith, Bool-cases, Option-cases, sub32, length, keep, drop,
}
use nfsdump.Table.Cull.{insert-total}
use nfsdump.Table.Keep.{push-IsValid}
use nfsdump.Table.View.{view, view-push, lookup-Pops}
use nfsdump.Table.{
  Table, Keying, max_age, lookup, push, assert_found, cull_one, cull, advance, insert, IsValid,
}

not_ltb : (a b : ℕ) → b ≤ a → ltb a b ≡ false
not_ltb a b h = ground arith

module _ {E K : Type 0} (keying : Keying E K) where
  open keying use {key, same, same_iff, hash, hash_lt, time}

  -- An entry that the loop will look up to cull it, on behalf of the key `k`.
  abbrev pub is_stale : (threshold : ℕ) → K → E → Bool
  is_stale threshold k e = same k e && ltb (time e) threshold

  assert_found-state :
      (r : Option E × Table E) {t' : Table E} → assert_found keying r ≡ some t' → r.1 ≡ t'
  assert_found-state (none, t) h = cc
  assert_found-state (some e, t) h = cc

  pub cull_one-state :
      (threshold : ℕ) (e : E) (t : Table E) {t' : Table E}
      → cull_one keying threshold e t ≡ some t'
      → t' ≡ (if ltb (time e) threshold then (lookup keying (key e) t).1 else t)
  unfolding cull_one
  cull_one-state threshold e t h = ground (arith, assert_found-state (lookup keying (key e) t))

  pub lookup-tail :
      (k : K) (e : E) (t : Table E)
      → view keying (lookup keying (key e) t).1 k
        ≡ (if same k e then tail (view keying t k) else view keying t k)
  lookup-tail k e t = elim (Bool-cases (same k e)) [
    | inl h ↦ rw h (
        subst (λ q. view keying (lookup keying q t).1 k ≡ tail (view keying t k))
          (sym ((same_iff k e).0 h)) (lookup-Pops keying k t).popped)
    | inr m ↦ rw m ((lookup-Pops keying (key e) t).others k (λ p. cc ((same_iff k e).1 (sym p))))
  ]

  cull_one-view :
      (threshold : ℕ) (k : K) (e : E) (t : Table E) {t' : Table E}
      → cull_one keying threshold e t ≡ some t'
      → view keying t' k
        ≡ (if is_stale threshold k e then tail (view keying t k) else view keying t k)
  cull_one-view threshold k e t h =
      rw (cull_one-state threshold e t h) (elim (Bool-cases (ltb (time e) threshold)) [
        | inl s ↦ rw s (ground (arith, lookup-tail k e t))
        | inr f ↦ rw f (ground arith)
      ])

  -- Culling takes from the newest entries of a key as many as it finds stale under that key.
  pub cull-view :
      (threshold : ℕ) (k : K) (rest : List E) (t : Table E) {t' : Table E}
      → cull keying threshold rest t ≡ some t'
      → view keying t' k ≡ drop (length (keep (is_stale threshold k) rest)) (view keying t k)
  unfolding cull keep
  cull-view threshold k [] t h = ap (λ u. view keying u k) (sym (some-injective _ _ h))
  cull-view threshold k (e ∷ rest) t {t'} h = elim (Option-cases (cull_one keying threshold e t)) [
    | inl failed ↦ cc
    | inr (t₁, ran) ↦
        let later = cull-view threshold k rest t₁ (rw ran at h) in
        later
        ∙ ap (drop (length (keep (is_stale threshold k) rest))) (cull_one-view threshold k e t ran)
        ∙ ground arith
  ]

  view-advance : (t : Table E) (k : K) → view keying (advance keying t) k ≡ view keying t k
  unfolding view advance
  view-advance t k = refl

  pub elsewhere :
      (k : K) (i : ℕ) (x : E) → (i == hash k) ≡ false → hash (key x) ≡ i → same k x ≡ false
  elsewhere k i x away home = elim (Bool-cases (same k x)) [
    | inl h ↦ cc (eq→== i (hash k) (sym home ∙ ap hash ((same_iff k x).0 h)))
    | inr m ↦ m
  ]

  -- For any key, an insertion that succeeds leaves the entries that the push left, less as many of the
  -- newest as there are stale entries of that key in the culled bucket.
  pub insert-view :
      (now : ℕ) (e : E) (t : Table E) {t' : Table E} (k : K)
      → insert keying now e t ≡ some t'
      → view keying t' k
        ≡ drop
            (length (
              keep
                (is_stale (sub32 now max_age) k)
                ((push keying e t).chains (push keying e t).cull_index)))
            (view keying (push keying e t) k)
  unfolding insert
  insert-view now e t {t'} k h =
      let t₁ = push keying e t in
      elim (Option-cases (cull keying (sub32 now max_age) (t₁.chains t₁.cull_index) t₁)) [
        | inl failed ↦ absurd (cc)
        | inr (t₂, ran) ↦
            ap (λ u. view keying u k)
              (some-injective _ _ (sym h ∙ ap (λ o. o >>= (λ u. some (advance keying u))) ran))
            ∙ view-advance t₂ k
            ∙ cull-view (sub32 now max_age) k (t₁.chains t₁.cull_index) t₁ ran
      ]

  -- In a well-formed table the stale entries of a key in one bucket are among those in its view.
  stale_in_view :
      (threshold : ℕ) (k : K) (t : Table E) (i : ℕ)
      → IsValid keying t
      → All (λ x. threshold ≤ time x) (view keying t k)
      → keep (is_stale threshold k) (t.chains i) ≡ []
  unfolding view keep
  stale_in_view threshold k t i v fresh =
      keep-and (same k) (λ x. ltb (time x) threshold) (t.chains i)
      ∙ elim (Bool-cases (i == hash k)) [
        | inl here ↦ rw (==→eq i (hash k) here) (
            keep_none (λ x. ltb (time x) threshold) (keep (same k) (t.chains (hash k)))
              (All-map (λ x h. not_ltb (time x) threshold h) _ fresh))
        | inr away ↦ ap (keep (λ x. ltb (time x) threshold)) (
            keep_none (same k) (t.chains i)
              (All-map (λ x h. elsewhere k i x away h) (t.chains i) (v.placed i)))
      ]

  -- In the key's own bucket they are those of its view.
  pub stale_at_home :
      (threshold : ℕ) (k : K) (t : Table E)
      → keep (is_stale threshold k) (t.chains (hash k))
        ≡ keep (λ x. ltb (time x) threshold) (view keying t k)
  unfolding view
  stale_at_home threshold k t = keep-and (same k) (λ x. ltb (time x) threshold) (t.chains (hash k))

  keep_second :
      (threshold : ℕ) (e old : E)
      → ltb (time e) threshold ≡ false
      → ltb (time old) threshold ≡ true
      → keep (λ x. ltb (time x) threshold) (e ∷ old ∷ []) ≡ old ∷ []
  unfolding keep
  keep_second threshold e old h h' = rw (h, h')

  -- The threshold of an insertion at least `max_age` seconds after the epoch.
  pub threshold_lem : (now : ℕ) → max_age ≤ now → now < 2 ^ 32 → sub32 now max_age ≡ now - max_age
  threshold_lem now lo hi = omega arith

  -- Inserting, when no older entry of the same key has aged out: the entry is the newest that
  -- later lookups find, and no older one of its key is lost.
  pub insert-finds :
      (now : ℕ) (e : E) (t : Table E)
      → IsValid keying t
      → max_age ≤ now
      → now < 2 ^ 32
      → time e ≡ now
      → All (λ x. now - max_age ≤ time x) (view keying t (key e))
      → (t' : Table E) × (insert keying now e t ≡ some t')
        × (view keying t' (key e) ≡ e ∷ view keying t (key e))
        × ((lookup keying (key e) t').0 ≡ some e)
  insert-finds now e t v lo hi at_now fresh =
      let (t', ran, _, _) = insert-total keying now e t v in
      let pushed : view keying (push keying e t) (key e) ≡ e ∷ view keying t (key e) =
        view-push keying e t (key e) ∙ rw ((same_iff (key e) e).1 refl) in
      let none_stale =
        stale_in_view (sub32 now max_age) (key e) (push keying e t) (push keying e t).cull_index
          (push-IsValid keying e t v)
          (subst (λ h. All (λ x. h ≤ time x) (view keying (push keying e t) (key e)))
            (sym (threshold_lem now lo hi)) (rw pushed (omega arith, fresh))) in
      let seen = insert-view now e t (key e) ran ∙ rw none_stale pushed in
      (t', ran, seen, (lookup-Pops keying (key e) t').newest ∙ rw seen)

  -- Inserting in the round that culls the key's own bucket, when the key's only older entry has
  -- aged out: the new entry is the one thrown away, and the aged one is what a lookup finds.
  pub insert-loses :
      (now : ℕ) (e old : E) (t : Table E)
      → IsValid keying t
      → max_age ≤ now
      → now < 2 ^ 32
      → time e ≡ now
      → t.cull_index ≡ hash (key e)
      → view keying t (key e) ≡ old ∷ []
      → time old < now - max_age
      → (t' : Table E) × (insert keying now e t ≡ some t')
        × ((lookup keying (key e) t').0 ≡ some old)
  unfolding push
  insert-loses now e old t v lo hi at_now turn one aged =
      let (t', ran, _, _) = insert-total keying now e t v in
      let pushed : view keying (push keying e t) (key e) ≡ e ∷ old ∷ [] =
        view-push keying e t (key e) ∙ rw ((same_iff (key e) e).1 refl, one) in
      let threshold = sub32 now max_age in
      let aims = threshold_lem now lo hi in
      let stale : keep (is_stale threshold (key e)) ((push keying e t).chains t.cull_index)
          ≡ old ∷ [] =
        ap (λ i. keep (is_stale threshold (key e)) ((push keying e t).chains i)) turn
        ∙ stale_at_home threshold (key e) (push keying e t)
        ∙ ap (keep (λ x. ltb (time x) threshold)) pushed
        ∙ keep_second threshold e old (rw aims (ground arith)) (rw aims (ground arith)) in
      let seen : view keying t' (key e) ≡ old ∷ [] =
        insert-view now e t (key e) ran
        ∙ ap (λ n. drop n (view keying (push keying e t) (key e))) (ap length stale)
        ∙ ap tail pushed in
      (t', ran, (lookup-Pops keying (key e) t').newest ∙ rw seen)
