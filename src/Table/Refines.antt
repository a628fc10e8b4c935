-- ===== src/Table/Refines.antt =====
-- The table as an abstract machine: a stack of entries for each key, and the culled bucket's index.
use mathlib.Core.List.{head?, tail}
use mathlib.Core.Path.{subst}
use nfsdump.Prelude.{
  ℕ, ◌+◌, ◌%◌, ◌≡◌, refl, sym, ap, ◌∙◌, fun_ext, Bool, true, false, Bool-cases, Option-cases, inl,
  inr, Option, none, some, List, [], ◌∷◌, ◌>>=◌, ltb, ◌==◌, ==→eq, if◌then◌else◌, sub32, length,
  keep, keep-and, keep_none, drop, All-map,
}
use nfsdump.Table.Cull.{insert-total}
use nfsdump.Table.Each.{lookup-key}
use nfsdump.Table.Find.{is_stale, elsewhere, lookup-tail, insert-view, stale_at_home}
use nfsdump.Table.Keep.{lookup-IsValid, push-IsValid}
use nfsdump.Table.View.{Looked, missing, taken, view, view-push, lookup-Looked, lookup-Pops}
use nfsdump.Table.{Table, Keying, IsValid, hash_size, max_age, lookup, push, insert}

-- The newest entry of a key comes first.
pub record Stacks (E K : Type 0) : Type 0 where
  pub at : K → List E
  pub index : ℕ

-- A lookup, or an insertion at a time.
pub data Op (E K : Type 0) : Type 0 where
  look_up : K → Op E K
  put_in : (now : ℕ) → E → Op E K

module _ {E K : Type 0} (keying : Keying E K) where
  open keying use {key, same, same_iff, hash, time}

  abbrev pub stacks : Table E → Stacks E K
  stacks t = record { at = view keying t; index = t.cull_index }

  -- Take the newest entry of a key.
  abbrev pub pop : Option E → Stacks E K → Stacks E K
  pop none σ = σ
  pop (some e) σ = record σ { at = λ q. if same q e then tail (σ.at q) else σ.at q }

  abbrev pub with_entry : E → Stacks E K → K → List E
  with_entry e σ q = if same q e then e ∷ σ.at q else σ.at q

  -- As many of the newest entries as are old.
  abbrev pub without_old : (threshold : ℕ) → List E → List E
  without_old threshold es = drop (length (keep (λ e. ltb (time e) threshold) es)) es

  -- Put an entry on its key's stack; then the stacks of the keys in one bucket lose entries, and the
  -- next bucket is that of the next time.
  abbrev pub put : (now : ℕ) → E → Stacks E K → Stacks E K
  put now e σ = record {
    at = λ q.
        (if σ.index == hash q
          then without_old (sub32 now max_age) (with_entry e σ q)
          else with_entry e σ q);
    index = (σ.index + 1) % hash_size;
  }

  Looked-none :
      {k : K} {t : Table E} {r : Option E × Table E} → Looked keying k t r → r.0 ≡ none → r.1 ≡ t
  Looked-none (missing _) h = refl
  Looked-none (taken u) h = cc

  Looked-index :
      {k : K} {t : Table E} {r : Option E × Table E}
      → Looked keying k t r
      → r.1.cull_index ≡ t.cull_index
  Looked-index (missing _) = refl
  Looked-index (taken u) = refl

  stacks_path : {σ ρ : Stacks E K} → ((q : K) → σ.at q ≡ ρ.at q) → σ.index ≡ ρ.index → σ ≡ ρ
  stacks_path same_at same_index = λ i. record { at = fun_ext same_at i; index = same_index i }

  -- A lookup pops.
  lookup-pop :
      (k : K) (t : Table E) → stacks (lookup keying k t).1 ≡ pop (lookup keying k t).0 (stacks t)
  lookup-pop k t = elim (Option-cases (lookup keying k t).0) [
    | inl nothing ↦ rw nothing (ap stacks (Looked-none (lookup-Looked keying k t) nothing))
    | inr (e, found) ↦ rw found (
        stacks_path
          (λ q.
            subst
              (λ p.
                view keying (lookup keying p t).1 q
                ≡ (if same q e then tail (view keying t q) else view keying t q))
              (lookup-key keying (λ x. Unit {0}) k t e found) (lookup-tail keying q e t))
          (Looked-index (lookup-Looked keying k t)))
  ]

  stale_at :
      (threshold i : ℕ) (k : K) (t : Table E)
      → IsValid keying t
      → keep (is_stale keying threshold k) (t.chains i)
        ≡ (if i == hash k then keep (λ e. ltb (time e) threshold) (view keying t k) else [])
  unfolding keep
  stale_at threshold i k t v = elim (Bool-cases (i == hash k)) [
    | inl here ↦ rw (here, ==→eq i (hash k) here) (stale_at_home keying threshold k t)
    | inr away ↦ rw away (
        keep-and (same k) (λ x. ltb (time x) threshold) (t.chains i)
        ∙ ap (keep (λ x. ltb (time x) threshold)) (
            keep_none (same k) (t.chains i)
              (All-map (λ x h. elsewhere keying k i x away h) (t.chains i) (v.placed i))))
  ]

  if-drop :
      (b : Bool) (old : List E) (es : List E)
      → drop (length (if b then old else [])) es ≡ (if b then drop (length old) es else es)
  if-drop true old es = refl
  if-drop false old es = refl

  push-index : (e : E) (t : Table E) → (push keying e t).cull_index ≡ t.cull_index
  unfolding push
  push-index e t = refl

  -- An insertion into a well-formed table puts.
  insert-put :
      (now : ℕ) (e : E) (t t' : Table E)
      → IsValid keying t
      → insert keying now e t ≡ some t'
      → t'.cull_index ≡ (t.cull_index + 1) % hash_size
      → stacks t' ≡ put now e (stacks t)
  insert-put now e t t' v ran index =
      stacks_path
        (λ q.
          let pushed : view keying (push keying e t) q ≡ with_entry e (stacks t) q =
            view-push keying e t q in
          insert-view keying now e t q ran
          ∙ ap (λ old. drop (length old) (view keying (push keying e t) q))
              (stale_at (sub32 now max_age) (push keying e t).cull_index q (push keying e t)
                  (push-IsValid keying e t v)
                ∙ ap
                    (λ i.
                      if i == hash q
                      then keep (λ x. ltb (time x) (sub32 now max_age))
                          (view keying (push keying e t) q)
                      else [])
                    (push-index e t))
          ∙ if-drop (t.cull_index == hash q)
              (keep (λ x. ltb (time x) (sub32 now max_age)) (view keying (push keying e t) q))
              (view keying (push keying e t) q)
          ∙ ap (λ es. if t.cull_index == hash q then without_old (sub32 now max_age) es else es)
              pushed)
        index

  -- The operations one after the other, with what the lookups return; `none` is a failed assertion.
  unfoldable pub run : List (Op E K) → Table E → Option (List (Option E) × Table E)
  run [] t = some ([], t)
  run (look_up k ∷ ops) t =
      run ops (lookup keying k t).1 >>= (λ (found, t'). some ((lookup keying k t).0 ∷ found, t'))
  run (put_in now e ∷ ops) t = insert keying now e t >>= run ops

  -- The same on the stacks: a lookup returns the newest entry.
  unfoldable pub run_stacks : List (Op E K) → Stacks E K → List (Option E) × Stacks E K
  run_stacks [] σ = ([], σ)
  run_stacks (look_up k ∷ ops) σ =
      let (found, ρ) = run_stacks ops (pop (head? (σ.at k)) σ) in (head? (σ.at k) ∷ found, ρ)
  run_stacks (put_in now e ∷ ops) σ = run_stacks ops (put now e σ)

  -- Any lookups and insertions, from a well-formed table: no assertion fails, the table stays well
  -- formed, and its lookups return what they do on the stacks of its entries, which determine that
  -- together with the culling index, whatever the chains are; at the end the stacks are those of the
  -- table again.
  pub run-stacks :
      (ops : List (Op E K)) (t : Table E)
      → IsValid keying t
      → (found : List (Option E)) × (t' : Table E) × (run ops t ≡ some (found, t'))
        × IsValid keying t'
        × (run_stacks ops (stacks t) ≡ (found, stacks t'))
  unfolding run run_stacks
  run-stacks [] t v = ([], t, refl, v, refl)
  run-stacks (look_up k ∷ ops) t v =
      let (found, t', ran, v', same_run) =
        run-stacks ops (lookup keying k t).1 (lookup-IsValid keying k t v) in
      let newest = (lookup-Pops keying k t).newest in
      (
        (lookup keying k t).0 ∷ found,
        t',
        rw ran refl,
        v',
        ap (λ (x : Option E × Stacks E K). (x.0 ∷ (run_stacks ops x.1).0, (run_stacks ops x.1).1))
              (λ i. (sym newest i, pop (sym newest i) (stacks t)))
            ∙ ap
                (λ (σ : Stacks E K).
                  ((lookup keying k t).0 ∷ (run_stacks ops σ).0, (run_stacks ops σ).1))
                (sym (lookup-pop k t))
            ∙ ap (λ (x : List (Option E) × Stacks E K). ((lookup keying k t).0 ∷ x.0, x.1))
                same_run,
      )
  run-stacks (put_in now e ∷ ops) t v =
      let (t₁, ran, v₁, index) = insert-total keying now e t v in
      let (found, t', later, v', same_run) = run-stacks ops t₁ v₁ in
      (
        found,
        t',
        ap (λ o. o >>= run ops) ran ∙ later,
        v',
        ap (run_stacks ops) (sym (insert-put now e t t₁ v ran index)) ∙ same_run,
      )
