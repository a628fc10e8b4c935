-- ===== src/Nfs3/Resp/Reads/Parts.antt =====
-- How far the parts of a response of nfsdump2/nfs_v3.c read.
use mathlib.Core.Path.{subst}
use nfsdump.Nfs3.Attr.Sizes.{fattr3-Fixed}
use nfsdump.Nfs3.Attr.Wcc.{wcc_data3-safe}
use nfsdump.Nfs3.Attr.{unless_past, flagged, print_fattr3, print_post_op_attr3, print_wcc_data3}
use nfsdump.Nfs3.Wire.Sizes.{uint32-Fixed}
use nfsdump.Nfs3.Wire.{print_uint32, print_stable3}
use nfsdump.Prelude.{
  ℕ, ◌+◌, ◌≤◌, ◌≡◌, ◌⊎◌, refl, Bool, true, false, Option, none, some, [], ltb, ◌==◌, if◌then◌else◌,
  arith, inl, inr, Bool-cases,
}
use nfsdump.Print.Fixed.{Fixed, Gives}
use nfsdump.Print.Near.{
  Near, Bounded, Any, Is, Gives-some, Gives-none, after-Near, widen, Fixed-Any, Fixed-Is,
}
use nfsdump.Print.{Printer, Step, emit, quiet, step}

module _ (word : ℕ → ℕ) (e : ℕ) where
  pub fixed :
      {size need : ℕ} {P : ℕ → Type 0} {f : Printer} → Fixed e size need f → Bounded (e + 2) P Any f
  fixed v = widen (omega arith) (Fixed-Any v)

  pub u32-Bounded : {P : ℕ → Type 0} → Bounded (e + 2) P Any (print_uint32 word e true)
  u32-Bounded = fixed (uint32-Fixed word e true)

  pub stable3-Bounded : Bounded (e + 2) Any Any (print_stable3 word e true)
  unfolding print_stable3
  stable3-Bounded = record {
    on_null = omega arith;
    on_word = λ i any. elim (Bool-cases (ltb i e)) [
      | inl inside ↦ rw inside (ground arith, tt)
      | inr past ↦ rw past (omega arith)
    ];
  }

  if-Near :
      (Q : ℕ → Type 0) (s r : Step) (c : Bool)
      → (c ≡ true → Near (e + 2) Q s)
      → (c ≡ false → Near (e + 2) Q r)
      → Near (e + 2) Q (if c then s else r)
  if-Near Q s r true h h' = h refl
  if-Near Q s r false h h' = h' refl

  -- The field behind a flag at `j`, printed if the flag is set.
  pub flagged-Bounded :
      (print : Bool) (j : ℕ) {Q : ℕ → Type 0} {f : Printer}
      → ((word j == 0) ≡ true → Q (j + 1))
      → ((word j == 0) ≡ false → Bounded (e + 2) (Is (j + 1)) Q f)
      → Bounded (e + 2) (Is j) Q (unless_past e (flagged word e print f))
  flagged-Bounded print j {Q} {f} skipped v = record {
    on_null = omega arith;
    on_word = λ i at. rw at (elim (Bool-cases (ltb e j)) [
      | inl past ↦ rw past (omega arith)
      | inr within ↦ rw within (
          after-Near (e + 2) Q (emit [] (j + 1)) _ (ground arith) (
            if-Near Q (step (some (j + 1)) quiet) (f (some (j + 1))) (word j == 0)
              (λ z. (omega arith, skipped z)) (λ s. (v s).on_word (j + 1) refl)))
    ]);
  }

  pub any_flagged-Bounded :
      (print : Bool) {P : ℕ → Type 0} {f : Printer}
      → Bounded (e + 2) Any Any f
      → Bounded (e + 2) P Any (unless_past e (flagged word e print f))
  any_flagged-Bounded print {P} {f} v = record {
    on_null = omega arith;
    on_word = λ i p. elim (Bool-cases (ltb e i)) [
      | inl past ↦ rw past (omega arith)
      | inr within ↦ rw within (
          after-Near (e + 2) Any (emit [] (i + 1)) _ (ground arith) (
            if-Near Any (step (some (i + 1)) quiet) (f (some (i + 1))) (word i == 0)
              (λ z. (omega arith, tt)) (λ s. v.on_word (i + 1) tt)))
    ];
  }

  pub post_op-Bounded :
      (print : Bool) {P : ℕ → Type 0} → Bounded (e + 2) P Any (print_post_op_attr3 word e print)
  unfolding print_post_op_attr3
  post_op-Bounded print = any_flagged-Bounded print (fixed (fattr3-Fixed word e print))

  -- Where the attributes that begin a response end.
  abbrev pub after_attr : ℕ
  after_attr = if word 0 == 0 then 1 else 22

  pub post_op-Is : Bounded (e + 2) (Is 0) (Is after_attr) (print_post_op_attr3 word e false)
  unfolding print_post_op_attr3
  post_op-Is =
      flagged-Bounded false 0 (λ z. ground arith)
        (λ s.
          let at : 22 ≡ after_attr = ground arith in
          subst (λ k. Bounded (e + 2) (Is 1) (Is k) (print_fattr3 word e false)) at
            (widen (omega arith) (Fixed-Is 1 (fattr3-Fixed word e false))))

  pub wcc-Bounded :
      (word 0 ≡ 0) ⊎ (7 ≤ e) → Bounded (e + 2) (Is 0) Any (print_wcc_data3 word e true)
  unfolding print_wcc_data3
  wcc-Bounded intact = record {
    on_null = omega arith;
    on_word = λ i at.
        rw at (let (q, v) = wcc_data3-safe word e true 0 (omega arith) (regroup intact) in go q v);
  }
    where
      regroup : (word 0 ≡ 0) ⊎ (7 ≤ e) → (word 0 ≡ 0) ⊎ (0 + 7 ≤ e)
      regroup h = h

      go :
          (q : Option ℕ)
          → Gives (e + 2) q (print_wcc_data3 word e true (some 0))
          → Near (e + 2) Any (print_wcc_data3 word e true (some 0))
      go none v = Gives-none Any (print_wcc_data3 word e true (some 0)) (omega arith) v
      go (some k) v = Gives-some Any (print_wcc_data3 word e true (some 0)) (omega arith) tt v
