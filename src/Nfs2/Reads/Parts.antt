-- ===== src/Nfs2/Reads/Parts.antt =====
-- How far the printers of nfsdump2/nfs_v2.c read that take a known number of words.
use nfsdump.Nfs2.Sizes.{opaque-Fixed, fattr2-Fixed, sattr2-stays}
use nfsdump.Nfs2.{
  print_fh2, print_cookie2, print_sattr2, print_fattr2, print_statfsokres2, print_diropokres2,
}
use nfsdump.Nfs3.Wire.Sizes.{uint32-Fixed}
use nfsdump.Nfs3.Wire.{print_uint32}
use nfsdump.Prelude.{ℕ, ◌+◌, true, some, String, ltb, arith, inl, inr, Bool-cases}
use nfsdump.Print.Near.{Bounded, Any, Is, Gives-some, ◌▷◌, say-Bounded, Fixed-Any, Fixed-Is}

module _ (word : ℕ → ℕ) (e : ℕ) where
  pub fh2-Bounded :
      (s : String) (j : ℕ) → Bounded (e + 1) (Is j) (Is (j + 8)) (print_fh2 word e true s)
  unfolding print_fh2
  fh2-Bounded s j = say-Bounded true _ ▷ Fixed-Is j (opaque-Fixed word e true 8)

  pub u32-Bounded : Bounded (e + 1) Any Any (print_uint32 word e true)
  u32-Bounded = Fixed-Any (uint32-Fixed word e true)

  pub cookie2-Bounded : Bounded (e + 1) Any Any (print_cookie2 word e true)
  unfolding print_cookie2
  cookie2-Bounded = say-Bounded true _ ▷ Fixed-Any (opaque-Fixed word e true 1)

  pub fattr2-Bounded : {P : ℕ → Type 0} → Bounded (e + 1) P Any (print_fattr2 word e true)
  fattr2-Bounded = Fixed-Any (fattr2-Fixed word e true)

  pub sattr2-Bounded : Bounded (e + 1) Any Any (print_sattr2 word e true)
  unfolding print_sattr2
  sattr2-Bounded = record {
    on_null = omega arith;
    on_word = λ i any. elim (Bool-cases (ltb e (i + 8))) [
      | inl short ↦ rw short (omega arith)
      | inr fits ↦
          Gives-some Any (print_sattr2 word e true (some i)) (ground arith) tt
            (sattr2-stays word e true i (ground arith))
    ];
  }

  pub statfs2-Bounded : {P : ℕ → Type 0} → Bounded (e + 1) P Any (print_statfsokres2 word e true)
  unfolding print_statfsokres2
  statfs2-Bounded = record {
    on_null = omega arith;
    on_word = λ i any. elim (Bool-cases (ltb e (i + 5))) [
      | inl short ↦ rw short (omega arith)
      | inr fits ↦ rw fits (ground arith, tt)
    ];
  }

  pub diropok2-Bounded : (j : ℕ) → Bounded (e + 1) (Is j) Any (print_diropokres2 word e true)
  unfolding print_diropokres2
  diropok2-Bounded j = record {
    on_null = omega arith;
    on_word = λ i at. elim (Bool-cases (ltb e i)) [
      | inl past ↦ rw past (omega arith)
      | inr within ↦ rw within ((fh2-Bounded "fh" j ▷ fattr2-Bounded).on_word i at)
    ];
  }
