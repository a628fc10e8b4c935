-- ===== src/Nfs3/Wire/Sizes.antt =====
-- How many words the scalars and times of nfsdump2/nfs_v3.c take, and how far they read.
use nfsdump.Prelude.{ℕ, ◌+◌, ◌/◌, Bool, refl, arith, if◌then◌else◌, [], ◌∷◌}
use nfsdump.Nfs3.Wire.{print_uint32, print_uint64, print_nfstime3, uint64_text}
use nfsdump.Print.Fixed.{Fixed, test-Fixed}
use nfsdump.Print.{emit, when_printing, lit, hex, dec, dec6}

module _ (word : ℕ → ℕ) (e : ℕ) (print : Bool) where
  pub uint32-Fixed : Fixed e 1 0 (print_uint32 word e print)
  unfolding print_uint32
  uint32-Fixed =
      test-Fixed 1 0
        (λ i. emit (when_printing print (hex (word i) ∷ lit " " ∷ [])) (if print then i + 1 else 0))
        (omega arith) (omega arith) (λ i. ground arith) (λ i h. ground arith) (λ i h. ground arith)
        refl

  pub uint64-Fixed : Fixed e 2 1 (print_uint64 word e print)
  unfolding print_uint64
  uint64-Fixed =
      test-Fixed 2 1
        (λ i.
          emit (when_printing print (uint64_text (word i) (word (i + 1))))
            (if print then i + 2 else 0))
        (omega arith) (omega arith) (λ i. ground arith) (λ i h. ground arith) (λ i h. ground arith)
        refl

  pub nfstime3-Fixed : Fixed e 2 2 (print_nfstime3 word e print)
  unfolding print_nfstime3
  nfstime3-Fixed =
      test-Fixed 2 2
        (λ i.
          emit
            (when_printing print
              (dec (word i) ∷ lit "." ∷ dec6 (word (i + 1) / 1000) ∷ lit " " ∷ []))
            (if print then i + 2 else 0))
        (omega arith) (omega arith) (λ i. ground arith) (λ i h. ground arith) (λ i h. ground arith)
        refl
