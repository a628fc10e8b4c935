-- ===== src/Nfs2/Sizes.antt =====
-- How many words the structures of nfsdump2/nfs_v2.c take, and how far they read.
use nfsdump.Nfs2.{
  print_nfstime2, fattr2_text, print_fattr2, print_sattr2, print_opaque, sattr2_text, set_field,
  set_time,
}
use nfsdump.Nfs3.Wire.{words_text}
use nfsdump.Prelude.{
  ℕ, ◌+◌, ◌≤◌, refl, Bool, none, some, ltb, String, ◌++◌, [], ◌∷◌, if◌then◌else◌, arith,
}
use nfsdump.Print.Fixed.{Fixed, Gives, test-Fixed, Fixed-Gives}
use nfsdump.Print.{emit, lit, when_printing, quiet, dropped}

module _ (word : ℕ → ℕ) (e : ℕ) (print : Bool) where
  nfstime2-reach : (j : ℕ) → (dropped (print_nfstime2 word e print (some j))).reach ≤ j + 2
  unfolding print_nfstime2
  nfstime2-reach j = ground arith

  fattr2_text-reach : (i : ℕ) → (fattr2_text word e print i).reach ≤ i + 17
  unfolding fattr2_text
  fattr2_text-reach i =
      omega (arith, nfstime2-reach (i + 11), nfstime2-reach (i + 13), nfstime2-reach (i + 15))

  pub fattr2-Fixed : Fixed e 17 17 (print_fattr2 word e print)
  unfolding print_fattr2
  fattr2-Fixed =
      test-Fixed 17 17 (λ i. if print then fattr2_text word e print i else quiet) (omega arith)
        (omega arith) (λ i. ground (arith, fattr2_text-reach i)) (λ i h. ground arith)
        (λ i h. ground arith) refl

  pub opaque-Fixed : (n : ℕ) → Fixed e n n (print_opaque word e print n)
  unfolding print_opaque
  opaque-Fixed n =
      test-Fixed n n
        (λ i.
          emit (when_printing print (words_text word e print i n ++ lit " " ∷ []))
            (if print then i + n else 0))
        (omega arith) (omega arith) (λ i. ground arith) (λ i h. ground arith) (λ i h. ground arith)
        refl

  field-reach : (j : ℕ) (label : String) → (set_field word e print j label).reach ≤ j + 1
  field-reach j label = ground arith

  time-reach : (j : ℕ) (label : String) → (set_time word e print j label).reach ≤ j + 2
  time-reach j label = ground (arith, nfstime2-reach j)

  sattr2_text-reach : (i : ℕ) → (sattr2_text word e print i).reach ≤ i + 8
  unfolding sattr2_text
  sattr2_text-reach i = omega (
    arith,
    field-reach i "mode ",
    field-reach (i + 1) "uid ",
    field-reach (i + 2) "gid ",
    field-reach (i + 3) "size ",
    time-reach (i + 4) "atime ",
    time-reach (i + 6) "mtime ",
  )

  -- `print_fattr2` at a word of the payload: it returns the pointer 17 words on exactly when all of
  -- them are captured, and has then read none past them; otherwise it returns NULL.
  pub fattr2-Gives :
      (i : ℕ)
      → Gives
          (if ltb e (i + 17) then e + 1 else i + 17)
          (if ltb e (i + 17) then none else some (i + 17))
          (print_fattr2 word e print (some i))
  fattr2-Gives i = Fixed-Gives i fattr2-Fixed

  -- `print_sattr2`, with its eight words captured, reads no further than them and returns its own
  -- argument, not the pointer past them.
  pub sattr2-stays :
      (i : ℕ) → i + 8 ≤ e → Gives (i + 8) (some i) (print_sattr2 word e print (some i))
  unfolding print_sattr2
  sattr2-stays i h = record {
    emitted = if print then sattr2_text word e print i else quiet;
    result = ground arith;
    within = ground (arith, sattr2_text-reach i);
  }
