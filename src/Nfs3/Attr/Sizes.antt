-- ===== src/Nfs3/Attr/Sizes.antt =====
-- How many words the attributes of nfsdump2/nfs_v3.c take, and how far they read.
use nfsdump.Prelude.{
  ℕ, ◌+◌, ◌≤◌, ◌≡◌, Bool, false, String, List, arith, refl, inl, inr, Bool-cases, ltb,
  if◌then◌else◌, none, some,
}
use nfsdump.Nfs3.Attr.{
  unless_past, plain_label, numbered_label, fattr3_fields, print_fattr3, print_fattr3_p,
  print_pre_op_attr3,
}
use nfsdump.Nfs3.Wire.Sizes.{uint32-Fixed, uint64-Fixed, nfstime3-Fixed}
use nfsdump.Print.Fixed.{Fixed, Gives, Fixed-Gives, Fixed-then, say-Fixed}
use nfsdump.Print.{Item, Printer, quiet, ◌⟫◌}

not_past : (e i : ℕ) → i ≤ e → ltb e i ≡ false
not_past e i h = ground arith

unless_past-Fixed :
    {e size need : ℕ} {f : Printer} → Fixed e size need f → Fixed e size need (unless_past e f)
unless_past-Fixed {e} v = record {
  need_le = v.need_le;
  size_le = v.size_le;
  whole = λ i h. rw (not_past e i (omega arith)) (v.whole i h);
  short = λ i h. elim (Bool-cases (ltb e i)) [
    | inl past ↦ rw past (record { emitted = quiet; result = refl; within = omega arith })
    | inr within ↦ rw within (v.short i h)
  ];
  on_null = record { emitted = quiet; result = refl; within = omega arith };
}

-- A sequence of fields.
infixl 20 ◌⨾◌
abbrev ◌⨾◌ :
    {e n need m need' : ℕ} {f g : Printer}
    → Fixed e n need f
    → Fixed e m need' g
    → Fixed e (n + m) (n + need') (f ⟫ g)
v ⨾ w = Fixed-then v w

module _ (word : ℕ → ℕ) (e : ℕ) (print : Bool) where
  fattr3_fields-Fixed :
      (label : String → List Item) → Fixed e 21 21 (fattr3_fields word e print label)
  unfolding fattr3_fields
  fattr3_fields-Fixed label =
      let u32 = λ (t : List Item). say-Fixed print t (uint32-Fixed word e print) in
      let u64 = λ (t : List Item). say-Fixed print t (uint64-Fixed word e print) in
      let time = λ (t : List Item). say-Fixed print t (nfstime3-Fixed word e print) in
      u32 (label "ftype")
      ⨾ u32 (label "mode")
      ⨾ u32 (label "nlink")
      ⨾ u32 (label "uid")
      ⨾ u32 (label "gid")
      ⨾ u64 (label "size")
      ⨾ u64 (label "used")
      ⨾ u32 (label "rdev")
      ⨾ u32 (label "rdev2")
      ⨾ u64 (label "fsid")
      ⨾ u64 (label "fileid")
      ⨾ time (label "atime")
      ⨾ time (label "mtime")
      ⨾ time (label "ctime")

  pub fattr3-Fixed : Fixed e 21 21 (print_fattr3 word e print)
  unfolding print_fattr3
  fattr3-Fixed = unless_past-Fixed (fattr3_fields-Fixed plain_label)

  pub fattr3_p-Fixed : (num : ℕ) → Fixed e 21 21 (print_fattr3_p word e print num)
  unfolding print_fattr3_p
  fattr3_p-Fixed num = unless_past-Fixed (fattr3_fields-Fixed (numbered_label num))

  pub pre_op_attr3-Fixed : Fixed e 6 6 (print_pre_op_attr3 word e print)
  unfolding print_pre_op_attr3
  pre_op_attr3-Fixed = unless_past-Fixed (
      say-Fixed print _ (uint64-Fixed word e print)
      ⨾ say-Fixed print _ (nfstime3-Fixed word e print)
      ⨾ say-Fixed print _ (nfstime3-Fixed word e print))

  -- `print_fattr3` at a word of the payload: it returns the pointer 21 words on exactly when all of
  -- them are captured, and has then read none past them; otherwise it returns NULL, having read at
  -- most the one word past the captured ones.
  pub fattr3-Gives :
      (i : ℕ)
      → Gives
          (if ltb e (i + 21) then e + 1 else i + 21)
          (if ltb e (i + 21) then none else some (i + 21))
          (print_fattr3 word e print (some i))
  fattr3-Gives i = Fixed-Gives i fattr3-Fixed
