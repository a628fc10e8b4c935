-- ===== src/Nfs3/Attr/Wcc.antt =====
-- `print_wcc_data3` of nfsdump2/nfs_v3.c, whose second flag is read through a pointer that the
-- first half may have made NULL.
use nfsdump.Prelude.{
  ℕ, ◌+◌, ◌≤◌, ◌<◌, ◌≡◌, ◌≢◌, ap, refl, Bool, false, Option, none, some, ltb, ◌==◌, ==→eq,
  if◌then◌else◌, inl, inr, Bool-cases, arith, ◌∙◌, ◌⊎◌, [],
}
use nfsdump.Nfs3.Attr.Sizes.{fattr3-Fixed, pre_op_attr3-Fixed}
use nfsdump.Nfs3.Attr.{print_fattr3, print_pre_op_attr3, post_half, print_wcc_data3, flagged}
use nfsdump.Print.Fixed.{Fixed, Gives, Gives-after, Gives-then, Gives-le, Gives-at}
use nfsdump.Print.{step, segv, quiet, emit, Printer, ◌⊕◌, continue_with, after}

not_past : (e i : ℕ) → i ≤ e → ltb e i ≡ false
not_past e i h = ground arith

not_zero : (n : ℕ) → n ≢ 0 → (n == 0) ≡ false
not_zero n h = ground arith

module _ (word : ℕ → ℕ) (e : ℕ) (print : Bool) where
  -- The words of a flag and of what follows it.
  abbrev pub flagged_words : (i size : ℕ) → ℕ
  flagged_words i size = if word i == 0 then 1 else 1 + size

  enough : (i size : ℕ) → i + flagged_words i size ≤ e → (word i ≡ 0) ⊎ (i + 1 + size ≤ e)
  enough i size h = elim (Bool-cases (word i == 0)) [
    | inl unset ↦ inl (==→eq (word i) 0 unset)
    | inr is_set ↦ inr (ground arith)
  ]

  -- A flag of 0, or a flag and a field of fixed size that is all there.
  flagged-whole :
      {size : ℕ} {f : Printer}
      → Fixed e size size f
      → (i : ℕ) → (word i ≡ 0) ⊎ (i + 1 + size ≤ e)
      → Gives
          (i + flagged_words i size)
          (some (i + flagged_words i size))
          (flagged word e print f (some i))
  flagged-whole {size} {f} v i h = elim (Bool-cases (word i == 0)) [
    | inl unset ↦
        rw unset (record { emitted = emit [] (i + 1) ⊕ quiet; result = refl; within = omega arith })
    | inr is_set ↦ rw is_set (
        Gives-at (omega arith) (
          Gives-after (emit [] (i + 1)) (omega arith)
            (Gives-le (omega arith) (v.whole (i + 1) (ground arith)))))
  ]

  -- A flag of 0 and nothing more, or a field after it: never far past `e`.
  flagged-safe :
      {size : ℕ} {f : Printer}
      → Fixed e size size f
      → (i : ℕ) → i ≤ e + 1
      → (q : Option ℕ) × Gives (e + 2) q (flagged word e print f (some i))
  flagged-safe {size} {f} v i h = elim (Bool-cases (word i == 0)) [
    | inl unset ↦ (
      some (i + 1),
      rw unset (record { emitted = emit [] (i + 1) ⊕ quiet; result = refl; within = omega arith }),
    )
    | inr is_set ↦ elim (Bool-cases (ltb e (i + 1 + size))) [
      | inl cut ↦ (
        none,
        rw is_set (
            Gives-after (emit [] (i + 1)) (omega arith)
              (Gives-le (omega arith) (v.short (i + 1) (ground arith)))),
      )
      | inr fits ↦ (
        some (i + 1 + size),
        rw is_set (
            Gives-after (emit [] (i + 1)) (omega arith)
              (Gives-le (ground arith) (v.whole (i + 1) (ground arith)))),
      )
    ]
  ]

  -- The words of the whole structure at `i`, as its two flags tell.
  abbrev pub wcc_words : (i : ℕ) → ℕ
  wcc_words i = let pre = flagged_words i 6 in pre + flagged_words (i + pre) 21

  -- Past the test of `p`, the structure is its two halves, one after the other.
  wcc-halves :
      (i : ℕ)
      → i ≤ e
      → print_wcc_data3 word e print (some i)
        ≡ continue_with
            (flagged word e print (print_pre_op_attr3 word e print) (some i))
            (post_half word e print)
  unfolding print_wcc_data3
  wcc-halves i h = rw (not_past e i h)

  post-flagged :
      (j : ℕ)
      → post_half word e print (some j) ≡ flagged word e print (print_fattr3 word e print) (some j)
  unfolding post_half
  post-flagged j = refl

  -- A `wcc_data` that is all captured, as its two flags tell its size, is taken whole, and no word
  -- past it is read.
  pub wcc_data3-whole :
      (i : ℕ)
      → i + wcc_words i ≤ e
      → Gives (i + wcc_words i) (some (i + wcc_words i)) (print_wcc_data3 word e print (some i))
  wcc_data3-whole i h =
      let pre = flagged_words i 6 in
      let first = flagged-whole (pre_op_attr3-Fixed word e print) i (enough i 6 (omega arith)) in
      let second =
        flagged-whole (fattr3-Fixed word e print) (i + pre) (enough (i + pre) 21 (omega arith)) in
      rw (wcc-halves i (omega arith)) (
        Gives-at {i = i + pre + flagged_words (i + pre) 21} (omega arith) (
          Gives-then (post_half word e print) (Gives-le (omega arith) first)
            (rw (post-flagged (i + pre)) (Gives-le (omega arith) second))))

  regroup : (i : ℕ) → (word i ≡ 0) ⊎ (i + 7 ≤ e) → (word i ≡ 0) ⊎ (i + 1 + 6 ≤ e)
  regroup i (inl z) = inl z
  regroup i (inr h) = inr (omega arith)

  pre-le : (i : ℕ) → i ≤ e → (word i ≡ 0) ⊎ (i + 7 ≤ e) → i + flagged_words i 6 ≤ e + 1
  pre-le i h intact = ground arith

  -- If the first flag is 0 or the seven words of the first part are captured, the printer does not
  -- crash, and reads at most two words past the captured ones.
  pub wcc_data3-safe :
      (i : ℕ)
      → i ≤ e
      → (word i ≡ 0) ⊎ (i + 7 ≤ e)
      → (q : Option ℕ) × Gives (e + 2) q (print_wcc_data3 word e print (some i))
  wcc_data3-safe i h intact =
      let pre = flagged_words i 6 in
      let first = flagged-whole (pre_op_attr3-Fixed word e print) i (regroup i intact) in
      let (q, second) = flagged-safe (fattr3-Fixed word e print) (i + pre) (pre-le i h intact) in
      (
        q,
        rw (wcc-halves i h) (
            Gives-then (post_half word e print) (Gives-le (omega (arith, pre-le i h intact)) first)
              (rw (post-flagged (i + pre)) second)),
      )

  -- If the first flag is set and fewer than the seven words of the first part are captured, the
  -- printer reads its second flag through NULL.
  pub wcc_data3-crashes :
      (i : ℕ) → i ≤ e → word i ≢ 0 → e < i + 7 → print_wcc_data3 word e print (some i) ≡ segv
  unfolding post_half
  wcc_data3-crashes i le is_set cut =
      let short = (pre_op_attr3-Fixed word e print).short (i + 1) (omega arith) in
      let half : flagged word e print (print_pre_op_attr3 word e print) (some i)
          ≡ step none (emit [] (i + 1) ⊕ short.emitted) =
        rw (not_zero (word i) is_set) (ap (after (emit [] (i + 1))) short.result) in
      wcc-halves i le ∙ ap (λ s. continue_with s (post_half word e print)) half
