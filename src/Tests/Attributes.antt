-- ===== src/Tests/Attributes.antt =====
-- Attributes of both versions, whole and cut off.
use nfsdump.Nfs2.Sizes.{fattr2-Gives, sattr2-stays}
use nfsdump.Nfs2.{print_fattr2, print_sattr2}
use nfsdump.Nfs3.Attr.Sizes.{fattr3-Gives}
use nfsdump.Nfs3.Attr.Wcc.{wcc_data3-safe, wcc_data3-crashes}
use nfsdump.Nfs3.Attr.{print_fattr3, print_wcc_data3}
use nfsdump.Prelude.{ℕ, ◌+◌, ◌≡◌, true, Option, none, some, ltb, if◌then◌else◌, inr, arith}
use nfsdump.Print.Fixed.{Gives}
use nfsdump.Print.{segv}

-- Every word is its index and one, so that flags are set.
abbrev pub counting : ℕ → ℕ
counting i = i + 1

fattr3-Gives_example :
    Gives
      (if ltb 30 (2 + 21) then 30 + 1 else 2 + 21)
      (if ltb 30 (2 + 21) then none else some (2 + 21))
      (print_fattr3 counting 30 true (some 2))
fattr3-Gives_example = fattr3-Gives counting 30 true 2

wcc_data3-safe_example : (q : Option ℕ) × Gives (8 + 2) q (print_wcc_data3 counting 8 true (some 0))
wcc_data3-safe_example = wcc_data3-safe counting 8 true 0 (omega arith) (inr (omega arith))

wcc_data3-crashes_example : print_wcc_data3 counting 5 true (some 0) ≡ segv
wcc_data3-crashes_example =
    wcc_data3-crashes counting 5 true 0 (omega arith) (omega arith) (omega arith)

fattr2-Gives_example :
    Gives
      (if ltb 20 (5 + 17) then 20 + 1 else 5 + 17)
      (if ltb 20 (5 + 17) then none else some (5 + 17))
      (print_fattr2 counting 20 true (some 5))
fattr2-Gives_example = fattr2-Gives counting 20 true 5

sattr2-stays_example : Gives (1 + 8) (some 1) (print_sattr2 counting 9 true (some 1))
sattr2-stays_example = sattr2-stays counting 9 true 1 (omega arith)
