-- ===== src/Stats/Report.antt =====
-- The reports of the counters: `nfs_v3_stat_init`, `nfs_v3_stat_print` and `compute_pct` of
-- nfsdump2/nfs_v3.c, `nfs_v2_stat_init` and `nfs_v2_stat_print` of nfsdump2/nfs_v2.c.
pub mod Percent
use nfsdump.Prelude.{
  ℕ, ◌-◌, ◌*◌, ◌/◌, ◌%◌, ◌^◌, Bool, ◌||◌, List, [], ◌∷◌, ◌++◌, String, ◌==◌, leb, if◌then◌else◌,
  u32_mod,
}
use nfsdump.Print.{Item, lit, left8, int_right2, long12, megabytes}
use nfsdump.Stats.{Tally}

-- `memset ((void *) p, 0, sizeof (nfs_v3_stat_t))`
abbrev pub stat_init : Tally
stat_init = record { total = 0; by_op = λ op. 0; unknown = 0; bytes = 0; megabytes = 0 }

-- An `int` is given by its 32-bit pattern, and its division rounds to 0.
abbrev pub is_negative : ℕ → Bool
is_negative x = leb (2 ^ 31) x

abbrev pub negated : ℕ → ℕ
negated x = (u32_mod - x) % u32_mod

abbrev pub magnitude : ℕ → ℕ
magnitude x = if is_negative x then negated x else x

abbrev pub div_int : ℕ → ℕ → ℕ
div_int a b =
    let q = magnitude a / magnitude b in
    if is_negative a
    then (if is_negative b then q else negated q)
    else if is_negative b
    then negated q
    else q

unfoldable pub compute_pct : (n d : ℕ) → ℕ
compute_pct n d = if n == 0 || d == 0 then 0 else div_int (n * 100 % u32_mod) d

-- The rows after those of the total, of READ and of WRITE: a label, and the number of the operation.
abbrev pub rows3 : List (String × ℕ)
rows3 =
    ("getattr", 1)
    ∷ ("lookup", 3)
    ∷ ("readdir", 16)
    ∷ ("readdirp", 17)
    ∷ ("fsstat", 18)
    ∷ ("access", 4)
    ∷ ("setattr", 2)
    ∷ ("remove", 12)
    ∷ ("create", 8)
    ∷ ("readlink", 5)
    ∷ ("mkdir", 9)
    ∷ ("symlink", 10)
    ∷ ("rmdir", 13)
    ∷ ("rename", 14)
    ∷ ("link", 15)
    ∷ ("pathconf", 20)
    ∷ ("fsinfo", 19)
    ∷ ("mknod", 11)
    ∷ ("mnt", 101)
    ∷ ("null", 0)
    ∷ ("commit", 21)
    ∷ []

abbrev pub rows2 : List (String × ℕ)
rows2 =
    ("getattr", 1)
    ∷ ("lookup", 4)
    ∷ ("setattr", 2)
    ∷ ("create", 9)
    ∷ ("remove", 10)
    ∷ ("readdir", 16)
    ∷ ("readlink", 5)
    ∷ ("rename", 11)
    ∷ ("link", 12)
    ∷ ("symlink", 13)
    ∷ ("mkdir", 14)
    ∷ ("rmdir", 15)
    ∷ ("statfs", 17)
    ∷ ("null", 0)
    ∷ ("root", 3)
    ∷ ("wrcache", 7)
    ∷ []

-- `version` begins each line, and `label` is the conversion of the names.
module _ (version : String) (label : String → Item) (calls resps : Tally) where
  abbrev pub total_row : List Item
  total_row =
      lit version
      ∷ label "total"
      ∷ lit "  "
      ∷ long12 calls.total
      ∷ lit " "
      ∷ long12 resps.total
      ∷ lit "\n"
      ∷ []

  -- A row up to its percentage, of the calls.
  abbrev pub row_head : String → (op : ℕ) → List Item
  row_head name op =
      lit version
      ∷ label name
      ∷ lit "  "
      ∷ long12 (calls.by_op op)
      ∷ lit " "
      ∷ long12 (resps.by_op op)
      ∷ lit " % "
      ∷ int_right2 (compute_pct (calls.by_op op) calls.total)
      ∷ []

  -- A row with the megabytes of `moved`.
  abbrev pub moved_row : String → (op : ℕ) → (moved : Tally) → List Item
  moved_row name op moved =
      row_head name op ++ (lit "  " ∷ Item.megabytes moved.megabytes moved.bytes ∷ lit "M\n" ∷ [])

  unfoldable pub rows_text : List (String × ℕ) → List Item
  rows_text [] = []
  rows_text ((name, op) ∷ rows) = row_head name op ++ (lit "\n" ∷ rows_text rows)

  abbrev pub report : (read write : ℕ) → List (String × ℕ) → List Item
  report read write rows =
      total_row ++ moved_row "read" read resps ++ moved_row "write" write calls ++ rows_text rows

-- What is read is counted with the responses, and what is written with the calls.
unfoldable pub nfs_v3_stat_print : (calls resps : Tally) → List Item
unfolding compute_pct rows_text
nfs_v3_stat_print calls resps = report "v3 " lit calls resps 6 7 rows3

unfoldable pub nfs_v2_stat_print : (calls resps : Tally) → List Item
unfolding compute_pct rows_text
nfs_v2_stat_print calls resps = report "v2 " left8 calls resps 6 8 rows2
