-- ===== src/Tests/Names.antt =====
-- Names, paths and file handles.
use nfsdump.Prelude.{
  ℕ, ◌+◌, ◌/◌, ◌<◌, ◌≤◌, ◌≡◌, refl, true, false, none, some, [], ◌∷◌, ◌++◌, if◌then◌else◌, ◌==◌,
  arith,
}
use nfsdump.Nfs3.Wire.Names.{fh_fits, fn_fits, fh3-bounds, fn3-bounds, fn3-overruns}
use nfsdump.Nfs3.Wire.{print_fh3, print_fn3, fh_words, padded}
use nfsdump.Print.Fixed.{Gives}
use nfsdump.Print.{Emit, step, lit}
use nfsdump.Text.Mask.{mask_all, components, print_string-masked}
use nfsdump.Text.Reach.{last_word, print_string-reach}
use nfsdump.Text.{Host, bytes, print_string}

-- A digest that is the bytes themselves.
abbrev pub hashing : Host
hashing = record { raw_names = false; sha1 = λ l. l; address = λ word. 0x0900_0000 }

abbrev pub raw : Host
raw = record { raw_names = true; sha1 = λ l. l; address = λ word. 0x0900_0000 }

-- `src/../a`, after its length.
abbrev pub a_path : ℕ → ℕ
a_path i = if i == 0 then 8 else if i == 1 then 0x7372632f else if i == 2 then 0x2e2e2f61 else 0

print_string-masked_example :
    (print_string hashing a_path 4 8).text
    ≡ lit "\"" ∷ (mask_all hashing (components (bytes a_path 4 8)) ++ lit "\" " ∷ [])
print_string-masked_example =
    print_string-masked hashing a_path 4 8 refl (omega arith) (omega arith)

print_string-reach_example : (print_string hashing a_path 4 8).reach ≤ last_word 4 8
print_string-reach_example = print_string-reach hashing a_path 4 8 (omega arith) (omega arith)

fh3-bounds_example :
    Gives 3
      (if fh_fits a_path 3 true 0 then some (0 + 1 + fh_words (a_path 0)) else none)
      (print_fh3 a_path 3 true hashing (some 0))
fh3-bounds_example = fh3-bounds a_path 3 true hashing 0 (omega arith) (omega arith)

fn3-bounds_example :
    Gives 3
      (if fn_fits a_path 3 true 0 then some (0 + 1 + padded (a_path 0) / 4) else none)
      (print_fn3 a_path 3 true hashing (some 0))
fn3-bounds_example =
    fn3-bounds a_path 3 true hashing 0 (omega arith) (omega arith) (omega arith) (omega arith)

-- A length of 0xfffffffe, and nothing after it.
abbrev long : ℕ → ℕ
long i = if i == 0 then 0xffff_fffe else 0

fn3-overruns_example :
    (a : Emit) × (print_fn3 long 4 true raw (some 0) ≡ step (some (0 + 1)) a) × (4 < a.reach)
fn3-overruns_example =
    fn3-overruns long 4 true raw 0 refl (omega arith) (omega arith) (omega arith) (omega arith)
