-- ===== src/Support.antt =====
-- The routines of nfsdump2/util.c that the set-up of the programs uses. Text is a list of bytes.
pub mod Join
use nfsdump.Prelude.{
  ℕ, ◌+◌, ◌%◌, String, Bool, Option, none, some, List, [], ◌∷◌, ◌++◌, length, ◌==◌, if◌then◌else◌,
  add32,
}
use nfsdump.Print.{Item, lit, dec}

-- A step of `main`: it goes on, or the process exits with this text last on the error output.
pub data Outcome {ℓ} (A : Type ℓ) : Type ℓ where
  goes : A → Outcome A
  exits : (code : ℕ) → List Item → Outcome A

infixl 30 ◌>>=◌
abbrev pub ◌>>=◌ {ℓ κ} : {A : Type ℓ} {B : Type κ} → Outcome A → (A → Outcome B) → Outcome B
goes a >>= f = f a
exits code text >>= f = exits code text

module _ (program_name : String) where
  -- `error` and `warning`, of a text that does not end its line.
  abbrev pub error {ℓ} : {A : Type ℓ} → List Item → Outcome A
  error text = exits 1 ((lit program_name ∷ lit ": " ∷ text) ++ lit "\n" ∷ [])

  abbrev pub warning : List Item → List Item
  warning text = (lit program_name ∷ lit ": WARNING: " ∷ text) ++ lit "\n" ∷ []

-- The first loop of `copy_argv`, over an `u_int`.
unfoldable pub argv_len : List (List ℕ) → (len : ℕ) → ℕ
argv_len [] len = len
argv_len (a ∷ rest) len = argv_len rest (add32 len (length a + 1))

-- The second: each argument with its NUL, which becomes a space.
unfoldable pub copy_args : List (List ℕ) → List ℕ
copy_args [] = []
copy_args (a ∷ rest) = a ++ 0x20 ∷ copy_args rest

-- `dst[-1] = '\0'` at the end
unfoldable pub end_last : List ℕ → List ℕ
end_last [] = []
end_last (b ∷ []) = 0 ∷ []
end_last (b ∷ (c ∷ bs)) = b ∷ end_last (c ∷ bs)

-- What `open`, `fstat` and `read` make of a file.
pub record InFile : Type 0 where
  pub opens : Bool
  pub size : Option ℕ
  pub content : Option (List ℕ)

module _ (program_name : String) (strerror : String) where
  -- The bytes of the buffer; NULL if there is no argument.
  unfoldable pub copy_argv : (malloc : ℕ → Bool) → List (List ℕ) → Outcome (Option (List ℕ))
  unfolding argv_len copy_args end_last
  copy_argv malloc [] = goes none
  copy_argv malloc (a ∷ rest) =
      if malloc (argv_len (a ∷ rest) 0)
      then goes (some (end_last (copy_args (a ∷ rest))))
      else error program_name (lit "copy_argv: malloc" ∷ [])

  -- The bytes of a file, with a NUL, if `read` gives as many as `fstat` told.
  abbrev pub whole_content : (fname : String) → (size : ℕ) → Option (List ℕ) → Outcome (List ℕ)
  whole_content fname size none =
      error program_name (lit "read " ∷ lit fname ∷ lit ": " ∷ lit strerror ∷ [])
  whole_content fname size (some bytes) =
      if length bytes == size
      then goes (bytes ++ 0 ∷ [])
      else error program_name (
          lit "short read "
          ∷ lit fname
          ∷ lit " ("
          ∷ dec (length bytes)
          ∷ lit " != "
          ∷ dec size
          ∷ lit ")"
          ∷ [])

  abbrev pub sized_content : (fname : String) → Option ℕ → Option (List ℕ) → Outcome (List ℕ)
  sized_content fname none content =
      error program_name (lit "can't stat " ∷ lit fname ∷ lit ": " ∷ lit strerror ∷ [])
  sized_content fname (some size) content = whole_content fname size content

  unfoldable pub read_infile : (fname : String) → InFile → Outcome (List ℕ)
  read_infile fname f =
      if f.opens
      then sized_content fname f.size f.content
      else error program_name (lit "can't open " ∷ lit fname ∷ lit ": " ∷ lit strerror ∷ [])
