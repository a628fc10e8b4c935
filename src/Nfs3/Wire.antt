-- ===== src/Nfs3/Wire.antt =====
-- Scalars, times, file handles and names of nfsdump2/nfs_v3.c, and the lists that they make up.
pub mod Sizes
pub mod Names
pub mod Totals
use nfsdump.Prelude.{
  ℕ, zero, suc, ◌+◌, ◌-◌, ◌*◌, ◌/◌, ◌%◌, ◌^◌, Bool, true, false, ◌&&◌, ◌||◌, not, Option, none,
  some, List, [], ◌∷◌, ◌++◌, String, ltb, ◌==◌, if◌then◌else◌, u32_mod,
}
use nfsdump.Print.{
  Item, lit, hex, hex8, dec, dec6, chr, Emit, emit, quiet, said, when_printing, Step, step, segv,
  Printer, after, ◌⟫◌, say, null,
}
use nfsdump.Text.{Host, print_string}

-- `%x%08x`, or `%x` where the high word is 0
abbrev pub uint64_text : (hi lo : ℕ) → List Item
uint64_text hi lo = if hi == 0 then hex lo ∷ lit " " ∷ [] else hex hi ∷ hex8 lo ∷ lit " " ∷ []

-- `n_words = fh_len / 4; if (fh_len & 3) n_words++;`
abbrev pub fh_words : ℕ → ℕ
fh_words fh_len = fh_len / 4 + (if fh_len % 4 == 0 then 0 else 1)

-- `if (tot_len & 3) { tot_len &= ~3; tot_len += 4; }`
abbrev pub padded : ℕ → ℕ
padded len = if len % 4 == 0 then len else (len / 4 * 4 + 4) % u32_mod

module _ (word : ℕ → ℕ) (e : ℕ) (print : Bool) where
  -- `print_uint32`; the test lets the word at `e` itself through.
  unfoldable pub print_uint32 : Printer
  print_uint32 none = null
  print_uint32 (some i) =
      if ltb e i
      then null
      else step (some (i + 1))
          (emit (when_printing print (hex (word i) ∷ lit " " ∷ [])) (if print then i + 1 else 0))

  -- What `print_uint32 (p, e, print, &val)` stores in `val`, if it stores anything.
  unfoldable pub uint32_val : Option ℕ → Option ℕ
  uint32_val none = none
  uint32_val (some i) = if ltb e i then none else some (word i)

  unfoldable pub print_uint64 : Printer
  print_uint64 none = null
  print_uint64 (some i) =
      if ltb e (i + 1)
      then null
      else step (some (i + 2)) (
          emit (when_printing print (uint64_text (word i) (word (i + 1))))
            (if print then i + 2 else 0))

  unfoldable pub print_nfstime3 : Printer
  print_nfstime3 none = null
  print_nfstime3 (some i) =
      if ltb e (i + 2)
      then null
      else step (some (i + 2)) (
          emit
            (when_printing print
              (dec (word i) ∷ lit "." ∷ dec6 (word (i + 1) / 1000) ∷ lit " " ∷ []))
            (if print then i + 2 else 0))

  -- `%.8x` of `n` words
  unfoldable pub words_text : (i n : ℕ) → List Item
  words_text i zero = []
  words_text i (suc n) = hex8 (word i) ∷ words_text (i + 1) n

  -- The optional fields: a flag word, then the field if the flag is set. The label is written
  -- whether or not `print` is set, except for a time.
  unfoldable pub print_o_uint32 : String → Printer
  unfolding print_uint32
  print_o_uint32 label none = null
  print_o_uint32 label (some i) =
      if ltb e i
      then null
      else after (emit [] (i + 1)) (
          if word i == 0
          then step (some (i + 1)) quiet
          else (say true (lit label ∷ lit " " ∷ []) ⟫ print_uint32) (some (i + 1)))

  unfoldable pub print_o_uint64 : String → Printer
  unfolding print_uint64
  print_o_uint64 label none = null
  print_o_uint64 label (some i) =
      if ltb e i
      then null
      else after (emit [] (i + 1)) (
          if word i == 0
          then step (some (i + 1)) quiet
          else (say true (lit label ∷ lit " " ∷ []) ⟫ print_uint64) (some (i + 1)))

  -- Of the `time_how` values only SET_TO_CLIENT_TIME, 2, has a time after it.
  unfoldable pub print_o_nfstime3 : String → Printer
  unfolding print_nfstime3
  print_o_nfstime3 label none = null
  print_o_nfstime3 label (some i) =
      if ltb e i
      then null
      else after (emit [] (i + 1)) (
          if word i == 2
          then (say print (lit label ∷ lit " " ∷ []) ⟫ print_nfstime3) (some (i + 1))
          else step (some (i + 1)) quiet)

  unfoldable pub print_stable3 : Printer
  print_stable3 none = null
  print_stable3 (some i) =
      let c =
        if word i == 0
        then b'U'
        else if word i == 1
        then b'D'
        else if word i == 2
        then b'F'
        else b'?' in
      if ltb i e
      then step (some (i + 1))
          (emit (when_printing print (chr c ∷ lit " " ∷ [])) (if print then i + 1 else 0))
      else null

  module _ (host : Host) where
    -- `e < q`, where the address of `q` has wrapped at 2 ^ 32.
    abbrev pub is_past : (q : ℕ) → Bool
    is_past q = ltb ((host.address word + 4 * e) % u32_mod) ((host.address word + 4 * q) % u32_mod)

    -- The pointer returned is an index again, at most 2 ^ 30 words past the start.
    unfoldable pub print_fh3 : Printer
    unfolding words_text
    print_fh3 none = null
    print_fh3 (some i) =
        let n_words = fh_words (word i) in
        if ltb e (i + 2)
        then null
        else if is_past (i + 1 + n_words)
        then step none (emit [] (i + 1))
        else step (some ((i + 1 + n_words) % 2 ^ 30)) (
            emit (when_printing print (words_text (i + 1) n_words ++ lit " " ∷ []))
              (if print then i + 1 + n_words else i + 1))

    unfoldable pub print_fn3 : Printer
    print_fn3 none = null
    print_fn3 (some i) =
        let s_len = word i in
        if ltb e (i + 1)
        then null
        else if is_past (i + 1 + padded s_len / 4)
        then step none (emit (lit " ... " ∷ []) (i + 1))
        else after (emit [] (i + 1)) (
            step (some ((i + 1 + padded s_len / 4) % 2 ^ 30))
              (if print then print_string host word ((i + 1) * 4) s_len else quiet))

    unfoldable pub print_diropargs3 : Printer
    unfolding print_fh3 print_fn3
    print_diropargs3 = print_fh3 ⟫ say print (lit "name " ∷ []) ⟫ print_fn3
