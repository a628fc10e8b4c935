-- ===== src/Print.antt =====
-- How the pretty printers of nfsdump2/nfs_v3.c and nfsdump2/nfs_v2.c work on a payload.
-- A `u_int32_t *` into the payload is a word index, counted from the payload's start, or NULL
-- (`none`); `e` is the index one past the last whole word that was captured. `word i` is
-- `ntohl (p [i])`, also for a word past `e`, where memory holds something. The flags of the wire
-- format are tested without `ntohl`, which keeps 0 and its negation. A pointer is compared by its
-- index, where it is moved by a few words; where it is moved by a length of the payload, by its
-- address, which wraps.
-- A printer returns the new pointer, what it writes to `OutFile`, and how far it reads: `reach` is
-- one past the highest word that it has read. Reading through NULL ends the process, `segv`; reading past the payload does not here.
pub mod Fixed
pub mod Near
pub mod Total
use nfsdump.Prelude.{ℕ, max, String, Bool, true, false, Option, none, some, List, [], ◌∷◌, ◌++◌}

-- One conversion of a format string with its argument, or the literal text between two.
pub data Item : Type 0 where
  lit : String → Item
  -- `%x`
  hex : ℕ → Item
  -- `%.8x`, `%08x`
  hex8 : ℕ → Item
  -- `%.4x`
  hex4 : ℕ → Item
  -- `%u`, `%d`
  dec : ℕ → Item
  -- `%5u`
  dec_right5 : ℕ → Item
  -- `%.2d`
  dec2 : ℕ → Item
  -- `%.6u`
  dec6 : ℕ → Item
  -- `%d`, `%-6d` of the 32-bit pattern of an `int32_t`
  int : ℕ → Item
  int_left6 : ℕ → Item
  -- `%2d` of the pattern, `%12ld`, and `%10.2f` of megabytes and bytes
  int_right2 : ℕ → Item
  long12 : ℕ → Item
  megabytes : (m b : ℕ) → Item
  -- `%02x`, `%2x`, `%-8x`
  hex2 : ℕ → Item
  hex_right2 : ℕ → Item
  hex_left8 : ℕ → Item
  -- `%-8s`
  left8 : String → Item
  -- `%c`
  chr : ℕ → Item
  -- `\\%.2x`
  escaped : ℕ → Item
  -- `%02X` of each byte of a digest
  digest : List ℕ → Item

pub record Emit : Type 0 where
  pub text : List Item
  pub reach : ℕ

abbrev pub emit : List Item → ℕ → Emit
emit t n = record { text = t; reach = n }

abbrev pub quiet : Emit
quiet = emit [] 0

-- Text that no reading went into.
abbrev pub said : List Item → Emit
said t = emit t 0

-- `if (print) fprintf (OutFile, …)`
abbrev pub when_printing : Bool → List Item → List Item
when_printing true t = t
when_printing false t = []

infixl 20 ◌⊕◌
abbrev pub ◌⊕◌ : Emit → Emit → Emit
a ⊕ b = emit (a.text ++ b.text) (max a.reach b.reach)

pub data Step : Type 0 where
  step : Option ℕ → Emit → Step
  segv : Step

abbrev pub Printer : Type 0
Printer = Option ℕ → Step

-- What was written before a step goes in front.
abbrev pub after : Emit → Step → Step
after a (step p b) = step p (a ⊕ b)
after a segv = segv

-- `new_p = f (new_p, …); new_p = g (new_p, …);`
abbrev pub continue_with : Step → Printer → Step
continue_with (step p a) g = after a (g p)
continue_with segv g = segv

infixl 15 ◌⟫◌
abbrev pub ◌⟫◌ : Printer → Printer → Printer
◌⟫◌ f g p = continue_with (f p) g

-- `if (print) fprintf (OutFile, …);` between two of them.
unfoldable pub say : Bool → List Item → Printer
say print t p = step p (said (when_printing print t))

-- A printer that is called for its text, and whose pointer is dropped.
abbrev pub dropped : Step → Emit
dropped (step p a) = a
dropped segv = quiet

abbrev pub pointer : Step → Option ℕ
pointer (step p a) = p
pointer segv = none

-- A whole message: it prints, and updates counters. `returned true` is the result 0, and
-- `returned false` the result -1; `crashed` is the end of the process.
pub data Run (S : Type 0) : Type 0 where
  returned : Bool → S → Emit → Run S
  crashed : Run S

-- After the printers of a known operation: `if (new_p == NULL) fprintf (OutFile, short);`, with
-- the result that the function then returns.
abbrev pub finish : {S : Type 0} → List Item → (rc_short : Bool) → S → Step → Run S
finish short rc_short s (step none a) = returned rc_short s (a ⊕ said short)
finish short rc_short s (step (some i) a) = returned true s a
finish short rc_short s segv = crashed

-- `if (p == NULL) return (NULL);`
abbrev pub null : Step
null = step none quiet
