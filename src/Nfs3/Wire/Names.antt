-- ===== src/Nfs3/Wire/Names.antt =====
-- File handles and names of nfsdump2/nfs_v3.c: what `print_fh3` and `print_fn3` accept, and how far
-- they read.
use nfsdump.Prelude.{
  ℕ, ◌+◌, ◌*◌, ◌/◌, ◌%◌, ◌^◌, ◌≤◌, ◌<◌, ◌≡◌, refl, inl, inr, Bool, true, false, arith, Bool-cases,
  if◌then◌else◌, ◌&&◌, ltb, leb, u32_mod, none, some, ◌++◌, [], ◌∷◌,
}
use nfsdump.Nfs3.Wire.{print_fh3, print_fn3, fh_words, padded, words_text}
use nfsdump.Print.Fixed.{Gives}
use nfsdump.Print.Near.{Near, Bounded, Any, Is, Gives-none, Gives-some}
use nfsdump.Print.{emit, lit, when_printing, quiet, Emit, step, said, ◌⊕◌}
use nfsdump.Text.Reach.{print_string-reach, print_raw-reads}
use nfsdump.Text.{Host, print_string, print_raw}

-- A length padded to whole words, unless padding it wraps.
pub padded-whole :
    (len : ℕ)
    → len + 3 < u32_mod
    → (len ≤ padded len) × (padded len < len + 4) × (padded len % 4 ≡ 0)
padded-whole len h = ground arith

-- The three largest lengths that are not whole words pad to nothing.
pub padded-wraps : (len : ℕ) → u32_mod ≤ len + 3 → len < u32_mod → padded len ≡ 0
padded-wraps len h small = ground arith

module _ (word : ℕ → ℕ) (e : ℕ) (print : Bool) where
  -- Whether a file handle at `i` is all there, with two words at least.
  abbrev pub fh_fits : ℕ → Bool
  fh_fits i = leb (i + 2) e && leb (i + 1 + fh_words (word i)) e

  -- Whether a name at `i` is all there, with its padding.
  abbrev pub fn_fits : ℕ → Bool
  fn_fits i = leb (i + 1) e && leb (i + 1 + padded (word i) / 4) e

  module _ (host : Host) where
    -- `print_fh3` at a word of a payload that ends below the address 2 ^ 32, where the handle of the
    -- length read would end below it too: it takes the length and the padded handle exactly when at
    -- least two words and all of these are captured, and otherwise returns NULL; in both cases it
    -- reads no word that is not captured.
    pub fh3-bounds :
        (i : ℕ)
        → host.address word + 4 * e < u32_mod
        → host.address word + 4 * (i + 1 + fh_words (word i)) < u32_mod
        → Gives e
            (if fh_fits i then some (i + 1 + fh_words (word i)) else none)
            (print_fh3 word e print host (some i))
    unfolding print_fh3
    fh3-bounds i below stays = elim (Bool-cases (fh_fits i)) [
      | inl fits ↦
          let n_words = fh_words (word i) in
          rw fits (record {
            emitted =
                emit (when_printing print (words_text word e print (i + 1) n_words ++ lit " " ∷ []))
                  (if print then i + 1 + n_words else i + 1);
            result = ground arith;
            within = ground arith;
          })
      | inr short ↦ rw short (record {
        emitted = if ltb e (i + 2) then quiet else emit [] (i + 1);
        result = ground arith;
        within = ground arith;
      })
    ]

    -- `print_fn3` at a length that is not 0 nor among the three largest 32-bit numbers, in a payload
    -- that ends below the address 2 ^ 32, where the name of this length would end below it too: it
    -- takes the name and its padding exactly when they are captured, and otherwise returns NULL; in
    -- both cases it reads no word that is not captured.
    pub fn3-bounds :
        (i : ℕ)
        → 0 < word i
        → word i + 3 < u32_mod
        → host.address word + 4 * e < u32_mod
        → host.address word + 4 * (i + 1) + padded (word i) < u32_mod
        → Gives e
            (if fn_fits i then some (i + 1 + padded (word i) / 4) else none)
            (print_fn3 word e print host (some i))
    unfolding print_fn3
    fn3-bounds i pos small below stays =
        let (le, lt, whole) = padded-whole (word i) small in
        elim (Bool-cases (fn_fits i)) [
          | inl fits ↦ rw fits (record {
            emitted =
                emit [] (i + 1)
                ⊕ (if print then print_string host word ((i + 1) * 4) (word i) else quiet);
            result = ground arith;
            within = ground (arith, print_string-reach host word ((i + 1) * 4) (word i));
          })
          | inr short ↦ rw short (record {
            emitted = if ltb e (i + 1) then quiet else emit (lit " ... " ∷ []) (i + 1);
            result = ground arith;
            within = ground arith;
          })
        ]

  -- Where a payload ends below the address 2 ^ 32, but a handle of the length read would not, the
  -- test of the end lets it through, and its printing reads past the end.
  pub fh3-overruns :
      (host : Host) (i : ℕ)
      → word i < u32_mod
      → i + 2 ≤ e
      → host.address word + 4 * e < u32_mod
      → u32_mod ≤ host.address word + 4 * (i + 1 + fh_words (word i))
      → (p : ℕ) × (a : Emit) × (print_fh3 word e true host (some i) ≡ step (some p) a)
        × (e < a.reach)
  unfolding print_fh3
  fh3-overruns host i small fits below wraps =
      let n_words = fh_words (word i) in
      (
        (i + 1 + n_words) % 2 ^ 30,
        emit (words_text word e true (i + 1) n_words ++ lit " " ∷ []) (i + 1 + n_words),
        ground arith,
        omega arith,
      )

  -- With RAWNAMES, a length among the three largest 32-bit numbers passes the test of the end, in a
  -- payload that ends below the address 2 ^ 32: the name is taken to have no words, and its printing
  -- reads past the end.
  pub fn3-overruns :
      (host : Host) (i : ℕ)
      → host.raw_names ≡ true
      → u32_mod ≤ word i + 3
      → word i < u32_mod
      → i + 1 ≤ e
      → host.address word + 4 * e < u32_mod
      → (a : Emit) × (print_fn3 word e true host (some i) ≡ step (some (i + 1)) a) × (e < a.reach)
  unfolding print_fn3 print_string
  fn3-overruns host i raw long small le below =
      let none_of_it = padded-wraps (word i) long small in
      (
        emit [] (i + 1)
            ⊕ (said (lit "\"" ∷ [])
                ⊕ print_raw host word (word i) ((i + 1) * 4)
                ⊕ said (lit "\" " ∷ [])),
        ground arith,
        ground (arith, print_raw-reads host word (word i) ((i + 1) * 4)),
      )

-- A name at `i` whose printing stays inside it: its length is not 0 nor among the three largest
-- 32-bit numbers, and it would end below the address 2 ^ 32.
pub record IsName (host : Host) (word : ℕ → ℕ) (i : ℕ) : Type 0 where
  pub some_len : 0 < word i
  pub small : word i + 3 < u32_mod
  pub stays : host.address word + 4 * (i + 1) + padded (word i) < u32_mod

-- A handle at `i` that would end below the address 2 ^ 32.
abbrev pub IsHandle : (host : Host) (word : ℕ → ℕ) (i : ℕ) → Type 0
IsHandle host word i = host.address word + 4 * (i + 1 + fh_words (word i)) < u32_mod

module _ (host : Host) (word : ℕ → ℕ) (e : ℕ) (below : host.address word + 4 * e < u32_mod) where
  inside-Near :
      (j : ℕ)
      → IsName host word j
      → Near (e + 1) (Is (j + 1 + padded (word j) / 4)) (print_fn3 word e true host (some j))
  inside-Near j name =
      let v = fn3-bounds word e true host j name.some_len name.small below name.stays in
      go (fn_fits word e true j) v
    where
      go :
          (fits : Bool)
          → Gives e
              (if fits then some (j + 1 + padded (word j) / 4) else none)
              (print_fn3 word e true host (some j))
          → Near (e + 1) (Is (j + 1 + padded (word j) / 4)) (print_fn3 word e true host (some j))
      go true v = Gives-some _ (print_fn3 word e true host (some j)) (omega arith) refl v
      go false v = Gives-none _ (print_fn3 word e true host (some j)) (omega arith) v

  outside-Near :
      (Q : ℕ → Type 0) (j : ℕ) → e ≤ j → Near (e + 1) Q (print_fn3 word e true host (some j))
  unfolding print_fn3
  outside-Near Q j le = let short : ltb e (j + 1) ≡ true = ground arith in rw short (omega arith)

  -- A name that stays inside itself, or is not captured, is printed without reading past the end.
  pub fn3-Bounded :
      (j : ℕ)
      → (j < e → IsName host word j)
      → Bounded (e + 1) (Is j) (Is (j + 1 + padded (word j) / 4)) (print_fn3 word e true host)
  unfolding print_fn3
  fn3-Bounded j name = record {
    on_null = omega arith;
    on_word = λ i at. rw at (elim (Bool-cases (ltb j e)) [
      | inl inside ↦ inside-Near j (name (ground arith))
      | inr outside ↦ outside-Near (Is (j + 1 + padded (word j) / 4)) j (ground arith)
    ]);
  }

  handle-Near :
      (j : ℕ) → IsHandle host word j → Near (e + 1) Any (print_fh3 word e true host (some j))
  handle-Near j stays = go (fh_fits word e true j) (fh3-bounds word e true host j below stays)
    where
      go :
          (fits : Bool)
          → Gives e
              (if fits then some (j + 1 + fh_words (word j)) else none)
              (print_fh3 word e true host (some j))
          → Near (e + 1) Any (print_fh3 word e true host (some j))
      go true v = Gives-some Any (print_fh3 word e true host (some j)) (omega arith) tt v
      go false v = Gives-none Any (print_fh3 word e true host (some j)) (omega arith) v

  -- A handle that would end there, or is not captured, is printed without reading past the end.
  pub fh3-Bounded :
      (j : ℕ)
      → (j < e → IsHandle host word j)
      → Bounded (e + 1) (Is j) Any (print_fh3 word e true host)
  unfolding print_fh3
  fh3-Bounded j handle = record {
    on_null = omega arith;
    on_word = λ i at. rw at (elim (Bool-cases (ltb j e)) [
      | inl inside ↦ handle-Near j (handle (ground arith))
      | inr outside ↦ let short : ltb e (j + 2) ≡ true = ground arith in rw short (omega arith)
    ]);
  }
