-- ===== src/Text/Mask.antt =====
-- Without RAWNAMES, `print_string` of nfsdump2/nfs_v3.c replaces each component of a path: an
-- independent description of the path's components and of what stands for each.
use mathlib.Core.Path.{ap₂}
use nfsdump.Prelude.{
  ℕ, zero, suc, ◌+◌, ◌-◌, ◌%◌, ◌<◌, ◌≤◌, ◌≡◌, refl, sym, ap, ◌∙◌, Bool, true, false, ◌&&◌, List, [],
  ◌∷◌, ◌++◌, append_assoc, append-nil, ltb, ◌==◌, if◌then◌else◌, Bool-cases, inl, inr, u32_mod, All,
  ◌⊎◌, arith,
}
use native.Mathlib.Nat.{add-zero}
use nfsdump.Print.{Item, lit, digest, quiet, said, ◌⊕◌}
use nfsdump.Text.{
  Host, byte, bytes, print_name, print_path_segment, print_raw, print_segments, print_string,
}

abbrev pub is_slash : ℕ → Bool
is_slash c = c == b'/'

-- A byte in front of a list of components: it joins the first, unless that begins with a slash.
unfoldable pub grow : ℕ → List (List ℕ) → List (List ℕ)
grow c [] = (c ∷ []) ∷ []
grow c ([] ∷ ws) = (c ∷ []) ∷ ws
grow c ((d ∷ w) ∷ ws) = if is_slash d then (c ∷ []) ∷ (d ∷ w) ∷ ws else (c ∷ d ∷ w) ∷ ws

-- The components of a path, each but perhaps the first with the slash in front of it.
unfoldable pub components : List ℕ → List (List ℕ)
unfolding grow
components [] = []
components (c ∷ cs) = grow c (components cs)

module _ (host : Host) where
  -- `.` and `..` stay, any other name gives way to its hash, and an empty one to nothing.
  unfoldable pub mask_name : List ℕ → List Item
  mask_name [] = []
  mask_name (a ∷ []) = if a == b'.' then lit "." ∷ [] else digest (host.sha1 (a ∷ [])) ∷ []
  mask_name (a ∷ b ∷ []) =
      if a == b'.' && b == b'.' then lit ".." ∷ [] else digest (host.sha1 (a ∷ b ∷ [])) ∷ []
  mask_name (a ∷ b ∷ c ∷ w) = digest (host.sha1 (a ∷ b ∷ c ∷ w)) ∷ []

  -- The slash of a component stays.
  unfoldable pub mask : List ℕ → List Item
  mask [] = []
  mask (c ∷ w) = if is_slash c then lit "/" ∷ mask_name w else mask_name (c ∷ w)

  -- What `flat_map mask` computes, over a list of components.
  abbrev pub mask_all : List (List ℕ) → List Item
  mask_all [] = []
  mask_all (w ∷ ws) = mask w ++ mask_all ws

All-snoc :
    (w : List ℕ) (d : ℕ)
    → All (λ x. is_slash x ≡ false) w
    → is_slash d ≡ false
    → All (λ x. is_slash x ≡ false) (w ++ d ∷ [])
All-snoc [] d a h = (h, tt)
All-snoc (c ∷ w) d a h = (a.0, All-snoc w d a.1 h)

-- No slash after the first byte.
abbrev Clean : List ℕ → Type 0
Clean [] = Unit
Clean (c ∷ w) = All (λ d. is_slash d ≡ false) w

grow-slash :
    (c d : ℕ) (ws : List (List ℕ)) → is_slash d ≡ true → grow c (grow d ws) ≡ (c ∷ []) ∷ grow d ws
unfolding grow
grow-slash c d [] h = rw h
grow-slash c d ([] ∷ ws) h = rw h
grow-slash c d ((x ∷ w) ∷ ws) h = elim (Bool-cases (is_slash x)) [
  | inl e ↦ rw e (rw h)
  | inr e ↦ rw e (rw h)
]

-- A clean prefix before a slash, or before the end, is the first component.
components-clean :
    (c : ℕ) (w : List ℕ) → All (λ d. is_slash d ≡ false) w → components (c ∷ w) ≡ (c ∷ w) ∷ []
unfolding components
components-clean c [] a = refl
components-clean c (d ∷ w) a = rw (components-clean d w a.1, a.0)

components-clean_slash :
    (c : ℕ) (w : List ℕ) (s : ℕ) (rest : List ℕ)
    → All (λ d. is_slash d ≡ false) w
    → is_slash s ≡ true
    → components (c ∷ w ++ s ∷ rest) ≡ (c ∷ w) ∷ components (s ∷ rest)
unfolding components
components-clean_slash c [] s rest a h = grow-slash c s (components rest) h
components-clean_slash c (d ∷ w) s rest a h =
    ap (grow c) (components-clean_slash d w s rest a.1 h) ∙ rw (a.0)

bytes-snoc :
    (word : ℕ → ℕ) (b n : ℕ) → bytes word b (suc n) ≡ bytes word b n ++ byte word (b + n) ∷ []
unfolding bytes
bytes-snoc word b zero = rw add-zero
bytes-snoc word b (suc n) =
    ap (λ l. byte word b ∷ l) (bytes-snoc word (b + 1) n)
    ∙ ap (λ j. byte word b ∷ (bytes word (b + 1) n ++ byte word j ∷ [])) (omega arith)

Clean-snoc : (w : List ℕ) (d : ℕ) → Clean w → is_slash d ≡ false → Clean (w ++ d ∷ [])
Clean-snoc [] d a h = tt
Clean-snoc (c ∷ w) d a h = All-snoc w d a h

module _ (host : Host) (word : ℕ → ℕ) where
  print_name-mask :
      (b len : ℕ) → (print_name host word b len).text ≡ mask_name host (bytes word b len)
  unfolding print_name mask_name bytes
  print_name-mask b zero = ground arith
  print_name-mask b (suc zero) = ground arith
  print_name-mask b (suc (suc zero)) = ground arith
  print_name-mask b (suc (suc (suc n))) = ground arith

  print_path_segment-mask :
      (b n : ℕ)
      → n + 1 < u32_mod
      → (print_path_segment host word b (suc n)).text ≡ mask host (bytes word b (suc n))
  unfolding print_path_segment mask bytes
  print_path_segment-mask b n small =
      let back : (suc n + u32_mod - 1) % u32_mod ≡ n = omega arith in
      elim (Bool-cases (is_slash (byte word b))) [
        | inl s ↦ rw (s, back) (ap (λ l. lit "/" ∷ l) (print_name-mask (b + 1) n))
        | inr m ↦ rw m (print_name-mask b (suc n))
      ]

  segment-mask :
      (b seg i : ℕ)
      → seg < i
      → i < u32_mod
      → (print_path_segment host word (b + seg) (i - seg)).text
        ≡ mask host (bytes word (b + seg) (i - seg))
  segment-mask b seg i lt small =
      let e : i - seg ≡ suc (i - seg - 1) = omega arith in
      rw e (print_path_segment-mask (b + seg) (i - seg - 1) (omega arith))

  -- What is masked of a component before a slash, and of the last one.
  mask-slash :
      (w : List ℕ) (s : ℕ) (rest : List ℕ)
      → Clean w
      → is_slash s ≡ true
      → mask_all host (components (w ++ s ∷ rest))
        ≡ mask host w ++ mask_all host (components (s ∷ rest))
  unfolding mask
  mask-slash [] s rest a h = refl
  mask-slash (c ∷ w) s rest a h = ap (mask_all host) (components-clean_slash c w s rest a h)

  mask-last : (w : List ℕ) → Clean w → mask_all host (components (w ++ [])) ≡ mask host w
  unfolding mask components
  mask-last [] a = refl
  mask-last (c ∷ w) a =
      ap (λ l. mask_all host (components l)) (append-nil (c ∷ w))
      ∙ ap (mask_all host) (components-clean c w a)
      ∙ append-nil (mask host (c ∷ w))

  -- What the loop writes when it meets a slash at `i`.
  before_slash :
      (b i seg : ℕ) (w : List ℕ)
      → w ≡ bytes word (b + seg) (i - seg)
      → (seg < i) ⊎ ((i ≡ 0) × (seg ≡ 0))
      → i < u32_mod
      → (if ltb 0 i then print_path_segment host word (b + seg) (i - seg) else quiet).text
        ≡ mask host w
  unfolding mask bytes
  before_slash b i seg w eq (inl lt) small =
      let pos : ltb 0 i ≡ true = ground arith in
      rw pos (segment-mask b seg i lt small ∙ ap (mask host) (sym eq))
  before_slash b i seg w eq (inr zero_both) small =
      let gap : i - seg ≡ 0 = omega arith in
      let empty : w ≡ [] = eq ∙ ap (bytes word (b + seg)) gap in
      let none_yet : ltb 0 i ≡ false = ground arith in rw (none_yet, empty)

  print_segments-slash :
      (b n i seg : ℕ)
      → is_slash (byte word (b + i)) ≡ true
      → (print_segments host word b (suc n) i seg).text
        ≡ (if ltb 0 i then print_path_segment host word (b + seg) (i - seg) else quiet).text
          ++ (print_segments host word b n (i + 1) i).text
  unfolding print_segments
  print_segments-slash b n i seg h = rw h

  print_segments-plain :
      (b n i seg : ℕ)
      → is_slash (byte word (b + i)) ≡ false
      → (print_segments host word b (suc n) i seg).text
        ≡ (print_segments host word b n (i + 1) seg).text
  unfolding print_segments
  print_segments-plain b n i seg h = rw h

  bytes-suc :
      (b n i : ℕ) → bytes word (b + i) (suc n) ≡ byte word (b + i) ∷ bytes word (b + (i + 1)) n
  unfolding bytes
  bytes-suc b n i = ap (λ j. byte word (b + i) ∷ bytes word j n) (omega arith)

  bytes-one : (b i : ℕ) → byte word (b + i) ∷ [] ≡ bytes word (b + i) (i + 1 - i)
  unfolding bytes
  bytes-one b i = let one : i + 1 - i ≡ 1 = omega arith in rw one

  bytes-grow :
      (b i seg : ℕ)
      → seg ≤ i
      → bytes word (b + seg) (i - seg) ++ byte word (b + i) ∷ []
        ≡ bytes word (b + seg) (i + 1 - seg)
  bytes-grow b i seg le =
      let next : i + 1 - seg ≡ suc (i - seg) = omega arith in
      let here : b + i ≡ b + seg + (i - seg) = omega arith in
      rw (next, here) (sym (bytes-snoc word (b + seg) (i - seg)))

  -- The loop from index `i`, with the segment `w` open: what is left to write masks the components
  -- of that segment and of the bytes to come.
  print_segments-mask :
      (b n i seg : ℕ) (w : List ℕ)
      → w ≡ bytes word (b + seg) (i - seg)
      → Clean w
      → (seg < i) ⊎ ((i ≡ 0) × (seg ≡ 0))
      → 0 < i + n
      → i + n < u32_mod
      → (print_segments host word b n i seg).text
        ≡ mask_all host (components (w ++ bytes word (b + i) n))
  print_segments-mask b zero i seg w eq clean inside pos small =
      unfold print_segments bytes in
      (segment-mask b seg i (ground arith) (omega arith)
        ∙ ap (mask host) (sym eq)
        ∙ sym (mask-last w clean))
  print_segments-mask b (suc n) i seg w eq clean inside pos small =
      let x = byte word (b + i) in
      elim (Bool-cases (is_slash x)) [
        | inl slash ↦
            print_segments-slash b n i seg slash
            ∙ ap₂ (λ l r. l ++ r) (before_slash b i seg w eq inside (omega arith))
                (print_segments-mask b n (i + 1) i (x ∷ []) (bytes-one b i) tt (inl (omega arith))
                  (omega arith) (omega arith))
            ∙ sym (mask-slash w x (bytes word (b + (i + 1)) n) clean slash)
            ∙ ap (λ l. mask_all host (components (w ++ l))) (sym (bytes-suc b n i))
        | inr plain ↦
            print_segments-plain b n i seg plain
            ∙ print_segments-mask b n (i + 1) seg (w ++ x ∷ [])
                (ap (λ l. l ++ x ∷ []) eq ∙ bytes-grow b i seg (ground arith))
                (Clean-snoc w x clean plain) (inl (ground arith)) (omega arith) (omega arith)
            ∙ ap (λ l. mask_all host (components l))
                (append_assoc w (x ∷ []) (bytes word (b + (i + 1)) n))
            ∙ ap (λ l. mask_all host (components (w ++ l))) (sym (bytes-suc b n i))
      ]

  -- Without RAWNAMES, a string that is not empty and shorter than 2 ^ 32 is written between quotes as
  -- its components, split at the slashes, each one masked: its slash, and `.`, `..` or the hash of
  -- the rest.
  pub print_string-masked :
      (b len : ℕ)
      → host.raw_names ≡ false
      → 0 < len
      → len < u32_mod
      → (print_string host word b len).text
        ≡ lit "\"" ∷ (mask_all host (components (bytes word b len)) ++ lit "\" " ∷ [])
  unfolding print_string bytes
  print_string-masked b len hashed pos small =
      ap
        (λ raw.
          (said (lit "\"" ∷ [])
            ⊕ (if raw then print_raw host word len b else print_segments host word b len 0 0)
            ⊕ said (lit "\" " ∷ [])).text)
        hashed
      ∙ ap (λ l. lit "\"" ∷ (l ++ lit "\" " ∷ []))
          (print_segments-mask b len 0 0 [] refl tt (inr (refl, refl)) (omega arith) (omega arith)
            ∙ ap (λ j. mask_all host (components (bytes word j len))) (add-zero b))
