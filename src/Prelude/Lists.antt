-- ===== src/Prelude/Lists.antt =====
-- Lists over the native numbers, and arrays of lists.
use Prim.Native.Nat.{ℕ, zero, suc, ◌+◌, ◌≤◌, ◌<◌}
use mathlib.Core.Path.{◌≡◌, refl, sym, subst}
use mathlib.Core.Logic.{inl, inr}
use mathlib.Core.Bool.{Bool, false, ◌&&◌}
use mathlib.Core.List.{List, [], ◌∷◌, ◌++◌, tail}
use native.Mathlib.Omega.{arith}
use nfsdump.Prelude.Tests.{if◌then◌else◌, ◌==◌, ==→eq, Bool-cases}

-- A write at one index of an array.
abbrev pub update {ℓ} : {A : Type ℓ} → (ℕ → A) → ℕ → A → ℕ → A
update f i v j = if j == i then v else f j

module _ {ℓ} {A : Type ℓ} where
  abbrev pub length : List A → ℕ
  length [] = 0
  length (x ∷ xs) = suc (length xs)

  pub length-append : (xs ys : List A) → length (xs ++ ys) ≡ length xs + length ys
  length-append [] ys = omega arith
  length-append (x ∷ xs) ys = omega (arith, length-append xs ys)

  -- The first `n` cells of an array, laid end to end, hold so many elements.
  unfoldable pub total : ℕ → (ℕ → List A) → ℕ
  total zero f = 0
  total (suc n) f = length (f n) + total n f

  pub total-update_above :
      (n i : ℕ) (f : ℕ → List A) (c : List A) → n ≤ i → total n (update f i c) ≡ total n f
  unfolding total
  total-update_above zero i f c h = refl
  total-update_above (suc n) i f c h = ground (arith, total-update_above n i f c)

  pub total-update :
      (n i : ℕ) (f : ℕ → List A) (c : List A)
      → i < n
      → total n (update f i c) + length (f i) ≡ total n f + length c
  unfolding total
  total-update zero i f c h = absurd (omega arith)
  total-update (suc n) i f c h =
      ground (arith, total-update n i f c, total-update_above n i f c, ==→eq n i)

  abbrev pub drop : ℕ → List A → List A
  drop zero xs = xs
  drop (suc n) xs = drop n (tail xs)

  -- A predicate on every element.
  abbrev pub All {κ} : (A → Type κ) → List A → Type κ
  All P [] = Unit
  All P (x ∷ xs) = P x × All P xs

  -- A family of predicates on the cells of an array survives a write that meets it.
  pub All-update {κ} :
      (P : ℕ → A → Type κ) (f : ℕ → List A) (i : ℕ) (c : List A)
      → All (P i) c
      → ((j : ℕ) → All (P j) (f j))
      → (j : ℕ) → All (P j) (update f i c j)
  All-update P f i c new old j = elim (Bool-cases (j == i)) [
    | inl h ↦ rw h (subst (λ k. All (P k) c) (sym (==→eq j i h)) new)
    | inr h ↦ rw h (old j)
  ]

  pub All-append {κ} : (P : A → Type κ) (xs ys : List A) → All P (xs ++ ys) → All P xs × All P ys
  All-append P [] ys a = (tt, a)
  All-append P (x ∷ xs) ys a = let (l, r) = All-append P xs ys a.1 in ((a.0, l), r)

  -- Keep the elements that pass a test.
  unfoldable pub keep : (A → Bool) → List A → List A
  keep p [] = []
  keep p (x ∷ xs) = if p x then x ∷ keep p xs else keep p xs

  pub keep-append : (p : A → Bool) (xs ys : List A) → keep p (xs ++ ys) ≡ keep p xs ++ keep p ys
  unfolding keep
  keep-append p [] ys = refl
  keep-append p (x ∷ xs) ys = ground (arith, keep-append p xs ys)

  -- Two tests one after the other.
  pub keep-and : (p q : A → Bool) (xs : List A) → keep (λ x. p x && q x) xs ≡ keep q (keep p xs)
  unfolding keep
  keep-and p q [] = refl
  keep-and p q (x ∷ xs) = ground (arith, keep-and p q xs)

  pub keep_none : (p : A → Bool) (xs : List A) → All (λ x. p x ≡ false) xs → keep p xs ≡ []
  unfolding keep
  keep_none p [] a = refl
  keep_none p (x ∷ xs) a = rw (a.0) (keep_none p xs a.1)

  pub All-map {κ κ'} :
      {P : A → Type κ} {Q : A → Type κ'}
      → ((x : A) → P x → Q x)
      → (xs : List A) → All P xs
      → All Q xs
  All-map f [] a = tt
  All-map f (x ∷ xs) a = (f x a.0, All-map f xs a.1)
