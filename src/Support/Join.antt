-- ===== src/Support/Join.antt =====
-- `copy_argv` joins the arguments by spaces, and fills its buffer.
use nfsdump.Prelude.{
  ℕ, ◌+◌, ◌^◌, ◌<◌, ◌≡◌, refl, ap, ◌∙◌, sym, String, true, some, List, [], ◌∷◌, ◌++◌, length,
  append_assoc, length-append, Bool, add32, arith,
}
use nfsdump.Support.{goes, argv_len, copy_args, end_last, copy_argv}

-- The arguments with a space between two.
unfoldable pub joined : List (List ℕ) → List ℕ
joined [] = []
joined (a ∷ []) = a
joined (a ∷ (b ∷ rest)) = a ++ 0x20 ∷ joined (b ∷ rest)

-- The bytes that the arguments take with a byte after each.
abbrev pub size_of : List (List ℕ) → ℕ
size_of [] = 0
size_of (a ∷ rest) = length a + 1 + size_of rest

argv_len-size :
    (rest : List (List ℕ)) (len : ℕ)
    → len + size_of rest < 2 ^ 32
    → argv_len rest len ≡ len + size_of rest
unfolding argv_len
argv_len-size [] len fits = omega arith
argv_len-size (a ∷ rest) len fits =
    let here : add32 len (length a + 1) ≡ len + (length a + 1) = omega arith in
    rw here (omega (arith, argv_len-size rest (len + (length a + 1))))

end_last-append :
    (xs : List ℕ) (b : ℕ) (ys : List ℕ) → end_last (xs ++ b ∷ ys) ≡ xs ++ end_last (b ∷ ys)
unfolding end_last
end_last-append [] b ys = refl
end_last-append (x ∷ []) b ys = refl
end_last-append (x ∷ (y ∷ xs)) b ys = ap (λ r. x ∷ r) (end_last-append (y ∷ xs) b ys)

end_last-cons :
    (b : ℕ) (xs : List ℕ) (c : ℕ) (ys : List ℕ)
    → end_last (b ∷ (xs ++ c ∷ ys)) ≡ b ∷ end_last (xs ++ c ∷ ys)
unfolding end_last
end_last-cons b [] c ys = refl
end_last-cons b (x ∷ xs) c ys = refl

end_last-copy_args :
    (a : List ℕ) (rest : List (List ℕ))
    → end_last (copy_args (a ∷ rest)) ≡ joined (a ∷ rest) ++ 0 ∷ []
unfolding copy_args joined end_last
end_last-copy_args a [] = end_last-append a 0x20 []
end_last-copy_args a (b ∷ rest) =
    end_last-append a 0x20 (copy_args (b ∷ rest))
    ∙ ap (λ r. a ++ r)
        (end_last-cons 0x20 b 0x20 (copy_args rest)
          ∙ ap (λ r. 0x20 ∷ r) (end_last-copy_args b rest))
    ∙ sym (append_assoc a (0x20 ∷ joined (b ∷ rest)) (0 ∷ []))

copy_args-length : (rest : List (List ℕ)) → length (copy_args rest) ≡ size_of rest
unfolding copy_args
copy_args-length [] = refl
copy_args-length (a ∷ rest) =
    omega (arith, length-append a (0x20 ∷ copy_args rest), copy_args-length rest)

end_last-length : (xs : List ℕ) → length (end_last xs) ≡ length xs
unfolding end_last
end_last-length [] = refl
end_last-length (x ∷ []) = refl
end_last-length (x ∷ (y ∷ xs)) = omega (arith, end_last-length (y ∷ xs))

-- Arguments of less than 4 GB, where `malloc` gives their buffer: `copy_argv` gives them joined by
-- spaces, with a NUL at the end, and that fills just the bytes that it has asked for.
pub copy_argv-joins :
    (program_name strerror : String) (malloc : ℕ → Bool) (a : List ℕ) (rest : List (List ℕ))
    → size_of (a ∷ rest) < 2 ^ 32
    → malloc (size_of (a ∷ rest)) ≡ true
    → (copy_argv program_name strerror malloc (a ∷ rest)
        ≡ goes (some (joined (a ∷ rest) ++ 0 ∷ [])))
      × (length (joined (a ∷ rest) ++ 0 ∷ []) ≡ argv_len (a ∷ rest) 0)
unfolding copy_argv
copy_argv-joins program_name strerror malloc a rest fits given =
    let len : argv_len (a ∷ rest) 0 ≡ size_of (a ∷ rest) =
      argv_len-size (a ∷ rest) 0 (omega arith) ∙ (omega arith) in
    let text = end_last-copy_args a rest in
    (
      rw (len, given, text) refl,
      ap length (sym text)
          ∙ end_last-length (copy_args (a ∷ rest))
          ∙ copy_args-length (a ∷ rest)
          ∙ sym len,
    )
