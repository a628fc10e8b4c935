-- ===== src/Print/Near.antt =====
-- Printers that read no further than a bound, with what is known of their pointers.
use nfsdump.Prelude.{
  ℕ, ◌+◌, ◌≤◌, ◌≡◌, refl, ap, inl, inr, Bool-cases, ltb, Bool, true, false, List, none, some,
  if◌then◌else◌, arith,
}
use nfsdump.Print.Fixed.{Fixed, Gives}
use nfsdump.Print.{
  Item, Emit, Step, step, segv, Printer, ◌⟫◌, say, continue_with, after, Run, returned, crashed,
  finish,
}

-- A step that does not read through NULL, reads no word from `b` on, and whose pointer, if it is
-- not NULL, has the property `Q`.
abbrev pub Near : (b : ℕ) (Q : ℕ → Type 0) → Step → Type 0
Near b Q (step none a) = a.reach ≤ b
Near b Q (step (some i) a) = (a.reach ≤ b) × Q i
Near b Q segv = ⊥

-- A printer of such steps, from NULL and from any pointer with the property `P`.
pub record Bounded (b : ℕ) (P Q : ℕ → Type 0) (f : Printer) : Type 0 where
  pub on_null : Near b Q (f none)
  pub on_word : (i : ℕ) → P i → Near b Q (f (some i))

abbrev pub Any : ℕ → Type 0
Any i = Unit {0}

abbrev pub Is : ℕ → ℕ → Type 0
Is j i = i ≡ j

module _ (b : ℕ) (Q : ℕ → Type 0) where
  pub after-Near : (a : Emit) (s : Step) → a.reach ≤ b → Near b Q s → Near b Q (after a s)
  after-Near a (step none c) le h = omega arith
  after-Near a (step (some i) c) le (h, q) = (omega arith, q)
  after-Near a segv le h = h

  continue-Near :
      {P : ℕ → Type 0} (s : Step) (g : Printer)
      → Near b P s
      → Bounded b P Q g
      → Near b Q (continue_with s g)
  continue-Near (step none a) g h v = after-Near a (g none) h v.on_null
  continue-Near (step (some i) a) g (h, p) v = after-Near a (g (some i)) h (v.on_word i p)
  continue-Near segv g h v = h

  forget-Near : (s : Step) → Near b Q s → Near b Any s
  forget-Near (step none a) h = h
  forget-Near (step (some i) a) (h, q) = (h, tt)
  forget-Near segv h = h

module _ {b : ℕ} where
  infixl 20 ◌▷◌
  pub ◌▷◌ :
      {P Q R : ℕ → Type 0} {f g : Printer}
      → Bounded b P Q f
      → Bounded b Q R g
      → Bounded b P R (f ⟫ g)
  ◌▷◌ {P} {Q} {R} {f} {g} v w = record {
    on_null = continue-Near b R (f none) g v.on_null w;
    on_word = λ i p. continue-Near b R (f (some i)) g (v.on_word i p) w;
  }

  pub say-Bounded : {P : ℕ → Type 0} (print : Bool) (t : List Item) → Bounded b P P (say print t)
  unfolding say
  say-Bounded print t = record { on_null = omega arith; on_word = λ i p. (omega arith, p) }

  -- The pointer that comes out is not of interest.
  pub forget : {P Q : ℕ → Type 0} {f : Printer} → Bounded b P Q f → Bounded b P Any f
  forget {P} {Q} {f} v = record {
    on_null = forget-Near b Q (f none) v.on_null;
    on_word = λ i p. forget-Near b Q (f (some i)) (v.on_word i p);
  }

  pub skip-Bounded : {P : ℕ → Type 0} (a : Emit) → a.reach ≤ b → Bounded b P Any (λ p. step p a)
  skip-Bounded a le = record { on_null = le; on_word = λ i p. (le, tt) }

  pub if-Bounded :
      {P Q : ℕ → Type 0} {f g : Printer} (c : Bool)
      → (c ≡ true → Bounded b P Q f)
      → (c ≡ false → Bounded b P Q g)
      → Bounded b P Q (if c then f else g)
  if-Bounded true v w = v refl
  if-Bounded false v w = w refl

widen-Near : {b b' : ℕ} (Q : ℕ → Type 0) (s : Step) → b ≤ b' → Near b Q s → Near b' Q s
widen-Near Q (step none a) le h = omega arith
widen-Near Q (step (some i) a) le (h, q) = (omega arith, q)
widen-Near Q segv le h = h

pub widen :
    {b b' : ℕ} {P Q : ℕ → Type 0} {f : Printer} → b ≤ b' → Bounded b P Q f → Bounded b' P Q f
widen {b} {b'} {P} {Q} {f} le v = record {
  on_null = widen-Near Q (f none) le v.on_null;
  on_word = λ i p. widen-Near Q (f (some i)) le (v.on_word i p);
}

-- A message that returns, having read no word from `n` on.
abbrev pub Reaches : {S : Type 0} (n : ℕ) → Run S → Type 0
Reaches n (returned rc s a) = a.reach ≤ n
Reaches n crashed = ⊥

pub finish-Reaches :
    {S : Type 0} (n : ℕ) (short : List Item) (rc_short : Bool) (s : S) (r : Step)
    → Near n Any r
    → Reaches n (finish short rc_short s r)
finish-Reaches n short rc_short s (step none a) h = omega arith
finish-Reaches n short rc_short s (step (some i) a) (h, any) = h
finish-Reaches n short rc_short s segv h = h

pub Gives-none : {b b' : ℕ} (Q : ℕ → Type 0) (s : Step) → b ≤ b' → Gives b none s → Near b' Q s
Gives-none Q s le v = rw v.result (omega (arith, v.within))

pub Gives-some :
    {b b' i : ℕ} (Q : ℕ → Type 0) (s : Step) → b ≤ b' → Q i → Gives b (some i) s → Near b' Q s
Gives-some Q s le q v = rw v.result (omega (arith, v.within), q)

-- A printer of fixed size reads one word past the end at most.
pub Fixed-Bounded :
    {e size need : ℕ} {P Q : ℕ → Type 0} {f : Printer}
    → ((i : ℕ) → P i → Q (i + size))
    → Fixed e size need f
    → Bounded (e + 1) P Q f
Fixed-Bounded {e} {size} {need} {P} {Q} {f} moves v = record {
  on_null = Gives-none Q (f none) (omega arith) v.on_null;
  on_word = λ i p. elim (Bool-cases (ltb e (i + need))) [
    | inl few ↦ Gives-none Q (f (some i)) (omega arith) (v.short i (ground arith))
    | inr enough ↦
        Gives-some Q (f (some i)) (ground (arith, v.size_le)) (moves i p) (v.whole i (ground arith))
  ];
}

pub Fixed-Any :
    {e size need : ℕ} {P : ℕ → Type 0} {f : Printer} → Fixed e size need f → Bounded (e + 1) P Any f
Fixed-Any v = Fixed-Bounded (λ i p. tt) v

pub Fixed-Is :
    {e size need : ℕ} (j : ℕ) {f : Printer}
    → Fixed e size need f
    → Bounded (e + 1) (Is j) (Is (j + size)) f
Fixed-Is {e} {size} j v = Fixed-Bounded (λ i p. ap (λ k. k + size) p) v
