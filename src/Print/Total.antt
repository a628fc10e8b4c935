-- ===== src/Print/Total.antt =====
-- Printers that never read through NULL.
use nfsdump.Prelude.{Bool, true, false, List, ℕ, Option, none, some, ◌≡◌, refl, if◌then◌else◌}
use nfsdump.Print.{
  Item, Emit, Step, step, segv, Printer, ◌⟫◌, say, continue_with, after, returned, finish,
}

abbrev pub Completes : Step → Type 0
Completes (step p a) = Unit {0}
Completes segv = ⊥

pub record Total (f : Printer) : Type 0 where
  pub on_null : Completes (f none)
  pub on_word : (i : ℕ) → Completes (f (some i))

runs : {f : Printer} → Total f → (p : Option ℕ) → Completes (f p)
runs t none = t.on_null
runs t (some i) = t.on_word i

pub after-Completes : (a : Emit) (s : Step) → Completes s → Completes (after a s)
after-Completes a (step p b) h = tt
after-Completes a segv h = h

pub then-Completes :
    (s : Step) (g : Printer) → Completes s → Total g → Completes (continue_with s g)
then-Completes (step p a) g h t = after-Completes a (g p) (runs t p)
then-Completes segv g h t = h

-- In sequence.
infixl 20 ◌⨟◌
pub ◌⨟◌ : {f g : Printer} → Total f → Total g → Total (f ⟫ g)
◌⨟◌ {f} {g} t u = record {
  on_null = then-Completes (f none) g t.on_null u;
  on_word = λ i. then-Completes (f (some i)) g (t.on_word i) u;
}

pub say-Total : (print : Bool) (t : List Item) → Total (say print t)
unfolding say
say-Total print t = record { on_null = tt; on_word = λ i. tt }

pub skip-Total : (a : Emit) → Total (λ p. step p a)
skip-Total a = record { on_null = tt; on_word = λ i. tt }

pub if-Total : {f g : Printer} (b : Bool) → Total f → Total g → Total (if b then f else g)
if-Total true t u = t
if-Total false t u = u

-- A printer that completes from the pointer `p`.
pub record At (p : Option ℕ) (f : Printer) : Type 0 where
  pub completes : Completes (f p)

pub Total-At : {p : Option ℕ} {f : Printer} → Total f → At p f
Total-At {p} t = record { completes = runs t p }

infixl 20 ◌⨠◌
pub ◌⨠◌ : {p : Option ℕ} {f g : Printer} → At p f → Total g → At p (f ⟫ g)
◌⨠◌ {p} {f} {g} a t = record { completes = then-Completes (f p) g a.completes t }

-- After text only, the pointer is still the same.
pub say-At :
    (print : Bool) (t : List Item) {p : Option ℕ} {f : Printer} → At p f → At p (say print t ⟫ f)
unfolding say
say-At print t {p} {f} a = record { completes = after-Completes _ (f p) a.completes }

pub if-At :
    {p : Option ℕ} {f g : Printer} (b : Bool)
    → (b ≡ true → At p f)
    → (b ≡ false → At p g)
    → At p (if b then f else g)
if-At true t u = t refl
if-At false t u = u refl

-- Any message whose printers complete returns, with the counters that it is given.
pub finish-returns_some :
    {S : Type 0} (short : List Item) (rc_short : Bool) (s : S) (r : Step)
    → Completes r
    → (rc : Bool) × (a : Emit) × (finish short rc_short s r ≡ returned rc s a)
finish-returns_some short rc_short s (step none a) h = (rc_short, _, refl)
finish-returns_some short rc_short s (step (some i) a) h = (true, _, refl)
finish-returns_some short rc_short s segv h = absurd h

-- A message whose printers complete returns.
finish-returns :
    {S : Type 0} (short : List Item) (s : S) (r : Step)
    → Completes r
    → (a : Emit) × (finish short true s r ≡ returned true s a)
finish-returns short s (step none a) h = (_, refl)
finish-returns short s (step (some i) a) h = (_, refl)
finish-returns short s segv h = absurd h

-- A message that tests for a known operation: it returns what the test says, and its counters have
-- a property that they get on both sides.
pub message-returns :
    {S : Type 0} (P : S → Type 0) (b : Bool) (short : List Item) (s s' : S) (r : Step) (a' : Emit)
    → Completes r
    → (b ≡ true → P s)
    → (b ≡ false → P s')
    → (t : S) × (a : Emit) × ((if b then finish short true s r else returned false s' a')
        ≡ returned b t a)
      × P t
message-returns P true short s s' r a' runs known unknown =
    let (a, done) = finish-returns short s r runs in (s, a, done, known refl)
message-returns P false short s s' r a' runs known unknown = (s', a', refl, unknown refl)
