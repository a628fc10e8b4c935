-- ===== src/Print/Fixed.antt =====
-- Printers of fixed size: how many words one consumes, how many it needs, and how far it reads.
use nfsdump.Prelude.{
  ℕ, ◌+◌, ◌≤◌, ◌<◌, ◌≡◌, ap, ◌∙◌, Bool, Option, none, some, List, arith, inl, inr, Bool-cases, ltb,
  if◌then◌else◌,
}
use nfsdump.Print.{
  Item, Emit, Step, step, Printer, ◌⟫◌, ◌⊕◌, say, continue_with, after, null, quiet,
}

-- The step does not crash: it returns the pointer `p`, having read no word from `bound` on.
pub record Gives (bound : ℕ) (p : Option ℕ) (s : Step) : Type 0 where
  pub emitted : Emit
  pub result : s ≡ step p emitted
  pub within : emitted.reach ≤ bound

pub Gives-after :
    {bound : ℕ} {p : Option ℕ} {s : Step} (a : Emit)
    → a.reach ≤ bound
    → Gives bound p s
    → Gives bound p (after a s)
Gives-after a le v = record {
  emitted = a ⊕ v.emitted;
  result = ap (after a) v.result;
  within = omega arith;
}

pub Gives-then :
    {bound : ℕ} {p q : Option ℕ} {s : Step} (g : Printer)
    → Gives bound q s
    → Gives bound p (g q)
    → Gives bound p (continue_with s g)
Gives-then {bound} {p} {q} {s} g v w =
    let rest = Gives-after v.emitted v.within w in
    record {
      emitted = rest.emitted;
      result = ap (λ s. continue_with s g) v.result ∙ rest.result;
      within = rest.within;
    }

pub Gives-le : {b b' : ℕ} {p : Option ℕ} {s : Step} → b ≤ b' → Gives b p s → Gives b' p s
Gives-le le v = record { emitted = v.emitted; result = v.result; within = omega arith }

pub Gives-at : {b : ℕ} {i j : ℕ} {s : Step} → i ≡ j → Gives b (some i) s → Gives b (some j) s
Gives-at e v = rw (← e) v

-- A printer that takes `size` words succeeds exactly when `need` of them are there; the sources
-- test for one word less than they read, or for all.
pub record Fixed (e size need : ℕ) (f : Printer) : Type 0 where
  pub need_le : need ≤ size
  pub size_le : size ≤ need + 1
  pub whole : (i : ℕ) → i + need ≤ e → Gives (i + size) (some (i + size)) (f (some i))
  pub short : (i : ℕ) → e < i + need → Gives (e + 1) none (f (some i))
  pub on_null : Gives 0 none (f none)

module _ {e : ℕ} where
  -- A printer with one test, and then one step.
  pub test-Fixed :
      {f : Printer} (size need : ℕ) (a : ℕ → Emit)
      → need ≤ size
      → size ≤ need + 1
      → ((i : ℕ) → (a i).reach ≤ i + size)
      → ((i : ℕ) → i + need ≤ e → f (some i) ≡ step (some (i + size)) (a i))
      → ((i : ℕ) → e < i + need → f (some i) ≡ null)
      → f none ≡ null
      → Fixed e size need f
  test-Fixed size need a le le' reads passes fails empty = record {
    need_le = le;
    size_le = le';
    whole = λ i h. record { emitted = a i; result = passes i h; within = reads i };
    short = λ i h. record { emitted = quiet; result = fails i h; within = omega arith };
    on_null = record { emitted = quiet; result = empty; within = omega arith };
  }

  pub say-Fixed :
      (print : Bool) (t : List Item) {size need : ℕ} {f : Printer}
      → Fixed e size need f
      → Fixed e size need (say print t ⟫ f)
  unfolding say
  say-Fixed print t v = record {
    need_le = v.need_le;
    size_le = v.size_le;
    whole = λ i h. Gives-after _ (omega arith) (v.whole i h);
    short = λ i h. Gives-after _ (omega arith) (v.short i h);
    on_null = Gives-after _ (omega arith) v.on_null;
  }

  -- One after the other: the second is met only if the first has all its words.
  pub Fixed-then :
      {n need m need' : ℕ} {f g : Printer}
      → Fixed e n need f
      → Fixed e m need' g
      → Fixed e (n + m) (n + need') (f ⟫ g)
  Fixed-then {n} {need} {m} {need'} {f} {g} v w = record {
    need_le = omega (arith, w.need_le);
    size_le = omega (arith, w.size_le);
    whole = λ i h. Gives-at (omega arith) (
        Gives-then g (Gives-le (omega (arith, w.need_le)) (v.whole i (omega (arith, v.need_le))))
          (Gives-le (omega arith) (w.whole (i + n) (omega arith))));
    short = λ i h. elim (Bool-cases (ltb e (i + need))) [
      | inl few ↦ Gives-then g (v.short i (ground arith)) (Gives-le (omega arith) w.on_null)
      | inr enough ↦
          Gives-then g (Gives-le (ground (arith, v.size_le)) (v.whole i (ground arith)))
            (w.short (i + n) (omega arith))
    ];
    on_null = Gives-then g v.on_null w.on_null;
  }

  -- The two cases in one.
  pub Fixed-Gives :
      {size need : ℕ} {f : Printer} (i : ℕ)
      → Fixed e size need f
      → Gives
          (if ltb e (i + need) then e + 1 else i + size)
          (if ltb e (i + need) then none else some (i + size))
          (f (some i))
  Fixed-Gives {size} {need} i v = elim (Bool-cases (ltb e (i + need))) [
    | inl few ↦ rw few (v.short i (ground arith))
    | inr enough ↦ rw enough (v.whole i (ground arith))
  ]
