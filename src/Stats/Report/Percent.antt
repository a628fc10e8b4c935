-- ===== src/Stats/Report/Percent.antt =====
-- The percentages of a report.
use native.Mathlib.Nat.{mul-add, mul-div-le, le_of_mul-le-mul_left}
use nfsdump.Prelude.{
  ℕ, zero, suc, ◌+◌, ◌*◌, ◌%◌, ◌≤◌, ◌<◌, ◌≡◌, refl, false, ap, ◌∙◌, inl, inr, Bool-cases, ◌||◌,
  ◌==◌, u32_mod, arith, ==→eq,
}
use nfsdump.Stats.Report.{compute_pct, is_negative}
use nfsdump.Stats.Sums.{sum_to, AddsUp}
use nfsdump.Stats.{Tally}

-- 2 ^ 31 / 100
abbrev pub pct_limit : ℕ
pct_limit = 21474837

-- Up to the limit the percentage is the quotient, rounded down.
compute_pct-small : (n d : ℕ) → n ≤ d → d < pct_limit → d * compute_pct n d ≤ 100 * n
unfolding compute_pct
compute_pct-small n d le small = elim (Bool-cases (n == 0 || d == 0)) [
  | inl none ↦ rw none (omega arith)
  | inr some_calls ↦
      let exact : n * 100 % u32_mod ≡ 100 * n = omega arith in
      let whole : is_negative (100 * n) ≡ false = ground arith in
      let part : is_negative d ≡ false = ground arith in
      rw (some_calls, exact, whole, part) (mul-div-le (100 * n) d)
]

-- A sum of terms each of which is no more than its share is no more than the whole.
sum_to-shares :
    (ops d k : ℕ) (f g : ℕ → ℕ)
    → ((i : ℕ) → i < ops → d * f i ≤ k * g i)
    → d * sum_to ops f ≤ k * sum_to ops g
unfolding sum_to
sum_to-shares zero d k f g h = omega arith
sum_to-shares (suc ops) d k f g h = omega (
  arith,
  mul-add d (f ops) (sum_to ops f),
  mul-add k (g ops) (sum_to ops g),
  h ops (omega arith),
  sum_to-shares ops d k f g (λ i i_lt. h i (omega arith)),
)

-- A term is no more than the sum.
sum_to-le : (ops : ℕ) (f : ℕ → ℕ) (i : ℕ) → i < ops → f i ≤ sum_to ops f
unfolding sum_to
sum_to-le zero f i h = omega arith
sum_to-le (suc ops) f i h = elim (Bool-cases (i == ops)) [
  | inl last ↦ rw (==→eq i ops last) (omega arith)
  | inr before ↦ let le = sum_to-le ops f i (ground arith) in omega arith
]

compute_pct-nothing : (n : ℕ) → compute_pct n 0 ≡ 0
unfolding compute_pct
compute_pct-nothing n = elim (Bool-cases (n == 0)) [ inl e ↦ rw e refl | inr e ↦ rw e refl ]

-- Where the total is the sum of the counters, without a wrap, and below 21474837, the percentages
-- of all operations together are at most 100.
pub compute_pct-sum :
    (ops : ℕ) (t : Tally)
    → AddsUp ops t
    → sum_to ops t.by_op + t.unknown < u32_mod
    → t.total < pct_limit
    → sum_to ops (λ op. compute_pct (t.by_op op) t.total) ≤ 100
compute_pct-sum ops t sums whole small =
    let d = t.total in
    let pct = λ (op : ℕ). compute_pct (t.by_op op) d in
    let all : sum_to ops t.by_op ≤ d = omega arith in
    let shares : d * sum_to ops pct ≤ 100 * sum_to ops t.by_op =
      sum_to-shares ops d 100 pct t.by_op (λ op op_lt.
        let le = sum_to-le ops t.by_op op op_lt in
        compute_pct-small (t.by_op op) d (omega arith) small) in
    elim (Bool-cases (d == 0)) [
      | inl none ↦
          let no_calls : d ≡ 0 = ==→eq d 0 none in
          let zeros = sum_to-shares ops 1 0 pct t.by_op (λ op op_lt.
            let zero_pct : pct op ≡ 0 =
              ap (compute_pct (t.by_op op)) no_calls ∙ compute_pct-nothing (t.by_op op) in
            omega arith) in
          omega arith
      | inr some_calls ↦ le_of_mul-le-mul_left {k = d} (omega arith) (ground arith)
    ]
