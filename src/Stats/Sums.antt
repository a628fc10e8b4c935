-- ===== src/Stats/Sums.antt =====
-- The counters add up.
use nfsdump.Prelude.{
  ℕ, zero, suc, ◌+◌, ◌*◌, ◌%◌, ◌≤◌, ◌<◌, ◌≡◌, refl, update, u32_mod, arith, ==→eq,
}
use nfsdump.Stats.{
  Tally, count_message, count_op, count_unknown, count_bytes, megabyte, count_known,
}

-- The sum of the first `n` cells.
unfoldable pub sum_to : ℕ → (ℕ → ℕ) → ℕ
sum_to zero f = 0
sum_to (suc n) f = f n + sum_to n f

sum_to-update_above : (n i v : ℕ) (f : ℕ → ℕ) → n ≤ i → sum_to n (update f i v) ≡ sum_to n f
unfolding sum_to
sum_to-update_above zero i v f h = refl
sum_to-update_above (suc n) i v f h = ground (arith, sum_to-update_above n i v f)

sum_to-update : (n i v : ℕ) (f : ℕ → ℕ) → i < n → sum_to n (update f i v) + f i ≡ sum_to n f + v
unfolding sum_to
sum_to-update zero i v f h = absurd (omega arith)
sum_to-update (suc n) i v f h =
    ground (arith, sum_to-update n i v f, sum_to-update_above n i v f, ==→eq n i)

-- The total is the sum of the operations' counters and of the unknown ones, as 32-bit numbers.
abbrev pub AddsUp : (ops : ℕ) → Tally → Type 0
AddsUp ops t = t.total ≡ (sum_to ops t.by_op + t.unknown) % u32_mod

pub count_known-AddsUp :
    (ops op : ℕ) (t : Tally) → op < ops → AddsUp ops t → AddsUp ops (count_known op t)
unfolding count_message count_op
count_known-AddsUp ops op t h sums =
    omega (arith, sum_to-update ops op ((t.by_op op + 1) % u32_mod) t.by_op h)

pub count_unknown-AddsUp :
    (ops : ℕ) (t : Tally) → AddsUp ops t → AddsUp ops (count_unknown (count_message t))
unfolding count_message count_unknown
count_unknown-AddsUp ops t sums = omega arith

pub count_bytes-AddsUp :
    (ops count : ℕ) (t : Tally) → AddsUp ops t → AddsUp ops (count_bytes count t)
unfolding count_bytes
count_bytes-AddsUp ops count t sums = ground arith

-- Adding a count to the bytes, which are below a megabyte, leaves them below a megabyte, and the
-- megabytes and bytes together grow by just the count, if no sum passes 32 bits.
pub count_bytes-exact :
    (count : ℕ) (t : Tally)
    → t.bytes < megabyte
    → count + megabyte < u32_mod
    → t.megabytes + 4096 < u32_mod
    → ((count_bytes count t).bytes < megabyte)
      × ((count_bytes count t).megabytes * megabyte + (count_bytes count t).bytes
          ≡ t.megabytes * megabyte + t.bytes + count)
unfolding count_bytes
count_bytes-exact count t small fits room = ground arith
