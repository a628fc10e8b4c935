-- ===== src/Nfs3/Wire/Totals.antt =====
-- The scalars, handles and names of nfsdump2/nfs_v3.c never read through NULL.
use nfsdump.Nfs3.Wire.{print_uint32, print_fh3, print_fn3, print_stable3}
use nfsdump.Prelude.{ℕ, Bool, arith}
use nfsdump.Print.Total.{Total}
use nfsdump.Text.{Host}

module _ (word : ℕ → ℕ) (e : ℕ) (print : Bool) where
  pub uint32-Total : Total (print_uint32 word e print)
  unfolding print_uint32
  uint32-Total = record { on_null = tt; on_word = λ i. ground arith }

  pub fh3-Total : (host : Host) → Total (print_fh3 word e print host)
  unfolding print_fh3
  fh3-Total host = record { on_null = tt; on_word = λ i. ground arith }

  pub stable3-Total : Total (print_stable3 word e print)
  unfolding print_stable3
  stable3-Total = record { on_null = tt; on_word = λ i. ground arith }

  pub fn3-Total : (host : Host) → Total (print_fn3 word e print host)
  unfolding print_fn3
  fn3-Total host = record { on_null = tt; on_word = λ i. ground arith }
