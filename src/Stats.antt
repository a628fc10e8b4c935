-- ===== src/Stats.antt =====
-- The counters of nfsdump2/nfsrecord.h, `nfs_v2_stat_t` and `nfs_v3_stat_t`: one block for each
-- version. The field of an operation, `c3_getattr`, is the cell of an array at the operation's
-- number, with 101 for the MNT that version 3 is made to have. An `unsigned long` has 32 bits, as
-- the program is built.
pub mod Sums
pub mod Report
use nfsdump.Prelude.{
  ℕ, ◌+◌, ◌*◌, ◌/◌, ◌%◌, ◌^◌, Bool, true, false, ltb, if◌then◌else◌, add32, update,
}

-- The fields of the calls, or those of the responses. `unknown` is for operations with no name;
-- `bytes` and `megabytes` are `c3_write_b` and `c3_write_m`, or `r3_read_b` and `r3_read_m`.
pub record Tally : Type 0 where
  pub total : ℕ
  pub by_op : ℕ → ℕ
  pub unknown : ℕ
  pub bytes : ℕ
  pub megabytes : ℕ

-- `stats->c3_total++`
unfoldable pub count_message : Tally → Tally
count_message t = record t { total = add32 t.total 1 }

-- `stats->c3_getattr++`
unfoldable pub count_op : ℕ → Tally → Tally
count_op op t = record t { by_op = update t.by_op op (add32 (t.by_op op) 1) }

unfoldable pub count_unknown : Tally → Tally
count_unknown t = record t { unknown = add32 t.unknown 1 }

abbrev pub megabyte : ℕ
megabyte = 1024 * 1024

-- `b += count; if (b >= 1024 * 1024) { m += b / (1024 * 1024); b %= 1024 * 1024; }`
unfoldable pub count_bytes : ℕ → Tally → Tally
count_bytes count t =
    let b = add32 t.bytes count in
    if ltb b megabyte
    then record t { bytes = b }
    else record t { bytes = b % megabyte; megabytes = add32 t.megabytes (b / megabyte) }

-- A message of a known operation.
abbrev pub count_known : ℕ → Tally → Tally
count_known op t = count_op op (count_message t)
