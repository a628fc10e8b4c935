-- ===== src/Tests/Messages.antt =====
-- Whole messages and their counters.
use nfsdump.Nfs2.Call.{ops2, nfs_v2_print_call}
use nfsdump.Nfs2.Resp.{nfs_v2_print_resp}
use nfsdump.Nfs2.Reads.{nfs_v2_print_call-reads, nfs_v2_print_resp-reads}
use nfsdump.Nfs3.Resp.Sums.{cells3, resp_tally3-sums}
use nfsdump.Nfs3.Resp.Reads.{nfs_v3_print_resp-reads}
use nfsdump.Nfs3.Resp.Returns.{nfs_v3_print_resp-crashes}
use nfsdump.Nfs3.Resp.{is_known3, Decoders, resp_tally3, nfs_v3_print_resp}
use nfsdump.Prelude.{
  true, ℕ, ◌+◌, ◌==◌, ◌≤◌, if◌then◌else◌, ◌↔◌, ◌≡◌, refl, inl, Bool, false, none, arith, ltb,
}
use nfsdump.Print.{Emit, returned, crashed}
use nfsdump.Stats.Sums.{sum_to, AddsUp}
use nfsdump.Stats.{Tally}
use nfsdump.Tests.Attributes.{counting}
use nfsdump.Tests.Names.{a_path, hashing, raw}

-- Listings that cannot be decoded.
abbrev pub decoders : Decoders
decoders = record {
  omit_readdir_contents = false;
  readdir = λ word e. none;
  readdirplus = λ word e. none;
}

abbrev pub fresh : Tally
fresh = record { total = 0; by_op = λ _. 0; unknown = 0; bytes = 0; megabytes = 0 }

nfs_v3_print_resp-reads_example :
    (rc : Bool) × (a : Emit) × (nfs_v3_print_resp counting 30 hashing decoders 0 3 5 0 fresh
      ≡ returned rc (resp_tally3 counting 30 hashing decoders 0 0 3 fresh) a)
    × (a.reach ≤ 30 + 2)
nfs_v3_print_resp-reads_example =
    nfs_v3_print_resp-reads counting 30 hashing decoders (omega arith) 0 3 5 0 fresh (inl refl)
      ((λ inside. omega arith), tt) tt

nfs_v3_print_resp-crashes_example :
    nfs_v3_print_resp counting 5 hashing decoders 0 12 5 0 fresh ≡ crashed
nfs_v3_print_resp-crashes_example =
    nfs_v3_print_resp-crashes counting 5 hashing decoders 0 12 5 0 fresh refl (omega arith)
      (omega arith)

resp_tally3-sums_example :
    AddsUp cells3 (resp_tally3 counting 30 hashing decoders 0 0 40 fresh) ↔ (is_known3 40 ≡ true)
resp_tally3-sums_example =
    resp_tally3-sums counting 30 hashing decoders 0 0 40 fresh (unfold sum_to in refl)

-- A file handle, and then a name of eight bytes.
abbrev looked_up : ℕ → ℕ
looked_up i = if i == 8 then 8 else 0x6161_6161

nfs_v2_print_call-reads_example :
    (t' : Tally) × (a : Emit) × (nfs_v2_print_call looked_up 11 raw 0 4 5 fresh
      ≡ returned (ltb 4 ops2) t' a)
    × (a.reach ≤ 11 + 1)
    × AddsUp ops2 t'
nfs_v2_print_call-reads_example =
    nfs_v2_print_call-reads looked_up 11 raw (omega arith) 0 4 5 fresh (unfold sum_to in refl)
      ((λ inside. record { some_len = omega arith; small = omega arith; stays = omega arith }), tt)

nfs_v2_print_resp-reads_example :
    (t' : Tally) × (a : Emit) × (nfs_v2_print_resp a_path 3 hashing 0 5 9 0 fresh
      ≡ returned (ltb 5 ops2) t' a)
    × (a.reach ≤ 3 + 1)
    × AddsUp ops2 t'
nfs_v2_print_resp-reads_example =
    nfs_v2_print_resp-reads a_path 3 hashing (omega arith) 0 5 9 fresh (unfold sum_to in refl) 0
      (λ ok op inside. record { some_len = omega arith; small = omega arith; stays = omega arith })
