-- ===== src/Tests/Headers.antt =====
-- RPC headers.
use nfsdump.Prelude.{
  ℕ, ◌+◌, ◌*◌, ◌%◌, ◌≤◌, ◌≡◌, ◌⊎◌, inl, refl, some, ◌==◌, if◌then◌else◌, u32_mod, arith,
}
use nfsdump.Rpc.Laws.{words_for, verifier, get_rpc_header-call, get_rpc_header-accepts}
use nfsdump.Rpc.{get_rpc_header}

-- A call of NFS by the machine `abc`, with ids 501 and 20; its verifier is empty.
abbrev pub a_call : ℕ → ℕ
a_call i =
    if i == 1
    then 0
    else if i == 2
    then 2
    else if i == 3
    then 100003
    else if i == 6
    then 1
    else if i == 7
    then 24
    else if i == 9
    then 3
    else if i == 11
    then 501
    else if i == 12
    then 20
    else 0

-- The same, with a name of 4000 bytes.
abbrev long_name : ℕ → ℕ
long_name i = if i == 9 then 4000 else a_call i

get_rpc_header-call_example :
    ((get_rpc_header a_call 80).1.result
      ≡ some (4 * (10 + words_for 24 + words_for (a_call (verifier a_call 80 + 1))) % u32_mod))
    × ((get_rpc_header a_call 80).1.ids
        ≡ some (a_call (10 + words_for 3), a_call (11 + words_for 3)))
get_rpc_header-call_example =
    get_rpc_header-call a_call 80 refl refl (inl refl) refl (omega arith) (omega arith)
      (omega arith)

get_rpc_header-accepts_example : ((a_call 1 ≡ 0) ⊎ (a_call 1 ≡ 1)) × (64 % 4 ≡ 0) × (20 ≤ 80)
unfolding get_rpc_header
get_rpc_header-accepts_example = get_rpc_header-accepts a_call 80 64 refl
