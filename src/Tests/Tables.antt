-- ===== src/Tests/Tables.antt =====
-- The two tables of nfsdump2/nfsrecord.c and nfsdump2/tcp_reassembly.c, with a few entries.
use nfsdump.Prelude.{List, Option, ◌∷◌, ℕ, ◌+◌, ◌%◌, ◌≡◌, refl, some, [], arith, keep}
use nfsdump.Table.Cull.{insert-total}
use nfsdump.Table.Keep.{empty-IsValid, push-IsValid, lookup-IsValid}
use nfsdump.Table.Refines.{Op, look_up, put_in, stacks, run, run_stacks, run-stacks}
use nfsdump.Table.View.{view}
use nfsdump.Table.{empty, lookup, push, insert, IsValid, hash_size}
use nfsdump.TcpTable.Laws.{tcp_lookup-tcp_insert}
use nfsdump.TcpTable.{Stream, TcpTable, tcp_keying, tcp_lookup, tcp_insert, new_fragment}
use nfsdump.XidTable.Laws.{hash_lookup_xid-hash_insert_xid, hash_lookup_xid-aged}
use nfsdump.XidTable.{
  Call, Caller, XidTable, xid_keying, hash_lookup_xid, hash_insert_xid, new_call,
}

abbrev old_call : Call
old_call = new_call 10 7 1 2 3 1

abbrev recent_call : Call
recent_call = new_call 90 7 1 2 3 1

abbrev other_call : Call
other_call = new_call 20 3302 1 8 3 4

abbrev caller : Caller
caller = record { xid = 7; host = 1; port = 2 }

abbrev other_caller : Caller
other_caller = record { xid = 3302; host = 1; port = 8 }

abbrev recent_calls : XidTable
recent_calls = push xid_keying recent_call (push xid_keying other_call empty)

recent_calls-IsValid : IsValid xid_keying recent_calls
recent_calls-IsValid =
    push-IsValid xid_keying recent_call _
      (push-IsValid xid_keying other_call _ (empty-IsValid xid_keying))

-- The bucket of the aged call is the next to be culled.
abbrev aged_calls : XidTable
aged_calls = push xid_keying old_call (record { chains = λ _. []; count = 0; cull_index = 10 })

aged_calls-IsValid : IsValid xid_keying aged_calls
aged_calls-IsValid = push-IsValid xid_keying old_call _ (record {
  placed = (empty-IsValid xid_keying).placed;
  counted = (empty-IsValid xid_keying).counted;
  in_range = omega arith;
})

hash_lookup_xid-hash_insert_xid_example :
    (t' : XidTable) × (hash_insert_xid 100 7 1 2 3 6 recent_calls ≡ some t')
    × ((hash_lookup_xid 101 7 1 2 t').0 ≡ some (new_call 100 7 1 2 3 6))
unfolding keep
hash_lookup_xid-hash_insert_xid_example =
    hash_lookup_xid-hash_insert_xid 100 7 1 2 3 6 recent_calls recent_calls-IsValid (omega arith)
      (omega arith) (unfold view push xid_keying in (omega arith, tt)) 101

abbrev stream : Stream
stream = record { seq = 1000; src_host = 1; src_port = 40000; dst_host = 2; dst_port = 2049 }

abbrev buffer : ℕ → ℕ
buffer i = i % 256

abbrev waiting_table : TcpTable
waiting_table = push tcp_keying (new_fragment 95 stream buffer 400 600) empty

tcp_lookup-tcp_insert_example :
    (t' : TcpTable) × (tcp_insert 100 stream buffer 800 200 waiting_table ≡ some t')
    × ((tcp_lookup 101 stream t').0 ≡ some (new_fragment 100 stream buffer 800 200))
unfolding keep
tcp_lookup-tcp_insert_example =
    tcp_lookup-tcp_insert 100 stream buffer 800 200 waiting_table
      (push-IsValid tcp_keying (new_fragment 95 stream buffer 400 600) _ (empty-IsValid tcp_keying))
      (omega arith) (omega arith) (unfold view push tcp_keying in (omega arith, tt)) 101

insert-total_example :
    (t' : XidTable) × (insert xid_keying 100 recent_call aged_calls ≡ some t')
    × IsValid xid_keying t'
    × (t'.cull_index ≡ (aged_calls.cull_index + 1) % hash_size)
insert-total_example = insert-total xid_keying 100 recent_call aged_calls aged_calls-IsValid

lookup-IsValid_example : IsValid xid_keying (lookup xid_keying caller recent_calls).1
lookup-IsValid_example = lookup-IsValid xid_keying caller recent_calls recent_calls-IsValid

-- A call that is sent again, and two replies.
abbrev again : List (Op Call Caller)
again = put_in 100 recent_call ∷ (look_up caller ∷ (look_up other_caller ∷ []))

run-stacks_example :
    (found : List (Option Call)) × (t' : XidTable) × (run xid_keying again aged_calls
      ≡ some (found, t'))
    × IsValid xid_keying t'
    × (run_stacks xid_keying again (stacks xid_keying aged_calls) ≡ (found, stacks xid_keying t'))
run-stacks_example = run-stacks xid_keying again aged_calls aged_calls-IsValid

hash_lookup_xid-aged_example :
    (t' : XidTable) × (hash_insert_xid 100 7 1 2 3 1 aged_calls ≡ some t')
    × ((hash_lookup_xid 101 7 1 2 t').0 ≡ some old_call)
unfolding keep
hash_lookup_xid-aged_example =
    hash_lookup_xid-aged 100 7 1 2 3 1 aged_calls aged_calls-IsValid (omega arith) (omega arith)
      old_call (unfold push xid_keying in refl) (unfold view push xid_keying in refl) (omega arith)
      101
