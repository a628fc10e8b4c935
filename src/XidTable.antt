-- ===== src/XidTable.antt =====
-- The table of outstanding calls of nfsdump2/nfsrecord.c: `xidHashTable`, `hashLookupXid` and
-- `hashInsertXid`, as an instance of the shared table.
pub mod Laws
use nfsdump.Prelude.{ℕ, ◌+◌, ◌%◌, ◌<◌, ◌≡◌, ◌↔◌, Bool, true, ◌&&◌, Option, ◌==◌, arith}
use nfsdump.Table.{Keying, Table, hash_size, lookup, insert}

-- `hash_t`, without its `next`
pub record Call : Type 0 where
  pub rpc_xid : ℕ
  pub src_host : ℕ
  pub src_port : ℕ
  pub nfs_version : ℕ
  pub nfs_proc : ℕ
  pub call_time : ℕ

-- What a lookup is given: the transaction, and the host and port that made the call.
pub record Caller : Type 0 where
  pub xid : ℕ
  pub host : ℕ
  pub port : ℕ

unfoldable pub key : Call → Caller
key c = record { xid = c.rpc_xid; host = c.src_host; port = c.src_port }

-- `(curr->rpcXID == xid) && (curr->srcHost == host) && (curr->srcPort == port)`
unfoldable pub same : Caller → Call → Bool
same k c = c.rpc_xid == k.xid && (c.src_host == k.host && c.src_port == k.port)

-- `HASH (x, h, p)`; the sum of three remainders does not wrap.
unfoldable pub hash : Caller → ℕ
hash k = (k.xid % hash_size + k.host % hash_size + k.port % hash_size) % hash_size

pub same_iff : (k : Caller) (c : Call) → (same k c ≡ true) ↔ (key c ≡ k)
unfolding same key
same_iff k c = (λ h. ground arith, λ h. ground arith)

pub hash_lt : (k : Caller) → hash k < hash_size
unfolding hash
hash_lt k = omega arith

unfoldable pub xid_keying : Keying Call Caller
unfolding key same hash
xid_keying = record {
  key = key;
  same = same;
  same_iff = same_iff;
  hash = hash;
  hash_lt = hash_lt;
  time = λ c. c.call_time;
}

abbrev pub XidTable : Type 0
XidTable = Table Call

-- `now` is not read.
unfoldable pub hash_lookup_xid : (now xid host port : ℕ) → XidTable → Option Call × XidTable
unfolding lookup xid_keying
hash_lookup_xid now xid host port =
    lookup xid_keying (record { xid = xid; host = host; port = port })

-- The node that an insertion allocates and fills.
abbrev pub new_call : (now xid host port version proc : ℕ) → Call
new_call now xid host port version proc = record {
  rpc_xid = xid;
  src_host = host;
  src_port = port;
  nfs_version = version;
  nfs_proc = proc;
  call_time = now;
}

unfoldable pub hash_insert_xid : (now xid host port version proc : ℕ) → XidTable → Option XidTable
unfolding insert xid_keying
hash_insert_xid now xid host port version proc =
    insert xid_keying now (new_call now xid host port version proc)
