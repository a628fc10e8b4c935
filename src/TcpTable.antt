-- ===== src/TcpTable.antt =====
-- The table of unfinished RPC messages of nfsdump2/tcp_reassembly.c: `tcpHashTable`, `tcpLookup`
-- and `tcpInsert`, as an instance of the shared table. A fragment's buffer is an array of bytes;
-- the culling loop also frees it, which has no effect on the table.
pub mod Laws
use nfsdump.Prelude.{
  ℕ, ◌+◌, ◌-◌, ◌*◌, ◌%◌, ◌<◌, ◌≡◌, ◌↔◌, Bool, true, ◌&&◌, Option, ltb, add32, if◌then◌else◌,
  u32_mod, ◌==◌, arith,
}
use nfsdump.Table.{Keying, Table, hash_size, lookup, insert}

-- `tcp_fragment_t`, without its `next`
pub record Fragment : Type 0 where
  pub src_host : ℕ
  pub dst_host : ℕ
  pub src_port : ℕ
  pub dst_port : ℕ
  pub next_seq : ℕ
  pub buffer : ℕ → ℕ
  pub rpc_len : ℕ
  pub first_seq : ℕ
  pub time : ℕ

-- What a lookup is given: the next sequence number and the connection.
pub record Stream : Type 0 where
  pub seq : ℕ
  pub src_host : ℕ
  pub src_port : ℕ
  pub dst_host : ℕ
  pub dst_port : ℕ

unfoldable pub key : Fragment → Stream
key f = record {
  seq = f.next_seq;
  src_host = f.src_host;
  src_port = f.src_port;
  dst_host = f.dst_host;
  dst_port = f.dst_port;
}

-- The comparison of the lookup loop.
unfoldable pub same : Stream → Fragment → Bool
same k f =
    f.next_seq == k.seq
    && (f.src_host == k.src_host
        && (f.src_port == k.src_port && (f.dst_host == k.dst_host && f.dst_port == k.dst_port)))

-- `((srcPort) << 16 | (dstPort)) % HASHSIZE`, as it enters the unsigned sum. The ports are promoted
-- to a 32-bit `int`: from the source port 0x8000 on the shifted value is negative, the remainder is
-- negative or 0, and it is added modulo 2 ^ 32.
unfoldable pub port_remainder : (src_port dst_port : ℕ) → ℕ
port_remainder src_port dst_port =
    let bits = src_port * 65536 + dst_port in
    if ltb bits (2147483648)
    then bits % hash_size
    else (u32_mod - (u32_mod - bits) % hash_size) % u32_mod

-- `HASH (nextSeq, srcHost, srcPort, dstHost, dstPort)`
unfoldable pub hash : Stream → ℕ
unfolding port_remainder
hash k =
    add32 (k.seq % hash_size + k.src_host % hash_size + k.dst_host % hash_size)
      (port_remainder k.src_port k.dst_port)
    % hash_size

pub same_iff : (k : Stream) (f : Fragment) → (same k f ≡ true) ↔ (key f ≡ k)
unfolding same key
same_iff k f = (λ h. ground arith, λ h. ground arith)

pub hash_lt : (k : Stream) → hash k < hash_size
unfolding hash
hash_lt k = omega arith

unfoldable pub tcp_keying : Keying Fragment Stream
unfolding key same hash
tcp_keying = record {
  key = key;
  same = same;
  same_iff = same_iff;
  hash = hash;
  hash_lt = hash_lt;
  time = λ f. f.time;
}

abbrev pub TcpTable : Type 0
TcpTable = Table Fragment

-- `now` is not read.
unfoldable pub tcp_lookup : (now : ℕ) → Stream → TcpTable → Option Fragment × TcpTable
unfolding lookup tcp_keying
tcp_lookup now k = lookup tcp_keying k

-- The node that an insertion allocates and fills.
abbrev pub new_fragment : (now : ℕ) → Stream → (buffer : ℕ → ℕ) → (rpc_len first_seq : ℕ) → Fragment
new_fragment now k buffer rpc_len first_seq = record {
  src_host = k.src_host;
  dst_host = k.dst_host;
  src_port = k.src_port;
  dst_port = k.dst_port;
  next_seq = k.seq;
  buffer = buffer;
  rpc_len = rpc_len;
  first_seq = first_seq;
  time = now;
}

unfoldable pub tcp_insert :
    (now : ℕ) → Stream → (buffer : ℕ → ℕ) → (rpc_len first_seq : ℕ) → TcpTable → Option TcpTable
unfolding insert tcp_keying
tcp_insert now k buffer rpc_len first_seq =
    insert tcp_keying now (new_fragment now k buffer rpc_len first_seq)
