-- ===== src/Packet/Record.antt =====
-- `printRecord` and `printHostIp` of nfsdump2/nfsrecord.c, which choose the printer of a message,
-- and the state of the whole decoder that they update.
pub mod Keeps
use nfsdump.Nfs2.Call.{nfs_v2_print_call}
use nfsdump.Nfs2.Resp.{nfs_v2_print_resp}
use nfsdump.Nfs3.Call.{ArgDecoders, nfs_v3_print_call}
use nfsdump.Nfs3.Resp.{Decoders, nfs_v3_print_resp}
use nfsdump.Prelude.{
  ℕ, ◌/◌, ◌%◌, ◌^◌, Bool, Option, none, some, List, [], ◌∷◌, ◌++◌, ◌==◌, if◌then◌else◌,
}
use nfsdump.Print.{Item, lit, hex, hex4, hex8, dec, dec6, int, Run, returned, crashed}
use nfsdump.Stats.{Tally}
use nfsdump.TcpTable.{TcpTable}
use nfsdump.Text.{Host}
use nfsdump.XidTable.{XidTable}

-- What the decoder takes from outside: the printers' parameters, `vflag`, the values of variables
-- that are read before they are assigned (`count` of the printers, and `print_it` in each round of
-- the loop), and what `malloc` leaves in a buffer.
pub record Outside : Type 0 where
  pub host : Host
  pub decoders : Decoders
  pub args : ArgDecoders
  pub vflag : Bool
  pub count₀ : ℕ
  pub print_it₀ : ℕ → Bool
  pub junk : ℕ → ℕ

-- The two tables, and the counters of `v2statsBlock` and `v3statsBlock`.
pub record World : Type 0 where
  pub xid_table : XidTable
  pub tcp_table : TcpTable
  pub calls2 : Tally
  pub resps2 : Tally
  pub calls3 : Tally
  pub resps3 : Tally

-- `nfs_pkt_t`; `is_call` is `rpcCall == CALL`.
pub record NfsRecord : Type 0 where
  pub secs : ℕ
  pub usecs : ℕ
  pub src_host : ℕ
  pub dst_host : ℕ
  pub src_port : ℕ
  pub dst_port : ℕ
  pub rpc_xid : ℕ
  pub is_call : Bool
  pub nfs_version : ℕ
  pub nfs_proc : ℕ
  pub rpc_status : ℕ

unfoldable pub print_host_ip : (vflag : Bool) → ℕ → List Item
print_host_ip vflag ip =
    if vflag
    then dec (ip / 2 ^ 24 % 256)
      ∷ lit "."
      ∷ dec (ip / 2 ^ 16 % 256)
      ∷ lit "."
      ∷ dec (ip / 2 ^ 8 % 256)
      ∷ lit "."
      ∷ dec (ip % 256)
      ∷ []
    else hex8 ip ∷ []

-- The world and the text after a printer; `none` is the death of the process.
abbrev pub Printed : Type 0
Printed = Option (World × List Item)

abbrev pub printed : (head tail : List Item) → (Tally → World) → Run Tally → Printed
printed head tail put (returned rc t a) = some (put t, head ++ (a.text ++ tail))
printed head tail put crashed = none

module _ (out : Outside) where
  open out use {host, decoders, args, vflag, count₀}

  -- What stands in front of every record.
  unfoldable pub record_head : (tcp : Bool) → NfsRecord → List Item
  unfolding print_host_ip
  record_head tcp r =
      (dec r.secs ∷ lit "." ∷ dec6 r.usecs ∷ lit " " ∷ [])
      ++ print_host_ip vflag r.src_host
      ++ (lit "." ∷ hex4 (r.src_port % 65536) ∷ lit " " ∷ [])
      ++ print_host_ip vflag r.dst_host
      ++ (lit "." ∷ hex4 (r.dst_port % 65536) ∷ lit " " ∷ [])
      ++ lit (if tcp then "T " else "U ") ∷ []

  -- The call of a record, whose payload is given by its words.
  unfoldable pub print_call :
      (word : ℕ → ℕ) (actual_len : ℕ) → List Item → NfsRecord → World → Printed
  unfolding nfs_v3_print_call nfs_v2_print_call
  print_call word actual_len head r w =
      if r.nfs_version == 3
      then printed head [] (λ t. record w { calls3 = t })
          (nfs_v3_print_call word actual_len host args r.nfs_proc r.rpc_xid w.calls3)
      else if r.nfs_version == 2
      then printed head [] (λ t. record w { calls2 = t })
          (nfs_v2_print_call word (actual_len / 4) host count₀ r.nfs_proc r.rpc_xid w.calls2)
      else some (w, head ++ (lit "CU" ∷ int r.nfs_version ∷ lit "\n" ∷ []))

  -- After a response its status, and the length of its payload.
  unfoldable pub print_resp :
      (word : ℕ → ℕ) (payload_len actual_len : ℕ) → List Item → NfsRecord → World → Printed
  unfolding nfs_v3_print_resp nfs_v2_print_resp
  print_resp word payload_len actual_len head r w =
      let tail : List Item =
        lit "status=" ∷ hex r.rpc_status ∷ lit " " ∷ lit "pl=" ∷ int payload_len ∷ lit " " ∷ [] in
      if r.nfs_version == 3
      then printed head tail (λ t. record w { resps3 = t })
          (nfs_v3_print_resp word (actual_len / 4) host decoders count₀ r.nfs_proc r.rpc_xid
            r.rpc_status w.resps3)
      else if r.nfs_version == 2
      then printed head tail (λ t. record w { resps2 = t })
          (nfs_v2_print_resp word (actual_len / 4) host count₀ r.nfs_proc r.rpc_xid r.rpc_status
            w.resps2)
      else some (w, head ++ ((lit "RU" ∷ int r.nfs_version ∷ lit "\n" ∷ []) ++ tail))

  unfoldable pub print_record :
      (tcp : Bool) (word : ℕ → ℕ) (payload_len actual_len : ℕ) → NfsRecord → World → Printed
  unfolding record_head print_call print_resp
  print_record tcp word payload_len actual_len r w =
      if r.is_call
      then print_call word actual_len (record_head tcp r) r w
      else print_resp word payload_len actual_len (record_head tcp r) r w
