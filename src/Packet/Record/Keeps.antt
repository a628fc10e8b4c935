-- ===== src/Packet/Record/Keeps.antt =====
-- A record that is printed keeps the state of the decoder as it must be.
use nfsdump.Nfs2.Call.{ops2}
use nfsdump.Nfs3.Call.{nfs_v3_print_call}
use nfsdump.Nfs2.Returns.{nfs_v2_print_call-returns, nfs_v2_print_resp-returns}
use nfsdump.Packet.Reassembly.Fits.{IsSound}
use nfsdump.Packet.Record.{
  Outside, World, NfsRecord, Printed, printed, record_head, print_call, print_resp, print_record,
}
use nfsdump.Prelude.{ℕ, ◌/◌, Bool, inl, inr, Bool-cases, none, some, List, [], ◌==◌}
use nfsdump.Print.{Item, Run, returned, crashed}
use nfsdump.Stats.Sums.{AddsUp}
use nfsdump.Stats.{Tally}
use nfsdump.Table.{IsValid}
use nfsdump.XidTable.{xid_keying}

-- Both tables are as they must be, and the counters of version 2 add up.
pub record IsRunning (w : World) : Type 0 where
  pub calls : IsValid xid_keying w.xid_table
  pub segments : IsSound w.tcp_table
  pub calls2_add : AddsUp ops2 w.calls2
  pub resps2_add : AddsUp ops2 w.resps2

abbrev pub IsPrinted : Printed → Type 0
IsPrinted none = Unit {0}
IsPrinted (some (w, text)) = IsRunning w

printed-IsPrinted :
    (head tail : List Item) (put : Tally → World) (r : Run Tally)
    → ((t : Tally) → IsRunning (put t))
    → IsPrinted (printed head tail put r)
printed-IsPrinted head tail put (returned rc t a) h = h t
printed-IsPrinted head tail put crashed h = tt

module _ (out : Outside) where
  print_call-IsPrinted :
      (word : ℕ → ℕ) (actual_len : ℕ) (head : List Item) (r : NfsRecord) (w : World)
      → IsRunning w
      → IsPrinted (print_call out word actual_len head r w)
  unfolding print_call
  print_call-IsPrinted word actual_len head r w v = elim (Bool-cases (r.nfs_version == 3)) [
    | inl v3 ↦ rw v3 (
        printed-IsPrinted head [] (λ t. record w { calls3 = t })
          (nfs_v3_print_call word actual_len out.host out.args r.nfs_proc r.rpc_xid w.calls3)
          (λ t. record {
            calls = v.calls;
            segments = v.segments;
            calls2_add = v.calls2_add;
            resps2_add = v.resps2_add;
          }))
    | inr other ↦ elim (Bool-cases (r.nfs_version == 2)) [
      | inl v2 ↦
          let (t', a, done, adds) =
            nfs_v2_print_call-returns word (actual_len / 4) out.host out.count₀ r.nfs_proc r.rpc_xid
              w.calls2 v.calls2_add in
          rw (other, v2, done)
            (record {
              calls = v.calls;
              segments = v.segments;
              calls2_add = adds;
              resps2_add = v.resps2_add;
            })
      | inr neither ↦ rw (other, neither) v
    ]
  ]

  print_resp-IsPrinted :
      (word : ℕ → ℕ) (payload_len actual_len : ℕ) (head : List Item) (r : NfsRecord) (w : World)
      → IsRunning w
      → IsPrinted (print_resp out word payload_len actual_len head r w)
  unfolding print_resp
  print_resp-IsPrinted word payload_len actual_len head r w v =
      elim (Bool-cases (r.nfs_version == 3)) [
        | inl v3 ↦ rw v3 (
            printed-IsPrinted head _ (λ t. record w { resps3 = t }) _
              (λ t. record {
                calls = v.calls;
                segments = v.segments;
                calls2_add = v.calls2_add;
                resps2_add = v.resps2_add;
              }))
        | inr other ↦ elim (Bool-cases (r.nfs_version == 2)) [
          | inl v2 ↦
              let (t', a, done, adds) =
                nfs_v2_print_resp-returns word (actual_len / 4) out.host out.count₀ r.nfs_proc
                  r.rpc_xid w.resps2 v.resps2_add r.rpc_status in
              rw (other, v2, done)
                (record {
                  calls = v.calls;
                  segments = v.segments;
                  calls2_add = v.calls2_add;
                  resps2_add = adds;
                })
          | inr neither ↦ rw (other, neither) v
        ]
      ]

  pub print_record-IsPrinted :
      (tcp : Bool) (word : ℕ → ℕ) (payload_len actual_len : ℕ) (r : NfsRecord) (w : World)
      → IsRunning w
      → IsPrinted (print_record out tcp word payload_len actual_len r w)
  unfolding print_record
  print_record-IsPrinted tcp word payload_len actual_len r w v = elim (Bool-cases r.is_call) [
    | inl call ↦ rw call (print_call-IsPrinted word actual_len (record_head out tcp r) r w v)
    | inr reply ↦
        rw reply (print_resp-IsPrinted word payload_len actual_len (record_head out tcp r) r w v)
  ]
