-- ===== src/Nfs2/Resp.antt =====
-- `nfs_v2_print_resp` of nfsdump2/nfs_v2.c. The payload `p` starts at index 0, and `e` is
-- `actual_len / 4`.
use nfsdump.Nfs2.Call.{ops2}
use nfsdump.Nfs2.{print_fattr2, print_statfsokres2, print_diropokres2, print_fn2}
use nfsdump.Nfs3.Wire.{print_uint32, uint32_val}
use nfsdump.Prelude.{
  ℕ, Bool, true, false, ◌&&◌, ◌||◌, none, some, List, [], ◌∷◌, String, ltb, ◌==◌, if◌then◌else◌,
}
use nfsdump.Print.{
  Item, lit, hex, left8, hex_left8, hex_right2, emit, step, Printer, ◌⟫◌, say, Run, returned,
  finish, pointer,
}
use nfsdump.Stats.{Tally, count_message, count_op, count_unknown, count_bytes, count_known}
use nfsdump.Text.{Host}

-- `PRINT_STATUS (s, 1)`
abbrev pub status_text : ℕ → List Item
status_text s = if s == 0 then lit "OK " ∷ [] else hex s ∷ lit " " ∷ []

-- The name that is written for an operation.
unfoldable pub resp_name2 : ℕ → String
resp_name2 op =
    if op == 0
    then "null"
    else if op == 1
    then "getattr"
    else if op == 2
    then "setattr"
    else if op == 3
    then "root"
    else if op == 4
    then "lookup"
    else if op == 5
    then "readlink"
    else if op == 6
    then "read"
    else if op == 7
    then "writecac"
    else if op == 8
    then "write"
    else if op == 9
    then "create"
    else if op == 10
    then "remove"
    else if op == 11
    then "rename"
    else if op == 12
    then "link"
    else if op == 13
    then "symlink"
    else if op == 14
    then "mkdir"
    else if op == 15
    then "rmdir"
    else if op == 16
    then "readdir"
    else "statfs"

-- The operations that print no status: NULL, ROOT and WRITECACHE.
abbrev pub no_status2 : ℕ → Bool
no_status2 op = op == 0 || (op == 3 || op == 7)

module _ (word : ℕ → ℕ) (e : ℕ) (host : Host) where
  abbrev pub nfsstat2 : Printer
  nfsstat2 = say true (lit "nfsstat " ∷ []) ⟫ print_uint32 word e true

  abbrev fattr2 : Printer
  fattr2 = print_fattr2 word e true

  -- The results of an operation whose status is NFS_OK. READDIR prints none.
  unfoldable pub resp_ok2 : ℕ → Printer
  unfolding print_fattr2 print_statfsokres2 print_diropokres2 print_fn2 print_uint32
  resp_ok2 op =
      if op == 1
      then fattr2
      else if op == 2
      then fattr2
      else if op == 4
      then print_diropokres2 word e true
      else if op == 5
      then print_fn2 word e true host "fn"
      else if op == 6
      then fattr2 ⟫ say true (lit "count " ∷ []) ⟫ print_uint32 word e true
      else if op == 8
      then fattr2
      else if op == 9
      then print_diropokres2 word e true
      else if op == 10
      then nfsstat2
      else if op == 11
      then nfsstat2
      else if op == 12
      then nfsstat2
      else if op == 13
      then nfsstat2
      else if op == 14
      then print_diropokres2 word e true
      else if op == 15
      then nfsstat2
      else if op == 17
      then print_statfsokres2 word e true
      else (λ p. step p (emit [] 0))

  -- After the name: the status, and the results if it is NFS_OK.
  unfoldable pub resp_body2 : (status op : ℕ) → Printer
  unfolding resp_ok2
  resp_body2 status op =
      if no_status2 op
      then (λ p. step p (emit [] 0))
      else say true (status_text status)
        ⟫ (if status == 0 then resp_ok2 op else (λ p. step p (emit [] 0)))

  -- What READ adds up; `count₀` is the indeterminate value of `count` in a packet too short for it.
  unfoldable pub read_count2 : (count₀ : ℕ) → ℕ
  unfolding print_fattr2 uint32_val
  read_count2 count₀ = elim (uint32_val word e true (pointer (fattr2 (some 0)))) [
    | none ↦ count₀
    | some n ↦ n
  ]

  -- The counters after a response of a known operation.
  unfoldable pub resp_tally2 : (count₀ status op : ℕ) → Tally → Tally
  unfolding read_count2 count_bytes
  resp_tally2 count₀ status op t =
      if op == 6 && status == 0
      then count_bytes (read_count2 count₀) (count_known op t)
      else count_known op t

  unfoldable pub nfs_v2_print_resp : (count₀ op xid status : ℕ) → Tally → Run Tally
  unfolding resp_name2 resp_body2 resp_tally2 count_message count_op count_unknown
  nfs_v2_print_resp count₀ op xid status t =
      let head = lit "R2 " ∷ hex_left8 xid ∷ lit " " ∷ hex_right2 op ∷ lit " " ∷ [] in
      if ltb op ops2
      then finish (lit "+/+" ∷ []) true (resp_tally2 count₀ status op t) (
          (say true head ⟫ say true (left8 (resp_name2 op) ∷ lit " " ∷ []) ⟫ resp_body2 status op)
            (some 0))
      else returned false (count_unknown (count_message t))
          (emit (lit "R2 " ∷ hex_left8 xid ∷ lit " " ∷ hex_right2 op ∷ lit " " ∷ lit "?? " ∷ []) 0)
