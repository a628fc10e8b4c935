-- ===== src/Nfs2/Call.antt =====
-- `nfs_v2_print_call` of nfsdump2/nfs_v2.c. The payload `p` starts at index 0, and `e` is
-- `actual_len / 4`.
use nfsdump.Nfs2.{print_fh2, print_cookie2, print_sattr2, print_fn2, print_diropargs2}
use nfsdump.Nfs3.Wire.{print_uint32, uint32_val}
use nfsdump.Prelude.{ℕ, true, false, none, some, [], ◌∷◌, String, ltb, ◌==◌, if◌then◌else◌}
use nfsdump.Print.{
  lit, left8, hex_left8, hex_right2, emit, step, Printer, ◌⟫◌, say, Run, returned, finish, pointer,
}
use nfsdump.Stats.{Tally, count_message, count_op, count_unknown, count_bytes, count_known}
use nfsdump.Text.{Host}

-- The number of operations of version 2; the constants of `NFSPROC_` are 0 to 17.
abbrev pub ops2 : ℕ
ops2 = 18

-- The name that is written for an operation.
unfoldable pub call_name2 : ℕ → String
call_name2 op =
    if op == 0
    then "null"
    else if op == 1
    then "getattr"
    else if op == 2
    then "setattr"
    else if op == 3
    then "root"
    else if op == 4
    then "lookup"
    else if op == 5
    then "readlink"
    else if op == 6
    then "read"
    else if op == 7
    then "writecach"
    else if op == 8
    then "write"
    else if op == 9
    then "create"
    else if op == 10
    then "remove"
    else if op == 11
    then "rename"
    else if op == 12
    then "link"
    else if op == 13
    then "symlink"
    else if op == 14
    then "mkdir"
    else if op == 15
    then "rmdir"
    else if op == 16
    then "readdir"
    else "statfs"

module _ (word : ℕ → ℕ) (e : ℕ) (host : Host) where
  abbrev fh : Printer
  fh = print_fh2 word e true "fh"

  abbrev u32 : Printer
  u32 = print_uint32 word e true

  abbrev sattr : Printer
  sattr = print_sattr2 word e true

  abbrev dirop : Printer
  dirop = print_diropargs2 word e true host "fh" "fn"

  -- WRITE up to its count, which `count` takes a copy of.
  unfoldable pub write_head2 : Printer
  unfolding print_fh2 print_uint32
  write_head2 =
      fh
      ⟫ say true (lit "begoff " ∷ [])
      ⟫ u32
      ⟫ say true (lit "offset " ∷ [])
      ⟫ u32
      ⟫ say true (lit "tcount " ∷ [])

  -- The arguments of an operation. NULL, ROOT and WRITECACHE print none.
  unfoldable pub call_args2 : ℕ → Printer
  unfolding print_fh2 print_cookie2 print_sattr2 print_fn2 print_diropargs2 print_uint32 write_head2
  call_args2 op =
      if op == 1
      then fh
      else if op == 2
      then fh ⟫ sattr
      else if op == 4
      then dirop
      else if op == 5
      then fh
      else if op == 6
      then fh
        ⟫ say true (lit "offset " ∷ [])
        ⟫ u32
        ⟫ say true (lit "count " ∷ [])
        ⟫ u32
        ⟫ say true (lit "tcount " ∷ [])
        ⟫ u32
      else if op == 8
      then write_head2 ⟫ u32
      else if op == 9
      then dirop ⟫ sattr
      else if op == 10
      then dirop
      else if op == 11
      then dirop ⟫ print_diropargs2 word e true host "fh2" "fn2"
      else if op == 12
      then fh ⟫ print_diropargs2 word e true host "fh2" "fn"
      else if op == 13
      then dirop ⟫ print_fn2 word e true host "fn2" ⟫ sattr
      else if op == 14
      then dirop ⟫ sattr
      else if op == 15
      then dirop
      else if op == 16
      then fh ⟫ print_cookie2 word e true ⟫ say true (lit "count " ∷ []) ⟫ u32
      else if op == 17
      then fh
      else (λ p. step p (emit [] 0))

  -- What `count` holds where WRITE adds it up: the word printed, or, if the packet was too short
  -- for one, the indeterminate value `count₀` of the variable.
  unfoldable pub write_count2 : (count₀ : ℕ) → ℕ
  unfolding write_head2 uint32_val
  write_count2 count₀ = elim (uint32_val word e true (pointer (write_head2 (some 0)))) [
    | none ↦ count₀
    | some n ↦ n
  ]

  -- The counters after a call of a known operation.
  unfoldable pub call_tally2 : (count₀ op : ℕ) → Tally → Tally
  unfolding write_count2 count_bytes
  call_tally2 count₀ op t =
      if op == 8 then count_bytes (write_count2 count₀) (count_known op t) else count_known op t

  unfoldable pub nfs_v2_print_call : (count₀ op xid : ℕ) → Tally → Run Tally
  unfolding call_name2 call_args2 call_tally2 count_message count_op count_unknown
  nfs_v2_print_call count₀ op xid t =
      let head = lit "C2 " ∷ hex_left8 xid ∷ lit " " ∷ hex_right2 op ∷ lit " " ∷ [] in
      if ltb op ops2
      then finish (lit "+|+" ∷ []) true (call_tally2 count₀ op t) (
          (say true head ⟫ say true (left8 (call_name2 op) ∷ lit " " ∷ []) ⟫ call_args2 op)
            (some 0))
      else returned false (count_unknown (count_message t))
          (emit (lit "C2 " ∷ hex_left8 xid ∷ lit " " ∷ hex_right2 op ∷ lit " " ∷ lit "?? " ∷ []) 0)
