-- ===== src/Nfs3/Resp.antt =====
-- `nfs_v3_print_resp` of nfsdump2/nfs_v3.c. The payload `p` starts at index 0, and `e` is
-- `actual_len / 4`. The decoders of directory listings are generated by rpcgen from nfs_prot.x: they
-- are parameters here, functions of the payload and its end, that fail or return the entries.
pub mod Reads
pub mod Returns
pub mod Sums
use nfsdump.Nfs3.Attr.{print_fattr3, print_wcc_data3, print_post_op_attr3, print_post_op_fh3}
use nfsdump.Nfs3.Wire.{print_uint32, uint32_val, uint64_text, print_fh3, print_fn3, print_stable3}
use nfsdump.Prelude.{
  ℕ, zero, suc, ◌+◌, Bool, true, false, ◌&&◌, ◌||◌, not, Option, none, some, List, [], ◌∷◌, ◌++◌,
  String, ltb, ◌==◌, if◌then◌else◌,
}
use nfsdump.Print.{
  Item, lit, dec, hex, hex2, hex8, Emit, emit, said, quiet, after, ◌⊕◌, step, Printer, ◌⟫◌, say,
  Run, returned, finish, pointer,
}
use nfsdump.Stats.{Tally, count_message, count_op, count_bytes, count_known}
use nfsdump.Text.{Host, print_string}

-- `entry3`: two 64-bit numbers by their halves, and a name in memory of its own. `entryplus3` has
-- the file handle as well, if one follows, as bytes.
pub record Entry : Type 0 where
  pub fileid_hi : ℕ
  pub fileid_lo : ℕ
  pub name : ℕ → ℕ
  pub name_len : ℕ
  pub cookie_hi : ℕ
  pub cookie_lo : ℕ
  pub handle : Option (List ℕ)

pub record Listing : Type 0 where
  pub eof : ℕ
  pub entries : List Entry

-- What the message printers take from outside, besides `Host`: the option `omitReaddirContents`,
-- and `xdr_READDIR3resok` and `xdr_READDIRPLUS3resok`, with `none` for a failure.
pub record Decoders : Type 0 where
  pub omit_readdir_contents : Bool
  pub readdir : (word : ℕ → ℕ) → (e : ℕ) → Option Listing
  pub readdirplus : (word : ℕ → ℕ) → (e : ℕ) → Option Listing

-- `PRINT_STATUS (s, 1)`
abbrev pub status_text : ℕ → List Item
status_text s = if s == 0 then lit "OK " ∷ [] else hex s ∷ lit " " ∷ []

-- `fprintf (OutFile, "label-%u ", num)`
abbrev pub numbered : String → ℕ → List Item
numbered label num = lit label ∷ lit "-" ∷ dec num ∷ lit " " ∷ []

-- `print_fh3_x`, over the bytes of a handle
unfoldable pub handle_text : List ℕ → List Item
handle_text [] = lit " " ∷ []
handle_text (b ∷ bs) = hex2 b ∷ handle_text bs

-- The handle of an `entryplus3`, if `handle_follows`.
abbrev pub optional_handle : ℕ → Option (List ℕ) → List Item
optional_handle num none = []
optional_handle num (some bs) = lit "fh-" ∷ dec num ∷ lit " " ∷ handle_text bs

module _ (host : Host) where
  -- The loop over the entries. `plus` tells READDIRPLUS, which prints handles.
  unfoldable pub entries_text : (plus : Bool) → (name_cnt : ℕ) → List Entry → List Item
  unfolding print_string handle_text
  entries_text plus num [] = []
  entries_text plus num (en ∷ rest) =
      numbered "fileid" num
      ++ uint64_text en.fileid_hi en.fileid_lo
      ++ numbered "name" num
      ++ (print_string host en.name 0 en.name_len).text
      ++ numbered "cookie" num
      ++ uint64_text en.cookie_hi en.cookie_lo
      ++ (if plus then optional_handle num en.handle else [])
      ++ entries_text plus (num + 1) rest

  -- What a decoded listing prints; a failure to decode prints nothing.
  unfoldable pub listing_text : (plus : Bool) → Option Listing → List Item
  unfolding entries_text
  listing_text plus none = []
  listing_text plus (some l) = lit "eof " ∷ dec l.eof ∷ lit " " ∷ entries_text plus 0 l.entries

-- MOUNT_PROC_BASE + MOUNTPROC3_MNT
abbrev pub mnt3 : ℕ
mnt3 = 101

-- The cases of the switch: 0 to 21, and MNT.
abbrev pub is_known3 : ℕ → Bool
is_known3 op = ltb op 22 || op == mnt3

-- The name that is written for an operation.
unfoldable pub resp_name3 : ℕ → String
resp_name3 op =
    if op == 0
    then "null "
    else if op == 1
    then "getattr "
    else if op == 2
    then "setattr "
    else if op == 3
    then "lookup "
    else if op == 4
    then "access "
    else if op == 5
    then "readlink "
    else if op == 6
    then "read "
    else if op == 7
    then "write "
    else if op == 8
    then "create "
    else if op == 9
    then "mkdir "
    else if op == 10
    then "symlink "
    else if op == 11
    then "mknod "
    else if op == 12
    then "remove "
    else if op == 13
    then "rmdir "
    else if op == 14
    then "rename "
    else if op == 15
    then "link "
    else if op == 16
    then "readdir "
    else if op == 17
    then "readdirp "
    else if op == 18
    then "fsstat "
    else if op == 19
    then "fsinfo "
    else if op == 20
    then "pathconf "
    else if op == 21
    then "commit "
    else if op == mnt3
    then "mnt "
    else "unknown "

-- What is written in front of the status.
abbrev pub resp_head3 : (op xid : ℕ) → List Item
resp_head3 op xid = lit "R3 " ∷ hex8 xid ∷ lit " " ∷ hex2 op ∷ lit " " ∷ lit (resp_name3 op) ∷ []

abbrev pub short_packet : List Item
short_packet = lit "SHORT PACKET" ∷ []

-- A case that prints nothing more, and leaves `new_p` alone.
abbrev pub skip : Printer
skip p = step p quiet

module _ (word : ℕ → ℕ) (e : ℕ) (host : Host) (xdr : Decoders) where
  abbrev u32 : Printer
  u32 = print_uint32 word e true

  abbrev post_op : Bool → Printer
  post_op print = print_post_op_attr3 word e print

  abbrev wcc : Printer
  wcc = print_wcc_data3 word e true

  -- The four operations that make an object: its handle and its attributes.
  unfoldable pub made3 : Printer
  made3 = say true (lit "fh " ∷ []) ⟫ print_post_op_fh3 word e true host ⟫ post_op true

  -- READ's results, from the count on.
  unfoldable pub read_rest3 : Printer
  read_rest3 = say true (lit "count " ∷ []) ⟫ u32 ⟫ say true (lit "eof " ∷ []) ⟫ u32

  unfoldable pub write_rest3 : Printer
  write_rest3 =
      say true (lit "count " ∷ []) ⟫ u32 ⟫ say true (lit "stable " ∷ []) ⟫ print_stable3 word e true

  -- READDIR and READDIRPLUS: the attributes, then the listing unless it is left out. The decoder
  -- starts again at `p`.
  unfoldable pub listing3 : (plus : Bool) → (status : ℕ) → Printer
  listing3 plus status =
      post_op true
      ⟫ say (not xdr.omit_readdir_contents && status == 0)
          (listing_text host plus ((if plus then xdr.readdirplus else xdr.readdir) word e))

  -- Only with NFS3_OK.
  abbrev if_ok : ℕ → Printer → Printer
  if_ok status f = if status == 0 then f else skip

  -- What a case prints after the status.
  unfoldable pub resp_results3 : (status op : ℕ) → Printer
  resp_results3 status op =
      if op == 1
      then if_ok status (print_fattr3 word e true)
      else if op == 2
      then if_ok status wcc
      else if op == 3
      then if_ok status
          (say true (lit "fh " ∷ []) ⟫ print_fh3 word e true host ⟫ post_op true ⟫ post_op false)
      else if op == 4
      then post_op false ⟫ if_ok status (say true (lit "acc " ∷ []) ⟫ u32)
      else if op == 5
      then post_op false ⟫ if_ok status (say true (lit "name " ∷ []) ⟫ print_fn3 word e true host)
      else if op == 6
      then post_op true ⟫ if_ok status read_rest3
      else if op == 7
      then wcc ⟫ if_ok status write_rest3
      else if op == 8
      then if_ok status made3
      else if op == 9
      then if_ok status made3
      else if op == 10
      then if_ok status made3
      else if op == 11
      then if_ok status made3
      else if op == 12
      then wcc
      else if op == 13
      then wcc
      else if op == 16
      then listing3 false status
      else if op == 17
      then listing3 true status
      else if op == 21
      then wcc
      else if op == mnt3
      then if_ok status (say true (lit "fh " ∷ []) ⟫ print_fh3 word e true host)
      else skip

  -- The status is printed but for NULL and for an unknown operation.
  unfoldable pub resp_body3 : (status op : ℕ) → Printer
  resp_body3 status op =
      if is_known3 op && not (op == 0)
      then say true (status_text status) ⟫ resp_results3 status op
      else skip

  -- What READ adds up; `count₀` is the indeterminate value of `count` in a packet too short for it.
  unfoldable pub read_count3 : (count₀ : ℕ) → ℕ
  unfolding print_post_op_attr3 uint32_val
  read_count3 count₀ = elim (uint32_val word e true (pointer (post_op true (some 0)))) [
    | none ↦ count₀
    | some n ↦ n
  ]

  -- The counters. An unknown operation counts in the total alone.
  unfoldable pub resp_tally3 : (count₀ status op : ℕ) → Tally → Tally
  unfolding read_count3 count_bytes count_message count_op
  resp_tally3 count₀ status op t =
      if op == 6 && status == 0
      then count_bytes (read_count3 count₀) (count_known op t)
      else if is_known3 op
      then count_known op t
      else count_message t

  unfoldable pub nfs_v3_print_resp : (count₀ op xid status : ℕ) → Tally → Run Tally
  nfs_v3_print_resp count₀ op xid status t =
      finish short_packet false (resp_tally3 count₀ status op t)
        (after (said (resp_head3 op xid)) (resp_body3 status op (some 0)))
