-- ===== src/Nfs3/Attr.antt =====
-- Attributes of nfsdump2/nfs_v3.c: `fattr3`, `sattr3`, the attributes that follow an operation, and
-- the data of MKNOD and SYMLINK.
pub mod Sizes
pub mod Wcc
use nfsdump.Prelude.{
  ℕ, ◌+◌, Bool, true, Option, none, some, List, [], ◌∷◌, String, ltb, ◌==◌, if◌then◌else◌,
}
use nfsdump.Nfs3.Wire.{
  print_uint32, print_uint64, print_nfstime3, print_fh3, print_o_uint32, print_o_uint64,
  print_o_nfstime3, print_fn3,
}
use nfsdump.Print.{
  Item, lit, dec, emit, quiet, Step, step, segv, Printer, after, continue_with, ◌⟫◌, say, null,
}
use nfsdump.Text.{Host}

-- `if (p == NULL) return (NULL); if (e < p) return (NULL);` in front of a body
abbrev pub unless_past : ℕ → Printer → Printer
unless_past e f none = null
unless_past e f (some i) = if ltb e i then null else f (some i)

-- The labels `"ftype "`, of the one, and `"ftype-%u "`, of the other.
abbrev pub plain_label : String → List Item
plain_label s = lit s ∷ lit " " ∷ []

abbrev pub numbered_label : ℕ → String → List Item
numbered_label num s = lit s ∷ lit "-" ∷ dec num ∷ lit " " ∷ []

module _ (word : ℕ → ℕ) (e : ℕ) (print : Bool) where
  -- A flag word, and the field that follows it if it is set.
  abbrev pub flagged : Printer → Printer
  flagged f none = null
  flagged f (some i) =
      after (emit [] (i + 1)) (if word i == 0 then step (some (i + 1)) quiet else f (some (i + 1)))

  -- `if (print) fprintf (OutFile, label); new_p = f (new_p, e, print);`
  abbrev pub field : List Item → Printer → Printer
  field label f = say print label ⟫ f

  -- The fields of `print_fattr3` and `print_fattr3_p`, whose labels differ.
  unfoldable pub fattr3_fields : (String → List Item) → Printer
  unfolding print_uint32 print_uint64 print_nfstime3
  fattr3_fields label =
      let u32 = print_uint32 word e print in
      let u64 = print_uint64 word e print in
      let time = print_nfstime3 word e print in
      field (label "ftype") u32
      ⟫ field (label "mode") u32
      ⟫ field (label "nlink") u32
      ⟫ field (label "uid") u32
      ⟫ field (label "gid") u32
      ⟫ field (label "size") u64
      ⟫ field (label "used") u64
      ⟫ field (label "rdev") u32
      ⟫ field (label "rdev2") u32
      ⟫ field (label "fsid") u64
      ⟫ field (label "fileid") u64
      ⟫ field (label "atime") time
      ⟫ field (label "mtime") time
      ⟫ field (label "ctime") time

  unfoldable pub print_fattr3 : Printer
  unfolding fattr3_fields
  print_fattr3 = unless_past e (fattr3_fields plain_label)

  unfoldable pub print_fattr3_p : (num : ℕ) → Printer
  unfolding fattr3_fields
  print_fattr3_p num = unless_past e (fattr3_fields (numbered_label num))

  unfoldable pub print_post_op_attr3 : Printer
  unfolding print_fattr3
  print_post_op_attr3 = unless_past e (flagged print_fattr3)

  unfoldable pub print_post_op_attr3_p : (num : ℕ) → Printer
  unfolding print_fattr3_p
  print_post_op_attr3_p num = unless_past e (flagged (print_fattr3_p num))

  unfoldable pub print_post_op_fh3 : Host → Printer
  unfolding print_fh3
  print_post_op_fh3 host = unless_past e (flagged (print_fh3 word e print host))

  unfoldable pub pre_op_fields : Printer
  unfolding print_uint64 print_nfstime3
  pre_op_fields =
      let time = print_nfstime3 word e print in
      field (lit "pre-size " ∷ []) (print_uint64 word e print)
      ⟫ field (lit "pre-mtime " ∷ []) time
      ⟫ field (lit "pre-ctime " ∷ []) time

  unfoldable pub print_pre_op_attr3 : Printer
  unfolding pre_op_fields
  print_pre_op_attr3 = unless_past e pre_op_fields

  -- `if (*new_p++)` with no test of `new_p` before it: at NULL the process dies.
  unfoldable pub post_half : Printer
  unfolding print_fattr3
  post_half none = segv
  post_half (some i) = flagged print_fattr3 (some i)

  unfoldable pub print_wcc_data3 : Printer
  unfolding print_pre_op_attr3 post_half
  print_wcc_data3 = unless_past e (flagged print_pre_op_attr3 ⟫ post_half)

  unfoldable pub print_sattr3 : Printer
  unfolding print_o_uint32 print_o_uint64 print_o_nfstime3
  print_sattr3 none = null
  print_sattr3 (some i) =
      (print_o_uint32 word e print "mode"
          ⟫ print_o_uint32 word e print "uid"
          ⟫ print_o_uint32 word e print "gid"
          ⟫ print_o_uint64 word e print "size"
          ⟫ print_o_nfstime3 word e print "atime"
          ⟫ print_o_nfstime3 word e print "mtime")
        (some i)

  unfoldable pub print_sattrguard3 : Printer
  unfolding print_o_nfstime3
  print_sattrguard3 = print_o_nfstime3 word e print "ctime"

  module _ (host : Host) where
    unfoldable pub print_symlink3 : Printer
    unfolding print_sattr3 print_fn3
    print_symlink3 = print_sattr3 ⟫ print_fn3 word e print host

  -- The data of a device: its attributes and two numbers.
  unfoldable pub mknod_device : Printer
  unfolding print_sattr3 print_uint32
  mknod_device = print_sattr3 ⟫ print_uint32 word e print ⟫ print_uint32 word e print

  -- The switch on the `ftype3`: NF3BLK 3, NF3CHR 4, NF3SOCK 6, NF3FIFO 7.
  unfoldable pub mknod_switch : (ftype : ℕ) → Printer
  unfolding mknod_device print_sattr3
  mknod_switch ftype =
      if ftype == 3
      then say print (lit "BLK " ∷ []) ⟫ mknod_device
      else if ftype == 4
      then say print (lit "CHR " ∷ []) ⟫ mknod_device
      else if ftype == 6
      then say print (lit "SOCK " ∷ []) ⟫ print_sattr3
      else if ftype == 7
      then say print (lit "FIFO " ∷ []) ⟫ print_sattr3
      else say print (lit "??? " ∷ [])

  -- The first `print_uint32` only prints; its pointer is dropped.
  unfoldable pub print_mknoddata3 : Printer
  unfolding print_uint32 mknod_switch
  print_mknoddata3 none = null
  print_mknoddata3 (some i) =
      if ltb e i
      then null
      else continue_with (print_uint32 word e print (some i))
          (λ _. after (emit [] (i + 1)) (mknod_switch (word i) (some (i + 1))))
