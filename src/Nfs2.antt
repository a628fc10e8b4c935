-- ===== src/Nfs2.antt =====
-- The printers of nfsdump2/nfs_v2.c that walk a payload, in the terms of `Print`. The messages
-- that they make up are in `Nfs2.Call` and `Nfs2.Resp`.
pub mod Call
pub mod Resp
pub mod Sizes
pub mod Reads
pub mod Returns
use nfsdump.Nfs3.Wire.{words_text, print_fn3}
use nfsdump.Prelude.{
  ℕ, ◌+◌, ◌++◌, Bool, true, Option, none, some, List, [], ◌∷◌, String, ltb, ◌==◌, if◌then◌else◌,
}
use nfsdump.Print.{
  Item, lit, hex, int, int_left6, Emit, emit, quiet, ◌⊕◌, when_printing, Step, step, Printer, ◌⟫◌,
  say, null, dropped,
}
use nfsdump.Text.{Host}

module _ (word : ℕ → ℕ) (e : ℕ) (print : Bool) where
  unfoldable pub print_opaque : (n_words : ℕ) → Printer
  print_opaque n_words none = null
  print_opaque n_words (some i) =
      if ltb e (i + n_words)
      then null
      else step (some (i + n_words)) (
          emit (when_printing print (words_text word e print i n_words ++ lit " " ∷ []))
            (if print then i + n_words else 0))

  -- `NFS_FHSIZE / sizeof (u_int32_t)` words
  unfoldable pub print_fh2 : (fh_str : String) → Printer
  unfolding print_opaque
  print_fh2 fh_str = say print (lit fh_str ∷ lit " " ∷ []) ⟫ print_opaque 8

  -- `NFS_COOKIESIZE / sizeof (u_int32_t)` words
  unfoldable pub print_cookie2 : Printer
  unfolding print_opaque
  print_cookie2 = say print (lit "cookie " ∷ []) ⟫ print_opaque 1

  unfoldable pub print_nfstime2 : Printer
  print_nfstime2 none = null
  print_nfstime2 (some i) =
      if ltb e (i + 2)
      then null
      else step (some (i + 2)) (
          emit
            (when_printing print (int (word i) ∷ lit "." ∷ int_left6 (word (i + 1)) ∷ lit " " ∷ []))
            (if print then i + 2 else 0))

  -- `if (ntohl (p [j]) != 0xffffffff)` in front of a body
  abbrev pub if_set : ℕ → Emit → Emit
  if_set j body = emit [] (j + 1) ⊕ (if word j == 0xffff_ffff then quiet else body)

  abbrev pub set_field : ℕ → String → Emit
  set_field j label = if_set j (emit (lit label ∷ hex (word j) ∷ lit " " ∷ []) (j + 1))

  abbrev pub set_time : ℕ → String → Emit
  set_time j label = if_set j (emit (lit label ∷ []) 0 ⊕ dropped (print_nfstime2 (some j)))

  unfoldable pub sattr2_text : ℕ → Emit
  sattr2_text i =
      set_field i "mode "
      ⊕ set_field (i + 1) "uid "
      ⊕ set_field (i + 2) "gid "
      ⊕ set_field (i + 3) "size "
      ⊕ set_time (i + 4) "atime "
      ⊕ set_time (i + 6) "mtime "

  -- It returns `p` itself, not the pointer past the eight words.
  unfoldable pub print_sattr2 : Printer
  unfolding sattr2_text
  print_sattr2 none = null
  print_sattr2 (some i) =
      if ltb e (i + 8) then null else step (some i) (if print then sattr2_text i else quiet)

  -- `fprintf (OutFile, "label %x ", ntohl (p [j]))`
  abbrev pub hex_field : ℕ → String → Emit
  hex_field j label = emit (lit label ∷ lit " " ∷ hex (word j) ∷ lit " " ∷ []) (j + 1)

  abbrev pub time_field : ℕ → String → Emit
  time_field j label = emit (lit label ∷ []) 0 ⊕ dropped (print_nfstime2 (some j))

  unfoldable pub fattr2_text : ℕ → Emit
  fattr2_text i =
      hex_field i "ftype"
      ⊕ hex_field (i + 1) "mode"
      ⊕ hex_field (i + 2) "nlink"
      ⊕ hex_field (i + 3) "uid"
      ⊕ hex_field (i + 4) "gid"
      ⊕ hex_field (i + 5) "size"
      ⊕ hex_field (i + 6) "blksize"
      ⊕ hex_field (i + 7) "rdev"
      ⊕ hex_field (i + 8) "blocks"
      ⊕ hex_field (i + 9) "fsid"
      ⊕ hex_field (i + 10) "fileid"
      ⊕ time_field (i + 11) "atime "
      ⊕ time_field (i + 13) " mtime "
      ⊕ time_field (i + 15) " ctime "
      ⊕ emit (lit " " ∷ []) 0

  unfoldable pub print_fattr2 : Printer
  unfolding fattr2_text
  print_fattr2 none = null
  print_fattr2 (some i) =
      if ltb e (i + 17) then null else step (some (i + 17)) (if print then fattr2_text i else quiet)

  unfoldable pub print_statfsokres2 : Printer
  print_statfsokres2 none = null
  print_statfsokres2 (some i) =
      if ltb e (i + 5)
      then null
      else step (some (i + 5)) (
          if print
          then hex_field i "tsize"
            ⊕ hex_field (i + 1) "bsize"
            ⊕ hex_field (i + 2) "blocks"
            ⊕ hex_field (i + 3) "bfree"
            ⊕ hex_field (i + 4) "bavail"
          else quiet)

  unfoldable pub print_diropokres2 : Printer
  unfolding print_fh2 print_fattr2
  print_diropokres2 none = null
  print_diropokres2 (some i) = if ltb e i then null else (print_fh2 "fh" ⟫ print_fattr2) (some i)

  module _ (host : Host) where
    unfoldable pub print_fn2 : (fn_str : String) → Printer
    unfolding print_fn3
    print_fn2 fn_str = say print (lit fn_str ∷ lit " " ∷ []) ⟫ print_fn3 word e print host

    unfoldable pub print_diropargs2 : (fh_str fn_str : String) → Printer
    unfolding print_fh2 print_fn2
    print_diropargs2 fh_str fn_str = print_fh2 fh_str ⟫ print_fn2 fn_str
