-- ===== src/Nfs3/Args.antt =====
-- The decoded arguments of version 3, and the printers of nfsdump2/nfs_v3.c that end in `_x`, which
-- print them. A decoded value stands in memory of its own, so that these give text and no pointer.
use nfsdump.Nfs3.Resp.{handle_text}
use nfsdump.Nfs3.Wire.{uint64_text}
use nfsdump.Prelude.{ℕ, ◌/◌, Option, none, some, List, [], ◌∷◌, ◌++◌, String, ◌==◌, if◌then◌else◌}
use nfsdump.Print.{Item, lit, hex, dec, dec6, chr}
use nfsdump.Text.{Host, print_string}

-- A string with its `strlen`; the characters are the bytes of a memory of words.
pub record Name : Type 0 where
  pub chars : ℕ → ℕ
  pub len : ℕ

-- `uint64`, by its halves
pub record Wide : Type 0 where
  pub hi : ℕ
  pub lo : ℕ

-- `nfstime3`
pub record Time : Type 0 where
  pub seconds : ℕ
  pub nseconds : ℕ

-- `set_atime` and `set_mtime`: a `time_how`, with a time for SET_TO_CLIENT_TIME. Any other value is
-- taken as DONT_CHANGE is.
pub data SetTime : Type 0 where
  dont_change : SetTime
  set_to_server_time : SetTime
  set_to_client_time : Time → SetTime

-- `sattr3`; a field is `none` where its `set_it` is 0.
pub record Sattr : Type 0 where
  pub mode : Option ℕ
  pub uid : Option ℕ
  pub gid : Option ℕ
  pub size : Option Wide
  pub atime : SetTime
  pub mtime : SetTime

-- `diropargs3`
pub record DirOp : Type 0 where
  pub dir : List ℕ
  pub name : Name

-- `createhow3`, without the verifier of EXCLUSIVE, which is not read
pub data CreateHow : Type 0 where
  unchecked : Sattr → CreateHow
  guarded : Sattr → CreateHow
  exclusive : CreateHow

unfoldable pub print_fh3_x : (fh_str : String) → List ℕ → List Item
unfolding handle_text
print_fh3_x fh_str fh = lit fh_str ∷ lit " " ∷ handle_text fh

-- The label is NULL in the listings alone.
abbrev pub print_uint64_x : (label : String) → Wide → List Item
print_uint64_x label n = lit label ∷ lit " " ∷ uint64_text n.hi n.lo

-- `print_nfstime3_x`
abbrev pub print_nfstime3_x : Time → List Item
print_nfstime3_x t = dec t.seconds ∷ lit "." ∷ dec6 (t.nseconds / 1000) ∷ lit " " ∷ []

-- A number of `sattr3`, if it is set.
abbrev pub set_text : (label : String) → Option ℕ → List Item
set_text label none = []
set_text label (some n) = lit label ∷ lit " " ∷ hex n ∷ lit " " ∷ []

abbrev pub size_text : Option Wide → List Item
size_text none = []
size_text (some n) = print_uint64_x "size" n

abbrev pub time_text : (label : String) → SetTime → List Item
time_text label dont_change = []
time_text label set_to_server_time = lit label ∷ lit " SERVER " ∷ []
time_text label (set_to_client_time t) = lit label ∷ lit " " ∷ print_nfstime3_x t

unfoldable pub print_sattr3_x : Sattr → List Item
print_sattr3_x s =
    set_text "mode" s.mode
    ++ set_text "uid" s.uid
    ++ set_text "gid" s.gid
    ++ size_text s.size
    ++ time_text "atime" s.atime
    ++ time_text "mtime" s.mtime

-- The guard holds a time if its `check` is set.
unfoldable pub print_sattrguard3_x : Option Time → List Item
print_sattrguard3_x none = []
print_sattrguard3_x (some t) = lit "ctime " ∷ print_nfstime3_x t

abbrev pub print_access3_x : ℕ → List Item
print_access3_x a = lit "acc " ∷ hex a ∷ lit " " ∷ []

-- UNSTABLE 0, DATA_SYNC 1, FILE_SYNC 2
unfoldable pub print_stable_how_x : ℕ → List Item
print_stable_how_x how =
    let c = if how == 0 then b'U' else if how == 1 then b'D' else if how == 2 then b'F' else b'?' in
    lit "stable " ∷ chr c ∷ lit " " ∷ []

unfoldable pub print_createhow3_x : CreateHow → List Item
unfolding print_sattr3_x
print_createhow3_x (unchecked s) = lit "how U " ∷ print_sattr3_x s
print_createhow3_x (guarded s) = lit "how G " ∷ print_sattr3_x s
print_createhow3_x exclusive = lit "how X " ∷ []

module _ (host : Host) where
  abbrev pub name_text : Name → List Item
  name_text n = (print_string host n.chars 0 n.len).text

  unfoldable pub print_diropargs3_x : (fh_str fn_str : String) → DirOp → List Item
  unfolding print_fh3_x print_string
  print_diropargs3_x fh_str fn_str d =
      print_fh3_x fh_str d.dir ++ (lit fn_str ∷ lit " " ∷ name_text d.name)
