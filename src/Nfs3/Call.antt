-- ===== src/Nfs3/Call.antt =====
-- `nfs_v3_print_call` of nfsdump2/nfs_v3.c. The XDR decoders of the arguments are generated by
-- rpcgen from nfs_prot.x and mount_prot.x: they are parameters here. A decoder is given the payload
-- and its length in bytes and stands at a position of it; it fails (`none`) or gives the value, and
-- moves the position in either case. Each gives the parts of its structure that are printed. What they
-- write past the buffers that they are given, for names of more than 2048 bytes, is not modelled.
pub mod Sums
use nfsdump.Nfs3.Args.{
  Name, Wide, Time, Sattr, DirOp, CreateHow, print_fh3_x, print_uint64_x, print_sattr3_x,
  print_sattrguard3_x, print_access3_x, print_stable_how_x, print_createhow3_x, name_text,
  print_diropargs3_x,
}
use nfsdump.Nfs3.Resp.{mnt3, is_known3, resp_name3, short_packet}
use nfsdump.Prelude.{
  ℕ, Bool, true, false, ◌&&◌, not, Option, none, some, List, [], ◌∷◌, ◌++◌, String, ◌==◌, ltb,
  if◌then◌else◌,
}
use nfsdump.Print.{Item, lit, hex, hex2, hex8, said, Run, returned}
use nfsdump.Stats.{Tally, count_message, count_op, count_bytes, count_known}
use nfsdump.Text.{Host}

abbrev pub Decoder : Type 0 → Type 0
Decoder A = (word : ℕ → ℕ) → (len pos : ℕ) → Option A × ℕ

-- `xdr_GETATTR3args` and so on. WRITE is decoded field by field.
pub record ArgDecoders : Type 0 where
  pub getattr : Decoder (List ℕ)
  pub setattr : Decoder (List ℕ × Sattr × Option Time)
  pub lookup : Decoder DirOp
  pub access : Decoder (List ℕ × ℕ)
  pub readlink : Decoder (List ℕ)
  pub read : Decoder (List ℕ × Wide × ℕ)
  pub nfs_fh3 : Decoder (List ℕ)
  pub offset3 : Decoder Wide
  pub count3 : Decoder ℕ
  pub stable_how : Decoder ℕ
  pub create : Decoder (DirOp × CreateHow)
  pub mkdir : Decoder (DirOp × Sattr)
  pub symlink : Decoder (DirOp × Sattr × Name)
  pub mknod : Decoder DirOp
  pub remove : Decoder DirOp
  pub rmdir : Decoder DirOp
  pub rename : Decoder (DirOp × DirOp)
  pub link : Decoder (List ℕ × DirOp)
  pub readdir : Decoder (List ℕ × Wide × ℕ)
  pub readdirplus : Decoder (List ℕ × Wide × ℕ × ℕ)
  pub fsstat : Decoder (List ℕ)
  pub fsinfo : Decoder (List ℕ)
  pub pathconf : Decoder (List ℕ)
  pub commit : Decoder (List ℕ × Wide × ℕ)
  pub dirpath : Decoder Name

-- What a case prints, and `got_all`.
abbrev pub Decoded : Type 0
Decoded = List Item × Bool

-- `if ((got_all = xdr_… (&xdr, &args)) != 0) { … }`
abbrev pub decoded : {A : Type 0} → Option A × ℕ → (A → List Item) → Decoded
decoded (none, pos) f = ([], false)
decoded (some a, pos) f = (f a, true)

abbrev pub fh_text : List ℕ → List Item
fh_text fh = print_fh3_x "fh" fh

-- `fprintf (OutFile, "label %x ", n)`
abbrev pub hex_text : String → ℕ → List Item
hex_text label n = lit label ∷ lit " " ∷ hex n ∷ lit " " ∷ []

-- The bytes that a WRITE counts: none if its count is not decoded.
abbrev pub count_written : Option ℕ × ℕ → Tally → Tally
count_written (none, pos) t = t
count_written (some n, pos) t = count_bytes n t

module _ (word : ℕ → ℕ) (len : ℕ) (host : Host) (args : ArgDecoders) where
  -- The decoder at the start of the payload.
  abbrev pub run_decoder : {A : Type 0} → Decoder A → Option A × ℕ
  run_decoder d = d word len 0

  abbrev dirop : String → String → DirOp → List Item
  dirop fh fn d = print_diropargs3_x host fh fn d

  abbrev pub write_fh : Option (List ℕ) × ℕ
  write_fh = run_decoder args.nfs_fh3

  -- The fields of WRITE, each decoded where the last one left the position, whether or not that one
  -- failed.
  abbrev pub write_offset : Option Wide × ℕ
  write_offset = args.offset3 word len write_fh.1

  abbrev pub write_count : Option ℕ × ℕ
  write_count = args.count3 word len write_offset.1

  abbrev pub write_stable : Option ℕ × ℕ
  write_stable = args.stable_how word len write_count.1

  -- The last field's success is what `got_all` keeps.
  unfoldable pub write_args3 : Decoded
  unfolding print_fh3_x print_stable_how_x
  write_args3 =
      let stable = decoded write_stable print_stable_how_x in
      (
        (decoded write_fh fh_text).0
            ++ (decoded write_offset (print_uint64_x "off")).0
            ++ (decoded write_count (hex_text "count")).0
            ++ stable.0,
        stable.1,
      )

  -- The operations on an object, those on a name in a directory, and the rest.
  unfoldable pub object_args3 : ℕ → Decoded
  unfolding print_fh3_x print_diropargs3_x print_sattr3_x print_sattrguard3_x write_args3
  object_args3 op =
      if op == 1
      then decoded (run_decoder args.getattr) fh_text
      else if op == 2
      then decoded (run_decoder args.setattr)
          (λ (fh, s, g). fh_text fh ++ print_sattr3_x s ++ print_sattrguard3_x g)
      else if op == 3
      then decoded (run_decoder args.lookup) (dirop "fh" "name")
      else if op == 4
      then decoded (run_decoder args.access) (λ (fh, a). fh_text fh ++ print_access3_x a)
      else if op == 5
      then decoded (run_decoder args.readlink) fh_text
      else if op == 6
      then decoded (run_decoder args.read)
          (λ (fh, off, n). fh_text fh ++ print_uint64_x "off" off ++ hex_text "count" n)
      else if op == 7
      then write_args3
      else ([], true)

  unfoldable pub name_args3 : ℕ → Decoded
  unfolding print_fh3_x print_diropargs3_x print_sattr3_x print_createhow3_x
  name_args3 op =
      if op == 8
      then decoded (run_decoder args.create)
          (λ (d, how). dirop "fh" "name" d ++ print_createhow3_x how)
      else if op == 9
      then decoded (run_decoder args.mkdir) (λ (d, s). dirop "fh" "name" d ++ print_sattr3_x s)
      else if op == 10
      then decoded (run_decoder args.symlink) (λ (d, s, to).
        dirop "fh" "name" d ++ print_sattr3_x s ++ (lit "sdata " ∷ name_text host to))
      else if op == 11
      then decoded (run_decoder args.mknod) (dirop "fh" "name")
      else if op == 12
      then decoded (run_decoder args.remove) (dirop "fh" "name")
      else if op == 13
      then decoded (run_decoder args.rmdir) (dirop "fh" "name")
      else if op == 14
      then decoded (run_decoder args.rename)
          (λ (from, to). dirop "fh" "name" from ++ dirop "fh2" "name2" to)
      else if op == 15
      then decoded (run_decoder args.link) (λ (fh, d). fh_text fh ++ dirop "fh2" "name" d)
      else ([], true)

  unfoldable pub listing_args3 : ℕ → Decoded
  unfolding print_fh3_x
  listing_args3 op =
      if op == 16
      then decoded (run_decoder args.readdir)
          (λ (fh, cookie, n). fh_text fh ++ print_uint64_x "cookie" cookie ++ hex_text "count" n)
      else if op == 17
      then decoded (run_decoder args.readdirplus) (λ (fh, cookie, n, m).
        fh_text fh ++ print_uint64_x "cookie" cookie ++ hex_text "count" n ++ hex_text "maxcnt" m)
      else if op == 18
      then decoded (run_decoder args.fsstat) fh_text
      else if op == 19
      then decoded (run_decoder args.fsinfo) fh_text
      else if op == 20
      then decoded (run_decoder args.pathconf) fh_text
      else if op == 21
      then decoded (run_decoder args.commit)
          (λ (fh, off, n). print_fh3_x "file" fh ++ print_uint64_x "off" off ++ hex_text "count" n)
      else if op == mnt3
      then decoded (run_decoder args.dirpath) (name_text host)
      else ([], true)

  -- `got_all` is 1 where nothing is decoded.
  unfoldable pub call_args3 : ℕ → Decoded
  unfolding object_args3 name_args3 listing_args3
  call_args3 op =
      if ltb op 8 then object_args3 op else if ltb op 16 then name_args3 op else listing_args3 op

  -- The counters. An unknown operation counts in the total alone.
  unfoldable pub call_tally3 : ℕ → Tally → Tally
  unfolding count_bytes count_message count_op
  call_tally3 op t =
      if op == 7
      then count_written write_count (count_known op t)
      else if is_known3 op
      then count_known op t
      else count_message t

  -- The names of the operations are those of the responses.
  unfoldable pub nfs_v3_print_call : (op xid : ℕ) → Tally → Run Tally
  unfolding resp_name3 call_args3 call_tally3
  nfs_v3_print_call op xid t = returned (is_known3 op) (call_tally3 op t) (
      said (
        (lit "C3 " ∷ hex8 xid ∷ lit " " ∷ hex2 op ∷ lit " " ∷ lit (resp_name3 op) ∷ [])
        ++ (call_args3 op).0
        ++ (if (call_args3 op).1 then [] else short_packet)))
