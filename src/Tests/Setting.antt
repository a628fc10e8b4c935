-- ===== src/Tests/Setting.antt =====
-- A decoder at rest, with its parameters.
use nfsdump.Nfs3.Call.Sums.{call_tally3-sums}
use nfsdump.Nfs3.Call.{Decoder, ArgDecoders, call_tally3}
use nfsdump.Nfs3.Resp.Sums.{cells3}
use nfsdump.Nfs3.Resp.{is_known3}
use nfsdump.Packet.Reassembly.Fits.{IsSound}
use nfsdump.Packet.Record.Keeps.{IsRunning}
use nfsdump.Packet.Record.{Outside, World}
use nfsdump.Prelude.{
  ℕ, ◌+◌, ◌/◌, ◌%◌, ◌≡◌, ◌↔◌, refl, true, false, none, some, List, [], ◌∷◌, leb, if◌then◌else◌,
}
use nfsdump.Stats.Sums.{sum_to, AddsUp}
use nfsdump.Table.Keep.{empty-IsValid}
use nfsdump.Table.{empty}
use nfsdump.TcpTable.{tcp_keying}
use nfsdump.Tests.Attributes.{counting}
use nfsdump.Tests.Messages.{decoders, fresh}
use nfsdump.Tests.Names.{raw}
use nfsdump.XidTable.{xid_keying}

-- A handle of one word, behind its length; and a word.
abbrev read_fh : Decoder (List ℕ)
read_fh word len pos =
    if leb (pos + 8) len then (some (word (pos / 4 + 1) % 256 ∷ []), pos + 8) else (none, pos)

abbrev read_word : Decoder ℕ
read_word word len pos = if leb (pos + 4) len then (some (word (pos / 4)), pos + 4) else (none, pos)

abbrev fails : (A : Type 0) → Decoder A
fails A word len pos = (none, pos)

abbrev pub args : ArgDecoders
args = record {
  getattr = read_fh;
  setattr = fails _;
  lookup = fails _;
  access = fails _;
  readlink = read_fh;
  read = fails _;
  nfs_fh3 = read_fh;
  offset3 = fails _;
  count3 = read_word;
  stable_how = read_word;
  create = fails _;
  mkdir = fails _;
  symlink = fails _;
  mknod = fails _;
  remove = fails _;
  rmdir = fails _;
  rename = fails _;
  link = fails _;
  readdir = fails _;
  readdirplus = fails _;
  fsstat = read_fh;
  fsinfo = read_fh;
  pathconf = read_fh;
  commit = fails _;
  dirpath = fails _;
}

abbrev pub outside : Outside
outside = record {
  host = raw;
  decoders = decoders;
  args = args;
  vflag = false;
  count₀ = 0;
  print_it₀ = λ cnt. true;
  junk = λ i. 0xa5;
}

call_tally3-sums_example :
    AddsUp cells3 (call_tally3 counting 60 raw args 7 fresh) ↔ (is_known3 7 ≡ true)
call_tally3-sums_example = call_tally3-sums counting 60 raw args 7 fresh (unfold sum_to in refl)

pub empty-IsSound : IsSound empty
empty-IsSound = record { valid = empty-IsValid tcp_keying; partial = λ i. tt }

abbrev pub idle : World
idle = record {
  xid_table = empty;
  tcp_table = empty;
  calls2 = fresh;
  resps2 = fresh;
  calls3 = fresh;
  resps3 = fresh;
}

pub idle-IsRunning : IsRunning idle
idle-IsRunning = record {
  calls = empty-IsValid xid_keying;
  segments = empty-IsSound;
  calls2_add = unfold sum_to in refl;
  resps2_add = unfold sum_to in refl;
}
