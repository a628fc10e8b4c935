-- ===== src/Tests/Programs.antt =====
-- Command lines, and runs of the programs from them.
use nfsdump.Capture.Headers.{nfs}
use nfsdump.CommandLine.Accepts.{IsAcceptable, parse-accepts}
use nfsdump.CommandLine.Laws.{Goes}
use nfsdump.CommandLine.{Libc, Given, initial_settings, case_of, parse}
use nfsdump.Prelude.{◌≡◌, ◌↔◌, refl, true, some, List, [], ◌∷◌, ◌++◌, All, length, arith}
use nfsdump.SetUp.Start.Prints.{EndsWith, decode_trace, main-prints}
use nfsdump.SetUp.Start.Reads.{reading, reads_file}
use nfsdump.SetUp.Start.{Finished, start_world, outside_of, main}
use nfsdump.SetUp.{Pcap, Files}
use nfsdump.Support.Join.{joined, copy_argv-joins}
use nfsdump.Support.{goes, argv_len, copy_argv}
use nfsdump.Tests.Captures.{willing, one_packet, ticks}
use nfsdump.Tests.Setting.{outside}

-- The one number that is given is 5.
abbrev libc : Libc
libc = record {
  atoi = λ text. 5;
  atol = λ text. 5;
  strtol = λ text. record { value = 5; moved = true; at_end = true };
}

abbrev pcap : Pcap
pcap = record {
  open_offline = λ file. true;
  lookupdev = some "eth0";
  open_live = λ device snaplen promisc. true;
  snapshot = 96;
  lookupnet = λ device. true;
  compile = λ text optimize. true;
  setfilter = true;
  dump_open = λ file. true;
  datalink = 1;
  en10mb = 1;
  ieee802 = 6;
  ebuf = "";
}

abbrev files : Files
files = record {
  file = λ name. record { opens = true; size = some 0; content = some [] };
  malloc = λ size. true;
  strerror = "";
}

-- `-I 5 -O`
abbrev by_five : List Given
by_five =
    record { op = b'I'; optarg = "5"; now = 0 } ∷ record { op = b'O'; optarg = ""; now = 0 } ∷ []

parse-accepts_example :
    Goes (parse "nfsdump" "2" "0.9" libc by_five initial_settings)
    ↔ All (λ g. IsAcceptable "nfsdump" "2" "0.9" libc (case_of g.op) g.optarg) by_five
parse-accepts_example = parse-accepts "nfsdump" "2" "0.9" libc by_five initial_settings

-- `ip udp`, as bytes
copy_argv-joins_example :
    (copy_argv "nfsdump" "" (λ size. true) ((0x69 ∷ 0x70 ∷ []) ∷ ((0x75 ∷ 0x64 ∷ 0x70 ∷ []) ∷ []))
      ≡ goes (some (joined ((0x69 ∷ 0x70 ∷ []) ∷ ((0x75 ∷ 0x64 ∷ 0x70 ∷ []) ∷ [])) ++ 0 ∷ [])))
    × (length (joined ((0x69 ∷ 0x70 ∷ []) ∷ ((0x75 ∷ 0x64 ∷ 0x70 ∷ []) ∷ [])) ++ 0 ∷ [])
        ≡ argv_len ((0x69 ∷ 0x70 ∷ []) ∷ ((0x75 ∷ 0x64 ∷ 0x70 ∷ []) ∷ [])) 0)
copy_argv-joins_example =
    copy_argv-joins "nfsdump" "" (λ size. true) (0x69 ∷ 0x70 ∷ []) ((0x75 ∷ 0x64 ∷ 0x70 ∷ []) ∷ [])
      (omega arith) refl

main-prints_example :
    (f : Finished) × (main "nfsdump" "2" "0.9" libc pcap files outside willing nfs
        (reads_file "trace" 0 ∷ [])
        []
        (some one_packet)
        ticks
      ≡ goes f)
    × EndsWith (decode_trace (outside_of (reading "trace") outside) one_packet start_world) f.ended
main-prints_example =
    main-prints "nfsdump" "2" "0.9" libc pcap files outside willing "trace" refl refl refl refl 0
      one_packet ticks
