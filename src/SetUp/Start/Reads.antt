-- ===== src/SetUp/Start/Reads.antt =====
-- A run of nfsdump2/nfsdump.c that reads a trace.
use nfsdump.Capture.Loop.{Ended, stopped, lived}
use nfsdump.Capture.Main.{close_capture, run_main}
use nfsdump.Capture.{
  State, System, Packet, Tick, Program, Options, print_summary, nfsdump_program, decode,
  print_batch,
}
use nfsdump.Capture.Headers.{nfs}
use nfsdump.CommandLine.{Libc, Given, Settings, initial_settings, run_case, case_of, parse}
use nfsdump.Packet.Record.{Outside}
use nfsdump.Prelude.{ℕ, ◌≡◌, eq→==, refl, ◌∙◌, ap, String, true, Option, none, some, List, [], ◌∷◌}
use nfsdump.SetUp.Start.{start_state, options_of, outside_of, run_program, main}
use nfsdump.SetUp.{Pcap, Files, Ready, offline, set_filter, lookup_printer, has_printer, set_up}
use nfsdump.Support.{goes, ◌>>=◌, copy_argv}

-- The options of `-r`.
abbrev pub reading : String → Settings
reading file = record initial_settings { r_file_name = some file }

abbrev pub reads_file : String → (now : ℕ) → Given
reads_file file now = record { op = b'r'; optarg = file; now = now }

-- There is no summary at the end.
close-lived :
    (prog : Program) (sys : System) (o : Options) (m : Option State)
    → prog.summary none ≡ (λ c. c)
    → close_capture prog sys o none (lived m stopped) ≡ lived m stopped
close-lived prog sys o none same = refl
close-lived prog sys o (some c) same = ap (λ f. stopped (f c)) same

module _ (program_name version pcap_version : String) (libc : Libc) (pcap : Pcap) (files : Files)
    (out : Outside) (sys : System) (file : String) where
  -- What `-r` alone sets up.
  abbrev ready_to_read : Ready
  ready_to_read = record {
    source = offline file;
    filter = none;
    handler = decode;
    snaplen = 1500;
    stderr = [];
  }

  parse-reads :
      (now : ℕ)
      → parse program_name version pcap_version libc (reads_file file now ∷ []) initial_settings
        ≡ goes (reading file)
  unfolding parse run_case case_of
  parse-reads now = refl

  module _ (opens : pcap.open_offline file ≡ true) (compiles : pcap.compile none 1 ≡ true)
      (sets : pcap.setfilter ≡ true) (ethernet : pcap.datalink ≡ pcap.en10mb) where
    set_up-reads : set_up program_name pcap files (reading file) [] ≡ goes ready_to_read
    unfolding set_up set_filter lookup_printer has_printer copy_argv
    set_up-reads =
        let found = eq→== pcap.datalink pcap.en10mb ethernet in
        rw (opens, compiles, sets, found) refl

    -- The run `nfsdump -r file`, of a trace of Ethernet that libpcap opens and whose filter it takes: it
    -- comes to its loop, gives every packet of the trace to the decoder, in their order and from a fresh
    -- state, and stops with what they leave, if the process lives. The clocks do not matter.
    pub main-reads :
        (now : ℕ) (ps : List Packet) (ticks : List Tick)
        → main program_name version pcap_version libc pcap files out sys nfs
            (reads_file file now ∷ [])
            []
            (some ps)
            ticks
          ≡ goes (record {
            settings = reading file;
            ready = ready_to_read;
            ended =
                lived
                  (print_batch
                    (nfsdump_program (outside_of (reading file) out) sys decode)
                    ps
                    (start_state 1))
                  stopped;
          })
    unfolding main run_program run_main
    main-reads now ps ticks =
        ap
          (λ m. m >>= (λ s. set_up program_name pcap files s [] >>= (λ ready. goes (
            run_program program_name version pcap_version libc pcap files out sys nfs s (some ps)
              ticks ready))))
          (parse-reads now)
        ∙ ap
            (λ m. m >>= (λ ready. goes (
              run_program program_name version pcap_version libc pcap files out sys nfs
                (reading file) (some ps) ticks ready)))
            set_up-reads
        ∙ ap
            (λ (e : Ended).
              goes (record { settings = reading file; ready = ready_to_read; ended = e }))
            (close-lived (nfsdump_program (outside_of (reading file) out) sys decode) sys
              (options_of (reading file)) _ (unfold print_summary in refl))
