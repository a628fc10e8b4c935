-- ===== src/SetUp/Start.antt =====
-- `main` of nfsdump2/nfsdump.c and nfsdump2/iphdump.c as a whole: the options, the set-up, and the
-- capture from a fresh state to its end.
pub mod Prints
pub mod Reads
pub mod Whole
use text.Mathlib.Text.{◌==◌}
use nfsdump.Capture.Headers.{Tool, program_of}
use nfsdump.Capture.Loop.{Ended}
use nfsdump.Capture.Main.{run_main}
use nfsdump.Capture.{State, Options, System, Packet, Tick, Quick, to_stdout, to_file, null}
use nfsdump.CommandLine.{Libc, Given, Settings, initial_settings, parse}
use nfsdump.Packet.Record.{Outside, World}
use nfsdump.Prelude.{ℕ, String, Option, none, some, List, [], ◌∷◌, ltb, if◌then◌else◌}
use nfsdump.Print.{lit}
use nfsdump.SetUp.{Pcap, Files, Ready, set_up}
use nfsdump.Stats.Report.{is_negative, stat_init}
use nfsdump.Support.{Outcome, goes, exits, ◌>>=◌}
use nfsdump.Table.{empty}

-- The tables and the counters at the start.
abbrev pub start_world : World
start_world = record {
  xid_table = empty;
  tcp_table = empty;
  calls2 = stat_init;
  resps2 = stat_init;
  calls3 = stat_init;
  resps3 = stat_init;
}

abbrev pub start_state : (iters : ℕ) → State
start_state iters = record {
  out = null;
  iters = iters;
  end_time = 0;
  cur_logname = none;
  cur_sumname = none;
  world = start_world;
  written = [];
  effects = [];
}

-- A number that is not negative.
abbrev natural : ℕ → Option ℕ
natural x = if is_negative x then none else some x

abbrev pub options_of : Settings → Options
options_of s = record {
  cnt = natural s.cnt;
  end_of_life = natural s.end_of_life;
  active = s.interval.active;
  secs = s.interval.secs;
  basename = s.interval.basename;
}

-- `strcmp (ofilename, "-") == 0`
abbrev pub quick_of : Option String → Option Quick
quick_of none = none
quick_of (some name) = some (if name == "-" then to_stdout else to_file (lit name ∷ []))

-- The options that the decoder reads.
abbrev pub outside_of : Settings → Outside → Outside
outside_of s out = record out {
  vflag = ltb 0 s.vflag;
  decoders = record out.decoders { omit_readdir_contents = s.omit_readdir_contents };
}

-- A run that came to the loop.
pub record Finished : Type 0 where
  pub settings : Settings
  pub ready : Ready
  pub ended : Ended

-- `all` and `ticks` are the packets and the times that libpcap and the clock deliver.
module _ (program_name version pcap_version : String) (libc : Libc) (pcap : Pcap) (files : Files)
    (out : Outside) (sys : System) (tool : Tool) where
  unfoldable pub run_program :
      Settings → (all : Option (List Packet)) → (ticks : List Tick) → Ready → Finished
  unfolding run_main
  run_program s all ticks ready = record {
    settings = s;
    ready = ready;
    ended =
        run_main (program_of (outside_of s out) sys tool ready.handler) sys (options_of s)
          (quick_of s.quick_summary_file) all ticks (start_state s.interval.iters);
  }

  unfoldable pub main :
      (given : List Given) (rest : List (List ℕ)) (all : Option (List Packet)) (ticks : List Tick)
      → Outcome Finished
  unfolding parse set_up run_program
  main given rest all ticks =
      parse program_name version pcap_version libc given initial_settings >>= (λ s.
        set_up program_name pcap files s rest >>= (λ ready. goes (run_program s all ticks ready)))
