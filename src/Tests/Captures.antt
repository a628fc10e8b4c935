-- ===== src/Tests/Captures.antt =====
-- Reports, captures, and the second decoder.
use nfsdump.Capture.Counts.{logs, IsCounted}
use nfsdump.Capture.Headers.Bare.{log_text, leaks, IsBare, headers-IsBare}
use nfsdump.Capture.Headers.{nfs, program_of, header_program}
use nfsdump.Capture.Keeps.{IsSafe}
use nfsdump.Capture.Logs.{program_of-IsCounted}
use nfsdump.Capture.Loop.{capture}
use nfsdump.Capture.{Local, System, Options, null, Packet, Tick, State, decode}
use nfsdump.IpTrace.Agrees.{Agree, trace_packet-Agree}
use nfsdump.IpTrace.{trace_packet}
use nfsdump.Packet.{open_packet}
use nfsdump.Prelude.{ℕ, ◌≤◌, refl, true, none, some, List, [], ◌∷◌, ◌==◌, if◌then◌else◌, arith}
use nfsdump.Stats.Report.Percent.{compute_pct-sum}
use nfsdump.Stats.Report.{compute_pct}
use nfsdump.Stats.Sums.{sum_to}
use nfsdump.Stats.{Tally}
use nfsdump.Tests.Packets.{udp_packet}
use nfsdump.Tests.Setting.{outside, idle}

-- Two READs and a GETATTR.
abbrev three_calls : Tally
three_calls = record {
  total = 3;
  by_op = λ op. if op == 6 then 2 else if op == 1 then 1 else 0;
  unknown = 0;
  bytes = 0;
  megabytes = 0;
}

compute_pct-sum_example : sum_to 18 (λ op. compute_pct (three_calls.by_op op) 3) ≤ 100
unfolding sum_to
compute_pct-sum_example = compute_pct-sum 18 three_calls refl (omega arith) (omega arith)

abbrev midnight : Local
midnight = record { year = 126; mon = 0; mday = 1; hour = 0; min = 0 }

abbrev pub willing : System
willing = record {
  renames = λ name. true;
  opens = λ name. true;
  opens_tmp = λ clock. true;
  local = λ clock. midnight;
  pcap_text = [];
}

abbrev by_minutes : Options
by_minutes = record {
  cnt = none;
  end_of_life = none;
  active = true;
  secs = 60;
  basename = "output";
}

abbrev pub one_packet : List Packet
one_packet = record { secs = 1000; usecs = 0; byte = udp_packet; caplen = 138 } ∷ []

abbrev pub tick : ℕ → Tick
tick now = record { now = now; clock = now; batch = some one_packet }

abbrev pub ticks : List Tick
ticks = tick 1000 ∷ tick 1010 ∷ tick 1100 ∷ []

-- The beginning of a run of two intervals.
abbrev beginning : State
beginning = record {
  out = null;
  iters = 2;
  end_time = 0;
  cur_logname = none;
  cur_sumname = none;
  world = idle;
  written = [];
  effects = [];
}

program_of-IsCounted_example :
    IsCounted by_minutes 2
      (capture (program_of outside willing nfs decode) willing by_minutes ticks 0 beginning)
unfolding logs
program_of-IsCounted_example =
    program_of-IsCounted willing outside nfs decode by_minutes 2 ticks 0 beginning refl refl refl

headers-IsBare_example :
    IsSafe IsBare (capture (header_program willing decode) willing by_minutes ticks 0 beginning)
headers-IsBare_example =
    headers-IsBare willing (λ name. refl) by_minutes ticks 0 beginning
      (record {
        empty = refl;
        silent = unfold log_text in refl;
        leaked = unfold leaks logs in refl;
        paired = tt;
      })

trace_packet-Agree_example : Agree (open_packet udp_packet 138) (trace_packet 1000 0 udp_packet 138)
trace_packet-Agree_example = trace_packet-Agree 1000 0 udp_packet 138 (λ h. omega arith)
