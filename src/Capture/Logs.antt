-- ===== src/Capture/Logs.antt =====
-- The programs make their logs only at the end of an interval.
use nfsdump.Capture.Counts.{
  logs, logs-append, all_logs, IsSome, KeepsLogs, IsCounted, capture-IsCounted,
}
use nfsdump.Capture.Headers.{
  by_default, header_printer, open_summary, Tool, nfs, headers, program_of, traced_text,
}
use nfsdump.Capture.Loop.{capture}
use nfsdump.Capture.{
  Out, null, standard, temporary, Effect, summed, shown, reported, dumped, left_open, State, Packet,
  Tick, System, Options, Handler, decode, dump, Quick, to_stdout, to_file, write_to, effect,
  after_packet, packet_printer, dump_packet, print_summary, summary_text,
}
use nfsdump.IpTrace.{trace_packet}
use nfsdump.Packet.Loop.{Ran, exited, died, out_of_fuel, process_packet}
use nfsdump.Packet.Record.{Outside, World}
use nfsdump.Prelude.{
  ℕ, ◌≡◌, refl, true, inl, inr, Bool-cases, Option, none, some, List, [], ◌∷◌, ◌++◌, arith,
}
use nfsdump.Print.{Item}

-- An effect that is no log does not count.
quiet-logs :
    (e : Effect) (c : State) → logs (e ∷ []) ≡ 0 → logs (c.effects ++ e ∷ []) ≡ logs c.effects
quiet-logs e c none_of_it = let more = logs-append c.effects e in omega arith

write_to-all_logs :
    (o : Out) (w : World) (text : List Item) (c : State)
    → c.out ≡ o
    → all_logs (write_to o w text c) ≡ all_logs c
unfolding logs
write_to-all_logs temporary w text c is = refl
write_to-all_logs standard w text c is = let more = quiet-logs (shown text) c refl in omega arith
write_to-all_logs null w text c is =
    let more = quiet-logs (shown text) c refl in rw is (omega arith)

after_packet-all_logs :
    (c : State) (r : Ran) → IsSome (λ c'. all_logs c' ≡ all_logs c) (after_packet c r)
after_packet-all_logs c (exited code w text) = write_to-all_logs c.out w text c refl
after_packet-all_logs c (died fault) = tt
after_packet-all_logs c out_of_fuel = tt

packet_printer-logs :
    (out : Outside) (p : Packet) (c : State)
    → IsSome (λ c'. all_logs c' ≡ all_logs c) (packet_printer out p c)
unfolding packet_printer
packet_printer-logs out p c =
    after_packet-all_logs c (process_packet out p.secs p.usecs p.byte p.caplen c.world)

dump_packet-logs :
    (p : Packet) (c : State) → IsSome (λ c'. all_logs c' ≡ all_logs c) (dump_packet p c)
unfolding logs
dump_packet-logs p c = let more = quiet-logs (dumped p) c refl in omega arith

header_effect-all_logs :
    (o : Out) (text : List Item) (c : State)
    → c.out ≡ o
    → all_logs (effect (shown text) (record c { out = by_default o })) ≡ all_logs c
unfolding logs
header_effect-all_logs null text c is =
    let more = quiet-logs (shown text) c refl in rw is (omega arith)
header_effect-all_logs standard text c is =
    let more = quiet-logs (shown text) c refl in rw is (omega arith)
header_effect-all_logs temporary text c is =
    let more = quiet-logs (shown text) c refl in rw is (omega arith)

header_printer-logs :
    (p : Packet) (c : State) → IsSome (λ c'. all_logs c' ≡ all_logs c) (header_printer p c)
unfolding header_printer
header_printer-logs p c =
    header_effect-all_logs c.out (traced_text (trace_packet p.secs p.usecs p.byte p.caplen)) c refl

module _ (sys : System) where
  print_summary-logs :
      (quick : Option Quick) (c : State) → logs (print_summary sys quick c).effects ≡ logs c.effects
  unfolding logs print_summary
  print_summary-logs none c = refl
  print_summary-logs (some to_stdout) c = quiet-logs (reported (summary_text sys c.world)) c refl
  print_summary-logs (some (to_file name)) c = elim (Bool-cases (sys.opens name)) [
    | inl opens ↦ rw opens (quiet-logs (summed name (summary_text sys c.world)) c refl)
    | inr shut ↦ rw shut refl
  ]

  print_summary-iters :
      (quick : Option Quick) (c : State) → (print_summary sys quick c).iters ≡ c.iters
  unfolding print_summary
  print_summary-iters none c = refl
  print_summary-iters (some to_stdout) c = refl
  print_summary-iters (some (to_file name)) c = elim (Bool-cases (sys.opens name)) [
    | inl opens ↦ rw opens refl
    | inr shut ↦ rw shut refl
  ]

  open_summary-logs :
      (quick : Option Quick) (c : State) → logs (open_summary sys quick c).effects ≡ logs c.effects
  unfolding logs open_summary
  open_summary-logs none c = refl
  open_summary-logs (some to_stdout) c = refl
  open_summary-logs (some (to_file name)) c = elim (Bool-cases (sys.opens name)) [
    | inl opens ↦ rw opens (quiet-logs (left_open name) c refl)
    | inr shut ↦ rw shut refl
  ]

  open_summary-iters :
      (quick : Option Quick) (c : State) → (open_summary sys quick c).iters ≡ c.iters
  unfolding open_summary
  open_summary-iters none c = refl
  open_summary-iters (some to_stdout) c = refl
  open_summary-iters (some (to_file name)) c = elim (Bool-cases (sys.opens name)) [
    | inl opens ↦ rw opens refl
    | inr shut ↦ rw shut refl
  ]

  program_of-KeepsLogs :
      (out : Outside) (tool : Tool) (h : Handler) → KeepsLogs (program_of out sys tool h)
  program_of-KeepsLogs out nfs decode = record {
    printer_logs = packet_printer-logs out;
    summary_logs = print_summary-logs;
    summary_iters = print_summary-iters;
  }
  program_of-KeepsLogs out nfs dump = record {
    printer_logs = dump_packet-logs;
    summary_logs = print_summary-logs;
    summary_iters = print_summary-iters;
  }
  program_of-KeepsLogs out headers decode = record {
    printer_logs = header_printer-logs;
    summary_logs = open_summary-logs;
    summary_iters = open_summary-iters;
  }
  program_of-KeepsLogs out headers dump = record {
    printer_logs = dump_packet-logs;
    summary_logs = open_summary-logs;
    summary_iters = open_summary-iters;
  }

  -- The number of logs of either program, with `-w` or without, from any state with `n` logs in all,
  -- where files are made for intervals and no number of packets is given. At a `break` just the logs
  -- of the intervals that are not left have their names, and none is left unless a lifetime is given;
  -- while the loop goes on, and at a failure of `pcap_loop`, one may be pending.
  pub program_of-IsCounted :
      (out : Outside) (tool : Tool) (h : Handler) (o : Options) (n : ℕ) (ts : List Tick)
      (total_cnt : ℕ) (c : State)
      → o.cnt ≡ none
      → o.active ≡ true
      → all_logs c ≡ n
      → IsCounted o n (capture (program_of out sys tool h) sys o ts total_cnt c)
  program_of-IsCounted out tool h o n ts total_cnt c no_cnt active counted =
      capture-IsCounted (program_of out sys tool h) (program_of-KeepsLogs out tool h) sys o n ts
        total_cnt c no_cnt active counted
