-- ===== src/Capture/Shows.antt =====
-- How the text of packets leaves nfsdump2/nfsdump.c.
use mathlib.Core.Path.{subst}
use nfsdump.Capture.Counts.{IsSome}
use nfsdump.Capture.Text.{
  traces, quiet-traces, open_text, output, HasName, Heard, heard_packet, IsSane, KeepsText,
  print_summary-Heard, write_to-output, print_summary-traces, print_summary-IsRunning,
}
use nfsdump.Capture.{
  Out, null, standard, temporary, dumped, State, Packet, System, Handler, decode, dump, Quick,
  to_stdout, to_file, write_to, after_packet, packet_printer, dump_packet, print_summary,
  nfsdump_program,
}
use nfsdump.Packet.Loop.Ends.{IsEnded, process_packet-ends}
use nfsdump.Packet.Loop.{Ran, exited, died, out_of_fuel, process_packet}
use nfsdump.Packet.Record.Keeps.{IsRunning}
use nfsdump.Packet.Record.{Outside, World}
use nfsdump.Prelude.{
  ◌^◌, ◌<◌, ◌≡◌, refl, sym, ap, ◌∙◌, inl, inr, Bool-cases, Option, none, some, List, ◌++◌,
  append_assoc,
}
use nfsdump.Print.{Item}

write_to-HasName :
    (out : Out) (w : World) (text : List Item) (c : State)
    → c.out ≡ out
    → HasName c.out c.cur_logname
    → HasName (write_to out w text c).out (write_to out w text c).cur_logname
write_to-HasName temporary w text c is named = named
write_to-HasName standard w text c is named = named
write_to-HasName null w text c is named = tt

write_to-world :
    (out : Out) (w : World) (text : List Item) (c : State) → (write_to out w text c).world ≡ w
write_to-world temporary w text c = refl
write_to-world standard w text c = refl
write_to-world null w text c = refl

module _ (out : Outside) (sys : System) (D : Packet → Type 0) (start : State) (p : Packet)
    (c : State) where
  after_packet-IsSane :
      (r : Ran)
      → process_packet out p.secs p.usecs p.byte p.caplen c.world ≡ r
      → D p
      → IsEnded r
      → IsSane out sys D start c
      → IsSome (IsSane out sys D start) (after_packet c r)
  after_packet-IsSane (exited code w text) ran of v sane =
      let at = write_to-world c.out w text c in
      record {
        running = subst IsRunning (sym at) v;
        named = write_to-HasName c.out w text c refl sane.named;
        later = sane.later ++ text;
        heard =
            subst (Heard out sys D start.world (sane.later ++ text)) (sym at)
              (heard_packet sane.later text c.world w code p of sane.heard ran);
        extends =
            write_to-output c.out w text c refl
            ∙ ap (λ x. x ++ text) sane.extends
            ∙ append_assoc (output start) sane.later text;
      }
  after_packet-IsSane (died fault) ran of v sane = tt
  after_packet-IsSane out_of_fuel ran of v sane = tt

  packet-IsSane :
      (p.caplen < 2 ^ 30) × D p
      → IsSane out sys D start c
      → IsSome (IsSane out sys D start) (packet_printer out p c)
  unfolding packet_printer
  packet-IsSane (short, of) sane =
      after_packet-IsSane (process_packet out p.secs p.usecs p.byte p.caplen c.world) refl of
        (process_packet-ends out p.secs p.usecs p.byte p.caplen c.world short sane.running) sane

  -- A packet in a file of its own is no text.
  dump_packet-IsSane : IsSane out sys D start c → IsSome (IsSane out sys D start) (dump_packet p c)
  unfolding traces
  dump_packet-IsSane sane = record {
    running = sane.running;
    named = sane.named;
    later = sane.later;
    heard = sane.heard;
    extends =
        ap (λ x. x ++ open_text c.out c.written) (quiet-traces (dumped p) c refl) ∙ sane.extends;
  }

module _ (sys : System) where
  print_summary-named :
      (quick : Option Quick) (c : State)
      → HasName c.out c.cur_logname
      → HasName (print_summary sys quick c).out (print_summary sys quick c).cur_logname
  unfolding print_summary
  print_summary-named none c named = named
  print_summary-named (some to_stdout) c named = named
  print_summary-named (some (to_file name)) c named = elim (Bool-cases (sys.opens name)) [
    | inl opens ↦ rw opens named
    | inr shut ↦ rw shut named
  ]

  print_summary-written :
      (quick : Option Quick) (c : State)
      → open_text (print_summary sys quick c).out (print_summary sys quick c).written
        ≡ open_text c.out c.written
  unfolding print_summary
  print_summary-written none c = refl
  print_summary-written (some to_stdout) c = refl
  print_summary-written (some (to_file name)) c = elim (Bool-cases (sys.opens name)) [
    | inl opens ↦ rw opens refl
    | inr shut ↦ rw shut refl
  ]

  pub nfsdump_program-KeepsText :
      (D : Packet → Type 0) (out : Outside) (h : Handler)
      → KeepsText out sys D (nfsdump_program out sys h)
  nfsdump_program-KeepsText D out decode = record {
    printer_IsSane = packet-IsSane out sys D;
    summary_heard = print_summary-Heard out sys D;
    summary_traces = print_summary-traces sys;
    summary_IsRunning = print_summary-IsRunning sys;
    summary_named = print_summary-named;
    summary_written = print_summary-written;
  }
  nfsdump_program-KeepsText D out dump = record {
    printer_IsSane = λ start p c of sane. dump_packet-IsSane out sys D start p c sane;
    summary_heard = print_summary-Heard out sys D;
    summary_traces = print_summary-traces sys;
    summary_IsRunning = print_summary-IsRunning sys;
    summary_named = print_summary-named;
    summary_written = print_summary-written;
  }
