-- ===== src/Capture/Main/Sane.antt =====
-- The whole of a capture keeps the decoder's state and the text.
use nfsdump.Capture.Keeps.{IsSafe, OfBatch, polled-keeps}
use nfsdump.Capture.Main.{is_endless, close_capture, run_main}
use nfsdump.Capture.Shows.{nfsdump_program-KeepsText}
use nfsdump.Capture.Text.{traces, open_text, HasName, IsSane, KeepsText}
use nfsdump.Capture.Whole.{update_out_file-IsSane, capture-IsSane, spend-IsSane, start-IsSane}
use nfsdump.Capture.Loop.{Ended, stopped, failed, dead, goes_on}
use nfsdump.Capture.{Options, Program, Handler, Quick, System, State, Packet, Tick, nfsdump_program}
use nfsdump.Packet.Record.Keeps.{IsRunning}
use nfsdump.Packet.Record.{Outside}
use nfsdump.Prelude.{◌^◌, ◌<◌, ap, ◌∙◌, Bool, true, false, Option, List, ◌++◌, All, if◌then◌else◌}

module _ (out : Outside) (sys : System) (D : Packet → Type 0) (prog : Program)
    (keep : KeepsText out sys D prog) (o : Options) (start : State) where
  summary-IsSane :
      (quick : Option Quick) (c : State)
      → IsSane out sys D start c
      → IsSane out sys D start (prog.summary quick c)
  summary-IsSane quick c sane = record {
    running = keep.summary_IsRunning quick c sane.running;
    named = keep.summary_named quick c sane.named;
    later = sane.later;
    heard = keep.summary_heard start.world sane.later quick c sane.heard;
    extends =
        ap (λ x. x ++ open_text (prog.summary quick c).out (prog.summary quick c).written)
          (keep.summary_traces quick c)
        ∙ ap (λ x. traces c.effects ++ x) (keep.summary_written quick c)
        ∙ sane.extends;
  }

  close_capture-IsSane :
      (quick : Option Quick) (e : Ended)
      → IsSafe (IsSane out sys D start) e
      → IsSafe (IsSane out sys D start) (close_capture prog sys o quick e)
  close_capture-IsSane quick (stopped c) sane = summary-IsSane quick c sane
  close_capture-IsSane quick (failed c) sane = sane
  close_capture-IsSane quick dead sane = tt
  close_capture-IsSane quick (goes_on c) sane = sane

  if-IsSafe :
      (b : Bool) (x y : Ended)
      → IsSafe (IsSane out sys D start) x
      → IsSafe (IsSane out sys D start) y
      → IsSafe (IsSane out sys D start) (if b then x else y)
  if-IsSafe true x y f g = f
  if-IsSafe false x y f g = g

  keeps-IsSane :
      (quick : Option Quick) (all : Option (List Packet)) (ticks : List Tick)
      → OfBatch (λ p. (p.caplen < 2 ^ 30) × D p) all
      → All (λ t. OfBatch (λ p. (p.caplen < 2 ^ 30) × D p) t.batch) ticks
      → IsRunning start.world
      → HasName start.out start.cur_logname
      → IsSafe (IsSane out sys D start) (run_main prog sys o quick all ticks start)
  unfolding run_main
  keeps-IsSane quick all ticks short shorts running named =
      let sane = start-IsSane out sys D start running named in
      let looped = capture-IsSane out sys D prog keep o ticks 0 start shorts running named in
      close_capture-IsSane quick _ (
        if-IsSafe (is_endless o) _ _
          (if-IsSafe o.active _ _ looped (
            polled-keeps prog sys o (λ p. (p.caplen < 2 ^ 30) × D p) (IsSane out sys D start)
              (λ p c short_packet i. keep.printer_IsSane start p c short_packet i)
              (update_out_file-IsSane out sys D prog keep o start) (spend-IsSane out sys D start)
              stopped (λ c i. i) all start short sane))
          looped)

-- A run of the program, with `-w` or without, from a state in which the decoder's state is as it must
-- be and a temporary file has a name to get, with packets of less than 1 GB
-- that have a property `D`: at its end, whatever the
-- options are and the system calls answer, the decoder's state is as it must be again, a temporary
-- file has a name to get, and the text in logs, on the standard output and in the temporary file, in
-- this order, is that of the start and then the whole texts of packets with this property whose decoding, in their
-- order, has led to this state of the decoder, unless the process has died.
pub run_main-IsSane :
    (out : Outside) (sys : System) (D : Packet → Type 0) (h : Handler) (o : Options) (start : State)
    (quick : Option Quick) (all : Option (List Packet)) (ticks : List Tick)
    → OfBatch (λ p. (p.caplen < 2 ^ 30) × D p) all
    → All (λ t. OfBatch (λ p. (p.caplen < 2 ^ 30) × D p) t.batch) ticks
    → IsRunning start.world
    → HasName start.out start.cur_logname
    → IsSafe
        (IsSane out sys D start)
        (run_main (nfsdump_program out sys h) sys o quick all ticks start)
run_main-IsSane out sys D h o start quick all ticks short shorts running named =
    keeps-IsSane out sys D (nfsdump_program out sys h) (nfsdump_program-KeepsText sys D out h) o
      start quick all ticks short shorts running named
