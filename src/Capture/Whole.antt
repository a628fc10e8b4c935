-- ===== src/Capture/Whole.antt =====
-- What every run of the capture keeps: the state of the decoder, and the text of the packets.
use nfsdump.Capture.Counts.{IsSome, IsSome-bind}
use nfsdump.Capture.Keeps.{IsSafe, OfBatch, capture-keeps}
use nfsdump.Capture.Text.{
  traces, output, HasName, silent, IsSane, IsClosed, KeepsText, close_out-IsClosed,
}
use nfsdump.Capture.Loop.{capture}
use nfsdump.Capture.{
  State, Packet, Tick, System, Options, Program, close_out, open_out, update_out_file,
}
use nfsdump.Packet.Record.Keeps.{IsRunning}
use nfsdump.Packet.Record.{Outside}
use nfsdump.Prelude.{
  ℕ, ◌-◌, ◌%◌, ◌^◌, ◌<◌, sym, ◌∙◌, inl, inr, Bool-cases, List, [], append-nil, All,
}

module _ (out : Outside) (sys : System) (D : Packet → Type 0) (prog : Program)
    (keep : KeepsText out sys D prog) (o : Options) (start : State) where
  pub update_out_file-IsSane :
      (clock : ℕ) (c : State)
      → IsSane out sys D start c
      → IsSome (IsSane out sys D start) (update_out_file sys prog o clock c)
  unfolding update_out_file open_out
  update_out_file-IsSane clock c sane =
      IsSome-bind (IsClosed out sys D start.world sane.later (output c)) _
        (close_out sys prog c.out c) (open_out sys o clock)
        (close_out-IsClosed out sys D start.world sane.later prog keep c.out c sane.named
          sane.running sane.heard)
        (λ c' closed. elim (Bool-cases (sys.opens_tmp (clock - clock % o.secs))) [
          | inl opens ↦ rw opens (record {
            running = closed.running;
            named = tt;
            later = sane.later;
            heard = closed.heard;
            extends = append-nil (traces c'.effects) ∙ closed.left ∙ sane.extends;
          })
          | inr shut ↦ rw shut tt
        ])

pub spend-IsSane :
    (out : Outside) (sys : System) (D : Packet → Type 0) (start : State) (n : ℕ) (c : State)
    → IsSane out sys D start c
    → IsSane out sys D start (record c { iters = n })
spend-IsSane out sys D start n c sane = record {
  running = sane.running;
  named = sane.named;
  later = sane.later;
  heard = sane.heard;
  extends = sane.extends;
}

pub start-IsSane :
    (out : Outside) (sys : System) (D : Packet → Type 0) (start : State)
    → IsRunning start.world
    → HasName start.out start.cur_logname
    → IsSane out sys D start start
start-IsSane out sys D start running named = record {
  running = running;
  named = named;
  later = [];
  heard = silent;
  extends = sym (append-nil (output start));
}

-- The loop keeps what must be, and the text.
pub capture-IsSane :
    (out : Outside) (sys : System) (D : Packet → Type 0) (prog : Program)
    (keep : KeepsText out sys D prog) (o : Options) (ts : List Tick) (total_cnt : ℕ) (start : State)
    → All (λ t. OfBatch (λ p. (p.caplen < 2 ^ 30) × D p) t.batch) ts
    → IsRunning start.world
    → HasName start.out start.cur_logname
    → IsSafe (IsSane out sys D start) (capture prog sys o ts total_cnt start)
capture-IsSane out sys D prog keep o ts total_cnt start short running named =
    capture-keeps prog sys o (λ p. (p.caplen < 2 ^ 30) × D p) (IsSane out sys D start)
      (λ p c short_packet sane. keep.printer_IsSane start p c short_packet sane)
      (update_out_file-IsSane out sys D prog keep o start) (spend-IsSane out sys D start) ts
      total_cnt start short (start-IsSane out sys D start running named)
