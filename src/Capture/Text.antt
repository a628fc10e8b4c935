-- ===== src/Capture/Text.antt =====
-- The text of the packets, from the temporary file to the logs.
use nfsdump.Capture.Counts.{IsSome, IsSome-bind}
use nfsdump.Capture.{
  Out, null, standard, temporary, Effect, logged, summed, shown, reported, dumped, left_open, Quick,
  to_stdout, to_file, Packet, Program, file_of, State, FileName, System, write_to, print_summary,
  summary_text, reset, rename_log, close_out,
}
use nfsdump.Packet.Record.Keeps.{IsRunning}
use nfsdump.Packet.Loop.{exited, process_packet}
use nfsdump.Packet.Record.{Outside, World}
use nfsdump.Packet.{Code}
use nfsdump.Prelude.{
  ◌≡◌, ◌<◌, ◌^◌, refl, sym, ap, ◌∙◌, inl, inr, Bool-cases, Option, none, some, List, [], ◌∷◌, ◌++◌,
  append_assoc, append-nil,
}
use nfsdump.Print.{Item}
use nfsdump.Stats.Sums.{sum_to}

-- The text of the packets that has left the program, in its order.
unfoldable pub traces : List Effect → List Item
traces [] = []
traces (logged name text ∷ es) = text ++ traces es
traces (summed name text ∷ es) = traces es
traces (shown text ∷ es) = text ++ traces es
traces (reported text ∷ es) = traces es
traces (dumped p ∷ es) = traces es
traces (left_open name ∷ es) = traces es

abbrev pub open_text : Out → List Item → List Item
open_text temporary written = written
open_text standard written = []
open_text null written = []

-- All the text of the packets, with that of the temporary file.
abbrev pub output : State → List Item
output c = traces c.effects ++ open_text c.out c.written

-- The temporary file has a name to get.
abbrev pub HasName : Out → Option FileName → Type 0
HasName temporary none = ⊥
HasName temporary (some name) = Unit {0}
HasName standard name = Unit {0}
HasName null name = Unit {0}

-- The text that decoding some packets of those with the property `D`, one after the other, gives
-- from the state `w₀` of the decoder on, with the state that it leads to. A summary between two of
-- them only resets the counters.
pub data Heard (out : Outside) (sys : System) (D : Packet → Type 0) (w₀ : World)
    : List Item → World → Type 0 where
  silent : Heard out sys D w₀ [] w₀
  heard_packet :
      (text text' : List Item) (w w' : World) (code : Code) (p : Packet)
      → D p
      → Heard out sys D w₀ text w
      → process_packet out p.secs p.usecs p.byte p.caplen w ≡ exited code w' text'
      → Heard out sys D w₀ (text ++ text') w'
  summed_up :
      (text : List Item) (w : World)
      → Heard out sys D w₀ text w
      → Heard out sys D w₀ text (reset sys w)

-- The decoder's state is as it must be, and is what decoding packets has led to since `start`; the
-- text of these packets, whole and in their order, comes after that of `start`.
pub record IsSane (out : Outside) (sys : System) (D : Packet → Type 0) (start c : State)
    : Type 0 where
  pub running : IsRunning c.world
  pub named : HasName c.out c.cur_logname
  pub later : List Item
  pub heard : Heard out sys D start.world later c.world
  pub extends : output c ≡ output start ++ later

pub traces-append :
    (es : List Effect) (e : Effect) → traces (es ++ e ∷ []) ≡ traces es ++ traces (e ∷ [])
unfolding traces
traces-append [] e = refl
traces-append (logged name text ∷ es) e =
    ap (λ x. text ++ x) (traces-append es e) ∙ sym (append_assoc text (traces es) (traces (e ∷ [])))
traces-append (summed name text ∷ es) e = traces-append es e
traces-append (shown text ∷ es) e =
    ap (λ x. text ++ x) (traces-append es e) ∙ sym (append_assoc text (traces es) (traces (e ∷ [])))
traces-append (reported text ∷ es) e = traces-append es e
traces-append (dumped p ∷ es) e = traces-append es e
traces-append (left_open name ∷ es) e = traces-append es e

-- An effect that shows no text.
pub quiet-traces :
    (e : Effect) (c : State)
    → traces (e ∷ []) ≡ []
    → traces (c.effects ++ e ∷ []) ≡ traces c.effects
quiet-traces e c none_of_it =
    traces-append c.effects e
    ∙ ap (λ x. traces c.effects ++ x) none_of_it
    ∙ append-nil (traces c.effects)

-- A packet's text comes last.
pub write_to-output :
    (o : Out) (w : World) (text : List Item) (c : State)
    → c.out ≡ o
    → output (write_to o w text c) ≡ output c ++ text
unfolding traces
write_to-output temporary w text c is = rw is (sym (append_assoc (traces c.effects) c.written text))
write_to-output standard w text c is = simp (is, append-nil, traces-append) refl
write_to-output null w text c is = simp (is, append-nil, traces-append) refl

pub print_summary-traces :
    (sys : System) (quick : Option Quick) (c : State)
    → traces (print_summary sys quick c).effects ≡ traces c.effects
unfolding print_summary traces
print_summary-traces sys none c = refl
print_summary-traces sys (some to_stdout) c =
    quiet-traces (reported (summary_text sys c.world)) c refl
print_summary-traces sys (some (to_file name)) c = elim (Bool-cases (sys.opens name)) [
  | inl opens ↦ rw opens (quiet-traces (summed name (summary_text sys c.world)) c refl)
  | inr shut ↦ rw shut refl
]

-- The counters are zero after a summary, and add up.
reset-IsRunning : (sys : System) (w : World) → IsRunning w → IsRunning (reset sys w)
reset-IsRunning sys w v = record {
  calls = v.calls;
  segments = v.segments;
  calls2_add = unfold sum_to in refl;
  resps2_add = unfold sum_to in refl;
}

pub print_summary-Heard :
    (out : Outside) (sys : System) (D : Packet → Type 0) (w₀ : World) (text : List Item)
    (quick : Option Quick) (c : State)
    → Heard out sys D w₀ text c.world
    → Heard out sys D w₀ text (print_summary sys quick c).world
unfolding print_summary
print_summary-Heard out sys D w₀ text none c h = h
print_summary-Heard out sys D w₀ text (some to_stdout) c h = summed_up text c.world h
print_summary-Heard out sys D w₀ text (some (to_file name)) c h =
    elim (Bool-cases (sys.opens name)) [
      | inl opens ↦ rw opens (summed_up text c.world h)
      | inr shut ↦ rw shut (summed_up text c.world h)
    ]

pub print_summary-IsRunning :
    (sys : System) (quick : Option Quick) (c : State)
    → IsRunning c.world
    → IsRunning (print_summary sys quick c).world
unfolding print_summary
print_summary-IsRunning sys none c v = v
print_summary-IsRunning sys (some to_stdout) c v = reset-IsRunning sys c.world v
print_summary-IsRunning sys (some (to_file name)) c v = elim (Bool-cases (sys.opens name)) [
  | inl opens ↦ rw opens (reset-IsRunning sys c.world v)
  | inr shut ↦ rw shut (reset-IsRunning sys c.world v)
]

-- A packet of less than 1 GB adds its text, if the process lives, and a summary adds none; both keep
-- the rest as it must be.
pub record KeepsText (out : Outside) (sys : System) (D : Packet → Type 0) (prog : Program)
    : Type 0 where
  pub printer_IsSane :
      (start : State) (p : Packet) (c : State)
      → (p.caplen < 2 ^ 30) × D p
      → IsSane out sys D start c
      → IsSome (IsSane out sys D start) (prog.printer p c)
  pub summary_traces :
      (quick : Option Quick) (c : State) → traces (prog.summary quick c).effects ≡ traces c.effects
  pub summary_IsRunning :
      (quick : Option Quick) (c : State)
      → IsRunning c.world
      → IsRunning (prog.summary quick c).world
  pub summary_heard :
      (w₀ : World) (text : List Item) (quick : Option Quick) (c : State)
      → Heard out sys D w₀ text c.world
      → Heard out sys D w₀ text (prog.summary quick c).world
  pub summary_named :
      (quick : Option Quick) (c : State)
      → HasName c.out c.cur_logname
      → HasName (prog.summary quick c).out (prog.summary quick c).cur_logname
  pub summary_written :
      (quick : Option Quick) (c : State)
      → open_text (prog.summary quick c).out (prog.summary quick c).written
        ≡ open_text c.out c.written

module _ (out : Outside) (sys : System) (D : Packet → Type 0) (w₀ : World) (later : List Item) where
  -- The text of a closed file has left.
  pub record IsClosed (text : List Item) (c : State) : Type 0 where
    pub running : IsRunning c.world
    pub heard : Heard out sys D w₀ later c.world
    pub left : traces c.effects ≡ text

  rename_log-IsClosed :
      (name : Option FileName) (c : State)
      → HasName temporary name
      → IsRunning c.world
      → Heard out sys D w₀ later c.world
      → IsSome (IsClosed (traces c.effects ++ c.written)) (rename_log sys name c)
  unfolding traces
  rename_log-IsClosed none c named v h = elim named [ ]
  rename_log-IsClosed (some name) c named v h = elim (Bool-cases (sys.renames name)) [
    | inl renamed ↦ rw renamed (record {
      running = v;
      heard = h;
      left =
          traces-append c.effects (logged name c.written)
          ∙ ap (λ x. traces c.effects ++ x) (append-nil c.written);
    })
    | inr kept ↦ rw kept tt
  ]

  pub close_out-IsClosed :
      (prog : Program) (keep : KeepsText out sys D prog) (o : Out) (c : State)
      → HasName o c.cur_logname
      → IsRunning c.world
      → Heard out sys D w₀ later c.world
      → IsSome (IsClosed (traces c.effects ++ open_text o c.written)) (close_out sys prog o c)
  unfolding close_out
  close_out-IsClosed prog keep temporary c named v h =
      IsSome-bind (IsClosed (traces c.effects ++ c.written)) _ (rename_log sys c.cur_logname c) _
        (rename_log-IsClosed c.cur_logname c named v h)
        (λ c' closed. record {
          running = keep.summary_IsRunning (file_of c.cur_sumname) c' closed.running;
          heard = keep.summary_heard w₀ later (file_of c.cur_sumname) c' closed.heard;
          left = keep.summary_traces (file_of c.cur_sumname) c' ∙ closed.left;
        })
  close_out-IsClosed prog keep standard c named v h = record {
    running = v;
    heard = h;
    left = sym (append-nil (traces c.effects));
  }
  close_out-IsClosed prog keep null c named v h = record {
    running = v;
    heard = h;
    left = sym (append-nil (traces c.effects));
  }
