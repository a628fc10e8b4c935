-- ===== src/SetUp/Start/Prints.antt =====
-- What a run of nfsdump2/nfsdump.c that reads a trace puts on the standard output.
use mathlib.Core.Path.{subst}
use nfsdump.Capture.Headers.{nfs}
use nfsdump.Capture.Loop.{Ended, stopped, dead, lived}
use nfsdump.Capture.Text.{traces, traces-append}
use nfsdump.Capture.{
  Out, null, standard, temporary, shown, State, System, Program, Packet, Tick, decode, write_to,
  after_packet, packet_printer, print_batch, nfsdump_program,
}
use nfsdump.CommandLine.{Libc}
use nfsdump.Packet.Loop.{Ran, exited, died, out_of_fuel, process_packet}
use nfsdump.Packet.Record.{Outside, World}
use nfsdump.Prelude.{
  ℕ, ◌≡◌, ◌≢◌, refl, sym, ap, ◌∙◌, String, true, Option, none, some, ◌>>=◌, List, [], ◌∷◌, ◌++◌,
  append_assoc, append-nil,
}
use nfsdump.Print.{Item}
use nfsdump.SetUp.Start.Reads.{reading, reads_file, main-reads}
use nfsdump.SetUp.Start.{Finished, start_world, start_state, outside_of, main}
use nfsdump.SetUp.{Pcap, Files}
use nfsdump.Support.{goes}

-- The text in front of that of the packets that come then.
abbrev in_front : List Item → Option (List Item × World) → Option (List Item × World)
in_front text none = none
in_front text (some (later, w)) = some (text ++ later, w)

abbrev after_decoded :
    (decode_rest : World → Option (List Item × World)) → Ran → Option (List Item × World)
after_decoded decode_rest (exited code w text) = in_front text (decode_rest w)
after_decoded decode_rest (died fault) = none
after_decoded decode_rest out_of_fuel = none

-- The text of the packets of a trace, one decoded after the other, with the state that the last leaves;
-- `none` if the process dies at one.
unfoldable pub decode_trace : Outside → List Packet → World → Option (List Item × World)
unfolding process_packet
decode_trace out [] w = some ([], w)
decode_trace out (p ∷ ps) w =
    after_decoded (decode_trace out ps) (process_packet out p.secs p.usecs p.byte p.caplen w)

-- A state with this text of packets after that of `before`, and this state of the decoder.
abbrev pub Prints : (before : List Item) → Option (List Item × World) → Option State → Type 0
Prints before none none = Unit {0}
Prints before none (some c) = ⊥
Prints before (some (text, w)) none = ⊥
Prints before (some (text, w)) (some c) = (traces c.effects ≡ before ++ text) × (c.world ≡ w)

-- The end of the loop with such a state.
abbrev pub EndsWith : Option (List Item × World) → Ended → Type 0
EndsWith none dead = Unit {0}
EndsWith (some (text, w)) (stopped c) = (traces c.effects ≡ text) × (c.world ≡ w)
EndsWith _ _ = ⊥

standard-ne-temporary : standard ≢ temporary
standard-ne-temporary h = cc

write_to-shows :
    (o : Out) (w : World) (text : List Item) (c : State)
    → c.out ≡ o
    → o ≢ temporary
    → (traces (write_to o w text c).effects ≡ traces c.effects ++ text)
      × ((write_to o w text c).world ≡ w)
      × ((write_to o w text c).out ≢ temporary)
unfolding traces
write_to-shows temporary w text c is shows = absurd (shows refl)
write_to-shows standard w text c is shows = (
  traces-append c.effects (shown text) ∙ ap (λ x. traces c.effects ++ x) (append-nil text),
  refl,
  λ h. shows (sym is ∙ h),
)
write_to-shows null w text c is shows = (
  traces-append c.effects (shown text) ∙ ap (λ x. traces c.effects ++ x) (append-nil text),
  refl,
  standard-ne-temporary,
)

in_front-Prints :
    (before text : List Item) (d : Option (List Item × World)) (m : Option State)
    → Prints (before ++ text) d m
    → Prints before (in_front text d) m
in_front-Prints before text none none h = tt
in_front-Prints before text none (some c) h = h
in_front-Prints before text (some (later, w)) none h = h
in_front-Prints before text (some (later, w)) (some c) (same, world) =
    (same ∙ append_assoc before text later, world)

module _ (out : Outside) (sys : System) where
  abbrev prog : Program
  prog = nfsdump_program out sys decode

  after_packet-Prints :
      (rest : List Packet) (c : State) (r : Ran)
      → c.out ≢ temporary
      → ((c' : State)
          → c'.out ≢ temporary
          → Prints (traces c'.effects) (decode_trace out rest c'.world) (print_batch prog rest c'))
      → Prints
          (traces c.effects)
          (after_decoded (decode_trace out rest) r)
          (after_packet c r >>= print_batch prog rest)
  after_packet-Prints rest c (exited code w text) shows ih =
      let c' = write_to c.out w text c in
      let (same, world, shows') = write_to-shows c.out w text c refl shows in
      in_front-Prints (traces c.effects) text (decode_trace out rest w) (print_batch prog rest c') (
        subst
          (λ v.
            Prints (traces c.effects ++ text) (decode_trace out rest v) (print_batch prog rest c'))
          world
          (subst (λ x. Prints x (decode_trace out rest c'.world) (print_batch prog rest c')) same
            (ih c' shows')))
  after_packet-Prints rest c (died fault) shows ih = tt
  after_packet-Prints rest c out_of_fuel shows ih = tt

  print_batch-Prints :
      (ps : List Packet) (c : State)
      → c.out ≢ temporary
      → Prints (traces c.effects) (decode_trace out ps c.world) (print_batch prog ps c)
  unfolding print_batch decode_trace packet_printer
  print_batch-Prints [] c shows = (sym (append-nil (traces c.effects)), refl)
  print_batch-Prints (p ∷ ps) c shows =
      after_packet-Prints ps c (process_packet out p.secs p.usecs p.byte p.caplen c.world) shows
        (λ c' shows'. print_batch-Prints ps c' shows')

lived-EndsWith :
    (d : Option (List Item × World)) (m : Option State)
    → Prints [] d m
    → EndsWith d (lived m stopped)
lived-EndsWith none none h = tt
lived-EndsWith none (some c) h = h
lived-EndsWith (some (text, w)) none h = h
lived-EndsWith (some (text, w)) (some c) h = h

null-ne-temporary : null ≢ temporary
null-ne-temporary h = cc

-- The run `nfsdump -r file`, of a trace of Ethernet that libpcap opens and whose filter it takes: it
-- comes to its loop, and if the process does not die at a packet, it stops there after the whole trace,
-- the text on the standard output is that of every packet, in their order, each decoded in the state
-- that the packets before it left, and the decoder's state is that of the last; else it dies.
pub main-prints :
    (program_name version pcap_version : String) (libc : Libc) (pcap : Pcap) (files : Files)
    (out : Outside) (sys : System) (file : String)
    → pcap.open_offline file ≡ true
    → pcap.compile none 1 ≡ true
    → pcap.setfilter ≡ true
    → pcap.datalink ≡ pcap.en10mb
    → (now : ℕ) (ps : List Packet) (ticks : List Tick)
    → (f : Finished) × (main program_name version pcap_version libc pcap files out sys nfs
          (reads_file file now ∷ [])
          []
          (some ps)
          ticks
        ≡ goes f)
      × EndsWith (decode_trace (outside_of (reading file) out) ps start_world) f.ended
unfolding traces
main-prints program_name version pcap_version libc pcap files out sys file opens compiles sets
      ethernet now ps ticks =
    (
      _,
      main-reads program_name version pcap_version libc pcap files out sys file opens compiles sets
          ethernet now ps ticks,
      lived-EndsWith _ _ (
          print_batch-Prints (outside_of (reading file) out) sys ps (start_state 1)
            null-ne-temporary),
    )
