-- ===== src/SetUp/Start/Whole.antt =====
-- What every run of the programs keeps, from the command line on.
use mathlib.Core.List.{Mem}
use nfsdump.Capture.Keeps.{IsSafe}
use nfsdump.Capture.Text.{IsSane}
use nfsdump.Capture.{System, Packet, Tick}
use nfsdump.CommandLine.Laws.{IsUsable}
use nfsdump.CommandLine.{Libc}
use nfsdump.Packet.Record.{Outside}
use nfsdump.Prelude.{◌⊎◌, String, Option, none, some, List, [], ◌∷◌}
use nfsdump.SetUp.Laws.{IsReady}
use nfsdump.SetUp.Start.{Finished, start_state, outside_of}
use nfsdump.SetUp.{Pcap, Files}

-- The packets that a run is given, all at once or tick by tick.
abbrev InBatch : Option (List Packet) → Packet → Type 0
InBatch none p = ⊥
InBatch (some ps) p = Mem p ps

abbrev InTicks : List Tick → Packet → Type 0
InTicks [] p = ⊥
InTicks (t ∷ ts) p = InBatch t.batch p ⊎ InTicks ts p

abbrev IsGiven : Option (List Packet) → List Tick → Packet → Type 0
IsGiven all ticks p = InBatch all p ⊎ InTicks ticks p

module _ (program_name version pcap_version : String) (libc : Libc) (pcap : Pcap) (files : Files)
    (out : Outside) (sys : System) where
  -- What holds of a run of nfsdump2/nfsdump.c that came to its loop.
  pub record IsRight (all : Option (List Packet)) (ticks : List Tick) (f : Finished) : Type 0 where
    pub usable : IsUsable f.settings
    pub ready : IsReady program_name pcap files f.settings f.ready
    pub sane :
        IsSafe
          (IsSane
            (outside_of f.settings out)
            sys
            (IsGiven all ticks)
            (start_state f.settings.interval.iters))
          f.ended
