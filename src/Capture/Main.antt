-- ===== src/Capture/Main.antt =====
-- The end of `main` of nfsdump2/nfsdump.c: the capture of all packets, with intervals or without,
-- and the summary after it.
pub mod Sane
use nfsdump.Capture.Loop.{Ended, stopped, failed, dead, goes_on, polled, capture}
use nfsdump.Capture.{Quick, Options, Program, System, State, Packet, Tick}
use nfsdump.Prelude.{Bool, true, false, not, Option, none, some, List, if◌then◌else◌}

-- `EndOfLife < 0`
abbrev pub is_endless : Options → Bool
is_endless o = elim o.end_of_life [ none ↦ true | some end ↦ false ]

module _ (prog : Program) (sys : System) (o : Options) where
  -- After the loop; a failure has ended the process.
  abbrev pub close_capture : Option Quick → Ended → Ended
  close_capture quick (stopped c) = stopped (prog.summary quick c)
  close_capture quick (failed c) = failed c
  close_capture quick dead = dead
  close_capture quick (goes_on c) = goes_on c

  -- `all` is what a `pcap_loop` without intervals and lifetime gives, and `ticks` what the loop gets.
  unfoldable pub run_main :
      Option Quick → (all : Option (List Packet)) → (ticks : List Tick) → State → Ended
  unfolding capture
  run_main quick all ticks c = close_capture quick (
      if is_endless o
      then (if o.active then capture prog sys o ticks 0 c else polled prog sys o stopped all c)
      else capture prog sys o ticks 0 c)
