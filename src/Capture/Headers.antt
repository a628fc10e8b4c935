-- ===== src/Capture/Headers.antt =====
-- nfsdump2/iphdump.c as a program for the capture: the printer of nfsdump2/iprecord.c, whose text goes
-- to the standard output whatever `OutFile` is, and a `printSummary` that opens its file and does no
-- more. The rest of the file is that of nfsdump2/nfsdump.c.
pub mod Bare
use nfsdump.Capture.{
  Out, null, standard, temporary, State, Packet, System, Program, Handler, decode, dump, Quick,
  to_stdout, to_file, shown, left_open, effect, dump_packet, nfsdump_program,
}
use nfsdump.IpTrace.{Traced, ended, recorded, trace_packet, print_packet_header}
use nfsdump.Packet.Record.{Outside}
use nfsdump.Prelude.{Option, none, some, List, if◌then◌else◌}
use nfsdump.Print.{Item}

-- What `processPacket` has written at its end.
abbrev pub traced_text : Traced → List Item
traced_text (ended code text) = text
traced_text (recorded h) = print_packet_header h

-- `if (OutFile == NULL) OutFile = stdout`
abbrev pub by_default : Out → Out
by_default null = standard
by_default standard = standard
by_default temporary = temporary

-- `packetPrinter`
unfoldable pub header_printer : Packet → State → Option State
unfolding trace_packet print_packet_header
header_printer p c = some (
    effect (shown (traced_text (trace_packet p.secs p.usecs p.byte p.caplen)))
      (record c { out = by_default c.out }))

module _ (sys : System) where
  -- `printSummary`
  unfoldable pub open_summary : Option Quick → State → State
  open_summary none c = c
  open_summary (some to_stdout) c = c
  open_summary (some (to_file name)) c = if sys.opens name then effect (left_open name) c else c

  abbrev pub header_program : Handler → Program
  header_program decode = record { printer = header_printer; summary = open_summary }
  header_program dump = record { printer = dump_packet; summary = open_summary }

-- The programs of the directory: nfsdump2/nfsdump.c and nfsdump2/iphdump.c.
pub data Tool : Type 0 where
  nfs : Tool
  headers : Tool

abbrev pub program_of : Outside → System → Tool → Handler → Program
program_of out sys nfs h = nfsdump_program out sys h
program_of out sys headers h = header_program sys h
