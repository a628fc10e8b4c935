-- ===== src/Capture.antt =====
-- The capture of nfsdump2/nfsdump.c: `updateOutFile`, which puts the traces of an interval into a
-- file of their own, `printSummary`, and `packetPrinter` of nfsdump2/nfsrecord.c, for a program with
-- a printer and a summary of its own. What the system calls answer is a parameter. The loop of `main`
-- over the batches of packets stands in Capture/Loop.antt.
pub mod Counts
pub mod Headers
pub mod Logs
pub mod Loop
pub mod Main
pub mod Keeps
pub mod Shows
pub mod Text
pub mod Whole
use nfsdump.Packet.Loop.{Ran, exited, died, out_of_fuel, process_packet}
use nfsdump.Packet.Record.{Outside, World}
use nfsdump.Prelude.{
  ℕ, ◌+◌, ◌-◌, ◌%◌, ◌^◌, Bool, true, false, ◌&&◌, ◌||◌, not, Option, none, some, ◌>>=◌, List, [],
  ◌∷◌, ◌++◌, String, ◌==◌, leb, ltb, if◌then◌else◌, add32, sub32,
}
use nfsdump.Print.{Item, lit, dec2, int}
use nfsdump.Stats.Report.{stat_init, nfs_v2_stat_print, nfs_v3_stat_print}

-- The fields of `struct tm` that are read.
pub record Local : Type 0 where
  pub year : ℕ
  pub mon : ℕ
  pub mday : ℕ
  pub hour : ℕ
  pub min : ℕ

abbrev pub FileName : Type 0
FileName = List Item

-- Whether `rename` gives a file its name, and `fopen` opens a summary and the temporary file; what
-- `localtime_r` makes of a time, and what the summary tells of `pcap_stats`.
pub record System : Type 0 where
  pub renames : FileName → Bool
  pub opens : FileName → Bool
  pub opens_tmp : ℕ → Bool
  pub local : ℕ → Local
  pub pcap_text : List Item

-- What the command line says. `cnt` is not there for -1, nor is `end_of_life` for -1; `secs` is not
-- 0.
pub record Options : Type 0 where
  pub cnt : Option ℕ
  pub end_of_life : Option ℕ
  pub active : Bool
  pub secs : ℕ
  pub basename : String

-- `OutFile`: NULL, the standard output, or the temporary file.
pub data Out : Type 0 where
  null : Out
  standard : Out
  temporary : Out

-- The file of a summary: "-", which is the standard output, or the name of one.
pub data Quick : Type 0 where
  to_stdout : Quick
  to_file : FileName → Quick

-- A packet that was captured, with the time in `ts`.
pub record Packet : Type 0 where
  pub secs : ℕ
  pub usecs : ℕ
  pub byte : ℕ → ℕ
  pub caplen : ℕ

-- What leaves the program: a log that gets its name, a summary, text or a summary on the standard
-- output, a packet that is given to `pcap_dump`, and an empty file that stays open.
pub data Effect : Type 0 where
  logged : FileName → List Item → Effect
  summed : FileName → List Item → Effect
  shown : List Item → Effect
  reported : List Item → Effect
  dumped : Packet → Effect
  left_open : FileName → Effect

-- `Interval`, `OutFile` and the decoder; `written` is the text in the temporary file, and `effects`
-- are in their order.
pub record State : Type 0 where
  pub out : Out
  pub iters : ℕ
  pub end_time : ℕ
  pub cur_logname : Option FileName
  pub cur_sumname : Option FileName
  pub world : World
  pub written : List Item
  pub effects : List Effect

-- A round of the loop of `main`: what `gettimeofday` and `time` tell, and the packets of a
-- `pcap_loop`; `none` is its failure.
pub record Tick : Type 0 where
  pub now : ℕ
  pub clock : ℕ
  pub batch : Option (List Packet)

abbrev pub effect : Effect → State → State
effect e c = record c { effects = c.effects ++ e ∷ [] }

-- The text of a packet goes to `OutFile`, which is the standard output by default. The line that
-- `get_auth` prints for credentials not of UNIX, which goes to the standard output in any case, is
-- taken with it.
abbrev pub write_to : Out → World → List Item → State → State
write_to temporary w text c = record c { world = w; written = c.written ++ text }
write_to standard w text c = effect (shown text) (record c { world = w })
write_to null w text c = effect (shown text) (record c { world = w; out = standard })

-- `packetPrinter`, which has no use for the result of `processPacket`; `none` is the death of the
-- process, also in what follows.
abbrev pub after_packet : State → Ran → Option State
after_packet c (exited code w text) = some (write_to c.out w text c)
after_packet c (died fault) = none
after_packet c out_of_fuel = none

unfoldable pub packet_printer : Outside → Packet → State → Option State
unfolding process_packet
packet_printer out p c = after_packet c (process_packet out p.secs p.usecs p.byte p.caplen c.world)

-- `pcap_dump` of libpcap as the printer.
abbrev pub dump_packet : Packet → State → Option State
dump_packet p c = some (effect (dumped p) c)

-- What the programs differ in: the printer of packets, and `printSummary`.
pub record Program : Type 0 where
  pub printer : Packet → State → Option State
  pub summary : Option Quick → State → State

unfoldable pub print_batch : Program → List Packet → State → Option State
print_batch prog [] c = some c
print_batch prog (p ∷ ps) c = prog.printer p c >>= print_batch prog ps

abbrev pub forget_names : State → State
forget_names c = record c { cur_logname = none; cur_sumname = none }

-- `basename-yymmdd-hhmm`, with its ending.
unfoldable pub stamped : String → (suffix : String) → Local → FileName
stamped basename suffix tm =
    lit basename
    ∷ lit "-"
    ∷ dec2 (tm.year % 100)
    ∷ dec2 (1 + tm.mon)
    ∷ dec2 tm.mday
    ∷ lit "-"
    ∷ dec2 tm.hour
    ∷ dec2 tm.min
    ∷ lit suffix
    ∷ []

module _ (sys : System) where
  -- The text of `printSummary`.
  unfoldable pub summary_text : World → List Item
  unfolding nfs_v3_stat_print nfs_v2_stat_print
  summary_text w =
      nfs_v3_stat_print w.calls3 w.resps3
      ++ (lit "\n" ∷ nfs_v2_stat_print w.calls2 w.resps2)
      ++ (lit "\n" ∷ sys.pcap_text)
      ++ int w.xid_table.count ∷ lit " elems in xidHashTable.\n" ∷ []

  abbrev pub reset : World → World
  reset w = record w {
    calls2 = stat_init;
    resps2 = stat_init;
    calls3 = stat_init;
    resps3 = stat_init;
  }

  -- `printSummary`
  unfoldable pub print_summary : Option Quick → State → State
  unfolding summary_text
  print_summary none c = c
  print_summary (some to_stdout) c =
      effect (reported (summary_text c.world)) (record c { world = reset c.world })
  print_summary (some (to_file name)) c =
      let c' = record c { world = reset c.world } in
      if sys.opens name then effect (summed name (summary_text c.world)) c' else c'

  -- The rename, whose success is asserted.
  abbrev pub rename_log : Option FileName → State → Option State
  rename_log none c = some c
  rename_log (some name) c =
      if sys.renames name then some (effect (logged name c.written) c) else none

  -- The second half of `updateOutFile`.
  unfoldable pub open_out : Options → (clock : ℕ) → State → Option State
  unfolding stamped
  open_out o clock c =
      let curr_clock = clock - clock % o.secs in
      let tm = sys.local curr_clock in
      if sys.opens_tmp curr_clock
      then some (record c {
        out = temporary;
        written = [];
        end_time = add32 curr_clock o.secs;
        cur_logname = some (stamped o.basename ".txt" tm);
        cur_sumname = some (stamped o.basename ".sum" tm);
      })
      else none

-- With `-w` or without it.
pub data Handler : Type 0 where
  decode : Handler
  dump : Handler

abbrev pub nfsdump_program : Outside → System → Handler → Program
nfsdump_program out sys decode = record {
  printer = packet_printer out;
  summary = print_summary sys;
}
nfsdump_program out sys dump = record { printer = dump_packet; summary = print_summary sys }

abbrev pub file_of : Option FileName → Option Quick
file_of none = none
file_of (some name) = some (to_file name)

module _ (sys : System) (prog : Program) where
  -- The first half of `updateOutFile`.
  unfoldable pub close_out : Out → State → Option State
  close_out temporary c =
      rename_log sys c.cur_logname c
      >>= (λ c'. some (forget_names (prog.summary (file_of c.cur_sumname) c')))
  close_out standard c = some c
  close_out null c = some c

  unfoldable pub update_out_file : Options → (clock : ℕ) → State → Option State
  unfolding close_out open_out
  update_out_file o clock c = close_out c.out c >>= open_out sys o clock
