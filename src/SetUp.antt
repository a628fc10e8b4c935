-- ===== src/SetUp.antt =====
-- The set-up of the capture by `main` of nfsdump2/nfsdump.c and nfsdump2/iphdump.c, between the
-- options and the loop: the source of the packets, the filter and the printer. What libpcap answers is
-- a parameter.
pub mod Laws
pub mod Start
use nfsdump.Capture.{Handler, decode, dump}
use nfsdump.CommandLine.{Settings}
use nfsdump.Prelude.{
  ℕ, String, Bool, true, false, ◌&&◌, ◌||◌, Option, none, some, List, [], ◌∷◌, ◌++◌, ltb, ◌==◌,
  if◌then◌else◌,
}
use nfsdump.Print.{Item, lit, dec, int}
use nfsdump.Support.{Outcome, goes, exits, ◌>>=◌, InFile, error, warning, read_infile, copy_argv}

-- Whether the calls of libpcap succeed, and what they give; `ebuf` is the text of a failure. The
-- numbers of DLT_EN10MB and DLT_IEEE802 are libpcap's.
pub record Pcap : Type 0 where
  pub open_offline : String → Bool
  pub lookupdev : Option String
  pub open_live : (device : String) → (snaplen : ℕ) → (promisc : Bool) → Bool
  pub snapshot : ℕ
  pub lookupnet : (device : String) → Bool
  pub compile : Option (List ℕ) → (optimize : ℕ) → Bool
  pub setfilter : Bool
  pub dump_open : String → Bool
  pub datalink : ℕ
  pub en10mb : ℕ
  pub ieee802 : ℕ
  pub ebuf : String

-- What else the set-up asks the system for.
pub record Files : Type 0 where
  pub file : String → InFile
  pub malloc : ℕ → Bool
  pub strerror : String

-- The source: a trace, or an interface.
pub data Source : Type 0 where
  offline : String → Source
  live : (device : String) → Source

-- The capture is ready: `snaplen` and the error output are those of the set-up's end.
pub record Ready : Type 0 where
  pub source : Source
  pub filter : Option (List ℕ)
  pub handler : Handler
  pub snaplen : ℕ
  pub stderr : List Item

module _ (program_name : String) (pcap : Pcap) (files : Files) where
  -- `device`, by `pcap_lookupdev` if no option gives it.
  abbrev pub chosen_device : Option String → Option String → Outcome String
  chosen_device (some device) found = goes device
  chosen_device none (some device) = goes device
  chosen_device none none = error program_name (lit pcap.ebuf ∷ [])

  abbrev pub ready_live : (device : String) → Settings → Ready
  ready_live device s = record {
    source = live device;
    filter = none;
    handler = decode;
    snaplen = if ltb s.snaplen pcap.snapshot then pcap.snapshot else s.snaplen;
    stderr =
        s.stderr
        ++ ((if ltb s.snaplen pcap.snapshot
              then warning program_name
                  (lit "snaplen raised from " ∷ int s.snaplen ∷ lit " to " ∷ int pcap.snapshot ∷ [])
              else [])
            ++ (if pcap.lookupnet device then [] else warning program_name (lit pcap.ebuf ∷ [])));
  }

  -- `pcap_open_live`, in promiscuous mode unless `-p` is given.
  unfoldable pub open_interface : Settings → (device : String) → Outcome Ready
  open_interface s device =
      if pcap.open_live device s.snaplen (s.pflag == 0)
      then goes (ready_live device s)
      else error program_name (lit pcap.ebuf ∷ [])

  abbrev pub open_source : Option String → Settings → Outcome Ready
  open_source (some file) s =
      if pcap.open_offline file
      then goes (record {
        source = offline file;
        filter = none;
        handler = decode;
        snaplen = s.snaplen;
        stderr = s.stderr;
      })
      else error program_name (lit pcap.ebuf ∷ [])
  open_source none s = chosen_device s.device pcap.lookupdev >>= open_interface s

  -- `cmdbuf`, from the file of `-F` or the rest of the arguments.
  abbrev pub filter_text : Option String → (rest : List (List ℕ)) → Outcome (Option (List ℕ))
  filter_text (some name) rest =
      read_infile program_name files.strerror name (files.file name)
      >>= (λ bytes. goes (some bytes))
  filter_text none rest = copy_argv program_name files.strerror files.malloc rest

  unfoldable pub set_filter : Settings → (rest : List (List ℕ)) → Ready → Outcome Ready
  unfolding read_infile copy_argv
  set_filter s rest r = filter_text s.infile rest >>= (λ cmdbuf.
      if pcap.compile cmdbuf s.oflag && pcap.setfilter
      then goes (record r { filter = cmdbuf })
      else error program_name (lit pcap.ebuf ∷ []))

  -- The search of `lookup_printer` in the types of `printers`.
  unfoldable pub has_printer : (types : List ℕ) → (type : ℕ) → Bool
  has_printer [] type = false
  has_printer (t ∷ ts) type = type == t || has_printer ts type

  unfoldable pub lookup_printer : (type : ℕ) → Outcome Handler
  unfolding has_printer
  lookup_printer type =
      if has_printer (pcap.en10mb ∷ pcap.ieee802 ∷ []) type
      then goes decode
      else error program_name (lit "unknown data link type " ∷ int type ∷ [])

  -- The printer: `pcap_dump` with `-w`, for any type of link.
  abbrev pub choose_printer : Option String → Outcome Handler
  choose_printer (some file) =
      if pcap.dump_open file then goes dump else error program_name (lit pcap.ebuf ∷ [])
  choose_printer none = lookup_printer pcap.datalink

  abbrev pub listening : Source → List Item
  listening (offline file) = []
  listening (live device) = lit program_name ∷ lit ": listening on " ∷ lit device ∷ lit "\n" ∷ []

  unfoldable pub set_up : Settings → (rest : List (List ℕ)) → Outcome Ready
  unfolding open_interface set_filter lookup_printer
  set_up s rest = open_source s.r_file_name s >>= (λ opened.
      set_filter s rest opened >>= (λ filtered. choose_printer s.w_file_name >>= (λ handler.
        goes (record filtered {
          handler = handler;
          stderr = filtered.stderr ++ listening filtered.source;
        }))))

-- What `pcap_stats` tells.
pub record PcapStat : Type 0 where
  pub recv : ℕ
  pub drop : ℕ

abbrev pub stat_lines : (geterr : String) → (signo : ℕ) → Option PcapStat → List Item
stat_lines geterr signo none = lit "pcap_stats: " ∷ lit geterr ∷ lit "\n" ∷ []
stat_lines geterr signo (some stat) =
    int stat.recv
    ∷ lit " packets received by filter\n"
    ∷ int stat.drop
    ∷ lit " packets dropped by kernel\n"
    ∷ lit "stopped by signal "
    ∷ dec signo
    ∷ lit "\n"
    ∷ []

-- The handler of the signals, `cleanup`: no summary of a trace that is read.
unfoldable pub cleanup {ℓ} :
    {A : Type ℓ} (geterr : String) (stat : Option PcapStat) (source : Option Source) (signo : ℕ)
    → Outcome A
cleanup geterr stat none signo = exits 0 []
cleanup geterr stat (some (offline file)) signo = exits 0 []
cleanup geterr stat (some (live device)) signo = exits 0 (lit "\n" ∷ stat_lines geterr signo stat)
