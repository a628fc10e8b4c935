-- ===== src/CommandLine.antt =====
-- The command line of nfsdump2/nfsdump.c and nfsdump2/iphdump.c: the loop of `main` over the options,
-- and the variables that it sets. What `getopt` gives, and what the C library reads of an argument,
-- are parameters; an `int` or a `long` is given by its 32-bit pattern.
pub mod Accepts
pub mod Laws
use nfsdump.Prelude.{
  ℕ, ◌+◌, ◌-◌, ◌*◌, ◌&&◌, ◌%◌, ◌^◌, String, Bool, true, false, ◌||◌, not, Option, none, some, List,
  [], ◌∷◌, ◌++◌, ltb, leb, ◌==◌, if◌then◌else◌, add32, sub32, u32_mod,
}
use nfsdump.Print.{Item, lit, int}
use nfsdump.Stats.Report.{is_negative}
use nfsdump.Support.{Outcome, goes, exits, ◌>>=◌, error}

-- What `strtol` finds: the number, whether `end` has moved, and whether it is at the end.
pub record Number : Type 0 where
  pub value : ℕ
  pub moved : Bool
  pub at_end : Bool

pub record Libc : Type 0 where
  pub atoi : String → ℕ
  pub atol : String → ℕ
  pub strtol : String → Number

-- An option that `getopt` gives, with what `gettimeofday` would tell at that time.
pub record Given : Type 0 where
  pub op : ℕ
  pub optarg : String
  pub now : ℕ

-- `intervalDesc_t`, as far as the options set it.
pub record Interval : Type 0 where
  pub active : Bool
  pub secs : ℕ
  pub iters : ℕ
  pub basename : String
  pub tmpname : String

-- The variables of the options, and what was written on the standard output and the error output.
pub record Settings : Type 0 where
  pub cnt : ℕ
  pub infile : Option String
  pub device : Option String
  pub interval : Interval
  pub end_of_life : ℕ
  pub line_buffered : Bool
  pub oflag : ℕ
  pub pflag : ℕ
  pub quick_summary_file : Option String
  pub r_file_name : Option String
  pub omit_readdir_contents : Bool
  pub snaplen : ℕ
  pub tflag : ℕ
  pub uflag : ℕ
  pub vflag : ℕ
  pub w_file_name : Option String
  pub stdout : List Item
  pub stderr : List Item

abbrev pub unset : ℕ
unset = 2 ^ 32 - 1

abbrev pub initial_settings : Settings
initial_settings = record {
  cnt = unset;
  infile = none;
  device = none;
  interval = record {
    active = false;
    secs = 120;
    iters = 1;
    basename = "output";
    tmpname = "TEMP-LOG";
  };
  end_of_life = unset;
  line_buffered = false;
  oflag = 1;
  pflag = 0;
  quick_summary_file = none;
  r_file_name = none;
  omit_readdir_contents = false;
  snaplen = 1500;
  tflag = 1;
  uflag = 0;
  vflag = 0;
  w_file_name = none;
  stdout = [];
  stderr = [];
}

-- The labels of the `switch`.
pub data Case : Type 0 where
  count : Case
  filter_file : Case
  interface : Case
  iterations : Case
  minutes : Case
  tmp_name : Case
  base_name : Case
  line_buffer : Case
  lifetime : Case
  mib_module : Case
  no_optimizer : Case
  no_promiscuous : Case
  quick_summary : Case
  read_file : Case
  no_readdir : Case
  snap_length : Case
  no_time : Case
  undecoded : Case
  verbose : Case
  write_file : Case
  otherwise : Case

unfoldable pub case_of : (op : ℕ) → Case
case_of op =
    if op == b'c'
    then count
    else if op == b'F'
    then filter_file
    else if op == b'i'
    then interface
    else if op == b'N'
    then iterations
    else if op == b'I'
    then minutes
    else if op == b'T'
    then tmp_name
    else if op == b'B'
    then base_name
    else if op == b'l'
    then line_buffer
    else if op == b'L'
    then lifetime
    else if op == b'm'
    then mib_module
    else if op == b'O'
    then no_optimizer
    else if op == b'p'
    then no_promiscuous
    else if op == b'q'
    then quick_summary
    else if op == b'r'
    then read_file
    else if op == b'R'
    then no_readdir
    else if op == b's'
    then snap_length
    else if op == b't'
    then no_time
    else if op == b'u'
    then undecoded
    else if op == b'v'
    then verbose
    else if op == b'w'
    then write_file
    else otherwise

-- Not `x <= 0`, of an `int`.
abbrev pub is_positive : ℕ → Bool
is_positive x = ltb 0 x && ltb x (2 ^ 31)

abbrev pub activate : Settings → Interval → Settings
activate s i = record s { interval = record i { active = true } }

module _ (program_name version pcap_version : String) where
  abbrev pub usage {ℓ} : {A : Type ℓ} → Outcome A
  usage = exits 255 (
      lit program_name
      ∷ lit " version "
      ∷ lit version
      ∷ lit "\nlibpcap version "
      ∷ lit pcap_version
      ∷ lit "\nUsage: "
      ∷ lit program_name
      ∷ lit " [-lnOptuv] [-c count] [ -F file ]\n"
      ∷ lit "\t\t[ -i interface ] [ -r file ] [ -s snaplen ]\n"
      ∷ lit "\t\t[ -w file ] [ expression ]\n"
      ∷ [])

  module _ (libc : Libc) where
    -- The check of `-s`.
    unfoldable pub set_snaplen : (optarg : String) → Number → Settings → Outcome Settings
    set_snaplen optarg n s =
        if not n.moved || (not n.at_end || (is_negative n.value || ltb 65535 n.value))
        then error program_name (lit "invalid snaplen " ∷ lit optarg ∷ [])
        else goes (record s { snaplen = if n.value == 0 then 65535 else n.value })

    -- A `case` of the `switch`, up to its `break`; that of `-m` has none, and goes on with that of
    -- `-O`.
    unfoldable pub run_case : Case → (optarg : String) → (now : ℕ) → Settings → Outcome Settings
    unfolding set_snaplen
    run_case count optarg now s =
        if is_positive (libc.atoi optarg)
        then goes (record s { cnt = libc.atoi optarg })
        else error program_name (lit "invalid packet count " ∷ lit optarg ∷ [])
    run_case filter_file optarg now s = goes (record s { infile = some optarg })
    run_case interface optarg now s = goes (record s { device = some optarg })
    run_case iterations optarg now s =
        if libc.atoi optarg == 0
        then exits 1 (lit "Iterations must be > 0.\n" ∷ [])
        else goes (activate s (record s.interval { iters = libc.atoi optarg }))
    run_case minutes optarg now s =
        let secs = 60 * libc.atoi optarg % u32_mod in
        if secs == 0
        then exits 1 (lit "Interval minutes must be > 0.\n" ∷ [])
        else goes (activate s (record s.interval { secs = secs }))
    run_case tmp_name optarg now s = goes (activate s (record s.interval { tmpname = optarg }))
    run_case base_name optarg now s = goes (activate s (record s.interval { basename = optarg }))
    run_case line_buffer optarg now s = goes (record s { line_buffered = true })
    run_case lifetime optarg now s =
        let end = add32 now (libc.atol optarg) in
        goes (record s {
          end_of_life = end;
          stdout = s.stdout ++ lit "now = " ∷ int now ∷ lit ", eol = " ∷ int end ∷ lit "\n" ∷ [];
        })
    run_case mib_module optarg now s = goes (record s {
      oflag = 0;
      stderr =
          s.stderr
          ++ lit program_name
            ∷ lit ": ignoring option `-m "
            ∷ lit optarg
            ∷ lit "' (no libsmi support)\n"
            ∷ [];
    })
    run_case no_optimizer optarg now s = goes (record s { oflag = 0 })
    run_case no_promiscuous optarg now s = goes (record s { pflag = add32 s.pflag 1 })
    run_case quick_summary optarg now s = goes (record s { quick_summary_file = some optarg })
    run_case read_file optarg now s = goes (record s { r_file_name = some optarg })
    run_case no_readdir optarg now s = goes (record s { omit_readdir_contents = true })
    run_case snap_length optarg now s = set_snaplen optarg (libc.strtol optarg) s
    run_case no_time optarg now s = goes (record s { tflag = sub32 s.tflag 1 })
    run_case undecoded optarg now s = goes (record s { uflag = add32 s.uflag 1 })
    run_case verbose optarg now s = goes (record s { vflag = add32 s.vflag 1 })
    run_case write_file optarg now s = goes (record s { w_file_name = some optarg })
    run_case otherwise optarg now s = usage

    unfoldable pub parse : List Given → Settings → Outcome Settings
    unfolding case_of run_case
    parse [] s = goes s
    parse (g ∷ gs) s = run_case (case_of g.op) g.optarg g.now s >>= parse gs
