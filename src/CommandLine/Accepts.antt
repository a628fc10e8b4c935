-- ===== src/CommandLine/Accepts.antt =====
-- Which command lines are accepted, and which of them make files for intervals.
use nfsdump.CommandLine.{
  Number, Libc, Given, Settings, Case, count, filter_file, interface, iterations, minutes, tmp_name,
  base_name, line_buffer, lifetime, mib_module, no_optimizer, no_promiscuous, quick_summary,
  read_file, no_readdir, snap_length, no_time, undecoded, verbose, write_file, otherwise, case_of,
  set_snaplen, run_case, parse,
}
use nfsdump.CommandLine.Laws.{OfOutcome, Goes, OfOutcome-bind, OfOutcome-map}
use nfsdump.Prelude.{
  ℕ, ◌*◌, ◌%◌, ◌^◌, ◌≤◌, ◌<◌, ◌≡◌, ◌≢◌, ◌↔◌, inl, inr, String, Bool, true, false, ◌||◌, Bool-cases,
  List, [], ◌∷◌, All, arith,
}
use nfsdump.Support.{Outcome, goes, exits, ◌>>=◌}

module _ (program_name version pcap_version : String) (libc : Libc) where
  -- An argument that its option takes.
  abbrev pub IsAcceptable : Case → (optarg : String) → Type 0
  IsAcceptable count optarg = (0 < libc.atoi optarg) × (libc.atoi optarg < 2 ^ 31)
  IsAcceptable iterations optarg = libc.atoi optarg ≢ 0
  IsAcceptable minutes optarg = 60 * libc.atoi optarg % 2 ^ 32 ≢ 0
  IsAcceptable snap_length optarg =
      ((libc.strtol optarg).moved ≡ true)
      × ((libc.strtol optarg).at_end ≡ true)
      × ((libc.strtol optarg).value ≤ 65535)
  IsAcceptable otherwise optarg = ⊥
  IsAcceptable _ optarg = Unit {0}

  set_snaplen-accepts :
      (optarg : String) (s : Settings)
      → Goes (set_snaplen program_name version pcap_version libc optarg (libc.strtol optarg) s)
        ↔ IsAcceptable snap_length optarg
  unfolding set_snaplen
  set_snaplen-accepts optarg s = elim (Bool-cases (libc.strtol optarg).moved) [
    | inl moved ↦ elim (Bool-cases (libc.strtol optarg).at_end) [
      | inl at_end ↦ ground arith
      | inr more ↦ ground arith
    ]
    | inr empty ↦ ground arith
  ]

  run_case-accepts :
      (k : Case) (optarg : String) (now : ℕ) (s : Settings)
      → Goes (run_case program_name version pcap_version libc k optarg now s)
        ↔ IsAcceptable k optarg
  unfolding run_case
  run_case-accepts count optarg now s = ground arith
  run_case-accepts filter_file optarg now s = ground arith
  run_case-accepts interface optarg now s = ground arith
  run_case-accepts iterations optarg now s = ground arith
  run_case-accepts minutes optarg now s = ground arith
  run_case-accepts tmp_name optarg now s = ground arith
  run_case-accepts base_name optarg now s = ground arith
  run_case-accepts line_buffer optarg now s = ground arith
  run_case-accepts lifetime optarg now s = ground arith
  run_case-accepts mib_module optarg now s = ground arith
  run_case-accepts no_optimizer optarg now s = ground arith
  run_case-accepts no_promiscuous optarg now s = ground arith
  run_case-accepts quick_summary optarg now s = ground arith
  run_case-accepts read_file optarg now s = ground arith
  run_case-accepts no_readdir optarg now s = ground arith
  run_case-accepts snap_length optarg now s = set_snaplen-accepts optarg s
  run_case-accepts no_time optarg now s = ground arith
  run_case-accepts undecoded optarg now s = ground arith
  run_case-accepts verbose optarg now s = ground arith
  run_case-accepts write_file optarg now s = ground arith
  run_case-accepts otherwise optarg now s = ground arith

  -- A chain goes on just where its step does, and what comes then.
  chain-accepts :
      (P Q : Type 0) (m : Outcome Settings) (f : Settings → Outcome Settings)
      → (Goes m ↔ P)
      → ((s : Settings) → Goes (f s) ↔ Q)
      → Goes (m >>= f) ↔ (P × Q)
  chain-accepts P Q (goes s) f first then_ =
      (λ g. (first.0 tt, (then_ s).0 g), λ (p, q). (then_ s).1 q)
  chain-accepts P Q (exits code text) f first then_ = (λ g. elim g [ ], λ (p, q). first.1 p)

  -- The options are accepted exactly when each is one of the `switch` and takes its argument: a
  -- positive number of packets, intervals that are not 0, minutes whose seconds are not a multiple
  -- of 2 ^ 32, or a length of at most 65535 with nothing after it. Else the process exits.
  pub parse-accepts :
      (gs : List Given) (s : Settings)
      → Goes (parse program_name version pcap_version libc gs s)
        ↔ All (λ g. IsAcceptable (case_of g.op) g.optarg) gs
  unfolding parse
  parse-accepts [] s = (λ g. tt, λ a. tt)
  parse-accepts (g ∷ gs) s =
      chain-accepts (IsAcceptable (case_of g.op) g.optarg)
        (All (λ h. IsAcceptable (case_of h.op) h.optarg) gs) _ _
        (run_case-accepts (case_of g.op) g.optarg g.now s) (λ s'. parse-accepts gs s')

  -- An option on intervals.
  abbrev is_interval : Case → Bool
  is_interval iterations = true
  is_interval minutes = true
  is_interval tmp_name = true
  is_interval base_name = true
  is_interval _ = false

  abbrev any_interval : List Given → Bool
  any_interval [] = false
  any_interval (g ∷ gs) = is_interval (case_of g.op) || any_interval gs

  set_snaplen-active :
      (optarg : String) (n : Number) (s : Settings)
      → OfOutcome
          (λ s'. s'.interval.active ≡ s.interval.active)
          (set_snaplen program_name version pcap_version libc optarg n s)
  unfolding set_snaplen
  set_snaplen-active optarg n s = ground arith

  run_case-active :
      (k : Case) (optarg : String) (now : ℕ) (s : Settings)
      → OfOutcome
          (λ s'. s'.interval.active ≡ (s.interval.active || is_interval k))
          (run_case program_name version pcap_version libc k optarg now s)
  unfolding run_case
  run_case-active count optarg now s = ground arith
  run_case-active filter_file optarg now s = ground arith
  run_case-active interface optarg now s = ground arith
  run_case-active iterations optarg now s = ground arith
  run_case-active minutes optarg now s = ground arith
  run_case-active tmp_name optarg now s = ground arith
  run_case-active base_name optarg now s = ground arith
  run_case-active line_buffer optarg now s = ground arith
  run_case-active lifetime optarg now s = ground arith
  run_case-active mib_module optarg now s = ground arith
  run_case-active no_optimizer optarg now s = ground arith
  run_case-active no_promiscuous optarg now s = ground arith
  run_case-active quick_summary optarg now s = ground arith
  run_case-active read_file optarg now s = ground arith
  run_case-active no_readdir optarg now s = ground arith
  run_case-active snap_length optarg now s =
      let same = set_snaplen-active optarg (libc.strtol optarg) s in
      OfOutcome-map _ _
        (set_snaplen program_name version pcap_version libc optarg (libc.strtol optarg) s)
        (λ s' e. ground arith) same
  run_case-active no_time optarg now s = ground arith
  run_case-active undecoded optarg now s = ground arith
  run_case-active verbose optarg now s = ground arith
  run_case-active write_file optarg now s = ground arith
  run_case-active otherwise optarg now s = tt

  -- After options that are accepted files are made for intervals exactly when they were before or an
  -- option on intervals is given, be it only the name of a file.
  parse-active :
      (gs : List Given) (s : Settings)
      → OfOutcome
          (λ s'. s'.interval.active ≡ (s.interval.active || any_interval gs))
          (parse program_name version pcap_version libc gs s)
  unfolding parse
  parse-active [] s = ground arith
  parse-active (g ∷ gs) s =
      OfOutcome-bind (λ s'. s'.interval.active ≡ (s.interval.active || is_interval (case_of g.op)))
        _ (run_case program_name version pcap_version libc (case_of g.op) g.optarg g.now s)
        (parse program_name version pcap_version libc gs)
        (run_case-active (case_of g.op) g.optarg g.now s)
        (λ s' e.
          OfOutcome-map _ _ (parse program_name version pcap_version libc gs s')
            (λ s'' e'. ground arith) (parse-active gs s'))
