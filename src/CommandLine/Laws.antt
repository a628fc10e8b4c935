-- ===== src/CommandLine/Laws.antt =====
-- What holds of the variables that the options set.
use nfsdump.CommandLine.{
  Number, Libc, Given, Settings, unset, Case, count, filter_file, interface, iterations, minutes,
  tmp_name, base_name, line_buffer, lifetime, mib_module, no_optimizer, no_promiscuous,
  quick_summary, read_file, no_readdir, snap_length, no_time, undecoded, verbose, write_file,
  otherwise, case_of, set_snaplen, run_case, parse,
}
use nfsdump.Prelude.{
  ℕ, ◌-◌, ◌*◌, ◌%◌, ◌^◌, ◌≤◌, ◌<◌, ◌≡◌, ◌≢◌, ◌⊎◌, String, List, [], ◌∷◌, u32_mod, arith,
}
use nfsdump.Support.{Outcome, goes, exits, ◌>>=◌}

-- The variables after the options: a number of packets is -1 or positive, an interval has seconds,
-- there are intervals, and the length of a packet is one that libpcap takes.
pub record IsUsable (s : Settings) : Type 0 where
  pub packets : (s.cnt ≡ unset) ⊎ ((0 < s.cnt) × (s.cnt < 2 ^ 31))
  pub seconds : 0 < s.interval.secs
  pub intervals : 0 < s.interval.iters
  pub length : (0 < s.snaplen) × (s.snaplen ≤ 65535)

abbrev pub OfOutcome {ℓ κ} : {A : Type ℓ} → (A → Type κ) → Outcome A → Type κ
OfOutcome P (goes a) = P a
OfOutcome P (exits code text) = Unit

abbrev pub Goes {ℓ} : {A : Type ℓ} → Outcome A → Type 0
Goes (goes a) = Unit {0}
Goes (exits code text) = ⊥

pub OfOutcome-bind {ℓ κ μ ν} :
    {A : Type ℓ} {B : Type κ} (P : A → Type μ) (Q : B → Type ν) (m : Outcome A) (f : A → Outcome B)
    → OfOutcome P m
    → ((a : A) → P a → OfOutcome Q (f a))
    → OfOutcome Q (m >>= f)
OfOutcome-bind P Q (goes a) f p g = g a p
OfOutcome-bind P Q (exits code text) f p g = tt

pub OfOutcome-map {ℓ κ μ} :
    {A : Type ℓ} (P : A → Type κ) (Q : A → Type μ) (m : Outcome A)
    → ((a : A) → P a → Q a)
    → OfOutcome P m
    → OfOutcome Q m
OfOutcome-map P Q (goes a) f p = f a p
OfOutcome-map P Q (exits code text) f p = tt

module _ (program_name version pcap_version : String) (libc : Libc) where
  set_snaplen-IsUsable :
      (optarg : String) (n : Number) (s : Settings)
      → IsUsable s
      → OfOutcome IsUsable (set_snaplen program_name version pcap_version libc optarg n s)
  unfolding set_snaplen
  set_snaplen-IsUsable optarg n s u = ground arith

  run_case-IsUsable :
      (k : Case) (optarg : String) (now : ℕ) (s : Settings)
      → IsUsable s
      → OfOutcome IsUsable (run_case program_name version pcap_version libc k optarg now s)
  unfolding run_case
  run_case-IsUsable count optarg now s u = ground arith
  run_case-IsUsable filter_file optarg now s u = ground arith
  run_case-IsUsable interface optarg now s u = ground arith
  run_case-IsUsable iterations optarg now s u = ground arith
  run_case-IsUsable minutes optarg now s u = ground arith
  run_case-IsUsable tmp_name optarg now s u = ground arith
  run_case-IsUsable base_name optarg now s u = ground arith
  run_case-IsUsable line_buffer optarg now s u = ground arith
  run_case-IsUsable lifetime optarg now s u = ground arith
  run_case-IsUsable mib_module optarg now s u = ground arith
  run_case-IsUsable no_optimizer optarg now s u = ground arith
  run_case-IsUsable no_promiscuous optarg now s u = ground arith
  run_case-IsUsable quick_summary optarg now s u = ground arith
  run_case-IsUsable read_file optarg now s u = ground arith
  run_case-IsUsable no_readdir optarg now s u = ground arith
  run_case-IsUsable snap_length optarg now s u =
      set_snaplen-IsUsable optarg (libc.strtol optarg) s u
  run_case-IsUsable no_time optarg now s u = ground arith
  run_case-IsUsable undecoded optarg now s u = ground arith
  run_case-IsUsable verbose optarg now s u = ground arith
  run_case-IsUsable write_file optarg now s u = ground arith
  run_case-IsUsable otherwise optarg now s u = tt

  -- Whatever the options are, the variables that they leave are usable: no number of packets, or a
  -- positive one, intervals of a second at least, one interval at least, and a length of packets from 1
  -- to 65535.
  pub parse-IsUsable :
      (gs : List Given) (s : Settings)
      → IsUsable s
      → OfOutcome IsUsable (parse program_name version pcap_version libc gs s)
  unfolding parse
  parse-IsUsable [] s u = u
  parse-IsUsable (g ∷ gs) s u =
      OfOutcome-bind IsUsable IsUsable
        (run_case program_name version pcap_version libc (case_of g.op) g.optarg g.now s)
        (parse program_name version pcap_version libc gs)
        (run_case-IsUsable (case_of g.op) g.optarg g.now s u) (λ s' u'. parse-IsUsable gs s' u')

  -- A negative number of minutes, of less than 2 ^ 32 seconds, is taken for a length of the interval
  -- that is no whole number of minutes.
  minutes_negative :
      (optarg : String) (now k : ℕ) (s : Settings)
      → libc.atoi optarg ≡ 2 ^ 32 - k
      → 0 < k
      → 60 * k < 2 ^ 32
      → OfOutcome
          (λ s'. (s'.interval.secs ≡ 2 ^ 32 - 60 * k) × (s'.interval.secs % 60 ≢ 0))
          (run_case program_name version pcap_version libc minutes optarg now s)
        × Goes (run_case program_name version pcap_version libc minutes optarg now s)
  unfolding run_case
  minutes_negative optarg now k s negative some_ small =
      let secs : 60 * libc.atoi optarg % u32_mod ≡ 2 ^ 32 - 60 * k = omega arith in
      rw secs (ground arith)
