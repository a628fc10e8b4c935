-- ===== src/SetUp/Laws.antt =====
-- What holds when the set-up has gone through.
use mathlib.Core.Path.{subst}
use nfsdump.Capture.{Handler, decode, dump}
use nfsdump.CommandLine.Laws.{OfOutcome, OfOutcome-bind}
use nfsdump.CommandLine.{Settings}
use nfsdump.Prelude.{
  ℕ, ◌≤◌, ◌≡◌, ◌≢◌, ◌⊎◌, refl, sym, ◌&&◌, inl, inr, String, Bool-cases, Option, none, some, List,
  ◌==◌, ==→eq, arith,
}
use nfsdump.SetUp.{
  Pcap, Files, Source, offline, live, Ready, chosen_device, open_interface, open_source,
  filter_text, set_filter, has_printer, lookup_printer, choose_printer, set_up,
}
use nfsdump.Support.{Outcome, goes, exits}

-- The source is the trace that the options name, or an interface.
abbrev IsFrom : (r_file_name : Option String) → Source → Type 0
IsFrom none (offline file) = ⊥
IsFrom none (live device) = Unit {0}
IsFrom (some name) (offline file) = name ≡ file
IsFrom (some name) (live device) = ⊥

abbrev handler_of : (w_file_name : Option String) → Handler
handler_of none = decode
handler_of (some file) = dump

some-ne-none : (file : String) → some file ≢ none
some-ne-none file e = cc

any-OfOutcome {ℓ} : {A : Type ℓ} (m : Outcome A) → OfOutcome (λ a. Unit {0}) m
any-OfOutcome (goes a) = tt
any-OfOutcome (exits code text) = tt

module _ (program_name : String) (pcap : Pcap) (files : Files) where
  -- Any type of link can be dumped, and two can be decoded.
  abbrev Readable : (w_file_name : Option String) → Type 0
  Readable file = (file ≢ none) ⊎ (pcap.datalink ≡ pcap.en10mb) ⊎ (pcap.datalink ≡ pcap.ieee802)

  -- The packets come from where the options say, are at least as long as they say, go to the file of
  -- `-w` if there is one, and are else of a type of link that the decoder reads.
  pub record IsReady (s : Settings) (r : Ready) : Type 0 where
    pub from : IsFrom s.r_file_name r.source
    pub long : s.snaplen ≤ r.snaplen
    handled : r.handler ≡ handler_of s.w_file_name
    readable : Readable s.w_file_name

  open_interface-live :
      (s : Settings) (device : String)
      → OfOutcome
          (λ r. IsFrom none r.source × (s.snaplen ≤ r.snaplen))
          (open_interface program_name pcap files s device)
  unfolding open_interface
  open_interface-live s device = ground arith

  open_source-IsOpened :
      (file : Option String) (s : Settings)
      → OfOutcome
          (λ r. IsFrom file r.source × (s.snaplen ≤ r.snaplen))
          (open_source program_name pcap files file s)
  open_source-IsOpened (some file) s = elim (Bool-cases (pcap.open_offline file)) [
    | inl opens ↦ rw opens (refl, omega arith)
    | inr shut ↦ rw shut tt
  ]
  open_source-IsOpened none s =
      OfOutcome-bind (λ device. Unit {0}) _
        (chosen_device program_name pcap files s.device pcap.lookupdev)
        (open_interface program_name pcap files s) (any-OfOutcome _)
        (λ device any. open_interface-live s device)

  set_filter-keeps :
      (s : Settings) (rest : List (List ℕ)) (opened : Ready)
      → OfOutcome
          (λ r. (r.source ≡ opened.source) × (r.snaplen ≡ opened.snaplen))
          (set_filter program_name pcap files s rest opened)
  unfolding set_filter
  set_filter-keeps s rest opened =
      OfOutcome-bind (λ text. Unit {0}) _ (filter_text program_name pcap files s.infile rest) _
        (any-OfOutcome _)
        (λ cmdbuf any. elim (Bool-cases (pcap.compile cmdbuf s.oflag && pcap.setfilter)) [
          | inl filters ↦ rw filters (refl, refl)
          | inr fails ↦ rw fails tt
        ])

  choose_printer-handles :
      (file : Option String)
      → OfOutcome
          (λ h. (h ≡ handler_of file) × Readable file)
          (choose_printer program_name pcap files file)
  unfolding lookup_printer has_printer
  choose_printer-handles (some file) = elim (Bool-cases (pcap.dump_open file)) [
    | inl opens ↦ rw opens (refl, inl (some-ne-none file))
    | inr shut ↦ rw shut tt
  ]
  choose_printer-handles none = elim (Bool-cases (pcap.datalink == pcap.en10mb)) [
    | inl ethernet ↦
        let found = ==→eq pcap.datalink pcap.en10mb ethernet in
        let readable : Readable none = inr (inl found) in rw ethernet (refl, readable)
    | inr other ↦ elim (Bool-cases (pcap.datalink == pcap.ieee802)) [
      | inl token_ring ↦
          let found = ==→eq pcap.datalink pcap.ieee802 token_ring in
          let readable : Readable none = inr (inr found) in rw (other, token_ring) (refl, readable)
      | inr unknown ↦ rw (other, unknown) tt
    ]
  ]

  -- Where the set-up goes through, the packets come from the trace of `-r` if it is given and else from
  -- an interface, the captured length is at least that of the options, and the packets are dumped
  -- exactly if `-w` is given; else the type of the link is one of the two that have a printer.
  pub set_up-IsReady :
      (s : Settings) (rest : List (List ℕ))
      → OfOutcome (IsReady s) (set_up program_name pcap files s rest)
  unfolding set_up
  set_up-IsReady s rest =
      OfOutcome-bind (λ r. IsFrom s.r_file_name r.source × (s.snaplen ≤ r.snaplen)) (IsReady s)
        (open_source program_name pcap files s.r_file_name s) _
        (open_source-IsOpened s.r_file_name s)
        (λ opened (from, long).
          OfOutcome-bind (λ r. (r.source ≡ opened.source) × (r.snaplen ≡ opened.snaplen))
            (IsReady s) (set_filter program_name pcap files s rest opened) _
            (set_filter-keeps s rest opened)
            (λ filtered (same, as_long).
              OfOutcome-bind _ (IsReady s) (choose_printer program_name pcap files s.w_file_name) _
                (choose_printer-handles s.w_file_name)
                (λ handler (handled, readable). record {
                  from = subst (IsFrom s.r_file_name) (sym same) from;
                  long = rw as_long long;
                  handled = handled;
                  readable = readable;
                })))
