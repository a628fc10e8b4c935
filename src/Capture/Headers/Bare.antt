-- ===== src/Capture/Headers/Bare.antt =====
-- The logs of nfsdump2/iphdump.c have no text, and the files of its summaries stay open.
use nfsdump.Capture.Counts.{IsSome, IsSome-bind, logs, logs-append}
use nfsdump.Capture.Headers.{header_printer, open_summary, header_program, traced_text}
use nfsdump.Capture.Keeps.{IsSafe, OfBatch, capture-keeps}
use nfsdump.Capture.Loop.{capture}
use nfsdump.Capture.{
  FileName, Out, null, standard, temporary, Effect, logged, summed, shown, reported, dumped,
  left_open, State, Packet, Tick, System, Options, decode, to_file, file_of, forget_names, effect,
  rename_log, close_out, open_out, update_out_file,
}
use nfsdump.IpTrace.{trace_packet}
use nfsdump.Prelude.{
  ℕ, ◌+◌, ◌-◌, ◌%◌, ◌≡◌, refl, sym, ap, ◌∙◌, true, inl, inr, Bool-cases, Option, none, some, ◌>>=◌,
  List, [], ◌∷◌, ◌++◌, append_assoc, append-nil, All, arith,
}
use nfsdump.Print.{Item}

-- The text of the logs.
unfoldable pub log_text : List Effect → List Item
log_text [] = []
log_text (logged name text ∷ es) = text ++ log_text es
log_text (summed name text ∷ es) = log_text es
log_text (shown text ∷ es) = log_text es
log_text (reported text ∷ es) = log_text es
log_text (dumped p ∷ es) = log_text es
log_text (left_open name ∷ es) = log_text es

-- How many files stay open.
unfoldable pub leaks : List Effect → ℕ
leaks [] = 0
leaks (logged name text ∷ es) = leaks es
leaks (summed name text ∷ es) = leaks es
leaks (shown text ∷ es) = leaks es
leaks (reported text ∷ es) = leaks es
leaks (dumped p ∷ es) = leaks es
leaks (left_open name ∷ es) = 1 + leaks es

-- A log is to be named where a summary is.
abbrev ArePaired : (logname sumname : Option FileName) → Type 0
ArePaired none none = Unit {0}
ArePaired none (some s) = ⊥
ArePaired (some l) none = ⊥
ArePaired (some l) (some s) = Unit {0}

-- Nothing is in the temporary file nor in any log, and as many files stay open as there are logs.
pub record IsBare (c : State) : Type 0 where
  pub empty : c.written ≡ []
  pub silent : log_text c.effects ≡ []
  pub leaked : leaks c.effects ≡ logs c.effects
  pub paired : ArePaired c.cur_logname c.cur_sumname

log_text-append :
    (es : List Effect) (e : Effect) → log_text (es ++ e ∷ []) ≡ log_text es ++ log_text (e ∷ [])
unfolding log_text
log_text-append [] e = refl
log_text-append (logged name text ∷ es) e =
    ap (λ x. text ++ x) (log_text-append es e)
    ∙ sym (append_assoc text (log_text es) (log_text (e ∷ [])))
log_text-append (summed name text ∷ es) e = log_text-append es e
log_text-append (shown text ∷ es) e = log_text-append es e
log_text-append (reported text ∷ es) e = log_text-append es e
log_text-append (dumped p ∷ es) e = log_text-append es e
log_text-append (left_open name ∷ es) e = log_text-append es e

leaks-append : (es : List Effect) (e : Effect) → leaks (es ++ e ∷ []) ≡ leaks es + leaks (e ∷ [])
unfolding leaks
leaks-append [] e = omega arith
leaks-append (logged name text ∷ es) e = leaks-append es e
leaks-append (summed name text ∷ es) e = leaks-append es e
leaks-append (shown text ∷ es) e = leaks-append es e
leaks-append (reported text ∷ es) e = leaks-append es e
leaks-append (dumped p ∷ es) e = leaks-append es e
leaks-append (left_open name ∷ es) e = let ih = leaks-append es e in omega arith

-- An effect without the text of a log.
silent-append :
    (e : Effect) (c : State)
    → log_text (e ∷ []) ≡ []
    → log_text c.effects ≡ []
    → log_text (c.effects ++ e ∷ []) ≡ []
silent-append e c none_of_it silent =
    log_text-append c.effects e ∙ ap (λ x. x ++ log_text (e ∷ [])) silent ∙ none_of_it

header_printer-IsBare : (p : Packet) (c : State) → IsBare c → IsSome IsBare (header_printer p c)
unfolding header_printer log_text leaks logs
header_printer-IsBare p c bare =
    let text : List Item = traced_text (trace_packet p.secs p.usecs p.byte p.caplen) in
    let leaked = leaks-append c.effects (shown text) in
    let counted = logs-append c.effects (shown text) in
    let before = bare.leaked in
    record {
      empty = bare.empty;
      silent = silent-append (shown text) c refl bare.silent;
      leaked = omega arith;
      paired = bare.paired;
    }

-- Any packets will do.
any_packets : (ps : List Packet) → All (λ p. Unit {0}) ps
any_packets [] = tt
any_packets (p ∷ ps) = (tt, any_packets ps)

any_batch : (batch : Option (List Packet)) → OfBatch (λ p. Unit {0}) batch
any_batch none = tt
any_batch (some ps) = any_packets ps

any_ticks : (ts : List Tick) → All (λ t. OfBatch (λ p. Unit {0}) t.batch) ts
any_ticks [] = tt
any_ticks (t ∷ ts) = (any_batch t.batch, any_ticks ts)

module _ (sys : System) (opens : (name : FileName) → sys.opens name ≡ true) where
  -- What a closed file leaves: where a log gets its name, a summary is opened.
  record IsShut (c : State) : Type 0 where
    silent : log_text c.effects ≡ []
    leaked : leaks c.effects ≡ logs c.effects

  named-IsShut :
      (l s : FileName) (c : State)
      → IsBare c
      → IsShut (open_summary sys (some (to_file s)) (effect (logged l c.written) c))
  unfolding open_summary log_text leaks logs
  named-IsShut l s c bare =
      let named = effect (logged l c.written) c in
      let text : log_text (logged l c.written ∷ []) ≡ [] = append-nil c.written ∙ bare.empty in
      let silent : log_text named.effects ≡ [] =
        silent-append (logged l c.written) c text bare.silent in
      let leaked = leaks-append c.effects (logged l c.written) in
      let counted = logs-append c.effects (logged l c.written) in
      let leaked' = leaks-append named.effects (left_open s) in
      let counted' = logs-append named.effects (left_open s) in
      let before = bare.leaked in
      rw (opens s)
        (record { silent = silent-append (left_open s) named refl silent; leaked = omega arith })

  renamed-IsShut :
      (logname sumname : Option FileName) (c : State)
      → ArePaired logname sumname
      → IsBare c
      → IsSome IsShut (
          rename_log sys logname c
          >>= (λ c'. some (forget_names (open_summary sys (file_of sumname) c'))))
  unfolding open_summary
  renamed-IsShut none none c paired bare = record { silent = bare.silent; leaked = bare.leaked }
  renamed-IsShut none (some s) c paired bare = elim paired [ ]
  renamed-IsShut (some l) none c paired bare = elim paired [ ]
  renamed-IsShut (some l) (some s) c paired bare = elim (Bool-cases (sys.renames l)) [
    | inl renamed ↦
        let shut = named-IsShut l s c bare in
        rw renamed (record { silent = shut.silent; leaked = shut.leaked })
    | inr kept ↦ rw kept tt
  ]

  close_out-IsShut :
      (out : Out) (c : State)
      → IsBare c
      → IsSome IsShut (close_out sys (header_program sys decode) out c)
  unfolding close_out
  close_out-IsShut null c bare = record { silent = bare.silent; leaked = bare.leaked }
  close_out-IsShut standard c bare = record { silent = bare.silent; leaked = bare.leaked }
  close_out-IsShut temporary c bare = renamed-IsShut c.cur_logname c.cur_sumname c bare.paired bare

  update_out_file-IsBare :
      (o : Options) (clock : ℕ) (c : State)
      → IsBare c
      → IsSome IsBare (update_out_file sys (header_program sys decode) o clock c)
  unfolding update_out_file open_out
  update_out_file-IsBare o clock c bare =
      IsSome-bind IsShut IsBare (close_out sys (header_program sys decode) c.out c)
        (open_out sys o clock) (close_out-IsShut c.out c bare)
        (λ c' shut. elim (Bool-cases (sys.opens_tmp (clock - clock % o.secs))) [
          | inl opened ↦
              rw opened
                (record { empty = refl; silent = shut.silent; leaked = shut.leaked; paired = tt })
          | inr failed ↦ rw failed tt
        ])

  -- A run of the loop of nfsdump2/iphdump.c without `-w`, where `fopen` opens every summary: from a
  -- state with nothing in the temporary file nor in a log, and with as many files left open as logs
  -- named, it gives such a state, unless the process has died, whatever the packets are: the headers
  -- are in no log, and each log that gets its name leaves a file open.
  pub headers-IsBare :
      (o : Options) (ts : List Tick) (total_cnt : ℕ) (start : State)
      → IsBare start
      → IsSafe IsBare (capture (header_program sys decode) sys o ts total_cnt start)
  headers-IsBare o ts total_cnt start bare =
      capture-keeps (header_program sys decode) sys o (λ p. Unit {0}) IsBare
        (λ p c any b. header_printer-IsBare p c b) (update_out_file-IsBare o)
        (λ n c b. record {
          empty = b.empty;
          silent = b.silent;
          leaked = b.leaked;
          paired = b.paired;
        })
        ts total_cnt start (any_ticks ts) bare
