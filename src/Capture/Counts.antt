-- ===== src/Capture/Counts.antt =====
-- As many logs get their names as intervals were asked for.
use nfsdump.Capture.Loop.{
  Ended, stopped, failed, dead, goes_on, is_enough, is_over, is_expired, lived, polled,
  next_interval, capture_round, capture, packet_poll_cnt,
}
use nfsdump.Capture.{
  Out, null, standard, temporary, Effect, logged, summed, shown, reported, State, Packet, Tick,
  FileName, System, Options, dumped, left_open, Quick, Program, file_of, print_batch, rename_log,
  close_out, open_out, update_out_file,
}
use nfsdump.Prelude.{
  ℕ, ◌+◌, ◌-◌, ◌%◌, ◌⊎◌, ◌≡◌, ◌≢◌, refl, ◌∙◌, ap, true, false, ◌&&◌, inl, inr, Bool-cases, Option,
  none, some, ◌>>=◌, List, [], ◌∷◌, ◌++◌, ◌==◌, arith,
}

-- How many logs have their names.
unfoldable pub logs : List Effect → ℕ
logs [] = 0
logs (logged name text ∷ es) = 1 + logs es
logs (summed name text ∷ es) = logs es
logs (shown text ∷ es) = logs es
logs (reported text ∷ es) = logs es
logs (dumped p ∷ es) = logs es
logs (left_open name ∷ es) = logs es

-- A temporary file that is to be a log.
abbrev pending_of : Out → Option FileName → ℕ
pending_of null name = 0
pending_of standard name = 0
pending_of temporary none = 0
pending_of temporary (some name) = 1

abbrev pub pending : State → ℕ
pending c = pending_of c.out c.cur_logname

-- The logs, those there are and those there will be.
abbrev pub all_logs : State → ℕ
all_logs c = logs c.effects + pending c + c.iters

-- After a `break` the logs that have their names are those of the `n` intervals that are not left;
-- none is left unless the lifetime ended. Before that a log has its name, or is pending, or is of an
-- interval to come.
abbrev pub IsCounted : Options → (n : ℕ) → Ended → Type 0
IsCounted o n (stopped c) =
    (logs c.effects + c.iters ≡ n) × ((c.iters ≡ 0) ⊎ (o.end_of_life ≢ none))
IsCounted o n (failed c) = all_logs c ≡ n
IsCounted o n dead = Unit {0}
IsCounted o n (goes_on c) = all_logs c ≡ n

pub logs-append : (es : List Effect) (e : Effect) → logs (es ++ e ∷ []) ≡ logs es + logs (e ∷ [])
unfolding logs
logs-append [] e = omega arith
logs-append (logged name text ∷ es) e = let ih = logs-append es e in omega arith
logs-append (summed name text ∷ es) e = logs-append es e
logs-append (shown text ∷ es) e = logs-append es e
logs-append (reported text ∷ es) e = logs-append es e
logs-append (dumped p ∷ es) e = logs-append es e
logs-append (left_open name ∷ es) e = logs-append es e

abbrev pub IsSome : (State → Type 0) → Option State → Type 0
IsSome P none = Unit {0}
IsSome P (some c) = P c

pub IsSome-bind :
    (P Q : State → Type 0) (m : Option State) (f : State → Option State)
    → IsSome P m
    → ((c : State) → P c → IsSome Q (f c))
    → IsSome Q (m >>= f)
IsSome-bind P Q none f h g = tt
IsSome-bind P Q (some c) f h g = g c h

-- A packet makes no log, and a summary neither makes one nor uses up an interval.
pub record KeepsLogs (prog : Program) : Type 0 where
  pub printer_logs :
      (p : Packet) (c : State) → IsSome (λ c'. all_logs c' ≡ all_logs c) (prog.printer p c)
  pub summary_logs :
      (name : Option Quick) (c : State) → logs (prog.summary name c).effects ≡ logs c.effects
  pub summary_iters : (name : Option Quick) (c : State) → (prog.summary name c).iters ≡ c.iters

print_batch-all_logs :
    (prog : Program) (keep : KeepsLogs prog) (n : ℕ) (ps : List Packet) (c : State)
    → all_logs c ≡ n
    → IsSome (λ c'. all_logs c' ≡ n) (print_batch prog ps c)
unfolding print_batch
print_batch-all_logs prog keep n [] c h = h
print_batch-all_logs prog keep n (p ∷ ps) c h =
    IsSome-bind (λ c'. all_logs c' ≡ all_logs c) (λ c'. all_logs c' ≡ n) (prog.printer p c)
      (print_batch prog ps) (keep.printer_logs p c)
      (λ c' same. print_batch-all_logs prog keep n ps c' (same ∙ h))

module _ (sys : System) (prog : Program) (keep : KeepsLogs prog) (o : Options) where
  rename_log-logs :
      (name : Option FileName) (c : State)
      → IsSome
          (λ c'.
            (logs c'.effects ≡ logs c.effects + pending_of temporary name) × (c'.iters ≡ c.iters))
          (rename_log sys name c)
  unfolding logs
  rename_log-logs none c = (omega arith, refl)
  rename_log-logs (some name) c = elim (Bool-cases (sys.renames name)) [
    | inl renamed ↦ rw renamed (logs-append c.effects (logged name c.written), refl)
    | inr kept ↦ rw kept tt
  ]

  close_out-logs :
      (out : Out) (c : State)
      → IsSome
          (λ c'.
            (logs c'.effects ≡ logs c.effects + pending_of out c.cur_logname)
            × (c'.iters ≡ c.iters))
          (close_out sys prog out c)
  unfolding close_out
  close_out-logs null c = (omega arith, refl)
  close_out-logs standard c = (omega arith, refl)
  close_out-logs temporary c =
      IsSome-bind _ _ (rename_log sys c.cur_logname c) _ (rename_log-logs c.cur_logname c)
        (λ c' (sum, iters). (
          keep.summary_logs (file_of c.cur_sumname) c' ∙ sum,
          keep.summary_iters (file_of c.cur_sumname) c' ∙ iters,
        ))

  -- The log of the interval gets its name, if there is one, and that of the next is pending.
  abbrev Updates : State → State → Type 0
  Updates c c' =
      (logs c'.effects ≡ logs c.effects + pending c) × (pending c' ≡ 1) × (c'.iters ≡ c.iters)

  open_out-Updates :
      (clock n i : ℕ) (c : State)
      → (logs c.effects ≡ n) × (c.iters ≡ i)
      → IsSome
          (λ c'. (logs c'.effects ≡ n) × (pending c' ≡ 1) × (c'.iters ≡ i))
          (open_out sys o clock c)
  unfolding open_out
  open_out-Updates clock n i c (sum, iters) =
      elim (Bool-cases (sys.opens_tmp (clock - clock % o.secs))) [
        | inl opens ↦ rw opens (sum, refl, iters)
        | inr shut ↦ rw shut tt
      ]

  update_out_file-Updates :
      (clock : ℕ) (c : State) → IsSome (Updates c) (update_out_file sys prog o clock c)
  unfolding update_out_file
  update_out_file-Updates clock c =
      IsSome-bind _ _ (close_out sys prog c.out c) (open_out sys o clock) (close_out-logs c.out c)
        (open_out-Updates clock (logs c.effects + pending c) c.iters)

module _ (prog : Program) (keep : KeepsLogs prog) (sys : System) (o : Options) (n : ℕ) where
  lived-IsCounted :
      (P : State → Type 0) (m : Option State) (f : State → Ended)
      → IsSome P m
      → ((c : State) → P c → IsCounted o n (f c))
      → IsCounted o n (lived m f)
  lived-IsCounted P none f h g = tt
  lived-IsCounted P (some c) f h g = g c h

  module _ (go_on : State → Ended)
      (goes : (c : State) → all_logs c ≡ n → IsCounted o n (go_on c)) where
    polled-IsCounted :
        (batch : Option (List Packet)) (c : State)
        → all_logs c ≡ n
        → IsCounted o n (polled prog sys o go_on batch c)
    polled-IsCounted none c h = h
    polled-IsCounted (some ps) c h =
        lived-IsCounted (λ c'. all_logs c' ≡ n) (print_batch prog ps c) go_on
          (print_batch-all_logs prog keep n ps c h) goes

    next_interval-IsCounted :
        (t : Tick) (c : State) → all_logs c ≡ n → IsCounted o n (next_interval prog sys o go_on t c)
    unfolding next_interval
    next_interval-IsCounted t c h =
        lived-IsCounted (Updates sys prog keep o c) (update_out_file sys prog o t.clock c) _
          (update_out_file-Updates sys prog keep o t.clock c)
          (λ c' (sum, one, iters). elim (Bool-cases (c'.iters == 0)) [
            | inl last ↦ rw last (ground arith, inl (ground arith))
            | inr more ↦
                rw more
                  (polled-IsCounted t.batch (record c' { iters = c'.iters - 1 }) (ground arith))
          ])

    capture_round-IsCounted :
        (t : Tick) (total_cnt : ℕ) (c : State)
        → o.cnt ≡ none
        → o.active ≡ true
        → all_logs c ≡ n
        → IsCounted o n (capture_round prog sys o go_on t total_cnt c)
    unfolding capture_round
    capture_round-IsCounted t total_cnt c no_cnt active h =
        let few : is_enough o.cnt total_cnt ≡ false = ap (λ x. is_enough x total_cnt) no_cnt in
        elim (Bool-cases (is_over o.end_of_life t.now)) [
          | inl over ↦
              simp (few, over, active)
                (lived-IsCounted (Updates sys prog keep o c) (update_out_file sys prog o t.clock c)
                  stopped (update_out_file-Updates sys prog keep o t.clock c)
                  (λ c' (sum, one, iters). (
                    omega arith,
                    inr (λ none_set. let alive = ap (λ x. is_over x t.now) none_set in cc),
                  )))
          | inr lives ↦ elim (Bool-cases (o.active && is_expired t.now c.end_time)) [
            | inl expired ↦ simp (few, lives, expired) (next_interval-IsCounted t c h)
            | inr running ↦ simp (few, lives, running) (polled-IsCounted t.batch c h)
          ]
        ]

  -- The loop keeps the count.
  pub capture-IsCounted :
      (ts : List Tick) (total_cnt : ℕ) (c : State)
      → o.cnt ≡ none
      → o.active ≡ true
      → all_logs c ≡ n
      → IsCounted o n (capture prog sys o ts total_cnt c)
  unfolding capture
  capture-IsCounted [] total_cnt c no_cnt active h = h
  capture-IsCounted (t ∷ ts) total_cnt c no_cnt active h =
      capture_round-IsCounted (λ c'. capture prog sys o ts (total_cnt + packet_poll_cnt) c')
        (λ c' h'. capture-IsCounted ts (total_cnt + packet_poll_cnt) c' no_cnt active h') t
        total_cnt c no_cnt active h
