-- ===== src/Capture/Loop.antt =====
-- The loop of `main` of nfsdump2/nfsdump.c and nfsdump2/iphdump.c over the batches of packets.
use nfsdump.Capture.{Packet, Tick, State, System, Options, Program, print_batch, update_out_file}
use nfsdump.Prelude.{
  ℕ, ◌+◌, ◌-◌, ◌^◌, Bool, false, ◌&&◌, ◌||◌, Option, none, some, List, [], ◌∷◌, ◌==◌, leb, ltb,
  if◌then◌else◌,
}

-- How the loop ends: by a `break`, by the failure of `pcap_loop`, or by the death of the process; or
-- it goes on after the ticks that are given.
pub data Ended : Type 0 where
  stopped : State → Ended
  failed : State → Ended
  dead : Ended
  goes_on : State → Ended

-- `cnt > 0 && total_cnt >= cnt`
abbrev pub is_enough : Option ℕ → (total_cnt : ℕ) → Bool
is_enough none total_cnt = false
is_enough (some cnt) total_cnt = ltb 0 cnt && leb cnt total_cnt

-- `EndOfLife > 0 && now.tv_sec >= EndOfLife`
abbrev pub is_over : Option ℕ → (now : ℕ) → Bool
is_over none now = false
is_over (some end) now = ltb 0 end && leb end now

-- `now.tv_sec >= Interval.end_time`, where the `long` is given by its pattern.
abbrev pub is_expired : (now end_time : ℕ) → Bool
is_expired now end_time = leb (2 ^ 31) end_time || leb end_time now

abbrev pub packet_poll_cnt : ℕ
packet_poll_cnt = 200

abbrev pub lived : Option State → (State → Ended) → Ended
lived none f = dead
lived (some c) f = f c

module _ (prog : Program) (sys : System) (o : Options) where
  -- After a `pcap_loop`; `go_on` is the loop from its next round on.
  abbrev pub polled : (go_on : State → Ended) → Option (List Packet) → State → Ended
  polled go_on none c = failed c
  polled go_on (some ps) c = lived (print_batch prog ps c) go_on

  -- The end of an interval.
  unfoldable pub next_interval : (go_on : State → Ended) → Tick → State → Ended
  unfolding update_out_file print_batch
  next_interval go_on t c = lived (update_out_file sys prog o t.clock c) (λ c'.
      if c'.iters == 0
      then stopped c'
      else polled go_on t.batch (record c' { iters = c'.iters - 1 }))

  -- A round; `total_cnt` is an `int` and does not wrap before 2 ^ 31 packets.
  unfoldable pub capture_round : (go_on : State → Ended) → Tick → (total_cnt : ℕ) → State → Ended
  unfolding next_interval
  capture_round go_on t total_cnt c =
      if is_enough o.cnt total_cnt
      then stopped c
      else if is_over o.end_of_life t.now
      then (if o.active then lived (update_out_file sys prog o t.clock c) stopped else stopped c)
      else if o.active && is_expired t.now c.end_time
      then next_interval go_on t c
      else polled go_on t.batch c

  unfoldable pub capture : List Tick → (total_cnt : ℕ) → State → Ended
  unfolding capture_round
  capture [] total_cnt c = goes_on c
  capture (t ∷ ts) total_cnt c =
      capture_round (λ c'. capture ts (total_cnt + packet_poll_cnt) c') t total_cnt c
