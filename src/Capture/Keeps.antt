-- ===== src/Capture/Keeps.antt =====
-- The invariants of the loop of the capture, from those of a batch and of an update.
use nfsdump.Capture.Counts.{IsSome, IsSome-bind}
use nfsdump.Capture.Loop.{
  Ended, stopped, failed, dead, goes_on, is_enough, is_over, is_expired, lived, polled,
  next_interval, capture_round, capture, packet_poll_cnt,
}
use nfsdump.Capture.{State, Packet, Tick, System, Options, Program, print_batch, update_out_file}
use nfsdump.Prelude.{
  ℕ, ◌+◌, ◌-◌, ◌&&◌, inl, inr, Bool-cases, Option, none, some, List, [], ◌∷◌, All, ◌==◌,
}

-- A state that the loop ends with.
abbrev pub IsSafe : (State → Type 0) → Ended → Type 0
IsSafe I (stopped c) = I c
IsSafe I (failed c) = I c
IsSafe I dead = Unit {0}
IsSafe I (goes_on c) = I c

-- What holds of each packet of a tick.
abbrev pub OfBatch : (Packet → Type 0) → Option (List Packet) → Type 0
OfBatch P none = Unit {0}
OfBatch P (some ps) = All P ps

-- What a batch, an update and the spending of an interval keep, the loop keeps.
module _ (prog : Program) (sys : System) (o : Options) (P : Packet → Type 0) (I : State → Type 0)
    (on_packet : (p : Packet) (c : State) → P p → I c → IsSome I (prog.printer p c))
    (on_update : (clock : ℕ) (c : State) → I c → IsSome I (update_out_file sys prog o clock c))
    (on_spend : (n : ℕ) (c : State) → I c → I (record c { iters = n })) where
  print_batch-keeps :
      (ps : List Packet) (c : State) → All P ps → I c → IsSome I (print_batch prog ps c)
  unfolding print_batch
  print_batch-keeps [] c each i = i
  print_batch-keeps (p ∷ ps) c each i =
      IsSome-bind I I (prog.printer p c) (print_batch prog ps) (on_packet p c each.0 i)
        (λ c' i'. print_batch-keeps ps c' each.1 i')

  lived-keeps :
      (m : Option State) (f : State → Ended)
      → IsSome I m
      → ((c : State) → I c → IsSafe I (f c))
      → IsSafe I (lived m f)
  lived-keeps none f h g = tt
  lived-keeps (some c) f h g = g c h

  module _ (go_on : State → Ended) (goes : (c : State) → I c → IsSafe I (go_on c)) where
    pub polled-keeps :
        (batch : Option (List Packet)) (c : State)
        → OfBatch P batch
        → I c
        → IsSafe I (polled prog sys o go_on batch c)
    polled-keeps none c each i = i
    polled-keeps (some ps) c each i =
        lived-keeps (print_batch prog ps c) go_on (print_batch-keeps ps c each i) goes

    next_interval-keeps :
        (t : Tick) (c : State)
        → OfBatch P t.batch
        → I c
        → IsSafe I (next_interval prog sys o go_on t c)
    unfolding next_interval
    next_interval-keeps t c each i =
        lived-keeps (update_out_file sys prog o t.clock c) _ (on_update t.clock c i) (λ c' i'.
          elim (Bool-cases (c'.iters == 0)) [
            | inl last ↦ rw last i'
            | inr more ↦ rw more (
                polled-keeps t.batch (record c' { iters = c'.iters - 1 }) each
                  (on_spend (c'.iters - 1) c' i'))
          ])

    capture_round-keeps :
        (t : Tick) (total_cnt : ℕ) (c : State)
        → OfBatch P t.batch
        → I c
        → IsSafe I (capture_round prog sys o go_on t total_cnt c)
    unfolding capture_round
    capture_round-keeps t total_cnt c each i = elim (Bool-cases (is_enough o.cnt total_cnt)) [
      | inl enough ↦ simp enough i
      | inr few ↦ elim (Bool-cases (is_over o.end_of_life t.now)) [
        | inl over ↦ elim (Bool-cases o.active) [
          | inl active ↦
              simp (few, over, active) (lived-keeps _ stopped (on_update t.clock c i) (λ c' i'. i'))
          | inr plain ↦ simp (few, over, plain) i
        ]
        | inr lives ↦ elim (Bool-cases (o.active && is_expired t.now c.end_time)) [
          | inl expired ↦ simp (few, lives, expired) (next_interval-keeps t c each i)
          | inr running ↦ simp (few, lives, running) (polled-keeps t.batch c each i)
        ]
      ]
    ]

  pub capture-keeps :
      (ts : List Tick) (total_cnt : ℕ) (c : State)
      → All (λ t. OfBatch P t.batch) ts
      → I c
      → IsSafe I (capture prog sys o ts total_cnt c)
  unfolding capture
  capture-keeps [] total_cnt c each i = i
  capture-keeps (t ∷ ts) total_cnt c each i =
      capture_round-keeps (λ c'. capture prog sys o ts (total_cnt + packet_poll_cnt) c')
        (λ c' i'. capture-keeps ts (total_cnt + packet_poll_cnt) c' each.1 i') t total_cnt c each.0
        i
