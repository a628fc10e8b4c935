-- ===== src/Packet/Loop/Ends.antt =====
-- A packet of any content is decoded to an end.
use mathlib.Core.Path.{subst}
use nfsdump.Packet.Loop.{
  Ran, exited, died, out_of_fuel, fed_message, round, after_round, rounds, start, run_opened,
  process_packet,
}
use nfsdump.Packet.Message.Runs.{Moves, IsRound, rpc_message-IsRound}
use nfsdump.Packet.Message.{Round, again, exits, dies, rpc_message}
use nfsdump.Packet.Reassembly.Fits.{AtMessage, IsFed, feed-IsFed}
use nfsdump.Packet.Reassembly.{Cursor, Fed, ready, waits, broken, feed}
use nfsdump.Packet.Record.Keeps.{IsRunning}
use nfsdump.Packet.Record.{Outside, World}
use nfsdump.Packet.{Segment, assertion, overrun, null_read, Opened, closed, opened, open_packet}
use nfsdump.Prelude.{
  ℕ, zero, suc, ◌+◌, ◌^◌, ◌≤◌, ◌<◌, ◌≡◌, ◌⊎◌, refl, sym, Bool, true, false, inl, inr, Bool-cases,
  List, [], ◌++◌, leb, arith, if◌then◌else◌,
}
use nfsdump.Print.{Item}

-- A packet is done with, and the state of the decoder is as it must be; or the process died in
-- the copy of a segment or in a printer, never by a failed assertion.
abbrev pub IsEnded : Ran → Type 0
IsEnded (exited code w text) = IsRunning w
IsEnded (died assertion) = ⊥
IsEnded (died overrun) = Unit {0}
IsEnded (died null_read) = Unit {0}
IsEnded out_of_fuel = ⊥

-- In the loop: the packet is of less than 1 GB; outside TCP the RPC message is all of the rest.
pub record InLoop (s : Segment) (c : Cursor) : Type 0 where
  pub short : c.tot_len < 2 ^ 30
  pub rest : (s.tcp ≡ true) ⊎ ((c.rpc_len + c.consumed ≡ c.tot_len) ⊎ (c.tot_len ≤ c.consumed))

-- A round gets on.
abbrev Advances : Cursor → Cursor → Type 0
Advances c c' =
    (c'.tot_len < 2 ^ 30)
    × ((c'.tot_len ≤ c'.consumed) ⊎ ((c'.tot_len ≡ c.tot_len) × (c.consumed < c'.consumed)))

pub IsRound-weaken :
    {P Q : Cursor → Type 0} → ((c : Cursor) → P c → Q c) → (r : Round) → IsRound P r → IsRound Q r
IsRound-weaken f (again c w text) (p, v) = (f c p, v)
IsRound-weaken f (exits code w text) v = v
IsRound-weaken f (dies assertion) v = v
IsRound-weaken f (dies overrun) v = v
IsRound-weaken f (dies null_read) v = v

-- From a message in the packet, or a whole buffer.
Moves-Advances :
    (c c' c'' : Cursor)
    → c.tot_len < 2 ^ 30
    → c.consumed < c.tot_len
    → AtMessage c c'
    → Moves c' c''
    → Advances c c''
Moves-Advances c c' c'' short before (inl (same, at, len)) (same', inl end) = (omega arith, inl end)
Moves-Advances c c' c'' short before (inl (same, at, len)) (same', inr on) =
    (omega arith, inr (omega arith, omega arith))
Moves-Advances c c' c'' short before (inr (at, len, limit)) (same', inl end) =
    (omega arith, inl end)
Moves-Advances c c' c'' short before (inr (at, len, limit)) (same', inr on) =
    (omega arith, inl (omega arith))

module _ (out : Outside) (secs usecs : ℕ) where
  fed_message-IsRound :
      (s : Segment) (cnt : ℕ) (c : Cursor) (w : World) (fed : Fed)
      → c.tot_len < 2 ^ 30
      → c.consumed < c.tot_len
      → IsRunning w
      → IsFed c fed
      → IsRound (Advances c) (fed_message out secs usecs s cnt w fed)
  fed_message-IsRound s cnt c w (ready c' t) short before v (at, sound) =
      IsRound-weaken (λ c'' moves. Moves-Advances c c' c'' short before at moves) _
        (rpc_message-IsRound out s secs usecs cnt c' (record w { tcp_table = t })
          (record {
            calls = v.calls;
            segments = sound;
            calls2_add = v.calls2_add;
            resps2_add = v.resps2_add;
          }))
  fed_message-IsRound s cnt c w (waits code t) short before v sound = record {
    calls = v.calls;
    segments = sound;
    calls2_add = v.calls2_add;
    resps2_add = v.resps2_add;
  }
  fed_message-IsRound s cnt c w (broken assertion) short before v fed = elim fed [ ]
  fed_message-IsRound s cnt c w (broken overrun) short before v fed = tt
  fed_message-IsRound s cnt c w (broken null_read) short before v fed = tt

  -- The next round's cursor.
  abbrev Continues : Segment → Cursor → Cursor → Type 0
  Continues s c c' = Advances c c' × InLoop s c'

  if-IsRound :
      (P : Cursor → Type 0) (b : Bool) (x y : Round)
      → (b ≡ true → IsRound P x)
      → (b ≡ false → IsRound P y)
      → IsRound P (if b then x else y)
  if-IsRound P true x y f g = f refl
  if-IsRound P false x y f g = g refl

  -- Outside TCP a message is all of the rest.
  pub Moves-end :
      (s : Segment) (c c' : Cursor)
      → InLoop s c
      → c.consumed < c.tot_len
      → s.tcp ≡ false
      → Moves c c'
      → c'.tot_len ≤ c'.consumed
  Moves-end s c c' inside before udp (same, inl end) = end
  Moves-end s c c' inside before udp (same, inr on) = elim inside.rest [
    | inl tcp ↦ cc
    | inr (inl all) ↦ let short = inside.short in omega arith
    | inr (inr past) ↦ omega arith
  ]

  Moves-Continues :
      (s : Segment) (c c' : Cursor)
      → InLoop s c
      → c.consumed < c.tot_len
      → s.tcp ≡ false
      → Moves c c'
      → Continues s c c'
  Moves-Continues s c c' inside before udp moves =
      let end = Moves-end s c c' inside before udp moves in
      let short : c'.tot_len < 2 ^ 30 = subst (λ n. n < 2 ^ 30) (sym moves.0) inside.short in
      ((short, inl end), record { short = short; rest = inr (inr end) })

  round-IsRound :
      (s : Segment) (cnt : ℕ) (c : Cursor) (w : World)
      → InLoop s c
      → c.consumed < c.tot_len
      → IsRunning w
      → IsRound (Continues s c) (round out secs usecs s cnt c w)
  unfolding round
  round-IsRound s cnt c w inside before v =
      let fed = feed out.junk secs s c w.tcp_table in
      if-IsRound (Continues s c) s.tcp (fed_message out secs usecs s cnt w fed)
        (rpc_message out s secs usecs cnt c w)
        (λ tcp.
          IsRound-weaken {P = Advances c} (λ c' on. (on, record { short = on.0; rest = inl tcp }))
            (fed_message out secs usecs s cnt w fed)
            (fed_message-IsRound s cnt c w fed inside.short before v
              (feed-IsFed out.junk secs s c w.tcp_table v.segments)))
        (λ udp.
          IsRound-weaken {P = Moves c} (λ c' moves. Moves-Continues s c c' inside before udp moves)
            (rpc_message out s secs usecs cnt c w) (rpc_message-IsRound out s secs usecs cnt c w v))

  after_round-IsEnded :
      (P : Cursor → Type 0) (go_on : Cursor → World → List Item → Ran) (text : List Item)
      (r : Round)
      → ((c : Cursor) (w : World) (t : List Item) → P c → IsRunning w → IsEnded (go_on c w t))
      → IsRound P r
      → IsEnded (after_round out secs usecs go_on text r)
  after_round-IsEnded P go_on text (again c w t) go (p, v) = go c w (text ++ t) p v
  after_round-IsEnded P go_on text (exits code w t) go v = v
  after_round-IsEnded P go_on text (dies assertion) go v = v
  after_round-IsEnded P go_on text (dies overrun) go v = v
  after_round-IsEnded P go_on text (dies null_read) go v = v

  Advances-fuel :
      (c c' : Cursor) (fuel : ℕ)
      → c.consumed < c.tot_len
      → c.tot_len < c.consumed + suc fuel
      → Advances c c'
      → (0 < fuel) × (c'.tot_len < c'.consumed + fuel)
  Advances-fuel c c' fuel before enough (short, inl end) = (omega arith, omega arith)
  Advances-fuel c c' fuel before enough (short, inr (same, on)) = (omega arith, omega arith)

  -- The fuel is enough for a byte a round.
  rounds-IsEnded :
      (fuel : ℕ) (s : Segment) (cnt : ℕ) (c : Cursor) (w : World) (text : List Item)
      → InLoop s c
      → 0 < fuel
      → c.tot_len < c.consumed + fuel
      → IsRunning w
      → IsEnded (rounds out secs usecs fuel s cnt c w text)
  unfolding rounds
  rounds-IsEnded zero s cnt c w text inside some_fuel enough v = omega arith
  rounds-IsEnded (suc fuel) s cnt c w text inside some_fuel enough v =
      elim (Bool-cases (leb c.tot_len c.consumed)) [
        | inl end ↦ rw (end, IsEnded, rounds) v
        | inr more ↦
            let before : c.consumed < c.tot_len = ground arith in
            rw (more, IsEnded, rounds)
              (after_round-IsEnded (Continues s c)
                (λ c' w' t. rounds out secs usecs fuel s (cnt + 1) c' w' t) text
                (round out secs usecs s (cnt + 1) c w)
                (λ c' w' t (on, inside') v'.
                  let (some_fuel', enough') = Advances-fuel c c' fuel before enough on in
                  rounds-IsEnded fuel s (cnt + 1) c' w' t inside' some_fuel' enough' v')
                (round-IsRound s (cnt + 1) c w inside before v))
      ]

  opened-IsEnded :
      (byte : ℕ → ℕ) (tot_len : ℕ) (w : World) (o : Opened)
      → tot_len < 2 ^ 30
      → IsRunning w
      → IsEnded (run_opened out secs usecs byte tot_len w o)
  opened-IsEnded byte tot_len w (closed code) short v = v
  opened-IsEnded byte tot_len w (opened s) short v =
      rounds-IsEnded (tot_len + 2) s 0 (start out secs usecs byte tot_len s) w []
        (record { short = short; rest = inr (omega arith) }) (omega arith) (omega arith) v

  pub process_packet-ends :
      (byte : ℕ → ℕ) (tot_len : ℕ) (w : World)
      → tot_len < 2 ^ 30
      → IsRunning w
      → IsEnded (process_packet out secs usecs byte tot_len w)
  unfolding process_packet
  process_packet-ends byte tot_len w short v =
      opened-IsEnded byte tot_len w (open_packet byte tot_len) short v
