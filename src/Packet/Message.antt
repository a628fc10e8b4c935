-- ===== src/Packet/Message.antt =====
-- One RPC message of a packet, in the loop of `processPacket` of nfsdump2/nfsrecord.c: its header,
-- the matching of replies with calls, and the record that is printed. What `get_auth` writes to the
-- standard output is taken with the rest, as where `OutFile` is the standard output.
pub mod Runs
pub mod Faults
pub mod Matches
use nfsdump.Frame.{be32}
use nfsdump.Packet.Reassembly.{Cursor}
use nfsdump.Packet.Record.{Outside, World, NfsRecord, Printed, print_record}
use nfsdump.Packet.{Segment, Code, interesting, discarded, minus, Fault, assertion, null_read}
use nfsdump.Prelude.{
  ℕ, ◌+◌, ◌*◌, ◌-◌, ◌^◌, Bool, true, false, ◌&&◌, ◌||◌, not, Option, none, some, List, [], ◌∷◌,
  ◌++◌, leb, ltb, ◌==◌, if◌then◌else◌, add32, sub32,
}
use nfsdump.Print.{Item, lit, hex, dec, int}
use nfsdump.Rpc.{Header, mount_program, get_rpc_header}
use nfsdump.XidTable.{Call, XidTable, hash_insert_xid, hash_lookup_xid}

-- What a round of the loop comes to: the next round, a `return`, or the death of the process.
pub data Round : Type 0 where
  again : Cursor → World → List Item → Round
  exits : Code → World → List Item → Round
  dies : Fault → Round

-- The words at `consumed`.
abbrev pub words_at : Cursor → ℕ → ℕ
words_at c i = be32 c.byte (c.consumed + 4 * i)

-- -1, as a `u_int32_t`
abbrev pub minus_one : ℕ
minus_one = 2 ^ 32 - 1

-- `euid` and `egid`, which begin as -1
abbrev pub ids_text : Option (ℕ × ℕ) → List Item
ids_text none = []
ids_text (some (euid, egid)) =
    if not (euid == minus_one) && not (egid == minus_one)
    then lit "euid " ∷ hex euid ∷ lit " egid " ∷ hex egid ∷ lit " " ∷ []
    else []

-- The lengths at the end of a line.
abbrev pub lengths_text : (tot_len consumed payload_len : ℕ) → List Item
lengths_text tot_len consumed payload_len =
    let end = add32 payload_len consumed in
    (lit "con=" ∷ int consumed ∷ lit " len=" ∷ int (if ltb tot_len end then tot_len else end) ∷ [])
    ++ (if ltb end tot_len then lit " LONGPKT-" ∷ int (tot_len - end) ∷ lit " " ∷ [] else [])
    ++ lit "\n" ∷ []

module _ (out : Outside) (s : Segment) (secs usecs : ℕ) where
  -- The record of a message of the segment.
  abbrev pub record_of : (is_call : Bool) (xid version proc status : ℕ) → NfsRecord
  record_of is_call xid version proc status = record {
    secs = secs;
    usecs = usecs;
    src_host = s.src_host;
    dst_host = s.dst_host;
    src_port = s.src_port;
    dst_port = s.dst_port;
    rpc_xid = xid;
    is_call = is_call;
    nfs_version = version;
    nfs_proc = proc;
    rpc_status = status;
  }

  -- The cursor is after the header; `rh_len` is the header's length, with the two status words of a
  -- reply. The lengths are unsigned, and wrap.
  abbrev pub payload_of : Cursor → (rh_len : ℕ) → ℕ
  payload_of c rh_len = sub32 c.rpc_len rh_len

  abbrev pub after_message : Cursor → (rh_len : ℕ) → Cursor
  after_message c rh_len = record c { consumed = add32 c.consumed (payload_of c rh_len) }

  abbrev pub after_print : Cursor → (rh_len : ℕ) → (tail : List Item) → Printed → Round
  after_print c rh_len tail none = dies null_read
  after_print c rh_len tail (some (w, text)) = again (after_message c rh_len) w (text ++ tail)

  -- From the payload on: the record is printed or not, and the payload is skipped.
  unfoldable pub end_message :
      Cursor → (rh_len : ℕ) → (print_it : Bool) → Option (ℕ × ℕ) → NfsRecord → World → Round
  unfolding print_record
  end_message c rh_len print_it ids r w =
      let payload_len = payload_of c rh_len in
      if print_it
      then after_print c rh_len (ids_text ids ++ lengths_text c.tot_len c.consumed payload_len)
          (print_record out s.tcp (words_at c) payload_len (sub32 c.tot_len c.consumed) r w)
      else again (after_message c rh_len) w []

  -- The procedure of a call, in which the MOUNT protocol's have numbers from 100 on.
  abbrev pub call_proc : (word : ℕ → ℕ) → ℕ
  call_proc word = if word 3 == mount_program then add32 (word 5) 100 else word 5

  abbrev pub inserted_call : (Option (XidTable)) → (XidTable → Round) → Round
  inserted_call none f = dies assertion
  inserted_call (some t) f = f t

  -- `word` is the header. The flag `print_it` is not assigned.
  unfoldable pub call_message :
      (cnt : ℕ) (word : ℕ → ℕ) → Cursor → (rh_len : ℕ) → Option (ℕ × ℕ) → World → Round
  unfolding end_message
  call_message cnt word c rh_len ids w =
      inserted_call
        (hash_insert_xid secs (word 0) s.src_host s.src_port (word 4) (call_proc word) w.xid_table)
        (λ t.
          end_message c rh_len (out.print_it₀ cnt) ids
            (record_of true (word 0) (word 4) (call_proc word) 0) (record w { xid_table = t }))

  -- Where the status of a reply is read, whose header began at `e_len + i_len + h_len` if it is the
  -- first message of its packet.
  abbrev pub status_at : Cursor → (rh_len : ℕ) → ℕ
  status_at c rh_len = be32 c.byte (c.e_len + c.i_len + c.h_len + rh_len + 4)

  -- `accepted != 0 || acceptStatus != 0`
  abbrev pub not_accepted : (word : ℕ → ℕ) → Cursor → Bool
  not_accepted word c = not (word 2 == 0) || not (be32 c.byte c.consumed == 0)

  -- Past the two status words.
  abbrev pub after_status : Cursor → Cursor
  after_status c = record c { consumed = add32 c.consumed 8 }

  -- A reply with no call is printed as of version 3 and procedure -1. One that has a call and was
  -- accepted leaves `print_it` unassigned.
  unfoldable pub matched_reply :
      (cnt : ℕ) (word : ℕ → ℕ)
      → Cursor
      → (rh_len : ℕ) → Option (ℕ × ℕ)
      → Option Call
      → World
      → Round
  unfolding end_message
  matched_reply cnt word c rh_len ids none w =
      end_message (after_status c) (add32 rh_len 8) true ids
        (record_of false (word 0) 3 minus_one (status_at c rh_len)) w
  matched_reply cnt word c rh_len ids (some call) w =
      end_message (after_status c) (add32 rh_len 8)
        (if not_accepted word c then false else out.print_it₀ cnt) ids
        (record_of false (word 0) call.nfs_version call.nfs_proc (status_at c rh_len)) w

  unfoldable pub reply_message :
      (cnt : ℕ) (word : ℕ → ℕ) → Cursor → (rh_len : ℕ) → Option (ℕ × ℕ) → World → Round
  unfolding matched_reply
  reply_message cnt word c rh_len ids w =
      let (found, t) = hash_lookup_xid secs (word 0) s.dst_host s.dst_port w.xid_table in
      matched_reply cnt word c rh_len ids found (record w { xid_table = t })

  -- After a header of `rh_len` bytes.
  unfoldable pub after_header :
      (cnt dir : ℕ) (word : ℕ → ℕ) → Cursor → (rh_len : ℕ) → Option (ℕ × ℕ) → World → Round
  unfolding call_message reply_message
  after_header cnt dir word c₀ rh_len ids w =
      let c = record c₀ { consumed = add32 c₀.consumed rh_len } in
      if c.consumed == c.tot_len && (dir == 0 && word 5 == 0)
      then again c w []
      else if leb c.tot_len c.consumed
      then exits interesting w []
      else if dir == 0
      then call_message cnt word c rh_len ids w
      else reply_message cnt word c rh_len ids w

  -- The three outcomes of the header: an `int` that is 0, negative, or a length.
  unfoldable pub dispatch :
      (cnt dir : ℕ) (word : ℕ → ℕ) → Cursor → Option (ℕ × ℕ) → Option ℕ → World → Round
  unfolding after_header
  dispatch cnt dir word c ids none w = exits (minus 5) w []
  dispatch cnt dir word c ids (some rh_len) w =
      if rh_len == 0
      then exits discarded w
          (if ltb 1 cnt then lit "XX rh_len == 0, cnt = " ∷ int cnt ∷ lit "\n" ∷ [] else [])
      else if leb (2 ^ 31) rh_len
      then exits (minus 5) w []
      else after_header cnt dir word c rh_len ids w

  abbrev pub with_text : List Item → Round → Round
  with_text text (again c w t) = again c w (text ++ t)
  with_text text (exits code w t) = exits code w (text ++ t)
  with_text text (dies fault) = dies fault

  unfoldable pub rpc_message : (cnt : ℕ) → Cursor → World → Round
  unfolding dispatch
  rpc_message cnt c w =
      let (dir, h) = get_rpc_header (words_at c) (sub32 c.tot_len c.consumed) in
      with_text h.text (dispatch cnt dir (words_at c) c h.ids h.result w)
