-- ===== src/Packet/Message/Runs.antt =====
-- One message keeps the state of the decoder as it must be, and moves on by its length.
use nfsdump.Packet.Record.Keeps.{IsRunning, IsPrinted, print_record-IsPrinted}
use nfsdump.Packet.Message.{
  Round, again, exits, dies, words_at, after_print, end_message, call_proc, call_message,
  after_status, status_at, not_accepted, matched_reply, reply_message, after_header, dispatch,
  with_text, rpc_message, record_of, minus_one,
}
use nfsdump.Packet.Reassembly.{Cursor}
use nfsdump.Packet.Record.{Outside, World, NfsRecord, Printed}
use nfsdump.Packet.{Segment, assertion, overrun, null_read}
use nfsdump.Prelude.{
  ℕ, ◌+◌, ◌%◌, ◌^◌, ◌≤◌, ◌<◌, ◌≡◌, ◌⊎◌, refl, ◌∙◌, Bool, true, false, ◌&&◌, inl, inr, Bool-cases,
  Option, none, some, List, leb, ◌==◌, if◌then◌else◌, arith, add32, sub32,
}
use nfsdump.Print.{Item}
use nfsdump.Rpc.{get_rpc_header}
use nfsdump.Table.Cull.{insert-total}
use nfsdump.Table.Keep.{lookup-IsValid}
use nfsdump.XidTable.{Call, xid_keying, hash_insert_xid, hash_lookup_xid, new_call}

-- The cursor after a message: at the end, or on by the message's length.
abbrev pub Moves : Cursor → Cursor → Type 0
Moves c c' =
    (c'.tot_len ≡ c.tot_len)
    × ((c'.tot_len ≤ c'.consumed) ⊎ (c'.consumed ≡ (c.consumed + c.rpc_len) % 2 ^ 32))

-- A round that fails no assertion, leaves the state so, and a cursor with the property `P`.
abbrev pub IsRound : (P : Cursor → Type 0) → Round → Type 0
IsRound P (again c w text) = P c × IsRunning w
IsRound P (exits code w text) = IsRunning w
IsRound P (dies assertion) = ⊥
IsRound P (dies overrun) = Unit {0}
IsRound P (dies null_read) = Unit {0}

module _ (out : Outside) (s : Segment) (secs usecs : ℕ) where
  -- Where the payload ends.
  abbrev After : Cursor → (rh_len : ℕ) → Cursor → Type 0
  After c rh_len c' =
      (c'.tot_len ≡ c.tot_len) × (c'.consumed ≡ add32 c.consumed (sub32 c.rpc_len rh_len))

  after_print-IsRound :
      (c : Cursor) (rh_len : ℕ) (tail : List Item) (p : Printed)
      → IsPrinted p
      → IsRound (After c rh_len) (after_print out s secs usecs c rh_len tail p)
  after_print-IsRound c rh_len tail none v = tt
  after_print-IsRound c rh_len tail (some (w, text)) v = ((refl, refl), v)

  end_message-IsRound :
      (c : Cursor) (rh_len : ℕ) (print_it : Bool) (ids : Option (ℕ × ℕ)) (r : NfsRecord) (w : World)
      → IsRunning w
      → IsRound (After c rh_len) (end_message out s secs usecs c rh_len print_it ids r w)
  unfolding end_message
  end_message-IsRound c rh_len true ids r w v =
      after_print-IsRound c rh_len _ _ (print_record-IsPrinted out s.tcp _ _ _ r w v)
  end_message-IsRound c rh_len false ids r w v = ((refl, refl), v)

  call_message-IsRound :
      (cnt : ℕ) (word : ℕ → ℕ) (c : Cursor) (rh_len : ℕ) (ids : Option (ℕ × ℕ)) (w : World)
      → IsRunning w
      → IsRound (After c rh_len) (call_message out s secs usecs cnt word c rh_len ids w)
  unfolding call_message hash_insert_xid
  call_message-IsRound cnt word c rh_len ids w v =
      let proc = call_proc out s secs usecs word in
      let (t', ran, valid, _) =
        insert-total xid_keying secs (new_call secs (word 0) s.src_host s.src_port (word 4) proc)
          w.xid_table v.calls in
      rw ran (
        end_message-IsRound c rh_len (out.print_it₀ cnt) ids
          (record_of out s secs usecs true (word 0) (word 4) proc 0) (record w { xid_table = t' })
          (record {
            calls = valid;
            segments = v.segments;
            calls2_add = v.calls2_add;
            resps2_add = v.resps2_add;
          }))

  -- A reply's payload ends as far from the header as a call's.
  matched_reply-IsRound :
      (cnt : ℕ) (word : ℕ → ℕ) (c : Cursor) (rh_len : ℕ) (ids : Option (ℕ × ℕ)) (call : Option Call)
      (w : World)
      → IsRunning w
      → IsRound
          (After (after_status out s secs usecs c) (add32 rh_len 8))
          (matched_reply out s secs usecs cnt word c rh_len ids call w)
  unfolding matched_reply
  matched_reply-IsRound cnt word c rh_len ids none w v =
      end_message-IsRound (after_status out s secs usecs c) (add32 rh_len 8) true ids
        (record_of out s secs usecs false (word 0) 3 minus_one
          (status_at out s secs usecs c rh_len))
        w v
  matched_reply-IsRound cnt word c rh_len ids (some call) w v =
      end_message-IsRound (after_status out s secs usecs c) (add32 rh_len 8)
        (if not_accepted out s secs usecs word c then false else out.print_it₀ cnt) ids
        (record_of out s secs usecs false (word 0) call.nfs_version call.nfs_proc
          (status_at out s secs usecs c rh_len))
        w v

  reply_message-IsRound :
      (cnt : ℕ) (word : ℕ → ℕ) (c : Cursor) (rh_len : ℕ) (ids : Option (ℕ × ℕ)) (w : World)
      → IsRunning w
      → IsRound
          (After (after_status out s secs usecs c) (add32 rh_len 8))
          (reply_message out s secs usecs cnt word c rh_len ids w)
  unfolding reply_message hash_lookup_xid
  reply_message-IsRound cnt word c rh_len ids w v =
      matched_reply-IsRound cnt word c rh_len ids _ _ (record {
        calls = lookup-IsValid xid_keying _ w.xid_table v.calls;
        segments = v.segments;
        calls2_add = v.calls2_add;
        resps2_add = v.resps2_add;
      })

  IsRound-weaken :
      {P Q : Cursor → Type 0} → ((c : Cursor) → P c → Q c) → (r : Round) → IsRound P r → IsRound Q r
  IsRound-weaken f (again c w text) (p, v) = (f c p, v)
  IsRound-weaken f (exits code w text) v = v
  IsRound-weaken f (dies assertion) v = v
  IsRound-weaken f (dies overrun) v = v
  IsRound-weaken f (dies null_read) v = v

  with_text-IsRound :
      (P : Cursor → Type 0) (text : List Item) (r : Round)
      → IsRound P r
      → IsRound P (with_text out s secs usecs text r)
  with_text-IsRound P text (again c w t) v = v
  with_text-IsRound P text (exits code w t) v = v
  with_text-IsRound P text (dies assertion) v = v
  with_text-IsRound P text (dies overrun) v = v
  with_text-IsRound P text (dies null_read) v = v

  after_header-IsRound :
      (cnt dir : ℕ) (word : ℕ → ℕ) (c : Cursor) (rh_len : ℕ) (ids : Option (ℕ × ℕ)) (w : World)
      → IsRunning w
      → rh_len < 2 ^ 31
      → IsRound (Moves c) (after_header out s secs usecs cnt dir word c rh_len ids w)
  unfolding after_header
  after_header-IsRound cnt dir word c₀ rh_len ids w v small =
      let c = record c₀ { consumed = add32 c₀.consumed rh_len } in
      elim (Bool-cases (c.consumed == c.tot_len && (dir == 0 && word 5 == 0))) [
        | inl null_call ↦ rw null_call ((refl, inl (ground arith)), v)
        | inr real ↦ elim (Bool-cases (leb c.tot_len c.consumed)) [
          | inl truncated ↦ rw (real, truncated) v
          | inr payload ↦ elim (Bool-cases (dir == 0)) [
            | inl call ↦
                rw (real, payload, call)
                  (IsRound-weaken (λ c' (same, at). (same, inr (at ∙ omega arith))) _
                    (call_message-IsRound cnt word c rh_len ids w v))
            | inr reply ↦
                rw (real, payload, reply)
                  (IsRound-weaken (λ c' (same, at). (same, inr (at ∙ omega arith))) _
                    (reply_message-IsRound cnt word c rh_len ids w v))
          ]
        ]
      ]

  dispatch-IsRound :
      (cnt dir : ℕ) (word : ℕ → ℕ) (c : Cursor) (ids : Option (ℕ × ℕ)) (rh : Option ℕ) (w : World)
      → IsRunning w
      → IsRound (Moves c) (dispatch out s secs usecs cnt dir word c ids rh w)
  unfolding dispatch
  dispatch-IsRound cnt dir word c ids none w v = v
  dispatch-IsRound cnt dir word c ids (some rh_len) w v = elim (Bool-cases (rh_len == 0)) [
    | inl zero ↦ rw zero v
    | inr some_len ↦ elim (Bool-cases (leb (2 ^ 31) rh_len)) [
      | inl negative ↦ rw (some_len, negative) v
      | inr positive ↦
          rw (some_len, positive)
            (after_header-IsRound cnt dir word c rh_len ids w v (ground arith))
    ]
  ]

  -- A message of any content keeps both tables as they must be, fails no assertion, and moves the
  -- cursor to the end of its payload.
  pub rpc_message-IsRound :
      (cnt : ℕ) (c : Cursor) (w : World)
      → IsRunning w
      → IsRound (Moves c) (rpc_message out s secs usecs cnt c w)
  unfolding rpc_message
  rpc_message-IsRound cnt c w v =
      let (dir, h) = get_rpc_header (words_at c) (sub32 c.tot_len c.consumed) in
      with_text-IsRound (Moves c) h.text
        (dispatch out s secs usecs cnt dir (words_at c) c h.ids h.result w)
        (dispatch-IsRound cnt dir (words_at c) c h.ids h.result w v)
