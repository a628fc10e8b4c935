-- ===== src/Packet/Message/Matches.antt =====
-- A reply is decoded by the version and the procedure of its call.
use nfsdump.Nfs2.Call.{ops2}
use nfsdump.Nfs2.Returns.{nfs_v2_print_call-returns}
use nfsdump.Nfs3.Call.{nfs_v3_print_call}
use nfsdump.Packet.Message.{
  Round, again, end_message, payload_of, words_at, call_proc, call_message, after_status, status_at,
  not_accepted, matched_reply, reply_message, record_of,
}
use nfsdump.Packet.Record.Keeps.{IsRunning}
use nfsdump.Packet.Record.{
  Outside, World, NfsRecord, Printed, record_head, print_call, print_record,
}
use nfsdump.Packet.Reassembly.{Cursor}
use nfsdump.Packet.{Segment}
use nfsdump.Prelude.{
  ℕ, ◌-◌, ◌/◌, ◌^◌, ◌≤◌, ◌<◌, ◌≡◌, refl, ap, Bool, true, false, inl, inr, Bool-cases, Option, some,
  List, All, ◌==◌, if◌then◌else◌, add32, sub32,
}
use nfsdump.Print.{Item}
use nfsdump.Stats.Sums.{AddsUp}
use nfsdump.Table.View.{view}
use nfsdump.Table.{max_age}
use nfsdump.XidTable.Laws.{hash_lookup_xid-hash_insert_xid}
use nfsdump.XidTable.{Caller, XidTable, xid_keying, hash_lookup_xid, new_call}

-- A call's printer returns, and leaves the outstanding calls alone.
abbrev Leaves : World → Printed → Type 0
Leaves w p =
    (w' : World) × (text : List Item) × (p ≡ some (w', text)) × (w'.xid_table ≡ w.xid_table)

module _ (out : Outside) where
  print_call-Leaves :
      (word : ℕ → ℕ) (actual_len : ℕ) (head : List Item) (r : NfsRecord) (w : World)
      → AddsUp ops2 w.calls2
      → Leaves w (print_call out word actual_len head r w)
  unfolding print_call nfs_v3_print_call
  print_call-Leaves word actual_len head r w v = elim (Bool-cases (r.nfs_version == 3)) [
    | inl v3 ↦ rw v3 (_, _, refl, refl)
    | inr other ↦ elim (Bool-cases (r.nfs_version == 2)) [
      | inl v2 ↦
          let (t', a, done, adds) =
            nfs_v2_print_call-returns word (actual_len / 4) out.host out.count₀ r.nfs_proc r.rpc_xid
              w.calls2 v in
          rw (other, v2, done) (_, _, refl, refl)
      | inr neither ↦ rw (other, neither) (_, _, refl, refl)
    ]
  ]

  print_record-Leaves :
      (tcp : Bool) (word : ℕ → ℕ) (payload_len actual_len : ℕ) (r : NfsRecord) (w : World)
      → r.is_call ≡ true
      → AddsUp ops2 w.calls2
      → Leaves w (print_record out tcp word payload_len actual_len r w)
  unfolding print_record
  print_record-Leaves tcp word payload_len actual_len r w call v =
      rw call (print_call-Leaves word actual_len (record_head out tcp r) r w v)

module _ (out : Outside) (s : Segment) (secs usecs : ℕ) where
  -- A call goes on to the next message, with the table it was inserted into.
  abbrev GoesOn : XidTable → Round → Type 0
  GoesOn t r =
      (c' : Cursor) × (w' : World) × (text : List Item) × (r ≡ again c' w' text)
      × (w'.xid_table ≡ t)

  end_message-GoesOn :
      (c : Cursor) (rh_len : ℕ) (print_it : Bool) (ids : Option (ℕ × ℕ)) (r : NfsRecord) (w : World)
      → r.is_call ≡ true
      → AddsUp ops2 w.calls2
      → GoesOn w.xid_table (end_message out s secs usecs c rh_len print_it ids r w)
  unfolding end_message
  end_message-GoesOn c rh_len true ids r w call v =
      let (w', text, done, kept) =
        print_record-Leaves out s.tcp (words_at c) (payload_of out s secs usecs c rh_len)
          (sub32 c.tot_len c.consumed) r w call v in
      rw done (_, _, _, refl, kept)
  end_message-GoesOn c rh_len false ids r w call v = (_, _, _, refl, refl)

  abbrev pub caller_of : (word : ℕ → ℕ) → Caller
  caller_of word = record { xid = word 0; host = s.src_host; port = s.src_port }

  -- The record of a reply to the call with header `word`, and what becomes of it.
  abbrev pub answered :
      (word : ℕ → ℕ) (r : Segment) (secs' usecs' cnt : ℕ) (reply : ℕ → ℕ)
      → Cursor
      → (rh_len : ℕ) → Option (ℕ × ℕ)
      → World
      → Round
  answered word r secs' usecs' cnt reply c rh_len ids w =
      end_message out r secs' usecs' (after_status out r secs' usecs' c) (add32 rh_len 8)
        (if not_accepted out r secs' usecs' reply c then false else out.print_it₀ cnt) ids
        (record_of out r secs' usecs' false (reply 0) (word 4) (call_proc out s secs usecs word)
          (status_at out r secs' usecs' c rh_len))
        (record w {
          xid_table = (hash_lookup_xid secs' (reply 0) r.dst_host r.dst_port w.xid_table).1;
        })

  -- A reply whose lookup finds the call.
  reply_message-found :
      (word : ℕ → ℕ) (r : Segment) (secs' usecs' cnt : ℕ) (reply : ℕ → ℕ) (c : Cursor) (rh_len : ℕ)
      (ids : Option (ℕ × ℕ)) (w : World)
      → (hash_lookup_xid secs' (reply 0) r.dst_host r.dst_port w.xid_table).0
        ≡ some (
            new_call secs (word 0) s.src_host s.src_port (word 4) (call_proc out s secs usecs word))
      → reply_message out r secs' usecs' cnt reply c rh_len ids w
        ≡ answered word r secs' usecs' cnt reply c rh_len ids w
  unfolding reply_message matched_reply
  reply_message-found word r secs' usecs' cnt reply c rh_len ids w found =
      ap
        (λ e. matched_reply out r secs' usecs' cnt reply c rh_len ids e (record w {
          xid_table = (hash_lookup_xid secs' (reply 0) r.dst_host r.dst_port w.xid_table).1;
        }))
        found

  -- A call is printed and its round goes on, whatever its payload holds. If its time is from 30
  -- seconds on and below 2 ^ 32, and no outstanding call of the same transaction, host and port has
  -- aged out, then the next reply of that transaction to that host and port, at any time and of any
  -- content, is decoded by the call's version and procedure, with MOUNT's numbers from 100 on.
  pub reply_message-call_message :
      (cnt : ℕ) (word : ℕ → ℕ) (c : Cursor) (rh_len : ℕ) (ids : Option (ℕ × ℕ)) (w : World)
      → IsRunning w
      → max_age ≤ secs
      → secs < 2 ^ 32
      → All (λ e. secs - max_age ≤ e.call_time) (view xid_keying w.xid_table (caller_of word))
      → (r : Segment) (secs' usecs' cnt' : ℕ) (reply : ℕ → ℕ) (c' : Cursor) (rh' : ℕ)
        (ids' : Option (ℕ × ℕ))
      → reply 0 ≡ word 0
      → r.dst_host ≡ s.src_host
      → r.dst_port ≡ s.src_port
      → (c₁ : Cursor) × (w₁ : World) × (text : List Item) × (call_message out s secs usecs cnt word
            c rh_len ids w
          ≡ again c₁ w₁ text)
        × (reply_message out r secs' usecs' cnt' reply c' rh' ids' w₁
            ≡ answered word r secs' usecs' cnt' reply c' rh' ids' w₁)
  unfolding call_message
  reply_message-call_message cnt word c rh_len ids w v lo hi fresh r secs' usecs' cnt' reply c' rh'
        ids' xid host port =
      let proc = call_proc out s secs usecs word in
      let (t', ran, found) =
        hash_lookup_xid-hash_insert_xid secs (word 0) s.src_host s.src_port (word 4) proc
          w.xid_table v.calls lo hi fresh secs' in
      let (c₁, w₁, text, done, kept) =
        end_message-GoesOn c rh_len (out.print_it₀ cnt) ids
          (record_of out s secs usecs true (word 0) (word 4) proc 0) (record w { xid_table = t' })
          refl v.calls2_add in
      (
        c₁,
        w₁,
        text,
        rw ran done,
        reply_message-found word r secs' usecs' cnt' reply c' rh' ids' w₁
            (rw (xid, host, port, kept) found),
      )
