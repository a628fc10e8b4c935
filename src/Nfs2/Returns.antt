-- ===== src/Nfs2/Returns.antt =====
-- The messages of version 2 read nothing through NULL, and their counters add up.
use nfsdump.Nfs2.Call.{ops2, write_head2, call_args2, call_tally2, nfs_v2_print_call}
use nfsdump.Nfs2.Resp.{resp_ok2, resp_body2, resp_tally2, nfs_v2_print_resp, no_status2}
use nfsdump.Nfs2.{
  print_opaque, print_fh2, print_cookie2, print_sattr2, print_fn2, print_diropargs2, print_fattr2,
  print_statfsokres2, print_diropokres2,
}
use nfsdump.Nfs3.Wire.Totals.{uint32-Total, fn3-Total}
use nfsdump.Prelude.{ℕ, ◌<◌, ◌+◌, true, ◌≡◌, String, ltb, ◌==◌, ◌&&◌, arith, inl, inr, Bool-cases}
use nfsdump.Print.Total.{Total, ◌⨟◌, say-Total, skip-Total, if-Total, message-returns}
use nfsdump.Print.{Emit, returned}
use nfsdump.Stats.Sums.{AddsUp, count_known-AddsUp, count_unknown-AddsUp, count_bytes-AddsUp}
use nfsdump.Stats.{Tally, count_known}
use nfsdump.Text.{Host}

module _ (word : ℕ → ℕ) (e : ℕ) where
  opaque-Total : (n : ℕ) → Total (print_opaque word e true n)
  unfolding print_opaque
  opaque-Total n = record { on_null = tt; on_word = λ i. ground arith }

  fh2-Total : (s : String) → Total (print_fh2 word e true s)
  unfolding print_fh2
  fh2-Total s = say-Total true _ ⨟ opaque-Total 8

  cookie2-Total : Total (print_cookie2 word e true)
  unfolding print_cookie2
  cookie2-Total = say-Total true _ ⨟ opaque-Total 1

  sattr2-Total : Total (print_sattr2 word e true)
  unfolding print_sattr2
  sattr2-Total = record {
    on_null = tt;
    on_word = λ i. elim (Bool-cases (ltb e (i + 8))) [ inl h ↦ rw h tt | inr h ↦ rw h tt ];
  }

  fattr2-Total : Total (print_fattr2 word e true)
  unfolding print_fattr2
  fattr2-Total = record {
    on_null = tt;
    on_word = λ i. elim (Bool-cases (ltb e (i + 17))) [ inl h ↦ rw h tt | inr h ↦ rw h tt ];
  }

  statfs2-Total : Total (print_statfsokres2 word e true)
  unfolding print_statfsokres2
  statfs2-Total = record {
    on_null = tt;
    on_word = λ i. elim (Bool-cases (ltb e (i + 5))) [ inl h ↦ rw h tt | inr h ↦ rw h tt ];
  }

  diropok2-Total : Total (print_diropokres2 word e true)
  unfolding print_diropokres2
  diropok2-Total = record {
    on_null = tt;
    on_word = λ i. elim (Bool-cases (ltb e i)) [
      | inl h ↦ rw h tt
      | inr h ↦ rw h ((fh2-Total "fh" ⨟ fattr2-Total).on_word i)
    ];
  }

  module _ (host : Host) where
    fn2-Total : (s : String) → Total (print_fn2 word e true host s)
    unfolding print_fn2
    fn2-Total s = say-Total true _ ⨟ fn3-Total word e true host

    dirop2-Total : (s s' : String) → Total (print_diropargs2 word e true host s s')
    unfolding print_diropargs2
    dirop2-Total s s' = fh2-Total s ⨟ fn2-Total s'

    write_head2-Total : Total (write_head2 word e host)
    unfolding write_head2
    write_head2-Total =
        fh2-Total "fh"
        ⨟ say-Total true _
        ⨟ uint32-Total word e true
        ⨟ say-Total true _
        ⨟ uint32-Total word e true
        ⨟ say-Total true _

    call_args2-Total : (op : ℕ) → Total (call_args2 word e host op)
    unfolding call_args2
    call_args2-Total op =
        let fh = fh2-Total "fh" in
        let dirop = dirop2-Total "fh" "fn" in
        let sattr = sattr2-Total in
        let u32 = uint32-Total word e true in
        if-Total (op == 1) fh (
          if-Total (op == 2) (fh ⨟ sattr) (
            if-Total (op == 4) dirop (
              if-Total (op == 5) fh (
                if-Total (op == 6)
                  (fh ⨟ say-Total true _ ⨟ u32 ⨟ say-Total true _ ⨟ u32 ⨟ say-Total true _ ⨟ u32)
                  (if-Total (op == 8) (write_head2-Total ⨟ u32) (
                    if-Total (op == 9) (dirop ⨟ sattr) (
                      if-Total (op == 10) dirop (
                        if-Total (op == 11) (dirop ⨟ dirop2-Total "fh2" "fn2") (
                          if-Total (op == 12) (fh ⨟ dirop2-Total "fh2" "fn") (
                            if-Total (op == 13) (dirop ⨟ fn2-Total "fn2" ⨟ sattr) (
                              if-Total (op == 14) (dirop ⨟ sattr) (
                                if-Total (op == 15) dirop (
                                  if-Total (op == 16) (fh ⨟ cookie2-Total ⨟ say-Total true _ ⨟ u32)
                                    (if-Total (op == 17) fh (skip-Total _)))))))))))))))

    resp_ok2-Total : (op : ℕ) → Total (resp_ok2 word e host op)
    unfolding resp_ok2
    resp_ok2-Total op =
        let stat = say-Total true _ ⨟ uint32-Total word e true in
        let fattr = fattr2-Total in
        let dirop = diropok2-Total in
        if-Total (op == 1) fattr (
          if-Total (op == 2) fattr (
            if-Total (op == 4) dirop (
              if-Total (op == 5) (fn2-Total "fn") (
                if-Total (op == 6) (fattr ⨟ say-Total true _ ⨟ uint32-Total word e true) (
                  if-Total (op == 8) fattr (
                    if-Total (op == 9) dirop (
                      if-Total (op == 10) stat (
                        if-Total (op == 11) stat (
                          if-Total (op == 12) stat (
                            if-Total (op == 13) stat (
                              if-Total (op == 14) dirop (
                                if-Total (op == 15) stat
                                  (if-Total (op == 17) statfs2-Total (skip-Total _))))))))))))))

    resp_body2-Total : (status op : ℕ) → Total (resp_body2 word e host status op)
    unfolding resp_body2
    resp_body2-Total status op =
        if-Total (no_status2 op) (skip-Total _)
          (say-Total true _ ⨟ if-Total (status == 0) (resp_ok2-Total op) (skip-Total _))

    module _ (count₀ op xid : ℕ) (t : Tally) (sums : AddsUp ops2 t) where
      call_tally2-AddsUp : op < ops2 → AddsUp ops2 (call_tally2 word e host count₀ op t)
      unfolding call_tally2
      call_tally2-AddsUp h =
          let known = count_known-AddsUp ops2 op t h sums in
          elim (Bool-cases (op == 8)) [
            | inl is_write ↦ rw is_write (count_bytes-AddsUp ops2 _ (count_known op t) known)
            | inr other ↦ rw other known
          ]

      resp_tally2-AddsUp :
          (status : ℕ) → op < ops2 → AddsUp ops2 (resp_tally2 word e host count₀ status op t)
      unfolding resp_tally2
      resp_tally2-AddsUp status h =
          let known = count_known-AddsUp ops2 op t h sums in
          elim (Bool-cases (op == 6 && status == 0)) [
            | inl is_read ↦ rw is_read (count_bytes-AddsUp ops2 _ (count_known op t) known)
            | inr other ↦ rw other known
          ]

      -- A call is not `crashed`, whatever its payload holds, and has the result 0 for a known operation
      -- and -1 for any other;
      -- if the total of the calls was the sum of the operations' counters and of the unknown one, it
      -- still is.
      pub nfs_v2_print_call-returns :
          (t' : Tally) × (a : Emit) × (nfs_v2_print_call word e host count₀ op xid t
            ≡ returned (ltb op ops2) t' a)
          × AddsUp ops2 t'
      unfolding nfs_v2_print_call
      nfs_v2_print_call-returns =
          message-returns (AddsUp ops2) (ltb op ops2) _ _ _ _ _
            ((say-Total true _ ⨟ say-Total true _ ⨟ call_args2-Total op).on_word 0)
            (λ h. call_tally2-AddsUp (ground arith)) (λ _. count_unknown-AddsUp ops2 t sums)

      -- A response is not `crashed`, whatever its payload holds, and has the result 0 for a known
      -- operation and -1 for any other; if the total of the responses was the sum of their counters, it still is.
      pub nfs_v2_print_resp-returns :
          (status : ℕ)
          → (t' : Tally) × (a : Emit) × (nfs_v2_print_resp word e host count₀ op xid status t
              ≡ returned (ltb op ops2) t' a)
            × AddsUp ops2 t'
      unfolding nfs_v2_print_resp
      nfs_v2_print_resp-returns status =
          message-returns (AddsUp ops2) (ltb op ops2) _ _ _ _ _
            ((say-Total true _ ⨟ say-Total true _ ⨟ resp_body2-Total status op).on_word 0)
            (λ h. resp_tally2-AddsUp status (ground arith)) (λ _. count_unknown-AddsUp ops2 t sums)
