-- ===== src/Nfs3/Resp/Returns.antt =====
-- When the responses of version 3 read through NULL, and when they do not.
use nfsdump.Nfs3.Attr.Sizes.{fattr3-Fixed}
use nfsdump.Nfs3.Attr.Wcc.{wcc_data3-safe, wcc_data3-crashes}
use nfsdump.Nfs3.Attr.{
  unless_past, flagged, print_post_op_attr3, print_post_op_fh3, print_wcc_data3,
}
use nfsdump.Nfs3.Resp.{
  Decoders, resp_head3, short_packet, mnt3, is_known3, status_text, skip, made3, read_rest3,
  write_rest3, listing3, resp_results3, resp_body3, resp_tally3, nfs_v3_print_resp,
}
use nfsdump.Nfs3.Wire.Totals.{uint32-Total, fh3-Total, stable3-Total, fn3-Total}
use nfsdump.Prelude.{
  ℕ, ◌+◌, ◌≤◌, ◌<◌, ◌≡◌, ◌≢◌, ◌⊎◌, ap, inl, inr, Bool, true, false, ◌&&◌, ◌||◌, not, Option, [],
  some, ltb, ◌==◌, if◌then◌else◌, Bool-cases, arith,
}
use nfsdump.Print.Fixed.{Fixed, Gives}
use nfsdump.Print.Total.{
  Completes, Total, ◌⨟◌, say-Total, skip-Total, if-Total, after-Completes, At, Total-At, ◌⨠◌,
  say-At, if-At, finish-returns_some,
}
use nfsdump.Print.{
  Step, segv, Printer, quiet, emit, said, after, continue_with, finish, say, returned, crashed,
  Emit,
}
use nfsdump.Stats.{Tally}
use nfsdump.Text.{Host}

if-Completes : (s r : Step) (b : Bool) → Completes s → Completes r → Completes (if b then s else r)
if-Completes s r true h h' = h
if-Completes s r false h h' = h'

-- Whether the response begins with `wcc_data`.
abbrev pub wcc_first : (status op : ℕ) → Bool
wcc_first status op = op == 7 || (op == 12 || (op == 13 || (op == 21 || (op == 2 && status == 0))))

wcc_cases :
    (status op : ℕ)
    → wcc_first status op ≡ true
    → (op ≡ 7) ⊎ (op ≡ 12) ⊎ (op ≡ 13) ⊎ (op ≡ 21) ⊎ ((op ≡ 2) × (status ≡ 0))
wcc_cases status op h = ground arith

Gives-Completes : {b : ℕ} {p : Option ℕ} {s : Step} → Gives b p s → Completes s
Gives-Completes v = rw v.result tt

Fixed-Total : {e size need : ℕ} {f : Printer} → Fixed e size need f → Total f
Fixed-Total {e} {size} {need} v = record {
  on_null = Gives-Completes v.on_null;
  on_word = λ i. elim (Bool-cases (ltb e (i + need))) [
    | inl short ↦ Gives-Completes (v.short i (ground arith))
    | inr fits ↦ Gives-Completes (v.whole i (ground arith))
  ];
}

module _ (word : ℕ → ℕ) (e : ℕ) where
  flagged-Total :
      (print : Bool) {f : Printer} → Total f → Total (unless_past e (flagged word e print f))
  flagged-Total print {f} t = record {
    on_null = tt;
    on_word = λ i. elim (Bool-cases (ltb e i)) [
      | inl past ↦ rw past tt
      | inr within ↦ rw within (
          after-Completes (emit [] (i + 1)) _
            (if-Completes _ _ (word i == 0) tt (t.on_word (i + 1))))
    ];
  }

  post_op-Total : (print : Bool) → Total (print_post_op_attr3 word e print)
  unfolding print_post_op_attr3
  post_op-Total print = flagged-Total print (Fixed-Total (fattr3-Fixed word e print))

  wcc-At : (word 0 ≡ 0) ⊎ (7 ≤ e) → At (some 0) (print_wcc_data3 word e true)
  wcc-At intact = record {
    completes = Gives-Completes (wcc_data3-safe word e true 0 (omega arith) (regroup intact)).1;
  }
    where
      regroup : (word 0 ≡ 0) ⊎ (7 ≤ e) → (word 0 ≡ 0) ⊎ (0 + 7 ≤ e)
      regroup h = h

  -- What keeps the first half of a leading `wcc_data` from being cut off.
  abbrev pub Intact : (status op : ℕ) → Type 0
  Intact status op = wcc_first status op ≡ true → (word 0 ≡ 0) ⊎ (7 ≤ e)

  pub Intact-of :
      (status op : ℕ) → (wcc_first status op ≡ false) ⊎ (word 0 ≡ 0) ⊎ (7 ≤ e) → Intact status op
  Intact-of status op (inl other) first = cc
  Intact-of status op (inr whole) first = whole

  module _ (host : Host) (xdr : Decoders) where
    made3-Total : Total (made3 word e host xdr)
    unfolding made3 print_post_op_fh3
    made3-Total =
        say-Total true _ ⨟ flagged-Total true (fh3-Total word e true host) ⨟ post_op-Total true

    listing3-Total : (plus : Bool) (status : ℕ) → Total (listing3 word e host xdr plus status)
    unfolding listing3
    listing3-Total plus status = post_op-Total true ⨟ say-Total _ _

    resp_results3-At :
        (status op : ℕ) → Intact status op → At (some 0) (resp_results3 word e host xdr status op)
    unfolding resp_results3 read_rest3 write_rest3
    resp_results3-At status op intact =
        let u32 = uint32-Total word e true in
        let fh = say-Total true _ ⨟ fh3-Total word e true host in
        let if_ok = λ (f : Printer) (t : Total f). if-Total (status == 0) t (skip-Total quiet) in
        if-At (op == 1) (λ _. Total-At (if_ok _ (Fixed-Total (fattr3-Fixed word e true))))
          λ _.
            if-At (op == 2)
              (λ h.
                if-At (status == 0) (λ ok. wcc-At (intact (ground arith)))
                  (λ _. Total-At (skip-Total quiet)))
              λ _.
                if-At (op == 3)
                  (λ _. Total-At (if_ok _ (fh ⨟ post_op-Total true ⨟ post_op-Total false)))
                  λ _.
                    if-At (op == 4)
                      (λ _. Total-At (post_op-Total false ⨟ if_ok _ (say-Total true _ ⨟ u32)))
                      λ _.
                        if-At (op == 5)
                          (λ _. Total-At (
                            post_op-Total false
                            ⨟ if_ok _ (say-Total true _ ⨟ fn3-Total word e true host)))
                          λ _.
                            if-At (op == 6)
                              (λ _. Total-At (
                                post_op-Total true
                                ⨟ if_ok _ (say-Total true _ ⨟ u32 ⨟ say-Total true _ ⨟ u32)))
                              λ _.
                                if-At (op == 7)
                                  (λ h.
                                    wcc-At (intact (ground arith))
                                    ⨠ if_ok _ (
                                        say-Total true _
                                        ⨟ u32
                                        ⨟ say-Total true _
                                        ⨟ stable3-Total word e true))
                                  λ _.
                                    if-At (op == 8) (λ _. Total-At (if_ok _ made3-Total))
                                      λ _.
                                        if-At (op == 9) (λ _. Total-At (if_ok _ made3-Total))
                                          λ _.
                                            if-At (op == 10) (λ _. Total-At (if_ok _ made3-Total))
                                              λ _.
                                                if-At (op == 11)
                                                  (λ _. Total-At (if_ok _ made3-Total))
                                                  λ _.
                                                    if-At (op == 12)
                                                      (λ h. wcc-At (intact (ground arith)))
                                                      λ _.
                                                        if-At (op == 13)
                                                          (λ h. wcc-At (intact (ground arith)))
                                                          λ _.
                                                            if-At (op == 16)
                                                            (λ _.
                                                            Total-At (listing3-Total false status))
                                                            λ _.
                                                            if-At (op == 17)
                                                            (λ _.
                                                            Total-At (listing3-Total true status))
                                                            λ _.
                                                            if-At (op == 21)
                                                            (λ h. wcc-At (intact (ground arith)))
                                                            λ _.
                                                            if-At (op == mnt3)
                                                            (λ _. Total-At (if_ok _ fh))
                                                            (λ _. Total-At (skip-Total quiet))

    resp_body3-At :
        (status op : ℕ) → Intact status op → At (some 0) (resp_body3 word e host xdr status op)
    unfolding resp_body3
    resp_body3-At status op intact =
        if-At (is_known3 op && not (op == 0))
          (λ _. say-At true (status_text status) (resp_results3-At status op intact))
          (λ _. Total-At (skip-Total quiet))

    -- The response, from the text in front of its body on.
    resp-Completes :
        (a : Emit) (status op : ℕ)
        → Intact status op
        → Completes (after a (resp_body3 word e host xdr status op (some 0)))
    resp-Completes a status op intact =
        after-Completes a _ (resp_body3-At status op intact).completes

    -- A response is not `crashed`, and has the counters of its operation, unless its results begin with a
    -- `wcc_data` whose first flag is set and whose first part, seven words, is cut off.
    pub nfs_v3_print_resp-returns :
        (count₀ op xid status : ℕ) (t : Tally)
        → (wcc_first status op ≡ false) ⊎ (word 0 ≡ 0) ⊎ (7 ≤ e)
        → (rc : Bool) × (a : Emit) × (nfs_v3_print_resp word e host xdr count₀ op xid status t
            ≡ returned rc (resp_tally3 word e host xdr count₀ status op t) a)
    unfolding nfs_v3_print_resp say
    nfs_v3_print_resp-returns count₀ op xid status t whole =
        finish-returns_some short_packet false (resp_tally3 word e host xdr count₀ status op t) _
          (resp-Completes (said (resp_head3 op xid)) status op (Intact-of status op whole))

    cut_off-segv :
        (status op : ℕ)
        → wcc_first status op ≡ true
        → print_wcc_data3 word e true (some 0) ≡ segv
        → resp_body3 word e host xdr status op (some 0) ≡ segv
    unfolding resp_body3 resp_results3 say
    cut_off-segv status op first dead = go (wcc_cases status op first)
      where
        go :
            (op ≡ 7) ⊎ (op ≡ 12) ⊎ (op ≡ 13) ⊎ (op ≡ 21) ⊎ ((op ≡ 2) × (status ≡ 0))
            → resp_body3 word e host xdr status op (some 0) ≡ segv
        go (inl h) = rw h (
            ap
              (λ s.
                after (said (status_text status))
                  (continue_with s (if status == 0 then write_rest3 word e host xdr else skip)))
              dead)
        go (inr (inl h)) = rw h (ap (after (said (status_text status))) dead)
        go (inr (inr (inl h))) = rw h (ap (after (said (status_text status))) dead)
        go (inr (inr (inr (inl h)))) = rw h (ap (after (said (status_text status))) dead)
        go (inr (inr (inr (inr (h, ok))))) = rw (h, ok) (ap (after (said (status_text 0))) dead)

    -- In the other case, an operation whose results begin with a `wcc_data` that has its first flag
    -- set and fewer than seven captured words, the process reads through NULL.
    pub nfs_v3_print_resp-crashes :
        (count₀ op xid status : ℕ) (t : Tally)
        → wcc_first status op ≡ true
        → word 0 ≢ 0
        → e < 7
        → nfs_v3_print_resp word e host xdr count₀ op xid status t ≡ crashed
    unfolding nfs_v3_print_resp say
    nfs_v3_print_resp-crashes count₀ op xid status t first is_set cut =
        let dead = wcc_data3-crashes word e true 0 (omega arith) is_set cut in
        ap
          (λ s.
            finish short_packet false (resp_tally3 word e host xdr count₀ status op t)
              (after (said (resp_head3 op xid)) s))
          (cut_off-segv status op first dead)
