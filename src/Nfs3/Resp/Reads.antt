-- ===== src/Nfs3/Resp/Reads.antt =====
-- How far the responses of nfsdump2/nfs_v3.c read.
pub mod Parts
use mathlib.Core.Path.{subst}
use nfsdump.Nfs3.Attr.Sizes.{fattr3-Fixed}
use nfsdump.Nfs3.Attr.Wcc.{wcc_data3-safe}
use nfsdump.Nfs3.Attr.{
  unless_past, flagged, print_fattr3, print_post_op_attr3, print_post_op_fh3, print_wcc_data3,
}
use nfsdump.Nfs3.Resp.Reads.Parts.{
  fixed, u32-Bounded, stable3-Bounded, flagged-Bounded, any_flagged-Bounded, post_op-Bounded,
  after_attr, post_op-Is, wcc-Bounded,
}
use nfsdump.Nfs3.Resp.Returns.{wcc_first, Intact, Intact-of, nfs_v3_print_resp-returns}
use nfsdump.Nfs3.Resp.{
  Decoders, resp_head3, mnt3, is_known3, made3, read_rest3, write_rest3, listing3, resp_results3,
  resp_body3, resp_tally3, nfs_v3_print_resp,
}
use nfsdump.Nfs3.Wire.Names.{IsName, IsHandle, fn3-Bounded, fh3-Bounded}
use nfsdump.Nfs3.Wire.Sizes.{uint32-Fixed}
use nfsdump.Nfs3.Wire.{print_uint32, print_stable3, print_fh3}
use nfsdump.Prelude.{
  ℕ, ◌+◌, ◌*◌, ◌<◌, ◌≤◌, ◌≡◌, ◌⊎◌, refl, Bool, true, false, ◌&&◌, not, Option, none, some, List, [],
  ◌∷◌, All, ltb, leb, ◌==◌, ==→eq, if◌then◌else◌, u32_mod, arith, inl, inr, Bool-cases,
}
use nfsdump.Print.Fixed.{Fixed, Gives}
use nfsdump.Print.Near.{
  Near, Bounded, Any, Is, Gives-some, Gives-none, after-Near, ◌▷◌, say-Bounded, skip-Bounded,
  if-Bounded, forget, widen, Fixed-Any, Fixed-Is, Reaches, finish-Reaches,
}
use nfsdump.Print.{Printer, Step, Emit, emit, lit, quiet, step, say, said, ◌⟫◌, returned}
use nfsdump.Stats.{Tally}
use nfsdump.Text.{Host}

module _ (word : ℕ → ℕ) (e : ℕ) where
  -- Where the lengths of the handles and of the name of a response stand, if they are captured.
  abbrev pub handles3 : (status op : ℕ) → List ℕ
  handles3 status op =
      if not (status == 0)
      then []
      else if op == 3
      then 0 ∷ []
      else if op == mnt3
      then 0 ∷ []
      else if leb 8 op && leb op 11
      then (if word 0 == 0 then [] else 1 ∷ [])
      else []

  abbrev pub names3 : (status op : ℕ) → List ℕ
  names3 status op =
      if not (status == 0) then [] else if op == 5 then after_attr word e ∷ [] else []

  made_at : (k : ℕ) → 8 ≤ k → k ≤ 11 → (word 0 == 0) ≡ false → handles3 0 k ≡ 1 ∷ []
  made_at k lo hi set =
      let no_lookup : (k == 3) ≡ false = ground arith in
      let no_mount : (k == mnt3) ≡ false = ground arith in
      let makes : (leb 8 k && leb k 11) ≡ true = ground arith in
      rw (no_lookup, no_mount, makes, set) refl

  module _ (host : Host) where
    -- A handle that is not captured, or would end below the address 2 ^ 32.
    abbrev pub HandleStays : ℕ → Type 0
    HandleStays i = i < e → IsHandle host word i

    abbrev pub NameStays : ℕ → Type 0
    NameStays i = i < e → IsName host word i

    module _ (xdr : Decoders) (below : host.address word + 4 * e < u32_mod) where
      made3-Bounded :
          ((word 0 == 0) ≡ false → HandleStays 1)
          → Bounded (e + 2) (Is 0) Any (made3 word e host xdr)
      unfolding made3 print_post_op_fh3
      made3-Bounded handle =
          say-Bounded true _
          ▷ flagged-Bounded word e true 0 {Q = Any} (λ z. tt)
              (λ s. widen (omega arith) (fh3-Bounded host word e below 1 (handle s)))
          ▷ post_op-Bounded word e true

      made_handle :
          (k : ℕ)
          → 8 ≤ k
          → k ≤ 11
          → (word 0 == 0) ≡ false
          → All HandleStays (handles3 0 k)
          → HandleStays 1
      made_handle k lo hi set handles =
          (subst (λ l. All HandleStays l) (made_at k lo hi set) handles).0

      listing3-Bounded :
          (plus : Bool) (status : ℕ)
          → Bounded (e + 2) (Is 0) Any (listing3 word e host xdr plus status)
      unfolding listing3
      listing3-Bounded plus status = post_op-Bounded word e true ▷ say-Bounded _ _

      if_ok :
          (status : ℕ) {P : ℕ → Type 0} {f : Printer}
          → (status ≡ 0 → Bounded (e + 2) P Any f)
          → Bounded (e + 2) P Any (if status == 0 then f else (λ p. step p quiet))
      if_ok status v =
          if-Bounded (status == 0) (λ ok. v (==→eq status 0 ok))
            (λ _. skip-Bounded quiet (omega arith))

      resp_results3-Bounded :
          (status op : ℕ)
          → Intact word e status op
          → All HandleStays (handles3 status op)
          → All NameStays (names3 status op)
          → Bounded (e + 2) (Is 0) Any (resp_results3 word e host xdr status op)
      unfolding resp_results3 read_rest3 write_rest3
      resp_results3-Bounded status op intact handles names =
          let fh : HandleStays 0
              → Bounded (e + 2) (Is 0) Any
                  (say true (lit "fh " ∷ []) ⟫ print_fh3 word e true host) =
            λ h. say-Bounded true _ ▷ widen (omega arith) (fh3-Bounded host word e below 0 h) in
          let at : (k : ℕ) → status ≡ 0 → (op == k) ≡ true → All HandleStays (handles3 0 k) =
            λ k ok h.
              subst (λ s. All HandleStays (handles3 s k)) ok
                (subst (λ o. All HandleStays (handles3 status o)) (==→eq op k h) handles) in
          let name : status ≡ 0 → (op == 5) ≡ true → NameStays (after_attr word e) = λ ok h.
            (subst (λ s. All NameStays (names3 s 5)) ok
              (subst (λ o. All NameStays (names3 status o)) (==→eq op 5 h) names)).0 in
          let made : (k : ℕ)
              → (op == k) ≡ true
              → (8 ≤ k)
              → (k ≤ 11)
              → Bounded (e + 2) (Is 0) Any
                  (if status == 0 then made3 word e host xdr else (λ p. step p quiet)) =
            λ k h lo hi.
              if_ok status (λ ok. made3-Bounded (λ set. made_handle k lo hi set (at k ok h))) in
          if-Bounded (op == 1) (λ _. if_ok status (λ _. fixed word e (fattr3-Fixed word e true)))
            λ _.
              if-Bounded (op == 2)
                (λ h. if_ok status (λ ok. wcc-Bounded word e (intact (ground arith))))
                λ _.
                  if-Bounded (op == 3)
                    (λ h. if_ok status (λ ok.
                      fh (at 3 ok h).0
                      ▷ post_op-Bounded word e true
                      ▷ post_op-Bounded word e false))
                    λ _.
                      if-Bounded (op == 4)
                        (λ h.
                          post_op-Bounded word e false
                          ▷ if_ok status (λ _. say-Bounded true _ ▷ u32-Bounded word e))
                        λ _.
                          if-Bounded (op == 5)
                            (λ h.
                              post_op-Is word e
                              ▷ if_ok status (λ ok.
                                say-Bounded true _
                                ▷ forget (
                                    widen (omega arith) (
                                      fn3-Bounded host word e below (after_attr word e)
                                        (name ok h)))))
                            λ _.
                              if-Bounded (op == 6)
                                (λ h.
                                  post_op-Bounded word e true
                                  ▷ if_ok status (λ _.
                                    say-Bounded true _
                                    ▷ u32-Bounded word e
                                    ▷ say-Bounded true _
                                    ▷ u32-Bounded word e))
                                λ _.
                                  if-Bounded (op == 7)
                                    (λ h.
                                      wcc-Bounded word e (intact (ground arith))
                                      ▷ if_ok status (λ _.
                                        say-Bounded true _
                                        ▷ u32-Bounded word e
                                        ▷ say-Bounded true _
                                        ▷ stable3-Bounded word e))
                                    λ _.
                                      if-Bounded (op == 8)
                                        (λ h. made 8 h (omega arith) (omega arith))
                                        λ _.
                                          if-Bounded (op == 9)
                                            (λ h. made 9 h (omega arith) (omega arith))
                                            λ _.
                                              if-Bounded (op == 10)
                                                (λ h. made 10 h (omega arith) (omega arith))
                                                λ _.
                                                  if-Bounded (op == 11)
                                                    (λ h. made 11 h (omega arith) (omega arith))
                                                    λ _.
                                                      if-Bounded (op == 12)
                                                        (λ h.
                                                          wcc-Bounded word e
                                                            (intact (ground arith)))
                                                        λ _.
                                                          if-Bounded (op == 13)
                                                            (λ h.
                                                            wcc-Bounded word e
                                                            (intact (ground arith)))
                                                            λ _.
                                                            if-Bounded (op == 16)
                                                            (λ h. listing3-Bounded false status)
                                                            λ _.
                                                            if-Bounded (op == 17)
                                                            (λ h. listing3-Bounded true status)
                                                            λ _.
                                                            if-Bounded (op == 21)
                                                            (λ h.
                                                            wcc-Bounded word e
                                                            (intact (ground arith)))
                                                            λ _.
                                                            if-Bounded (op == mnt3)
                                                            (λ h.
                                                            if_ok status
                                                            (λ ok. fh (at mnt3 ok h).0))
                                                            λ _. skip-Bounded quiet (omega arith)

      resp-Reaches :
          (count₀ op xid status : ℕ) (t : Tally)
          → Intact word e status op
          → All HandleStays (handles3 status op)
          → All NameStays (names3 status op)
          → Reaches (e + 2) (nfs_v3_print_resp word e host xdr count₀ op xid status t)
      unfolding nfs_v3_print_resp resp_body3 say
      resp-Reaches count₀ op xid status t intact handles names =
          let body : Bounded (e + 2) (Is 0) Any (resp_body3 word e host xdr status op) =
            if-Bounded (is_known3 op && not (op == 0))
              (λ _. say-Bounded true _ ▷ resp_results3-Bounded status op intact handles names)
              (λ _. skip-Bounded quiet (omega arith)) in
          finish-Reaches (e + 2) _ false _ _ (
            after-Near (e + 2) Any (said (resp_head3 op xid)) _ (omega arith) (body.on_word 0 refl))

      -- A response whose handle and name, if it prints them and they are captured, would end below
      -- the address 2 ^ 32, as the payload does, where the name has a length that is not 0 nor among
      -- the three largest 32-bit numbers: it returns, with the counters of its operation, having read
      -- at most two words past the payload, unless its results begin with a `wcc_data` whose first
      -- flag is set and whose first part, seven words, is cut off.
      pub nfs_v3_print_resp-reads :
          (count₀ op xid status : ℕ) (t : Tally)
          → (wcc_first status op ≡ false) ⊎ (word 0 ≡ 0) ⊎ (7 ≤ e)
          → All HandleStays (handles3 status op)
          → All NameStays (names3 status op)
          → (rc : Bool) × (a : Emit) × (nfs_v3_print_resp word e host xdr count₀ op xid status t
              ≡ returned rc (resp_tally3 word e host xdr count₀ status op t) a)
            × (a.reach ≤ e + 2)
      nfs_v3_print_resp-reads count₀ op xid status t whole handles names =
          let (rc, a, done) =
            nfs_v3_print_resp-returns word e host xdr count₀ op xid status t whole in
          (
            rc,
            a,
            done,
            subst (Reaches (e + 2)) done (
                resp-Reaches count₀ op xid status t (Intact-of word e status op whole) handles
                  names),
          )
