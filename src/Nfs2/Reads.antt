-- ===== src/Nfs2/Reads.antt =====
-- How far the messages of nfsdump2/nfs_v2.c read.
pub mod Parts
use mathlib.Core.Path.{subst}
use nfsdump.Nfs2.Call.{ops2, write_head2, call_args2, nfs_v2_print_call}
use nfsdump.Nfs2.Resp.{resp_ok2, resp_body2, nfs_v2_print_resp, no_status2, nfsstat2}
use nfsdump.Nfs2.Returns.{nfs_v2_print_call-returns, nfs_v2_print_resp-returns}
use nfsdump.Nfs2.Reads.Parts.{
  fh2-Bounded, u32-Bounded, cookie2-Bounded, fattr2-Bounded, sattr2-Bounded, statfs2-Bounded,
  diropok2-Bounded,
}
use nfsdump.Nfs2.{
  print_fh2, print_cookie2, print_sattr2, print_fn2, print_diropargs2, print_fattr2,
  print_statfsokres2, print_diropokres2,
}
use nfsdump.Nfs3.Wire.Names.{IsName, fn3-Bounded}
use nfsdump.Nfs3.Wire.Sizes.{uint32-Fixed}
use nfsdump.Nfs3.Wire.{print_uint32, padded}
use nfsdump.Prelude.{
  ℕ, ◌+◌, ◌*◌, ◌/◌, ◌<◌, ◌≤◌, ◌≡◌, refl, true, some, List, [], ◌∷◌, All, String, ltb, ◌==◌, ==→eq,
  if◌then◌else◌, u32_mod, arith, inl, inr, Bool-cases,
}
use nfsdump.Print.Near.{
  Bounded, Any, Is, Gives-some, ◌▷◌, say-Bounded, skip-Bounded, if-Bounded, forget, Fixed-Any,
  Fixed-Is, Reaches, finish-Reaches,
}
use nfsdump.Print.{Emit, returned}
use nfsdump.Stats.Sums.{AddsUp}
use nfsdump.Stats.{Tally}
use nfsdump.Text.{Host}

module _ (word : ℕ → ℕ) (e : ℕ) where
  module _ (host : Host) where
    -- Where the lengths of the names of a call stand, if all of them are captured.
    abbrev pub names2 : (op : ℕ) → List ℕ
    names2 op =
        if op == 4
        then 8 ∷ []
        else if op == 9
        then 8 ∷ []
        else if op == 10
        then 8 ∷ []
        else if op == 11
        then 8 ∷ (8 + 1 + padded (word 8) / 4 + 8) ∷ []
        else if op == 12
        then 16 ∷ []
        else if op == 13
        then 8 ∷ (8 + 1 + padded (word 8) / 4) ∷ []
        else if op == 14
        then 8 ∷ []
        else if op == 15
        then 8 ∷ []
        else []

    -- A name that is not captured, or whose printing stays inside it.
    abbrev pub Stays : ℕ → Type 0
    Stays i = i < e → IsName host word i

    module _ (below : host.address word + 4 * e < u32_mod) where
      fn2-Bounded :
          (s : String) (j : ℕ)
          → Stays j
          → Bounded (e + 1) (Is j) (Is (j + 1 + padded (word j) / 4)) (print_fn2 word e true host s)
      unfolding print_fn2
      fn2-Bounded s j name = say-Bounded true _ ▷ fn3-Bounded host word e below j name

      dirop2-Bounded :
          (s s' : String) (j : ℕ)
          → Stays (j + 8)
          → Bounded
              (e + 1)
              (Is j)
              (Is (j + 8 + 1 + padded (word (j + 8)) / 4))
              (print_diropargs2 word e true host s s')
      unfolding print_diropargs2
      dirop2-Bounded s s' j name = fh2-Bounded word e s j ▷ fn2-Bounded s' (j + 8) name

      write_head2-Bounded : Bounded (e + 1) (Is 0) Any (write_head2 word e host)
      unfolding write_head2
      write_head2-Bounded =
          forget (fh2-Bounded word e "fh" 0)
          ▷ say-Bounded true _
          ▷ u32-Bounded word e
          ▷ say-Bounded true _
          ▷ u32-Bounded word e
          ▷ say-Bounded true _

      call_args2-Bounded :
          (op : ℕ) → All Stays (names2 op) → Bounded (e + 1) (Is 0) Any (call_args2 word e host op)
      unfolding call_args2
      call_args2-Bounded op names =
          let at : (k : ℕ) → (op == k) ≡ true → All Stays (names2 k) =
            λ k h. subst (λ o. All Stays (names2 o)) (==→eq op k h) names in
          let fh = forget (fh2-Bounded word e "fh" 0) in
          let dirop = λ (name : Stays 8). dirop2-Bounded "fh" "fn" 0 name in
          if-Bounded (op == 1) (λ _. fh)
            λ _.
              if-Bounded (op == 2) (λ _. fh ▷ sattr2-Bounded word e)
                λ _.
                  if-Bounded (op == 4) (λ h. forget (dirop (at 4 h).0))
                    λ _.
                      if-Bounded (op == 5) (λ _. fh)
                        λ _.
                          if-Bounded (op == 6)
                            (λ _.
                              fh
                              ▷ say-Bounded true _
                              ▷ u32-Bounded word e
                              ▷ say-Bounded true _
                              ▷ u32-Bounded word e
                              ▷ say-Bounded true _
                              ▷ u32-Bounded word e)
                            λ _.
                              if-Bounded (op == 8) (λ _. write_head2-Bounded ▷ u32-Bounded word e)
                                λ _.
                                  if-Bounded (op == 9)
                                    (λ h. forget (dirop (at 9 h).0) ▷ sattr2-Bounded word e)
                                    λ _.
                                      if-Bounded (op == 10) (λ h. forget (dirop (at 10 h).0))
                                        λ _.
                                          if-Bounded (op == 11)
                                            (λ h.
                                              dirop (at 11 h).0
                                              ▷ forget (dirop2-Bounded "fh2" "fn2" _ (at 11 h).1.0))
                                            λ _.
                                              if-Bounded (op == 12)
                                                (λ h.
                                                  fh2-Bounded word e "fh" 0
                                                  ▷ forget
                                                      (dirop2-Bounded "fh2" "fn" 8 (at 12 h).0))
                                                λ _.
                                                  if-Bounded (op == 13)
                                                    (λ h.
                                                      dirop (at 13 h).0
                                                      ▷ forget (fn2-Bounded "fn2" _ (at 13 h).1.0)
                                                      ▷ sattr2-Bounded word e)
                                                    λ _.
                                                      if-Bounded (op == 14)
                                                        (λ h.
                                                          forget (dirop (at 14 h).0)
                                                          ▷ sattr2-Bounded word e)
                                                        λ _.
                                                          if-Bounded (op == 15)
                                                            (λ h. forget (dirop (at 15 h).0))
                                                            λ _.
                                                            if-Bounded (op == 16)
                                                            (λ _.
                                                            fh
                                                            ▷ cookie2-Bounded word e
                                                            ▷ say-Bounded true _
                                                            ▷ u32-Bounded word e)
                                                            λ _.
                                                            if-Bounded (op == 17) (λ _. fh)
                                                            λ _. skip-Bounded _ (omega arith)

      resp_ok2-Bounded :
          (op : ℕ) → (op ≡ 5 → Stays 0) → Bounded (e + 1) (Is 0) Any (resp_ok2 word e host op)
      unfolding resp_ok2
      resp_ok2-Bounded op name =
          let stat : Bounded (e + 1) (Is 0) Any (nfsstat2 word e host) =
            say-Bounded true _ ▷ Fixed-Any (uint32-Fixed word e true) in
          let dirop = diropok2-Bounded word e 0 in
          if-Bounded (op == 1) (λ _. fattr2-Bounded word e)
            λ _.
              if-Bounded (op == 2) (λ _. fattr2-Bounded word e)
                λ _.
                  if-Bounded (op == 4) (λ _. dirop)
                    λ _.
                      if-Bounded (op == 5) (λ h. forget (fn2-Bounded "fn" 0 (name (==→eq op 5 h))))
                        λ _.
                          if-Bounded (op == 6)
                            (λ _. fattr2-Bounded word e ▷ say-Bounded true _ ▷ u32-Bounded word e)
                            λ _.
                              if-Bounded (op == 8) (λ _. fattr2-Bounded word e)
                                λ _.
                                  if-Bounded (op == 9) (λ _. dirop)
                                    λ _.
                                      if-Bounded (op == 10) (λ _. stat)
                                        λ _.
                                          if-Bounded (op == 11) (λ _. stat)
                                            λ _.
                                              if-Bounded (op == 12) (λ _. stat)
                                                λ _.
                                                  if-Bounded (op == 13) (λ _. stat)
                                                    λ _.
                                                      if-Bounded (op == 14) (λ _. dirop)
                                                        λ _.
                                                          if-Bounded (op == 15) (λ _. stat)
                                                            λ _.
                                                            if-Bounded (op == 17)
                                                            (λ _. statfs2-Bounded word e)
                                                            λ _. skip-Bounded _ (omega arith)

      resp_body2-Bounded :
          (status op : ℕ)
          → (status ≡ 0 → op ≡ 5 → Stays 0)
          → Bounded (e + 1) (Is 0) Any (resp_body2 word e host status op)
      unfolding resp_body2
      resp_body2-Bounded status op name =
          if-Bounded (no_status2 op) (λ _. skip-Bounded _ (omega arith))
            λ _.
              say-Bounded true _
              ▷ if-Bounded (status == 0) (λ ok. resp_ok2-Bounded op (name (==→eq status 0 ok)))
                  (λ _. skip-Bounded _ (omega arith))

      module _ (count₀ op xid : ℕ) (t : Tally) where
        call-Reaches :
            All Stays (names2 op) → Reaches (e + 1) (nfs_v2_print_call word e host count₀ op xid t)
        unfolding nfs_v2_print_call
        call-Reaches names = elim (Bool-cases (ltb op ops2)) [
          | inl known ↦ rw known (
              finish-Reaches (e + 1) _ true _ _ (
                (say-Bounded true _ ▷ say-Bounded true _ ▷ call_args2-Bounded op names).on_word 0
                  refl))
          | inr unknown ↦ rw unknown (omega arith)
        ]

        resp-Reaches :
            (status : ℕ)
            → (status ≡ 0 → op ≡ 5 → Stays 0)
            → Reaches (e + 1) (nfs_v2_print_resp word e host count₀ op xid status t)
        unfolding nfs_v2_print_resp
        resp-Reaches status name = elim (Bool-cases (ltb op ops2)) [
          | inl known ↦ rw known (
              finish-Reaches (e + 1) _ true _ _ (
                (say-Bounded true _
                    ▷ say-Bounded true _
                    ▷ resp_body2-Bounded status op name).on_word
                  0 refl))
          | inr unknown ↦ rw unknown (omega arith)
        ]

      module _ (count₀ op xid : ℕ) (t : Tally) (sums : AddsUp ops2 t) where
        -- A call whose names, as far as they are captured, are not empty, have lengths that are not
        -- among the three largest 32-bit numbers, and would end below the address 2 ^ 32, as the
        -- payload does: it returns, with 0 for a known operation and -1 for any other, having read
        -- no more than a word past the payload; if the total of the calls was the sum of the
        -- operations' counters and of the unknown one, it still is.
        pub nfs_v2_print_call-reads :
            All Stays (names2 op)
            → (t' : Tally) × (a : Emit) × (nfs_v2_print_call word e host count₀ op xid t
                ≡ returned (ltb op ops2) t' a)
              × (a.reach ≤ e + 1)
              × AddsUp ops2 t'
        nfs_v2_print_call-reads names =
            let (t', a, done, adds) = nfs_v2_print_call-returns word e host count₀ op xid t sums in
            (t', a, done, subst (Reaches (e + 1)) done (call-Reaches count₀ op xid t names), adds)

        -- A response, of which READLINK has such a name or none that is captured: it returns, with 0
        -- for a known operation and -1 for any other, having read no more than a word past the
        -- payload; if the total of the responses was the sum of their counters, it still is.
        pub nfs_v2_print_resp-reads :
            (status : ℕ)
            → (status ≡ 0 → op ≡ 5 → Stays 0)
            → (t' : Tally) × (a : Emit) × (nfs_v2_print_resp word e host count₀ op xid status t
                ≡ returned (ltb op ops2) t' a)
              × (a.reach ≤ e + 1)
              × AddsUp ops2 t'
        nfs_v2_print_resp-reads status name =
            let (t', a, done, adds) =
              nfs_v2_print_resp-returns word e host count₀ op xid t sums status in
            (
              t',
              a,
              done,
              subst (Reaches (e + 1)) done (resp-Reaches count₀ op xid t status name),
              adds,
            )
