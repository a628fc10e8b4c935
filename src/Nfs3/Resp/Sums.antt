-- ===== src/Nfs3/Resp/Sums.antt =====
-- The sum of the counters of version 3 after a response.
use nfsdump.Nfs3.Resp.{Decoders, is_known3, resp_tally3}
use nfsdump.Prelude.{ℕ, ◌≡◌, ◌↔◌, inl, inr, true, false, ◌&&◌, ◌==◌, Bool-cases, arith}
use nfsdump.Stats.Sums.{AddsUp, count_known-AddsUp, count_bytes-AddsUp}
use nfsdump.Stats.{Tally, count_message, count_known}
use nfsdump.Text.{Host}

-- The cells of the counters' array, up to that of MNT.
abbrev pub cells3 : ℕ
cells3 = 102

module _ (word : ℕ → ℕ) (e : ℕ) (host : Host) (xdr : Decoders) where
  -- A response of a known operation keeps the total the sum of the operations' counters.
  resp_tally3-AddsUp :
      (count₀ status op : ℕ) (t : Tally)
      → is_known3 op ≡ true
      → AddsUp cells3 t
      → AddsUp cells3 (resp_tally3 word e host xdr count₀ status op t)
  unfolding resp_tally3
  resp_tally3-AddsUp count₀ status op t known sums =
      let counted = count_known-AddsUp cells3 op t (ground arith) sums in
      elim (Bool-cases (op == 6 && status == 0)) [
        | inl is_read ↦ rw is_read (count_bytes-AddsUp cells3 _ (count_known op t) counted)
        | inr other ↦ rw (other, known) counted
      ]

  -- A response of an unknown operation breaks that: it counts in the total only.
  resp_tally3-unknown :
      (count₀ status op : ℕ) (t : Tally)
      → is_known3 op ≡ false
      → AddsUp cells3 t
      → ¬ AddsUp cells3 (resp_tally3 word e host xdr count₀ status op t)
  unfolding resp_tally3 count_message
  resp_tally3-unknown count₀ status op t unknown sums =
      let no_read : op == 6 && status == 0 ≡ false = ground arith in
      rw (no_read, unknown) (λ same. absurd (omega arith))

  -- Where the total is the sum of the operations' counters, a response keeps it so exactly if its
  -- operation is known: one of an unknown operation counts in the total only.
  pub resp_tally3-sums :
      (count₀ status op : ℕ) (t : Tally)
      → AddsUp cells3 t
      → AddsUp cells3 (resp_tally3 word e host xdr count₀ status op t) ↔ (is_known3 op ≡ true)
  resp_tally3-sums count₀ status op t sums = elim (Bool-cases (is_known3 op)) [
    | inl known ↦ (λ kept. known, λ same. resp_tally3-AddsUp count₀ status op t known sums)
    | inr unknown ↦
        (λ kept. absurd (resp_tally3-unknown count₀ status op t unknown sums kept), λ known. cc)
  ]
