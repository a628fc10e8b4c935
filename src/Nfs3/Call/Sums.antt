-- ===== src/Nfs3/Call/Sums.antt =====
-- The sum of the counters of version 3 after a call.
use nfsdump.Nfs3.Call.{ArgDecoders, count_written, write_count, call_tally3}
use nfsdump.Nfs3.Resp.Sums.{cells3}
use nfsdump.Nfs3.Resp.{is_known3}
use nfsdump.Prelude.{
  ℕ, ◌≡◌, ◌↔◌, true, false, Option, none, some, ◌==◌, inl, inr, Bool-cases, arith,
}
use nfsdump.Stats.Sums.{AddsUp, count_known-AddsUp, count_bytes-AddsUp}
use nfsdump.Stats.{Tally, count_message, count_known}
use nfsdump.Text.{Host}

-- An unknown message that counts in the total alone breaks the sum.
count_message-breaks : (t : Tally) → AddsUp cells3 t → ¬ AddsUp cells3 (count_message t)
unfolding count_message
count_message-breaks t sums same = absurd (omega arith)

count_written-AddsUp :
    (r : Option ℕ × ℕ) (t : Tally) → AddsUp cells3 t → AddsUp cells3 (count_written r t)
count_written-AddsUp (none, pos) t sums = sums
count_written-AddsUp (some n, pos) t sums = count_bytes-AddsUp cells3 n t sums

module _ (word : ℕ → ℕ) (len : ℕ) (host : Host) (args : ArgDecoders) where
  call_tally3-AddsUp :
      (op : ℕ) (t : Tally)
      → is_known3 op ≡ true
      → AddsUp cells3 t
      → AddsUp cells3 (call_tally3 word len host args op t)
  unfolding call_tally3
  call_tally3-AddsUp op t known sums =
      let counted = count_known-AddsUp cells3 op t (ground arith) sums in
      elim (Bool-cases (op == 7)) [
        | inl is_write ↦
            rw is_write
              (count_written-AddsUp (write_count word len host args) (count_known op t) counted)
        | inr other ↦ rw (other, known) counted
      ]

  call_tally3-breaks :
      (op : ℕ) (t : Tally)
      → is_known3 op ≡ false
      → AddsUp cells3 t
      → ¬ AddsUp cells3 (call_tally3 word len host args op t)
  unfolding call_tally3
  call_tally3-breaks op t unknown sums =
      let other : op == 7 ≡ false = ground arith in
      rw (other, unknown) (count_message-breaks t sums)

  -- Where the total of the calls of version 3 is the sum of the operations' counters, a call keeps it
  -- so exactly if its operation is known, whatever the decoders of a WRITE's count give: one of an
  -- unknown operation counts in the total only.
  pub call_tally3-sums :
      (op : ℕ) (t : Tally)
      → AddsUp cells3 t
      → AddsUp cells3 (call_tally3 word len host args op t) ↔ (is_known3 op ≡ true)
  call_tally3-sums op t sums = elim (Bool-cases (is_known3 op)) [
    | inl known ↦ (λ kept. known, λ same. call_tally3-AddsUp op t known sums)
    | inr unknown ↦ (λ kept. absurd (call_tally3-breaks op t unknown sums kept), λ known. cc)
  ]
