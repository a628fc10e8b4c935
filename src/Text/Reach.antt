-- ===== src/Text/Reach.antt =====
-- How far the string printers of nfsdump2/nfs_v3.c read.
use nfsdump.Prelude.{ℕ, zero, suc, ◌+◌, ◌-◌, ◌/◌, ◌%◌, ◌≤◌, ◌<◌, ◌≡◌, ◌⊎◌, arith, u32_mod}
use nfsdump.Text.{Host, print_name, print_path_segment, print_raw, print_segments, print_string}

-- One past the last word that holds a byte of the `len` bytes at `b`.
abbrev pub last_word : (b len : ℕ) → ℕ
last_word b len = (b + len + 3) / 4

module _ (host : Host) (word : ℕ → ℕ) where
  print_name-reach : (b len : ℕ) → (print_name host word b len).reach ≤ last_word b len
  unfolding print_name
  print_name-reach b len = ground arith

  -- The printer of an empty segment reads a byte all the same.
  print_path_segment-reach :
      (b len : ℕ)
      → 0 < len
      → len < u32_mod
      → (print_path_segment host word b len).reach ≤ last_word b len
  unfolding print_path_segment
  print_path_segment-reach b len pos small =
      ground
        (arith, print_name-reach b len, print_name-reach (b + 1) ((len + u32_mod - 1) % u32_mod))

  print_raw-reach : (n b : ℕ) → (print_raw host word n b).reach ≤ last_word b n
  unfolding print_raw
  print_raw-reach zero b = omega arith
  print_raw-reach (suc n) b = omega (arith, print_raw-reach n (b + 1))

  -- With RAWNAMES every byte is read, up to the last.
  pub print_raw-reads : (n b : ℕ) → 0 < n → last_word b n ≤ (print_raw host word n b).reach
  unfolding print_raw
  print_raw-reads zero b pos = absurd (omega arith)
  print_raw-reads (suc zero) b pos = omega arith
  print_raw-reads (suc (suc n)) b pos = omega (arith, print_raw-reads (suc n) (b + 1) (omega arith))

  print_segments-reach :
      (b n i seg : ℕ)
      → 0 < i + n
      → i + n < u32_mod
      → (seg < i) ⊎ ((i ≡ 0) × (seg ≡ 0))
      → (print_segments host word b n i seg).reach ≤ last_word b (i + n)
  unfolding print_segments
  print_segments-reach b zero i seg pos small inside =
      ground (arith, print_path_segment-reach (b + seg) (i - seg))
  print_segments-reach b (suc n) i seg pos small inside = ground (
    arith,
    print_path_segment-reach (b + seg) (i - seg),
    print_segments-reach b n (i + 1) i,
    print_segments-reach b n (i + 1) seg,
  )

  -- Printing a string that is not empty, and shorter than 2 ^ 32, reads no word past the one that
  -- holds its last byte.
  pub print_string-reach :
      (b len : ℕ) → 0 < len → len < u32_mod → (print_string host word b len).reach ≤ last_word b len
  unfolding print_string
  print_string-reach b len pos small =
      ground (arith, print_raw-reach len b, print_segments-reach b len 0 0)
