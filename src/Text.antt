-- ===== src/Text.antt =====
-- Names and paths, as nfsdump2/nfs_v3.c prints them: `print_string` and `print_path_segment`.
-- A `char *` is a byte index; byte `b` is the byte `b % 4` of the word `b / 4`, in network order.
pub mod Mask
pub mod Reach
use nfsdump.Prelude.{
  ℕ, zero, suc, ◌+◌, ◌-◌, ◌*◌, ◌/◌, ◌%◌, ◌^◌, Bool, true, false, ◌&&◌, ◌||◌, List, [], ◌∷◌, ltb,
  leb, ◌==◌, if◌then◌else◌, u32_mod,
}
use nfsdump.Print.{Item, lit, chr, escaped, digest, Emit, emit, quiet, said, ◌⊕◌}

-- What the printers take from outside: whether the environment variable RAWNAMES is set, the SHA-1
-- of libgcrypt, a function of the bytes, and the address at which a payload with given words stands.
pub record Host : Type 0 where
  pub raw_names : Bool
  pub sha1 : List ℕ → List ℕ
  pub address : (ℕ → ℕ) → ℕ

-- `isspace`, in the C locale
abbrev pub is_space : ℕ → Bool
is_space c = c == 32 || (leb 9 c && leb c 13)

-- One past the word of a byte that is read.
abbrev pub reads : ℕ → ℕ
reads b = b / 4 + 1

module _ (word : ℕ → ℕ) where
  abbrev pub byte : ℕ → ℕ
  byte b = word (b / 4) / 256 ^ (3 - b % 4) % 256

  unfoldable pub bytes : (b n : ℕ) → List ℕ
  bytes b zero = []
  bytes b (suc n) = byte b ∷ bytes (b + 1) n

module _ (host : Host) (word : ℕ → ℕ) where
  -- The part of `print_path_segment` after a leading slash: the switch on the length, and the hash.
  unfoldable pub print_name : (b len : ℕ) → Emit
  unfolding bytes
  print_name b len =
      if len == 0
      then quiet
      else if len == 1 && byte word b == b'.'
      then emit (lit "." ∷ []) (reads b)
      else if len == 2 && (byte word b == b'.' && byte word (b + 1) == b'.')
      then emit (lit ".." ∷ []) (reads (b + 1))
      else emit (digest (host.sha1 (bytes word b len)) ∷ []) (reads (b + len - 1))

  -- `str [0]` is read whatever the length is, and `--len` wraps at 0.
  unfoldable pub print_path_segment : (b len : ℕ) → Emit
  print_path_segment b len =
      emit [] (reads b)
      ⊕ (if byte word b == b'/'
          then said (lit "/" ∷ []) ⊕ print_name (b + 1) ((len + u32_mod - 1) % u32_mod)
          else print_name b len)

  -- The loop with RAWNAMES, over the `n` bytes from `b`.
  unfoldable pub print_raw : (n b : ℕ) → Emit
  print_raw zero b = quiet
  print_raw (suc n) b =
      let c = byte word b in
      emit ((if c == b'"' || (c == b'\\' || is_space c) then escaped c else chr c) ∷ []) (reads b)
      ⊕ print_raw n (b + 1)

  -- The other loop, at index `i` of the string at `b` with `n` bytes to go, and the segment after it.
  unfoldable pub print_segments : (b n i seg : ℕ) → Emit
  print_segments b zero i seg = print_path_segment (b + seg) (i - seg)
  print_segments b (suc n) i seg =
      let slash = byte word (b + i) == b'/' in
      emit [] (reads (b + i))
      ⊕ (if slash && ltb 0 i then print_path_segment (b + seg) (i - seg) else quiet)
      ⊕ print_segments b n (i + 1) (if slash then i else seg)

  unfoldable pub print_string : (b len : ℕ) → Emit
  print_string b len =
      said (lit "\"" ∷ [])
      ⊕ (if host.raw_names then print_raw len b else print_segments b len 0 0)
      ⊕ said (lit "\" " ∷ [])
