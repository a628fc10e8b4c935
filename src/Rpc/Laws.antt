-- ===== src/Rpc/Laws.antt =====
-- What `getRpcHeader` of nfsdump2/nfsrecord.c makes of a header, and how far it reads.
use nfsdump.Prelude.{ℕ, ◌+◌, ◌*◌, ◌/◌, ◌%◌, ◌<◌, ◌≤◌, ◌≡◌, ◌⊎◌, some, u32_mod, arith}
use nfsdump.Rpc.{nfs_program, mount_program, get_auth, call_header, reply_header, get_rpc_header}

-- Whole words for so many bytes.
abbrev pub words_for : ℕ → ℕ
words_for n = (n + 3) / 4

module _ (word : ℕ → ℕ) (max_len : ℕ) where
  -- The index of the verifier of a call, as the length of its credentials tells.
  abbrev pub verifier : ℕ
  verifier = 8 + words_for (word 7)

  -- A call of NFS or MOUNT in RPC version 2 with UNIX credentials, which is captured up to its
  -- verifier's length and has lengths that are not near 2 ^ 32, is accepted: the length is that of
  -- the ten fixed words and of the two padded opaque fields, and the ids are the two words that
  -- follow the stamp and the machine's name.
  pub get_rpc_header-call :
      word 1 ≡ 0
      → word 2 ≡ 2
      → (word 3 ≡ nfs_program) ⊎ (word 3 ≡ mount_program)
      → word 6 ≡ 1
      → word 7 < 2000000000
      → word (verifier + 1) < 2000000000
      → verifier + 2 ≤ max_len / 4
      → ((get_rpc_header word max_len).1.result
          ≡ some (4 * (10 + words_for (word 7) + words_for (word (verifier + 1))) % u32_mod))
        × ((get_rpc_header word max_len).1.ids
            ≡ some (word (10 + words_for (word 9)), word (11 + words_for (word 9))))
  unfolding get_rpc_header call_header get_auth
  get_rpc_header-call is_call version program unix small small' fits = ground arith

  -- A header is accepted only if it is a call or a reply of which at least 20 bytes are captured,
  -- and its length is then that of whole words.
  pub get_rpc_header-accepts :
      (n : ℕ)
      → (get_rpc_header word max_len).1.result ≡ some n
      → ((word 1 ≡ 0) ⊎ (word 1 ≡ 1)) × (n % 4 ≡ 0) × (20 ≤ max_len)
  unfolding get_rpc_header call_header reply_header get_auth
  get_rpc_header-accepts n h = ground arith
