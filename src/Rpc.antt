-- ===== src/Rpc.antt =====
-- The RPC header of nfsdump2/nfsrecord.c: `getRpcHeader` and `get_auth`. The header is at word 0;
-- by the layout of `rpc_msg`, word 1 is the direction, a call has its RPC version, program, NFS
-- version and procedure at words 2 to 5 and its credentials from word 6 on, and a reply its
-- verifier from word 3 on. `word i` is `ntohl` of a word, also past the captured ones; a pointer
-- is compared by its index, and `reach` is one past the highest word that is read.
pub mod Laws
use nfsdump.Prelude.{
  ℕ, ◌+◌, ◌*◌, ◌/◌, ◌%◌, ◌&&◌, ◌||◌, not, max, Option, none, some, List, [], ◌∷◌, leb, ◌==◌,
  if◌then◌else◌, add32, u32_mod,
}
use nfsdump.Print.{Item, lit, dec}

-- NFS_PROGRAM, MOUNT_PROGRAM
abbrev pub nfs_program : ℕ
nfs_program = 100003

abbrev pub mount_program : ℕ
mount_program = 100005

-- `(len + (2 * sizeof (*ui) + 3)) / sizeof (*ui)`, the words of a credential or a verifier with its
-- flavor and length, in 32-bit unsigned arithmetic.
abbrev pub auth_words : ℕ → ℕ
auth_words len = add32 len 11 / 4

-- `len = ntohl (ui [3])`, in words, rounded up.
abbrev pub name_words : ℕ → ℕ
name_words len = if len % 4 == 0 then len / 4 else len / 4 + 1

-- The result (`none` for -1, or the length of the header in bytes), what `*euid` and `*egid` are
-- set to, if they are, and what goes to the standard output.
pub record Header : Type 0 where
  pub result : Option ℕ
  pub ids : Option (ℕ × ℕ)
  pub text : List Item
  pub reach : ℕ

abbrev pub refused : ℕ → Header
refused n = record { result = none; ids = none; text = []; reach = n }

module _ (word : ℕ → ℕ) where
  -- The ids of UNIX credentials, at `pi`, past the stamp and the machine's name. A result
  -- of 0 is `some 0`.
  abbrev pub unix_auth : (pi : ℕ) → Header
  unix_auth pi = record {
    result = some 0;
    ids = some (word pi, word (pi + 1));
    text = [];
    reach = pi + 2;
  }

  abbrev pub other_auth : (ui : ℕ) → Header
  other_auth ui = record {
    result = none;
    ids = none;
    text = lit "XX Not Auth_Unix (" ∷ dec (word ui) ∷ lit ")??\n" ∷ [];
    reach = ui + 1;
  }

  -- The credentials at `ui`; AUTH_UNIX is 1.
  unfoldable pub get_auth : (ui : ℕ) → Header
  get_auth ui =
      if word ui == 1 then unix_auth (ui + 4 + name_words (word (ui + 3))) else other_auth ui

  -- The verifier at `ui`, and the length up to the end of it.
  abbrev pub header_end : (ui : ℕ) → ℕ
  header_end ui = 4 * (ui + auth_words (word (ui + 1))) % u32_mod

  -- After the credentials: their contents, and the verifier at `ui`.
  abbrev pub after_auth : (ui : ℕ) → Header → Header
  after_auth ui auth = elim auth.result [
    | none ↦ record auth { reach = max 8 auth.reach }
    | some _ ↦ record auth { result = some (header_end ui); reach = max (ui + 2) auth.reach }
  ]

  unfoldable pub call_header : (end : ℕ) → Header
  unfolding get_auth
  call_header end =
      if not (word 2 == 2) || (not (word 3 == nfs_program) && not (word 3 == mount_program))
      then refused 4
      else if leb end (6 + 1)
      then refused 4
      else let ui = 6 + auth_words (word 7) in
        if leb end (ui + 1) then refused 8 else after_auth ui (get_auth 6)

  unfoldable pub reply_header : (end : ℕ) → Header
  reply_header end =
      if leb end (3 + 1)
      then refused 2
      else record { result = some (header_end 3); ids = none; text = []; reach = 5 }

  -- With `*dir_p` in front. CALL is 0, and REPLY is 1.
  unfoldable pub get_rpc_header : (max_len : ℕ) → ℕ × Header
  unfolding call_header reply_header
  get_rpc_header max_len =
      let dir = word 1 in
      (
        dir,
        if dir == 0
            then call_header (max_len / 4)
            else if dir == 1
            then reply_header (max_len / 4)
            else refused 2,
      )
