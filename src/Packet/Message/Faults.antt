-- ===== src/Packet/Message/Faults.antt =====
-- When a message has none of the faults that end the process.
use nfsdump.Packet.Message.{Round, again, exits, dies}
use nfsdump.Packet.Record.{Printed}
use nfsdump.Prelude.{ℕ, ◌≡◌, ◌≢◌, ◌⊎◌, Bool, false, ◌||◌, none, some, ◌==◌}
use nfsdump.Table.Each.{Each}
use nfsdump.XidTable.{Call}

-- An operation of version 3 whose response may begin with `wcc_data`.
abbrev has_wcc : (op : ℕ) → Bool
has_wcc op = op == 7 || (op == 12 || (op == 13 || (op == 21 || op == 2)))

-- An outstanding call whose response cannot begin so.
abbrev pub IsPlain : Call → Type 0
IsPlain call = (call.nfs_version ≢ 3) ⊎ (has_wcc call.nfs_proc ≡ false)

-- A round without a failed assertion, a `memcpy` past its buffer or a read through NULL.
abbrev pub IsFaultless : Round → Type 0
IsFaultless (again c w text) = Unit {0}
IsFaultless (exits code w text) = Unit {0}
IsFaultless (dies fault) = ⊥

abbrev IsPrintable : Printed → Type 0
IsPrintable none = ⊥
IsPrintable (some (w, text)) = Unit {0}
