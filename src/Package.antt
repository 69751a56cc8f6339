-- ===== src/Package.antt =====
-- What the code takes from packages that it does not implement: `github.com/google/uuid`, and of the
-- standard library the texts of times and messages, which `time` and `encoding/json` write and read.
use network_actions_aggregat.Prelude.{ℕ, ◌-◌, ◌%◌, ◌<◌, ◌≡◌, String, List}
use network_actions_aggregat.Clock.{Time, Zone, east, west, second, date_of}
use network_actions_aggregat.Clock.Text.{Text, IsPrintable}
use network_actions_aggregat.Entity.{Uuid}
use network_actions_aggregat.Entity.Errors.{Result, ok}

pub record UuidPackage : Type 0 where
  pub string : Uuid → String
  pub parse : String → Result Uuid

-- The documented behaviour: `Parse` reads back what `String` writes.
abbrev pub ReadsBack : UuidPackage → Type 0
ReadsBack u = (x : Uuid) → u.parse (u.string x) ≡ ok x

-- `t.Format(time.RFC3339)` and `time.Parse(time.RFC3339, s)`.
pub record TimePackage : Type 0 where
  pub format : Time → Text
  pub parse : Text → Result Time

-- The layout has no fraction of a second.
abbrev pub seconds : Time → Time
seconds t = record t { nanos = t.nanos - t.nanos % second }

-- The offsets that the layout can write: less than a day, in whole minutes, and 0 as `Z`.
abbrev pub IsWritten : Zone → Type 0
IsWritten (east s) = (s % 60 ≡ 0) × (s < 86_400)
IsWritten (west s) = (0 < s) × (s % 60 ≡ 0) × (s < 86_400)

-- The times that it can write: a year of four digits and such an offset.
pub record IsWritable (t : Time) : Type 0 where
  pub offset : IsWritten t.zone
  pub printable : IsPrintable (date_of t)

-- The documented behaviour: what is written is read back to the second.
abbrev pub ReadsSeconds : TimePackage → Type 0
ReadsSeconds p = (t : Time) → IsWritable t → p.parse (p.format t) ≡ ok (seconds t)

abbrev pub Bytes : Type 0
Bytes = List ℕ

-- `json.Marshal` and `json.Unmarshal` at one type of messages.
pub record JsonPackage (A : Type 0) : Type 0 where
  pub marshal : A → Result Bytes
  pub unmarshal : Bytes → Result A

-- The documented behaviour: what is written is read back up to what the tags `omitempty` leave out.
abbrev pub ReadsOmitted : {A : Type 0} → (A → A) → JsonPackage A → Type 0
ReadsOmitted {A} omitted p =
    (a : A) (b : Bytes) → p.marshal a ≡ ok b → p.unmarshal b ≡ ok (omitted a)
