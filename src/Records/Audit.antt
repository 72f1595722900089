-- ===== src/Records/Audit.antt =====
-- internal/database/repos.go: the audit trail. Stored times are texts.
use fyrwall.Base.{
  ℕ, ◌≤◌, String, Bool, ◌||◌, List, ◌∷◌, arith, length, ltb, if◌then◌else◌, Bool-cases, inl, inr,
}
use fyrwall.Base.Int.{ℤ, pos, negsuc}
use fyrwall.Base.Frames.{take, drop, take-le}

-- `AuditEntry`, with its time as it is stored
pub record AuditEntry : Type 0 where
  pub id : String
  pub timestamp : String
  pub actor : String
  pub source_ip : String
  pub action : String
  pub target : String
  pub before_summary : String
  pub after_summary : String
  pub success : Bool
  pub request_id : String
  pub detail : String

abbrev pub or_else : String → String → String
or_else String.[] s = s
or_else (String.◌∷◌ c t) s = String.◌∷◌ c t

-- `Insert`; an entry without an identifier or a time gets those given
unfoldable pub insert : String → String → AuditEntry → List AuditEntry → List AuditEntry
insert uuid now e rows =
    record e { id = or_else e.id uuid; timestamp = or_else e.timestamp now } ∷ rows

abbrev pub limit_of : ℤ → ℕ
limit_of (pos n) = if ltb n 1 || ltb 500 n then 100 else n
limit_of (negsuc n) = 100

-- a negative offset is none
abbrev pub offset_of : ℤ → ℕ
offset_of (pos n) = n
offset_of (negsuc n) = 0

-- `List`; `ordered` is the order in which the database shows the rows for this query, which is by
-- their stored times, the greatest text first, and for equal ones not fixed
unfoldable pub list :
    (List AuditEntry → List AuditEntry) → ℤ → ℤ → List AuditEntry → List AuditEntry
list ordered limit offset rows = take (limit_of limit) (drop (offset_of offset) (ordered rows))

limit_of-le : (limit : ℤ) → limit_of limit ≤ 500
limit_of-le (pos n) = elim (Bool-cases (ltb n 1 || ltb 500 n)) [
  | inl t ↦ rw t (omega arith)
  | inr t ↦ rw t (ground arith)
]
limit_of-le (negsuc n) = omega arith

-- No page of the audit trail has more than 500 entries, whatever limit is asked for.
pub length-list :
    (ordered : List AuditEntry → List AuditEntry) (limit offset : ℤ) (rows : List AuditEntry)
    → length (list ordered limit offset rows) ≤ 500
unfolding list
length-list ordered limit offset rows =
    let page = take-le (limit_of limit) (drop (offset_of offset) (ordered rows)) in
    omega (arith, limit_of-le limit)
