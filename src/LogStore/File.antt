-- ===== src/LogStore/File.antt =====
-- What src/log_file_db.rs relies on of `LogFile` of the crate `pi_store`, which is not part of this
-- repository.
use pi_db.Base.{
  if◌then◌else◌, ◌==◌, nat_eq, list_eq, pair_eq, ℕ, ◌≡◌, Bool, true, Option, none, some, List, [],
  ◌∷◌, ◌++◌,
}
use pi_db.Data.{Bytes}

pub data LogMethod : Type 0 where
  plain_append removes : LogMethod

-- A record: what it does to its key, and the value (empty for a removal).
pub record Record : Type 0 where
  pub method : LogMethod
  pub key : Bytes
  pub value : Bytes

-- A log file: records are appended, and a commit that succeeds writes what was appended since the
-- last one.
pub record LogFile (F : Type 0) : Type 0 where
  -- the identifier that a commit takes
  pub append : F → LogMethod → Bytes → Bytes → ℕ × F
  pub delay_commit : F → ℕ → Bool × F
  -- what is written, and what is appended and not written yet, the newest first
  pub written : F → List Record
  pub pending : F → List Record
  pub written-append :
      (f : F) (m : LogMethod) (k v : Bytes) → written (append f m k v).1 ≡ written f
  pub pending-append :
      (f : F) (m : LogMethod) (k v : Bytes)
      → pending (append f m k v).1 ≡ record { method = m; key = k; value = v } ∷ pending f
  -- a commit with the identifier of the last append
  pub written-delay_commit :
      (f : F) (m : LogMethod) (k v : Bytes)
      → (delay_commit (append f m k v).1 (append f m k v).0).0 ≡ true
      → written (delay_commit (append f m k v).1 (append f m k v).0).1
        ≡ pending (append f m k v).1 ++ written f
  pub pending-delay_commit :
      (f : F) (m : LogMethod) (k v : Bytes)
      → (delay_commit (append f m k v).1 (append f m k v).0).0 ≡ true
      → pending (delay_commit (append f m k v).1 (append f m k v).0).1 ≡ []

-- The value of a key in a log, the newest record first: the newest record of the key counts.
abbrev pub value_of : Record → Option Bytes
value_of r = elim r.method [ plain_append ↦ some r.value | removes ↦ none ]

unfoldable pub view : List Record → Bytes → Option Bytes
view [] k = none
view (r ∷ rest) k = if r.key == k then value_of r else view rest k
