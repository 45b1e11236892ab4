-- ===== src/MemTab/Missed.antt =====
-- Writes of one key that are prepared at the same time (`try_prepare` of src/tabs.rs, through
-- `prepare_inner` and `commit_inner` of src/memery_db.rs).
use pi_db.Base.{nat_eq, list_eq, pair_eq, ◌≡◌, none, [], ◌∷◌}
use pi_db.Data.{Bytes, RwLog}
use pi_db.HashMap.{HashMap, lookup}
use pi_db.OrdMap.{OrdMap}
use pi_db.Prepare.{Prepare}

-- no key of the second log is in the first
abbrev pub Clear : HashMap Bytes RwLog → HashMap Bytes RwLog → Type 0
Clear o [] = Unit
Clear o ((k, _) ∷ log) = (lookup k o ≡ none) × Clear o log
