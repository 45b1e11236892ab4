-- ===== src/Prepare.antt =====
-- `Prepare` of src/tabs.rs: the logs of the transactions that are prepared on one table, and the
-- test of a new log against them.
--
-- `G` is the `Guid` of the crate `guid` with its `time()`; `now` is what `now_nanosecond()` returned.
-- The subtraction of the two is that of `u64` in a release build, which wraps round.
pub mod Conflicts
use Prim.Native.Nat.{◌/◌}
use pi_db.Base.{
  list_eq, nat_eq, ℕ, ◌+◌, ◌-◌, ◌*◌, ◌%◌, ◌^◌, Option, none, some, Bool, List, [], ◌∷◌, Eq, ltb,
  if◌then◌else◌,
}
use pi_db.HashMap.{HashMap, lookup, remove}
use pi_db.Data.{
  Bytes, Error, SResult, ok, err, DbResult, RwLog, read, write, meta, prepare_conflicted_rw,
  unexpected_meta_log1, unexpected_meta_log2, previous_read_log_exist, previous_write_log_exist,
  previous_meta_log_exist,
}

abbrev pub Prepare : Type 0 → Type 0
Prepare G = HashMap G (HashMap Bytes RwLog)

abbrev pub u64_mod : ℕ
u64_mod = 2 ^ 64

-- one minute in nanoseconds
abbrev pub lifetime : ℕ
lifetime = 60 * 1000 * 1000000

-- `(now_nanosecond() as u64 - guid.time()) > 60 * 1000 * 1000000`
unfoldable pub is_overdue : ℕ → ℕ → Bool
is_overdue now time = ltb lifetime ((now + u64_mod - time) % u64_mod)

-- the `match o_rwlog.get(key)` of the loop: every branch leaves the function
unfoldable pub check_log : Option RwLog → RwLog → DbResult
check_log (some read) read = ok tt
check_log (some read) (write _) = err prepare_conflicted_rw
check_log (some read) (meta _) = err unexpected_meta_log1
check_log (some (write _)) read = err previous_read_log_exist
check_log (some (write _)) (write _) = err previous_write_log_exist
check_log (some (write _)) (meta _) = err previous_meta_log_exist
check_log (some (meta _)) _ = err unexpected_meta_log2
check_log none _ = ok tt

module _ {G : Type 0} ⦃eg : Eq G⦄ (time : G → ℕ) where
  -- The loop over `self.0`, with `timeout_tr`; `some` is a `return` out of it.
  pub scan : ℕ → Bytes → RwLog → List G → Prepare G → Option DbResult × List G
  unfolding check_log is_overdue
  scan now key log_type timeout_tr [] = (none, timeout_tr)
  scan now key log_type timeout_tr ((guid, o_rwlog) ∷ rest) =
      let further = scan now key log_type (guid ∷ timeout_tr) rest in
      if is_overdue now (time guid)
      then further
      else (some (check_log (lookup key o_rwlog) log_type), timeout_tr)

  -- the loop over `timeout_tr`
  unfoldable pub remove_all : List G → Prepare G → Prepare G
  remove_all [] prepare = prepare
  remove_all (guid ∷ rest) prepare = remove_all rest (remove guid prepare)

  abbrev finish : Prepare G → Option DbResult × List G → DbResult × Prepare G
  finish prepare (some r, _) = (r, prepare)
  finish prepare (none, timeout_tr) = (ok tt, remove_all timeout_tr prepare)

  unfoldable pub try_prepare : ℕ → Prepare G → Bytes → RwLog → DbResult × Prepare G
  unfolding scan remove_all
  try_prepare now prepare key log_type = finish prepare (scan now key log_type [] prepare)
