-- ===== src/Examples.antt =====
-- Concrete tables, transactions and log files, and the theorems at them.
pub mod Tables
pub mod Files
pub mod Forks
pub mod Managers
pub mod Changes
pub mod Collections
pub mod Wares
pub mod Startups
pub mod Clients
use pi_db.Base.{
  ltb, leb, nat_eqb, if◌then◌else◌, Bool-cases, Option-cases, Eq, ◌==◌, ==-refl, ==-ne, nat_eqb_iff,
  nat_eq, list_eqb, list_eqb_iff, list_eq, pair_eqb, pair_eqb_iff, pair_eq, length, get_elem?,
  length-append, length-map, All, ℕ, zero, suc, ◌+◌, ◌-◌, ◌*◌, ◌%◌, ◌^◌, ◌≤◌, ◌<◌, ◌≡◌, refl, sym,
  ap, ◌∙◌, ◌≢◌, ◌↔◌, ◌⊎◌, inl, inr, Bool, true, false, not, ◌&&◌, ◌||◌, Option, none, some, List,
  [], ◌∷◌, ◌++◌, map, arith,
}
use pi_db.Data.{
  Bytes, Bin, len, Error, SResult, DbResult, TxState, default_state, discriminant, to_state,
  to_string, RwLog, TabKv, new_tab_kv, TabMeta, meta_eqb, bon_eqb, prepare_conflicted_rw,
  unexpected_meta_log1, unexpected_meta_log2, previous_read_log_exist, previous_write_log_exist,
  previous_meta_log_exist, prepare_conflicted_value_diff, prepare_conflicted_old_not_none,
  error_prepare_null, meta_prepare_conflicting, meta_prepare_conflicted, tab_not_found,
  unknown_tab_type, unreachable_branch, ware_not_found, tr_query_error, modify_failed,
  duplicate_fork_tab_name, duplicate_fork_tab_name_in_meta_tab, tab_name_exist, delete_tab_failed,
  delete_tab_not_found, not_implemented, io_error, ok, err, doing, preparing, prepar_ok,
  prepar_fail, committing, commited, commit_fail, rollbacking, rollbacked, rollback_fail, read,
  write, meta,
}
use pi_db.HashMap.{HashMap, lookup, insert, remove}
use pi_db.OrdMap.{OrdMap}
use pi_db.OrdMap.Versioned.{versioned}
use pi_db.Snapshot.Overlay.{Canonical}
use pi_db.MemTab.{MemeryTab, MemeryTxn}
use pi_db.LogStore.{AsyncLogFileStore}
use pi_db.LogStore.File.{LogFile, Record}
use pi_db.LogTab.{LogFileTab, FileMemTxn}

abbrev pub bin_eqb : Bin → Bin → Bool
bin_eqb a b = nat_eqb a.ptr b.ptr && list_eqb a.bytes b.bytes

pub bin_eqb_iff : (a b : Bin) → (bin_eqb a b ≡ true) ↔ (a ≡ b)
bin_eqb_iff a b = ground (arith, nat_eqb_iff a.ptr b.ptr, list_eqb_iff a.bytes b.bytes)

instance abbrev pub bin_eq : Eq Bin
bin_eq = record { beq = bin_eqb; beq_iff = bin_eqb_iff }

abbrev pub Tree : Type 0
Tree = HashMap Bytes Bin

abbrev pub same_bytes : Bytes → Bytes → Bool
same_bytes = list_eq.beq

abbrev pub trees : OrdMap same_bytes Bin Tree
trees = versioned

pub same_bytes-Canonical : Canonical same_bytes
same_bytes-Canonical = list_eqb_iff

-- the time of a transaction's identifier is the identifier
abbrev pub clock : ℕ → ℕ
clock g = g

abbrev pub key1 : Bytes
key1 = 1 ∷ []

abbrev pub key2 : Bytes
key2 = 2 ∷ []

abbrev pub value1 : Bin
value1 = record { ptr = 100; bytes = 7 ∷ [] }

abbrev pub value2 : Bin
value2 = record { ptr = 200; bytes = 8 ∷ 9 ∷ [] }

abbrev pub item : Bytes → Option Bin → TabKv ℕ
item k v = record { ware = 0; tab = 1; key = k; index = 0; value = v }

abbrev pub tree1 : Tree
tree1 = (key1, value1) ∷ []

abbrev pub table1 : MemeryTab ℕ Tree ℕ
table1 = record { prepare = []; root = tree1; tab = 1; stats = [] }

-- a transaction that has written a second key
abbrev pub log2 : HashMap Bytes RwLog
log2 = (key2, write (some value2)) ∷ []

abbrev pub tree2 : Tree
tree2 = (key1, value1) ∷ (key2, value2) ∷ []

abbrev pub txn2 : MemeryTxn ℕ Tree
txn2 = record { id = 2; writable = true; root = tree2; old = tree1; rwlog = log2; state = doing }

-- a transaction that has removed the first key
abbrev pub log3 : HashMap Bytes RwLog
log3 = (key1, write none) ∷ []

abbrev pub txn3 : MemeryTxn ℕ Tree
txn3 = record { id = 3; writable = true; root = []; old = tree1; rwlog = log3; state = doing }

-- both are prepared
abbrev pub table23 : MemeryTab ℕ Tree ℕ
table23 = record { prepare = (2, log2) ∷ (3, log3) ∷ []; root = tree1; tab = 1; stats = [] }

-- A log file in memory: what is written, and what waits.
abbrev pub MemFile : Type 0
MemFile = List Record × List Record

abbrev pub mem_file : LogFile MemFile
mem_file = record {
  append = λ f m k v. (1, (f.0, record { method = m; key = k; value = v } ∷ f.1));
  delay_commit = λ f id. (true, (f.1 ++ f.0, []));
  written = λ f. f.0;
  pending = λ f. f.1;
  written-append = λ f m k v. refl;
  pending-append = λ f m k v. refl;
  written-delay_commit = λ f m k v h. refl;
  pending-delay_commit = λ f m k v h. refl;
}

pub false_ne : false ≢ true
false_ne h = cc

-- A log file whose commits fail.
abbrev pub full_file : LogFile MemFile
full_file = record {
  append = λ f m k v. (1, (f.0, record { method = m; key = k; value = v } ∷ f.1));
  delay_commit = λ f id. (false, f);
  written = λ f. f.0;
  pending = λ f. f.1;
  written-append = λ f m k v. refl;
  pending-append = λ f m k v. refl;
  written-delay_commit = λ f m k v h. absurd (false_ne h);
  pending-delay_commit = λ f m k v h. absurd (false_ne h);
}
