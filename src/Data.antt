-- ===== src/Data.antt =====
-- src/db.rs: the data that the parts of the database share.
--
-- A byte vector behind an `Arc` (`Bin`) is its bytes with the address of its buffer. As a key only
-- its bytes count (`Eq` and `Hash` of `Vec<u8>`), so keys are lists of bytes.
pub mod States
use pi_db.Base.{
  refl, inr, inl, ◌⊎◌, ◌≡◌, ℕ, Option, some, none, Bool, true, false, List, Eq, ◌==◌, ◌&&◌, nat_eqb,
  if◌then◌else◌, length,
}
use Prim.Native.Nat.{Ordering}
use Prim.Native.String.{String}

abbrev pub Bytes : Type 0
Bytes = List ℕ

pub record Bin : Type 0 where
  pub ptr : ℕ
  pub bytes : Bytes

-- `Vec::len`
abbrev pub len : Bin → ℕ
len b = length b.bytes

-- The messages of `Err(String)`; a name or key that a message ends with is left off.
pub data Error : Type 0 where
  prepare_conflicted_rw unexpected_meta_log1 unexpected_meta_log2 previous_read_log_exist
        previous_write_log_exist previous_meta_log_exist :
      Error
  prepare_conflicted_value_diff prepare_conflicted_old_not_none error_prepare_null : Error
  meta_prepare_conflicting meta_prepare_conflicted tab_not_found unknown_tab_type
        unreachable_branch :
      Error
  ware_not_found tr_query_error modify_failed duplicate_fork_tab_name
        duplicate_fork_tab_name_in_meta_tab :
      Error
  tab_name_exist delete_tab_failed delete_tab_not_found not_implemented io_error : Error

pub data SResult {ℓ} (A : Type ℓ) : Type ℓ where
  ok : A → SResult A
  err : Error → SResult A

pub Result-cases :
    {A : Type 0} (r : SResult A) → ((x : A) × (r ≡ ok x)) ⊎ ((why : Error) × (r ≡ err why))
Result-cases (ok x) = inl (x, refl)
Result-cases (err why) = inr (why, refl)

abbrev pub DbResult : Type 0
DbResult = SResult (Unit {0})

pub data TxState : Type 0 where
  ok doing err preparing prepar_ok prepar_fail committing commited commit_fail rollbacking
        rollbacked rollback_fail :
      TxState

-- `Default`
abbrev pub default_state : TxState
default_state = TxState.ok

-- the discriminants of the enum, which starts at 1
unfoldable pub discriminant : TxState → ℕ
discriminant TxState.ok = 1
discriminant doing = 2
discriminant TxState.err = 3
discriminant preparing = 4
discriminant prepar_ok = 5
discriminant prepar_fail = 6
discriminant committing = 7
discriminant commited = 8
discriminant commit_fail = 9
discriminant rollbacking = 10
discriminant rollbacked = 11
discriminant rollback_fail = 12

unfoldable pub to_state : ℕ → TxState
to_state n =
    if nat_eqb n 1
    then TxState.ok
    else if nat_eqb n 2
    then doing
    else if nat_eqb n 3
    then TxState.err
    else if nat_eqb n 4
    then preparing
    else if nat_eqb n 5
    then prepar_ok
    else if nat_eqb n 6
    then prepar_fail
    else if nat_eqb n 7
    then committing
    else if nat_eqb n 8
    then commited
    else if nat_eqb n 9
    then commit_fail
    else if nat_eqb n 10
    then rollbacking
    else if nat_eqb n 11
    then rollbacked
    else rollback_fail

unfoldable pub to_string : TxState → String
to_string TxState.ok = "TxState::Ok"
to_string doing = "TxState::Doing"
to_string TxState.err = "TxState::Err"
to_string preparing = "TxState::Preparing"
to_string prepar_ok = "TxState::PreparOk"
to_string prepar_fail = "TxState::PreparFail"
to_string committing = "TxState::Committing"
to_string commited = "TxState::Commited"
to_string commit_fail = "TxState::CommitFail"
to_string rollbacking = "TxState::Rollbacking"
to_string rollbacked = "TxState::Rollbacked"
to_string rollback_fail = "TxState::RollbackFail"

-- What a transaction did to a key.
pub data RwLog : Type 0 where
  read : RwLog
  write : Option Bin → RwLog
  meta : Option Bin → RwLog

-- `Atom` is the interned string of the crate `atom`.
pub record TabKv (Atom : Type 0) : Type 0 where
  pub ware : Atom
  pub tab : Atom
  pub key : Bytes
  pub index : ℕ
  pub value : Option Bin

-- `TabKv::new`
unfoldable pub new_tab_kv : {Atom : Type 0} → Atom → Atom → Bytes → TabKv Atom
new_tab_kv ware tab key = record { ware = ware; tab = tab; key = key; index = 0; value = none }

-- The types of a table's keys and values; `EnumType` is of the crate `sinfo`.
pub record TabMeta (EnumType : Type 0) : Type 0 where
  pub k : EnumType
  pub v : EnumType

-- `PartialEq for TabMeta`
unfoldable pub meta_eqb :
    {EnumType : Type 0} ⦃e : Eq EnumType⦄ → TabMeta EnumType → TabMeta EnumType → Bool
meta_eqb a b = if a.k == b.k && a.v == b.v then true else false

-- `PartialEq for Bon`: `partial_cmp` is that of the crate `bon`'s `ReadBuffer`.
unfoldable pub bon_eqb : (Bytes → Bytes → Option Ordering) → Bytes → Bytes → Bool
bon_eqb partial_cmp a b = elim (partial_cmp a b) [
  | none ↦ false
  | some o ↦ elim o [ Ordering.eq ↦ true | _ ↦ false ]
]
