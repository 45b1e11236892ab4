-- ===== src/Collect.antt =====
-- src/db_collect.rs: whether the timer starts the collector (`should_collect`).
--
-- The date of the last collection is made from its time stamp by the crate `chrono`; here it is an
-- argument beside the time stamp, which is 0 before the first collection.
pub mod Daily
use pi_db.Base.{
  ltb, leb, nat_eqb, if◌then◌else◌, Bool-cases, Option-cases, Eq, ◌==◌, ==-refl, ==-ne, nat_eqb_iff,
  nat_eq, list_eqb, list_eqb_iff, list_eq, pair_eqb, pair_eqb_iff, pair_eq, length, get_elem?,
  length-append, length-map, All, ℕ, zero, suc, ◌+◌, ◌-◌, ◌*◌, ◌%◌, ◌^◌, ◌≤◌, ◌<◌, ◌≡◌, refl, sym,
  ap, ◌∙◌, ◌≢◌, ◌↔◌, ◌⊎◌, inl, inr, Bool, true, false, not, ◌&&◌, ◌||◌, Option, none, some, List,
  [], ◌∷◌, ◌++◌, map, arith,
}

pub record Date : Type 0 where
  pub year : ℕ
  pub month : ℕ
  pub day : ℕ

unfoldable pub should_collect : ℕ → Date → ℕ → ℕ → Date → Bool
should_collect start_at current hour last_collect prev =
    let within_one_hour = leb start_at hour && ltb hour (start_at + 1) in
    if not within_one_hour
    then false
    else if nat_eqb last_collect 0
    then true
    else if ltb prev.year current.year
    then true
    else if ltb prev.month current.month
    then true
    else ltb prev.day current.day
