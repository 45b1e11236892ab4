-- ===== src/Collect/Daily.antt =====
-- The days on which src/db_collect.rs starts the collector.
use pi_db.Base.{nat_eq, list_eq, pair_eq, ℕ, ◌≤◌, ◌<◌, ◌≡◌, ◌≢◌, ◌↔◌, ◌⊎◌, true, arith}
use pi_db.Collect.{Date, should_collect}

-- the date is not before the other
abbrev pub IsAfter : Date → Date → Type 0
IsAfter a b =
    (b.year < a.year)
    ⊎ ((a.year ≡ b.year) × ((b.month < a.month) ⊎ ((a.month ≡ b.month) × (b.day ≤ a.day))))

-- From a date that is not before that of the last collection, the collector starts exactly in the
-- hour it is to start in, when nothing has been collected, or the last collection was on another day.
pub should_collect_iff :
    (start_at : ℕ) (current : Date) (hour last_collect : ℕ) (prev : Date)
    → IsAfter current prev
    → (should_collect start_at current hour last_collect prev ≡ true) ↔ (
        (hour ≡ start_at)
        × ((last_collect ≡ 0)
            ⊎ ((current.year ≢ prev.year)
                ⊎ ((current.month ≢ prev.month) ⊎ (current.day ≢ prev.day)))))
unfolding should_collect
should_collect_iff start_at current hour last_collect prev h = ground arith
