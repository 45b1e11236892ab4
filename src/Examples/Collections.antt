-- ===== src/Examples/Collections.antt =====
-- The theorem on the timer of the collector, at two dates.
use pi_db.Base.{nat_eq, list_eq, pair_eq, ℕ, ◌≡◌, refl, ◌≢◌, ◌↔◌, ◌⊎◌, inl, inr, true, arith}
use pi_db.Collect.{Date, should_collect}
use pi_db.Collect.Daily.{should_collect_iff}

abbrev monday : Date
monday = record { year = 2021; month = 5; day = 31 }

abbrev tuesday : Date
tuesday = record { year = 2021; month = 6; day = 1 }

abbrev three : ℕ
three = 3

abbrev stamp : ℕ
stamp = 1622430000

should_collect_iff_example : (should_collect three tuesday three stamp monday ≡ true) ↔ (
    (three ≡ three)
    × ((stamp ≡ 0)
        ⊎ ((tuesday.year ≢ monday.year)
            ⊎ ((tuesday.month ≢ monday.month) ⊎ (tuesday.day ≢ monday.day)))))
should_collect_iff_example =
    should_collect_iff three tuesday three stamp monday (inr (refl, inl (omega arith)))
