-- ===== src/Data/States.antt =====
-- The numbering of the transaction's states (`TxState::to_state` in src/db.rs).
use pi_db.Base.{ℕ, ◌≡◌, refl, ◌≤◌, ◌<◌, arith}
use pi_db.Data.{TxState, discriminant, to_state, rollback_fail}

of_discriminant : (s : TxState) → to_state (discriminant s) ≡ s
unfolding to_state discriminant
of_discriminant TxState.ok = refl
of_discriminant s = refl

of_number : (n : ℕ) → 1 ≤ n → n ≤ 12 → discriminant (to_state n) ≡ n
unfolding to_state discriminant
of_number n l u = ground arith

out_of_range : (n : ℕ) → 12 < n → to_state n ≡ rollback_fail
unfolding to_state
out_of_range n h = ground arith

-- `to_state` inverts the discriminant of every state, the discriminant inverts `to_state` from 1 to
-- 12, and every number above 12 is read as `RollbackFail`.
pub to_state-discriminant :
    ((s : TxState) → to_state (discriminant s) ≡ s)
    × ((n : ℕ) → 1 ≤ n → n ≤ 12 → discriminant (to_state n) ≡ n)
    × ((n : ℕ) → 12 < n → to_state n ≡ rollback_fail)
to_state-discriminant = (of_discriminant, of_number, out_of_range)
