-- ===== src/SuperPage/State.antt =====
-- `SuperPage::state_t`.
use sanitizers.Base.{◌==◌, if◌then◌else◌, ℕ}

abbrev pub available : ℕ
available = 0

abbrev pub used_mixed : ℕ
used_mixed = 1

abbrev pub used_data : ℕ
used_data = 3

abbrev pub quarantined : ℕ
quarantined = 5

abbrev pub marked : ℕ
marked = 7

abbrev pub releasing : ℕ
releasing = 255

-- The callback of `MoveFromQuarantineToAvailable`.
unfoldable pub swept : ℕ → ℕ
swept s =
    let s' : ℕ = if s == quarantined then available else s in
    if s' == marked then quarantined else s'
