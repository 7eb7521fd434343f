-- ===== src/Unlock/Confirmed.antt =====
-- `_confirm_ha_state` (auth_engine.py and lock_actions.py): what a confirmation rests on.
use hassio_access_control.Prelude.{
  ◌⊎◌, ℕ, zero, suc, ◌+◌, ◌<◌, String, ◌≡◌, Bool-cases, inl, inr, none, some, arith, str_eq, eq_iff,
}
use hassio_access_control.Unlock.{
  Reading, state, reading_raised, reading_cancelled, Readback, confirmed, confirm_ha_state,
  after_reading,
}

-- one readback decides, or leaves it to the later ones
after_reading-cases :
    (expected : String) (r : Reading) (later : Readback)
    → after_reading expected r later ≡ confirmed
    → (r ≡ state (some expected)) ⊎ (later ≡ confirmed)
unfolding after_reading
after_reading-cases expected (state none) later h = inr h
after_reading-cases expected (state (some s)) later h = elim (Bool-cases (str_eq s expected)) [
  | inl e ↦ inl (ground (arith, eq_iff s expected, e))
  | inr e ↦ inr (ground (arith, e, h))
]
after_reading-cases expected reading_raised later h = ground (arith, h)
after_reading-cases expected reading_cancelled later h = ground (arith, h)

pub confirmed_lem :
    (expected : String) (n i : ℕ) (readings : ℕ → Reading)
    → confirm_ha_state expected n i readings ≡ confirmed
    → (j : ℕ) × (j < i + n) × (readings j ≡ state (some expected))
unfolding confirm_ha_state
confirmed_lem expected zero i readings h = ground (arith, h)
confirmed_lem expected (suc n) i readings h =
    elim (after_reading-cases expected (readings i) (confirm_ha_state expected n (i + 1) readings)
      h) [
        | inl e ↦ (i, omega arith, e)
        | inr e ↦
            let r = confirmed_lem expected n (i + 1) readings e in (r.0, omega (arith, r.1), r.2)
      ]
