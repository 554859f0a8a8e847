-- ===== src/Auth/Session/Totp.antt =====
-- internal/auth/totp.go. `generate_code` is `totp.GenerateCode` of a secret at a time step, `none` its
-- error; times are seconds, and steps before 1970 are left out.
use openlocalcrm.Base.{
  ℕ, ◌+◌, ◌-◌, ◌/◌, Bool, true, false, not, ◌||◌, Option, none, some, List, [], ◌∷◌, leb, ◌==◌,
  if◌then◌else◌, length, nat_comparable,
}
use openlocalcrm.Base.Text.{Text, text_comparable}

abbrev pub window : ℕ → List ℕ
window now = (now / 30 - 1) ∷ (now / 30) ∷ (now / 30 + 1) ∷ []

module _ (generate_code : Text → ℕ → Option Text) where
  -- Whether the passcode is that of the step, and the step is a new one.
  unfoldable pub fits : Text → Text → ℕ → ℕ → Bool
  fits passcode secret last_used_step step =
      if leb step last_used_step then false else (elim (generate_code secret step) [
        | none ↦ false
        | some expected ↦ expected == passcode
      ])

  -- The loop over the steps of the window.
  unfoldable pub first_fit : Text → Text → ℕ → List ℕ → Bool × ℕ
  first_fit passcode secret last_used_step [] = (false, 0)
  first_fit passcode secret last_used_step (step ∷ steps) =
      let rest = first_fit passcode secret last_used_step steps in
      if fits passcode secret last_used_step step then (true, step) else rest

  unfoldable pub validate_totp_code_with_step : ℕ → Text → Text → ℕ → Bool × ℕ
  validate_totp_code_with_step now passcode secret last_used_step =
      if not (length passcode == 6) || secret == []
      then (false, 0)
      else first_fit passcode secret last_used_step (window now)
