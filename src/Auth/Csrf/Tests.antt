-- ===== src/Auth/Csrf/Tests.antt =====
-- Tokens under a small keyed function, and the theorems at inputs that meet their hypotheses.
use openlocalcrm.Base.{
  ◌+◌, ◌-◌, ◌≡◌, refl, true, false, Option, some, [], ◌∷◌, ◌++◌, map, ap, arith, nat_comparable,
}
use openlocalcrm.Base.Text.{Text, codes, text_comparable}
use openlocalcrm.Base.Results.{failed}
use openlocalcrm.Auth.Csrf.{Holder, too_short, already_in_use, get, install, generate, validate}
use openlocalcrm.Auth.Csrf.Tokens.{gets, installs, empty_holder, no_dot, run, generate_validates}
use openlocalcrm.Auth.Csrf.Middleware.{Request}

abbrev digest : Text → Text → Text
digest key text = key ++ text

-- Two functions that stand for package hex: the second reads what the first writes.
abbrev shift : Text → Text
shift b = map (λ r. r + 100) b

abbrev unshift : Text → Option Text
unshift b = some (map (λ r. r - 100) b)

unshift_lem : (b : Text) → map (λ r. r - 100) (shift b) ≡ b
unshift_lem [] = refl
unshift_lem (r ∷ b) = ground (arith, unshift_lem b)

shift-no_dot : (b : Text) → no_dot (shift b) ≡ true
unfolding no_dot
shift-no_dot [] = refl
shift-no_dot (r ∷ b) = ground (arith, shift-no_dot b)

abbrev same : Text → Text
same s = s

abbrev key : Text
key = codes "0123456789abcdef0123456789abcdef"

abbrev holding : Holder
holding = record { secret = some key; installed = true; in_use = false }

-- A short secret is refused, and so is one after the ephemeral secret was used.
install_refused : install same (get empty_holder key).0 key false ≡ failed already_in_use
unfolding install get
install_refused = refl

short_refused : install same empty_holder (codes "short") false ≡ failed too_short
unfolding install
short_refused = refl

generate_validates_example :
    (validate digest shift unshift
      (run same
        (generate digest shift unshift
          (run same empty_holder (installs key true ∷ []))
          []
          (1 ∷ 2 ∷ [])
          (codes "u")).0
        (gets (9 ∷ []) ∷ []))
      (7 ∷ [])
      (generate digest shift unshift
        (run same empty_holder (installs key true ∷ []))
        []
        (1 ∷ 2 ∷ [])
        (codes "u")).1
      (codes "u")).1
    ≡ true
generate_validates_example =
    generate_validates same shift digest unshift (λ b. ap some (unshift_lem b)) shift-no_dot
      (installs key true ∷ []) (gets (9 ∷ []) ∷ []) [] (1 ∷ 2 ∷ []) (codes "u") (7 ∷ [])

abbrev posting : Request
posting = record {
  method = "POST";
  path = "/api/v1/deals";
  via_bearer = false;
  cookie = codes "t";
  header = codes "t";
  user_id = [];
}
