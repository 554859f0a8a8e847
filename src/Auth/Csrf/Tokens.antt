-- ===== src/Auth/Csrf/Tokens.antt =====
-- Which tokens of internal/auth/csrf.go validate, and how long.
use openlocalcrm.Base.{
  ◌≡◌, ◌∙◌, refl, Bool, true, false, not, ◌||◌, ◌&&◌, Option, none, some, List, [], ◌∷◌, ◌++◌, ◌==◌,
  arith, nat_comparable, inl, inr, Bool-cases, eq_refl,
}
use openlocalcrm.Base.Text.{Text, codes, text_comparable}
use openlocalcrm.Base.Results.{Result, failed, done}
use openlocalcrm.Auth.Csrf.{
  Holder, get, install, subject_of, message, split, generate, check, validate_parts, validate,
}

abbrev pub empty_holder : Holder
empty_holder = record { secret = none; installed = false; in_use = false }

-- A call of the holder: `get` with its random bytes, or `install`.
pub data Call : Type 0 where
  gets : Text → Call
  installs : Text → Bool → Call

-- The holder after an installation that may be refused.
kept_holder : {E : Type 0} → Holder → Result E Holder → Holder
kept_holder h (failed e) = h
kept_holder h (done new) = new

module _ (trim : Text → Text) where
  unfoldable pub step : Holder → Call → Holder
  unfolding kept_holder
  step h (gets random) = (get h random).0
  step h (installs s trims) = kept_holder h (install trim h s trims)

  unfoldable pub run : Holder → List Call → Holder
  run h [] = h
  run h (call ∷ calls) = run (step h call) calls

  -- A secret is marked as installed or in use, and nothing else is.
  abbrev is_marked : Holder → Bool
  is_marked h = elim h.secret [
    | none ↦ not (h.installed || h.in_use)
    | some secret ↦ h.installed || h.in_use
  ]

  step_marked : (h : Holder) (call : Call) → is_marked h ≡ true → is_marked (step h call) ≡ true
  unfolding step get install
  step_marked h (gets random) m = ground (arith, m)
  step_marked h (installs s trims) m = ground (arith, m)

  run_marked :
      (h : Holder) (calls : List Call) → is_marked h ≡ true → is_marked (run h calls) ≡ true
  unfolding run
  run_marked h [] m = m
  run_marked h (call ∷ calls) m = run_marked (step h call) calls (step_marked h call m)

  step_keeps :
      (h : Holder) (call : Call) (key : Text)
      → is_marked h ≡ true
      → h.secret ≡ some key
      → (step h call).secret ≡ some key
  unfolding step get install
  step_keeps h (gets random) key m q = ground (arith, q)
  step_keeps h (installs s trims) key m q = ground (arith, q, m)

  run_keeps :
      (h : Holder) (calls : List Call) (key : Text)
      → is_marked h ≡ true
      → h.secret ≡ some key
      → (run h calls).secret ≡ some key
  unfolding run
  run_keeps h [] key m q = q
  run_keeps h (call ∷ calls) key m q =
      run_keeps (step h call) calls key (step_marked h call m) (step_keeps h call key m q)

  get_marked : (h : Holder) (random : Text) → is_marked h ≡ true → is_marked (get h random).0 ≡ true
  unfolding get
  get_marked h random m = ground (arith, m)

get_secret : (h : Holder) (random : Text) → (get h random).0.secret ≡ some (get h random).1
unfolding get
get_secret h random = ground arith

get_held :
    (h : Holder) (random key : Text)
    → h.secret ≡ some key
    → ((get h random).0 ≡ h) × ((get h random).1 ≡ key)
unfolding get
get_held h random key q = ground (arith, q)

unfoldable pub no_dot : Text → Bool
no_dot [] = true
no_dot (r ∷ s) = not (r == b'.') && no_dot s

split_word : (s : Text) → no_dot s ≡ true → split s ≡ s ∷ []
unfolding no_dot split
split_word [] h = refl
split_word (r ∷ s) h = let ih = split_word s in ground (arith, h, ih)

split_token :
    (nonce digest : Text)
    → no_dot nonce ≡ true
    → no_dot digest ≡ true
    → split (nonce ++ (b'.' ∷ digest)) ≡ nonce ∷ digest ∷ []
unfolding no_dot split
split_token [] digest h d = ground (arith, split_word digest d)
split_token (r ∷ s) digest h d = let ih = split_token s digest in ground (arith, h, d, ih)

-- A validation accepts the digest of the user's id, or that of the word anonymous.
abbrev pub accepts : (Text → Text → Text) → Text → Text → Text → Text → Bool
accepts hmac key nonce received user =
    (not (user == []) && received == hmac key (message nonce user))
    || received == hmac key (message nonce (codes "anonymous"))

module _ (hmac : Text → Text → Text) (to_hex : Text → Text) (from_hex : Text → Option Text) where
  check_held :
      (h : Holder) (random nonce received subject key : Text)
      → h.secret ≡ some key
      → ((check hmac to_hex from_hex h random nonce received subject).0 ≡ h)
        × ((check hmac to_hex from_hex h random nonce received subject).1
            ≡ (received == hmac key (message nonce subject)))
  unfolding check
  check_held h random nonce received subject key q =
      let (same, held) = get_held h random key q in (same, rw held refl)

  validate_parts_held :
      (h : Holder) (random nonce digest received user key : Text)
      → h.secret ≡ some key
      → from_hex digest ≡ some received
      → (validate_parts hmac to_hex from_hex h random (nonce ∷ digest ∷ []) user).1
        ≡ accepts hmac key nonce received user
  unfolding validate_parts
  validate_parts_held h random nonce digest received user key q read =
      let own = check_held h random nonce received user key q in
      let anyone = check_held h random nonce received (codes "anonymous") key q in
      elim (Bool-cases (user == [])) [
        | inl r ↦ rw (read, validate_parts, r) (ground (arith, anyone.1))
        | inr r ↦ rw (read, validate_parts, r, own.0, own.1) (ground (arith, anyone.1))
      ]

  -- `ValidateCSRFToken` accepts a token of two parts exactly if the second is the hex of the digest,
  -- under the holder's secret, of the first with the user's id or with the word anonymous.
  pub validate_lem :
      (h : Holder) (random nonce digest received user key : Text)
      → h.secret ≡ some key
      → no_dot nonce ≡ true
      → no_dot digest ≡ true
      → from_hex digest ≡ some received
      → (validate hmac to_hex from_hex h random (nonce ++ (b'.' ∷ digest)) user).1
        ≡ accepts hmac key nonce received user
  unfolding validate
  validate_lem h random nonce digest received user key q plain_nonce plain_digest read =
      rw (split_token nonce digest plain_nonce plain_digest)
        (validate_parts_held h random nonce digest received user key q read)

accepts_own :
    (hmac : Text → Text → Text) (key nonce user : Text)
    → accepts hmac key nonce (hmac key (message nonce (subject_of user))) user ≡ true
unfolding subject_of
accepts_own hmac key nonce user =
    let refl_digest = eq_refl (hmac key (message nonce (subject_of user))) in
    ground (arith, refl_digest)

module _ (trim to_hex : Text → Text) (hmac : Text → Text → Text) (from_hex : Text → Option Text)
    (hex_reads : (b : Text) → from_hex (to_hex b) ≡ some b)
    (hex_no_dot : (b : Text) → no_dot (to_hex b) ≡ true) where
  -- A token that `GenerateBoundCSRFToken` makes for a user at any state of the holder that its calls
  -- lead to validates for this user ever after: no later call of the holder changes the secret.
  pub generate_validates :
      (before later : List Call) (r nonce user random : Text)
      → let made = generate hmac to_hex from_hex (run trim empty_holder before) r nonce user in
        (validate hmac to_hex from_hex (run trim made.0 later) random made.1 user).1 ≡ true
  unfolding generate
  generate_validates before later r nonce user random =
      let h = run trim empty_holder before in
      let marked = run_marked trim empty_holder before refl in
      let key = (get h r).1 in
      let kept =
        run_keeps trim (get h r).0 later key (get_marked trim h r marked) (get_secret h r) in
      let digest = hmac key (message (to_hex nonce) (subject_of user)) in
      validate_lem hmac to_hex from_hex (run trim (get h r).0 later) random (to_hex nonce)
        (to_hex digest) digest user key kept (hex_no_dot nonce) (hex_no_dot digest)
        (hex_reads digest)
      ∙ accepts_own hmac key (to_hex nonce) user
