-- ===== src/Auth/Csrf.antt =====
-- internal/auth/csrf.go. Keys, digests and texts are lists of bytes. What `rand.Read` fills is an
-- argument; `hmac`, `to_hex`, `from_hex` and `trim` are HMAC-SHA256, package hex and
-- `bytes.TrimSpace`.
pub mod Tokens
pub mod Middleware
mod Tests
use openlocalcrm.Base.{
  ℕ, String, Bool, true, false, ◌||◌, Option, none, some, List, [], ◌∷◌, ◌++◌, ltb, ◌==◌,
  if◌then◌else◌, length, nat_comparable,
}
use openlocalcrm.Base.Text.{Text, codes, text_comparable}
use openlocalcrm.Base.Results.{Result, failed, done}

abbrev pub csrf_secret_length : ℕ
csrf_secret_length = 32

-- `csrfSecretHolder`; a nil secret is `none`.
pub record Holder : Type 0 where
  pub secret : Option Text
  pub installed : Bool
  pub in_use : Bool

pub data InstallError : Type 0 where
  too_short already_installed already_in_use : InstallError

-- The secret, or a new one of these random bytes.
unfoldable pub get : Holder → Text → Holder × Text
get h random = elim h.secret [
  | some secret ↦ (h, secret)
  | none ↦ (record h { secret = some random; in_use = true }, random)
]

abbrev pub material : (Text → Text) → Text → Bool → Text
material trim s trims = if trims then trim s else s

unfoldable pub install : (Text → Text) → Holder → Text → Bool → Result InstallError Holder
install trim h s trims =
    if ltb (length (material trim s trims)) csrf_secret_length
    then failed too_short
    else (if h.installed
        then failed already_installed
        else (if h.in_use
            then failed already_in_use
            else done (record h { secret = some (material trim s trims); installed = true })))

unfoldable pub subject_of : Text → Text
subject_of user_id = if user_id == [] then codes "anonymous" else user_id

abbrev pub message : Text → Text → Text
message nonce subject = nonce ++ (b':' ∷ subject)

abbrev pub extend : ℕ → List Text → List Text
extend r [] = (r ∷ []) ∷ []
extend r (part ∷ parts) = (r ∷ part) ∷ parts

-- `strings.Split(token, ".")`.
unfoldable pub split : Text → List Text
split [] = [] ∷ []
split (r ∷ token) = let rest = split token in if r == b'.' then [] ∷ rest else extend r rest

module _ (hmac : Text → Text → Text) (to_hex : Text → Text) (from_hex : Text → Option Text) where
  -- The nonce is the text in hex of 32 random bytes.
  unfoldable pub generate : Holder → Text → Text → Text → Holder × Text
  unfolding subject_of
  generate h random nonce user_id =
      let (h', key) = get h random in
      (h', to_hex nonce ++ (b'.' ∷ to_hex (hmac key (message (to_hex nonce) (subject_of user_id)))))

  -- Whether the received digest is that of the nonce for this subject.
  unfoldable pub check : Holder → Text → Text → Text → Text → Holder × Bool
  check h random nonce received subject =
      let (h', key) = get h random in (h', received == hmac key (message nonce subject))

  unfoldable pub validate_parts : Holder → Text → List Text → Text → Holder × Bool
  validate_parts h random (nonce ∷ digest ∷ []) user_id = elim (from_hex digest) [
    | none ↦ (h, false)
    | some received ↦
        if user_id == []
        then check h random nonce received (codes "anonymous")
        else (let (h', own) = check h random nonce received user_id in
            if own then (h', true) else check h' random nonce received (codes "anonymous"))
  ]
  validate_parts h random parts user_id = (h, false)

  unfoldable pub validate : Holder → Text → Text → Text → Holder × Bool
  validate h random token user_id = validate_parts h random (split token) user_id
