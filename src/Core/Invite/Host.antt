-- ===== src/Core/Invite/Host.antt =====
-- The link of an invite in internal/core/invite/service.go, and the host that it may name. A text is
-- its bytes; `query_escape` is url.QueryEscape.
use openlocalcrm.Base.{
  ℕ, ◌≡◌, ◌⊎◌, refl, inl, inr, Bool, true, false, not, ◌&&◌, ◌||◌, [], ◌∷◌, ◌++◌, leb, eqb, ◌==◌,
  if◌then◌else◌, All, Bool-cases,
}
use openlocalcrm.Base.Text.{Text, codes, text_comparable, trim_space, contains}
use mathlib.Core.List.{reverse}

-- `strings.TrimLeft` of slashes.
unfoldable pub drop_slashes : Text → Text
drop_slashes [] = []
drop_slashes (c ∷ s) = let rest = drop_slashes s in if eqb c b'/' then rest else c ∷ s

abbrev pub trim_right_slashes : Text → Text
trim_right_slashes s = reverse (drop_slashes (reverse s))

unfoldable pub build_invite_url : (Text → Text) → Text → Text → Text
build_invite_url query_escape base raw_token =
    let trimmed = trim_right_slashes (trim_space base) in
    let origin : Text =
      if not (trimmed == []) && not (contains trimmed (codes "://"))
      then codes "https://" ++ trimmed
      else trimmed in
    origin ++ codes "/accept-invite?token=" ++ query_escape raw_token

-- The bytes of " \t\r\n\v\f/\\?#@".
abbrev pub is_refused : ℕ → Bool
is_refused c =
    eqb c 0x20
    || (leb 9 c && leb c 13)
    || eqb c b'/'
    || eqb c 0x5c
    || eqb c b'?'
    || eqb c b'#'
    || eqb c b'@'

abbrev pub is_visible : ℕ → Bool
is_visible c = leb 0x21 c && leb c 0x7e

-- Whether a byte of the text is refused.
unfoldable pub any_refused : Text → Bool
any_refused [] = false
any_refused (c ∷ s) = is_refused c || any_refused s

-- The loop over the runes; one beyond ASCII is out of range, as its bytes are.
unfoldable pub all_visible : Text → Bool
all_visible [] = true
all_visible (c ∷ s) = let rest = all_visible s in if not (is_visible c) then false else rest

unfoldable pub sanitize_host : Text → Text
sanitize_host host =
    if host == []
    then []
    else (if any_refused host || contains host (codes "://")
        then []
        else (if all_visible host then host else []))

-- A byte that a host may have.
abbrev pub IsPlain : ℕ → Type 0
IsPlain c = (is_visible c ≡ true) × (is_refused c ≡ false)

all_visible-IsPlain : (s : Text) → any_refused s ≡ false → all_visible s ≡ true → All IsPlain s
unfolding any_refused all_visible
all_visible-IsPlain [] h v = tt
all_visible-IsPlain (c ∷ s) h v = elim (Bool-cases (is_refused c)) [
  | inl q ↦ absurd (cc (rw q at h))
  | inr q ↦ elim (Bool-cases (is_visible c)) [
    | inr r ↦ absurd (cc (rw r at v))
    | inl r ↦ ((r, q), all_visible-IsPlain s (rw q at h) (rw r at v))
  ]
]

-- A host is refused, or handed on as it is: then every byte of it is visible ASCII, and none is a
-- space, a slash, a backslash, a question mark, a hash or an at sign.
pub sanitize_host_lem :
    (host : Text) → (sanitize_host host ≡ []) ⊎ ((sanitize_host host ≡ host) × All IsPlain host)
unfolding sanitize_host
sanitize_host_lem host = elim (Bool-cases (host == [])) [
  | inl q ↦ inl (rw q refl)
  | inr q ↦ elim (Bool-cases (any_refused host)) [
    | inl r ↦ inl (rw (q, r) refl)
    | inr r ↦ elim (Bool-cases (contains host (codes "://"))) [
      | inl t ↦ inl (rw (q, r, t) refl)
      | inr t ↦ elim (Bool-cases (all_visible host)) [
        | inr v ↦ inl (rw (q, r, t, v) refl)
        | inl v ↦ inr (rw (q, r, t, v) refl, all_visible-IsPlain host r v)
      ]
    ]
  ]
]
