-- ===== src/Server/RouteAuth.antt =====
-- internal/server/route_auth.go, over paths as code points; the prefixes are ASCII, so their length
-- in bytes is that in code points.
pub mod Longest
mod Tests
use openlocalcrm.Base.{
  ℕ, String, Bool, true, false, ◌||◌, not, Option, none, some, List, [], ◌∷◌, ◌++◌, ltb, ◌==◌,
  if◌then◌else◌, length,
}
use openlocalcrm.Base.Text.{Text, codes, has_prefix, text_comparable}

pub data AuthClass : Type 0 where
  auth_none auth_csrf_only auth_jwt_csrf auth_connector_token auth_jwt_inline : AuthClass

pub record RouteAuthClass : Type 0 where
  pub prefix : Text
  pub class : AuthClass

abbrev row : String → AuthClass → RouteAuthClass
row prefix class = record { prefix = codes prefix; class = class }

abbrev pub default_row : RouteAuthClass
default_row = row "/api/v1" auth_jwt_csrf

abbrev pub labelled_rows : List RouteAuthClass
labelled_rows =
    row "/api/v1/health" auth_none
    ∷ row "/api/v1/auth/login" auth_none
    ∷ row "/api/v1/auth/accept-invite" auth_none
    ∷ row "/api/v1/auth/refresh" auth_csrf_only
    ∷ row "/api/v1/auth/logout" auth_csrf_only
    ∷ row "/api/v1/connectors/lead-intake" auth_connector_token
    ∷ row "/events/stream" auth_jwt_inline
    ∷ []

unfoldable pub route_auth_classes : List RouteAuthClass
route_auth_classes = labelled_rows ++ (default_row ∷ [])

unfoldable pub path_under_prefix : Text → Text → Bool
path_under_prefix path prefix = path == prefix || has_prefix path (prefix ++ (b'/' ∷ []))

-- Whether the entry takes the place of the best so far; `none` is `found == false`.
unfoldable pub is_better : Option RouteAuthClass → RouteAuthClass → Bool
is_better none entry = true
is_better (some best) entry = ltb (length best.prefix) (length entry.prefix)

unfoldable pub scan : Text → Option RouteAuthClass → List RouteAuthClass → Option RouteAuthClass
scan path best [] = best
scan path best (entry ∷ entries) =
    scan path
      (if path_under_prefix path entry.prefix
        then (if is_better best entry then some entry else best)
        else best)
      entries

unfoldable pub resolve_route_auth_class : Text → Option RouteAuthClass
resolve_route_auth_class path = scan path none route_auth_classes
