-- ===== src/Server/RouteAuth/Tests.antt =====
-- Routes resolved, and the theorems at paths that meet their hypotheses.
use mathlib.Core.List.{Memᴰ}
use openlocalcrm.Base.{none, ◌≡◌, refl, true, false, All}
use openlocalcrm.Base.Text.{Text, codes}
use openlocalcrm.Server.RouteAuth.{
  RouteAuthClass, auth_csrf_only, route_auth_classes, path_under_prefix, is_better, scan,
  resolve_route_auth_class,
}
use openlocalcrm.Server.RouteAuth.Longest.{beats, resolve_longest}

abbrev logout : Text
logout = codes "/api/v1/auth/logout/"

abbrev logout_row : RouteAuthClass
logout_row = record { prefix = codes "/api/v1/auth/logout"; class = auth_csrf_only }

abbrev logout_all : Text
logout_all = codes "/api/v1/auth/logout-all"

abbrev page : Text
page = codes "/deals"

resolve_longest_example :
    Memᴰ logout_row route_auth_classes
    × (path_under_prefix logout logout_row.prefix ≡ true)
    × All (λ entry. beats logout logout_row entry ≡ false) route_auth_classes
unfolding resolve_route_auth_class route_auth_classes scan path_under_prefix is_better
resolve_longest_example = resolve_longest logout logout_row refl

page_has_no_row : resolve_route_auth_class page ≡ none
unfolding resolve_route_auth_class route_auth_classes scan path_under_prefix is_better
page_has_no_row = refl
