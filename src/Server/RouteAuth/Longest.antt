-- ===== src/Server/RouteAuth/Longest.antt =====
-- `ResolveRouteAuthClass` of internal/server/route_auth.go finds the longest prefix.
use mathlib.Core.List.{Memᴰ}
use openlocalcrm.Base.{
  ℕ, ◌≤◌, ◌≡◌, ◌⊎◌, refl, Bool, true, false, Option, none, some, List, [], ◌∷◌, ltb, if◌then◌else◌,
  arith, length, inl, inr, Bool-cases, All, sym, ◌&&◌, ◌++◌, ◌∙◌,
}
use openlocalcrm.Base.Text.{Text}
use openlocalcrm.Server.RouteAuth.{
  RouteAuthClass, default_row, labelled_rows, route_auth_classes, path_under_prefix, is_better,
  scan, resolve_route_auth_class,
}

module _ (path : Text) where
  covers : RouteAuthClass → Bool
  covers entry = path_under_prefix path entry.prefix

  abbrev size : Option RouteAuthClass → ℕ
  size none = 0
  size (some best) = length best.prefix

  -- The best row found is in the table or the first best, and covers the path.
  scan_member :
      (best : Option RouteAuthClass) (entries : List RouteAuthClass) (r : RouteAuthClass)
      → scan path best entries ≡ some r
      → (best ≡ some r) ⊎ (Memᴰ r entries × (covers r ≡ true))
  unfolding scan covers
  scan_member best [] r q = inl q
  scan_member best (entry ∷ entries) r q = elim (Bool-cases (covers entry)) [
    | inr out ↦ elim (scan_member best entries r (rw out at q)) [
      | inl first ↦ inl first
      | inr (m, c) ↦ inr (Memᴰ.tail m, c)
    ]
    | inl under ↦ elim (Bool-cases (is_better best entry)) [
      | inr worse ↦ elim (scan_member best entries r (rw (under, worse) at q)) [
        | inl first ↦ inl first
        | inr (m, c) ↦ inr (Memᴰ.tail m, c)
      ]
      | inl better ↦ elim (scan_member (some entry) entries r (rw (under, better) at q)) [
        | inl first ↦
            let same : entry ≡ r = cc first in inr (Memᴰ.head (sym same), rw same at under)
        | inr (m, c) ↦ inr (Memᴰ.tail m, c)
      ]
    ]
  ]

  -- The entry covers the path with a prefix longer than that of the row.
  abbrev pub beats : RouteAuthClass → RouteAuthClass → Bool
  beats r entry = path_under_prefix path entry.prefix && ltb (length r.prefix) (length entry.prefix)

  scan_longest :
      (best : Option RouteAuthClass) (entries : List RouteAuthClass) (r : RouteAuthClass)
      → scan path best entries ≡ some r
      → (size best ≤ length r.prefix) × All (λ entry. beats r entry ≡ false) entries
  unfolding scan is_better
  scan_longest none [] r q = absurd (cc q)
  scan_longest (some best) [] r q = let same : best ≡ r = cc q in (rw same (omega arith), tt)
  scan_longest best (entry ∷ entries) r q =
      elim (Bool-cases (path_under_prefix path entry.prefix)) [
        | inr out ↦
            let (low, later) = scan_longest best entries r (rw out at q) in
            (low, (ground (arith, out), later))
        | inl under ↦ elim (Bool-cases (is_better best entry)) [
          | inr worse ↦
              let (low, later) = scan_longest best entries r (rw (under, worse) at q) in
              (low, (ground (arith, low, worse), later))
          | inl better ↦
              let (low, later) = scan_longest (some entry) entries r (rw (under, better) at q) in
              (ground (arith, low, better), (ground (arith, low), later))
        ]
      ]

  scan_skip :
      (best : Option RouteAuthClass) (rows rest : List RouteAuthClass)
      → All (λ entry. path_under_prefix path entry.prefix ≡ false) rows
      → scan path best (rows ++ rest) ≡ scan path best rest
  unfolding scan
  scan_skip best [] rest none_covers = refl
  scan_skip best (entry ∷ rows) rest (out, outs) =
      let opened : scan path best (entry ∷ (rows ++ rest))
          ≡ scan path
              (if path_under_prefix path entry.prefix
                then (if is_better best entry then some entry else best)
                else best)
              (rows ++ rest) =
        refl in
      rw (opened, out) (scan_skip best rows rest outs)

  -- The row that `ResolveRouteAuthClass` finds is in the table and covers the path, and no row of
  -- the table that covers the path has a longer prefix.
  pub resolve_longest :
      (r : RouteAuthClass)
      → resolve_route_auth_class path ≡ some r
      → Memᴰ r route_auth_classes
        × (path_under_prefix path r.prefix ≡ true)
        × All (λ entry. beats r entry ≡ false) route_auth_classes
  unfolding resolve_route_auth_class covers
  resolve_longest r q = elim (scan_member none route_auth_classes r q) [
    | inl first ↦ absurd (cc first)
    | inr (m, c) ↦ (m, c, (scan_longest none route_auth_classes r q).1)
  ]

  -- A path under /api/v1 that no labelled row covers needs the access token and the CSRF header.
  pub unlabelled_is_protected :
      path_under_prefix path default_row.prefix ≡ true
      → All (λ entry. path_under_prefix path entry.prefix ≡ false) labelled_rows
      → resolve_route_auth_class path ≡ some default_row
  unfolding resolve_route_auth_class route_auth_classes scan is_better
  unlabelled_is_protected under outs =
      scan_skip none labelled_rows (default_row ∷ []) outs ∙ rw under refl
