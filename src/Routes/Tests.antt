-- ===== src/Routes/Tests.antt =====
-- Patterns on small paths.
use ig_desktop.Prelude.{◌≡◌, ◌⊎◌, refl, String, some, List, [], ◌∷◌}
use ig_desktop.Routes.{
  is_special, match_route, matched, no_match, route_threw, create_route_matcher, replace_params,
  escape, normalize, read,
}
use ig_desktop.Routes.Parts.{Part, char, param, print, names_of, IsPattern, Fits, filled}
use ig_desktop.Routes.Params.{IsResult}
use ig_desktop.Routes.Fills.{match_route-parts}
use ig_desktop.Routes.CatchAll.{create_route_matcher-catch_all}

dynamic :
    match_route some "/users/[userId]/posts/[postId]" "users/7/posts/x/"
    ≡ matched (("userId", "7") ∷ ("postId", "x") ∷ [])
unfolding match_route is_special
dynamic = refl

catch_all : match_route some "/docs/[...path]" "/docs/a/b" ≡ no_match
unfolding match_route is_special
catch_all = refl

catch_one : match_route some "/docs/[...path]" "/docs/a" ≡ matched (("\\.\\.\\.path", "a") ∷ [])
unfolding match_route is_special
catch_one = refl

-- A pattern that is not closed has no expression.
not_closed : match_route some "/a[b" "/a" ≡ route_threw
unfolding match_route is_special
not_closed = refl

-- `/v.[id]`.
abbrev parts : List Part
parts = char "/" ∷ char "v" ∷ char "." ∷ param "id" ∷ []

parts-IsPattern : IsPattern parts
unfolding is_special
parts-IsPattern = (refl, (refl, (refl, ((refl, (refl, (refl, (refl, (refl, tt))))), tt))))

parts-normal : normalize (print parts) ≡ print parts
unfolding normalize
parts-normal = refl

filled_once : match_route some (print parts) "v.7/" ≡ matched (("id", "7") ∷ [])
unfolding match_route is_special
filled_once = refl

match_route-parts_example :
    ((caps : List String) × Fits parts caps
      × (filled parts caps ≡ normalize "v.7/")
      × IsResult some (names_of parts) caps (match_route some (print parts) "v.7/"))
    ⊎ ((match_route some (print parts) "v.7/" ≡ no_match)
        × (¬ ((caps : List String) × Fits parts caps × (filled parts caps ≡ normalize "v.7/"))))
match_route-parts_example = match_route-parts some parts "v.7/" parts-IsPattern parts-normal

create_route_matcher-catch_all_example :
    (let (regex, names) = replace_params (escape (normalize "/docs/[...path]")) in
      create_route_matcher "/docs/[...path]" ≡ record { names = names; pieces = read 0 regex })
create_route_matcher-catch_all_example = create_route_matcher-catch_all "/docs/[...path]"
