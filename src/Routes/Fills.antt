-- ===== src/Routes/Fills.antt =====
-- A pattern matches exactly the paths that fill it.
use Prim.Native.String.{String, ◌∷◌, ◌++◌}
use mathlib.Core.Bool.{true≢false}
use mathlib.Core.Path.{subst}
use ig_desktop.Prelude.{◌≡◌, ◌⊎◌, refl, sym, ap, ◌∙◌, Option, List, Option-cases, inl, inr, is_some}
use ig_desktop.Routes.{matches, normalize, no_match, params_match, run_matcher, match_route}
use ig_desktop.Routes.Matching.{AreCaptures, fill, sound, complete}
use ig_desktop.Routes.Parts.{Part, char, param, print, names_of, IsPattern, Fits, filled, pieces_of}
use ig_desktop.Routes.Compile.{compiled}
use ig_desktop.Routes.Params.{IsResult, params_match-IsResult}

Fits-AreCaptures :
    (ps : List Part) (caps : List String) → Fits ps caps → AreCaptures (pieces_of ps) caps
Fits-AreCaptures List.[] List.[] h = tt
Fits-AreCaptures List.[] (List.◌∷◌ cap caps) h = h
Fits-AreCaptures (List.◌∷◌ (char c) ps) caps h = Fits-AreCaptures ps caps h
Fits-AreCaptures (List.◌∷◌ (param name) ps) List.[] h = h
Fits-AreCaptures (List.◌∷◌ (param name) ps) (List.◌∷◌ cap caps) (c, h) =
    (c, Fits-AreCaptures ps caps h)

AreCaptures-Fits :
    (ps : List Part) (caps : List String) → AreCaptures (pieces_of ps) caps → Fits ps caps
AreCaptures-Fits List.[] List.[] h = tt
AreCaptures-Fits List.[] (List.◌∷◌ cap caps) h = h
AreCaptures-Fits (List.◌∷◌ (char c) ps) caps h = AreCaptures-Fits ps caps h
AreCaptures-Fits (List.◌∷◌ (param name) ps) List.[] h = h
AreCaptures-Fits (List.◌∷◌ (param name) ps) (List.◌∷◌ cap caps) (c, h) =
    (c, AreCaptures-Fits ps caps h)

fill-filled : (ps : List Part) (caps : List String) → fill (pieces_of ps) caps ≡ filled ps caps
fill-filled List.[] caps = refl
fill-filled (List.◌∷◌ (char c) ps) caps = ap (◌∷◌ c) (fill-filled ps caps)
fill-filled (List.◌∷◌ (param name) ps) List.[] = refl
fill-filled (List.◌∷◌ (param name) ps) (List.◌∷◌ cap caps) = ap (◌++◌ cap) (fill-filled ps caps)

-- A pattern of characters other than `[` and of `[name]` groups, whose names are not empty and have no
-- special character and no `]`, with a slash in front and none at the end, and any path: either the path,
-- made to begin with a slash and to end without one, is the pattern with texts in the places of its
-- groups, each not empty and without a slash, and the result has under each name the decoded text of its
-- last group, or an exception if one cannot be decoded; or it is no such text, and there is no match.
pub match_route-parts :
    (decode : String → Option String) (ps : List Part) (path : String)
    → IsPattern ps
    → normalize (print ps) ≡ print ps
    → ((caps : List String) × Fits ps caps
        × (filled ps caps ≡ normalize path)
        × IsResult decode (names_of ps) caps (match_route decode (print ps) path))
      ⊎ ((match_route decode (print ps) path ≡ no_match)
          × (¬ ((caps : List String) × Fits ps caps × (filled ps caps ≡ normalize path))))
unfolding match_route run_matcher
match_route-parts decode ps path h n =
    let found = matches (pieces_of ps) (normalize path) in
    let run = ap (λ c. run_matcher decode c path) (compiled ps h n) in
    elim (Option-cases found) [
      | inr (caps, e) ↦
          let (a, f) = sound (pieces_of ps) (normalize path) caps e in
          inl (
            caps,
            AreCaptures-Fits ps caps a,
            sym (fill-filled ps caps) ∙ f,
            subst (IsResult decode (names_of ps) caps)
                (sym (run ∙ ap (params_match decode (names_of ps)) e))
                (params_match-IsResult decode ps caps (AreCaptures-Fits ps caps a)),
          )
      | inl e ↦ inr (
        run ∙ ap (params_match decode (names_of ps)) e ∙ unfold params_match in refl,
        λ (caps, fits, same). true≢false (
            sym (complete (pieces_of ps) caps (Fits-AreCaptures ps caps fits))
            ∙ ap (λ p. is_some (matches (pieces_of ps) p)) (fill-filled ps caps ∙ same)
            ∙ ap is_some e),
      )
    ]
