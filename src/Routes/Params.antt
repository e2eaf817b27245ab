-- ===== src/Routes/Params.antt =====
-- The parameters that are read from the captures of a route.
use mathlib.Core.Path.{subst}
use ig_desktop.Prelude.{
  ◌≡◌, refl, sym, ap, ◌∙◌, String, Option, none, some, List, Option-cases, inl, inr, coalesce,
  str_eq, if◌then◌else◌, arith,
}
use ig_desktop.Prelude.Assoc.{lookup, insert, lookup-insert}
use ig_desktop.Routes.{RouteMatch, matched, route_threw, no_match, params_of, params_match}
use ig_desktop.Routes.Parts.{Part, char, param, names_of, Fits}

-- Two results, if both are there.
abbrev pub both : Option String → Option (List String) → Option (List String)
both none o = none
both (some value) none = none
both (some value) (some values) = some (List.◌∷◌ value values)

-- The text of the last of the groups with a name.
abbrev pub named : String → List String → List String → Option String
named k List.[] values = none
named k (List.◌∷◌ name names) List.[] = none
named k (List.◌∷◌ name names) (List.◌∷◌ value values) =
    coalesce (named k names values) (if str_eq name k then some value else none)

module _ (decode : String → Option String) where
  -- The texts decoded, if all of them can be.
  abbrev pub decoded : List String → Option (List String)
  decoded List.[] = some List.[]
  decoded (List.◌∷◌ cap caps) = both (decode cap) (decoded caps)

  -- What is made of the texts of the groups: their values by name, or an exception.
  abbrev pub IsResult : List String → List String → RouteMatch → Type 0
  IsResult names caps no_match = ⊥
  IsResult names caps route_threw = decoded caps ≡ none
  IsResult names caps (matched params) =
      (values : List String) × (decoded caps ≡ some values)
      × ((k : String) → lookup k params ≡ named k names values)

  abbrev IsRead :
      List String → List String → List (String × String) → Option (List (String × String)) → Type 0
  IsRead names caps params none = decoded caps ≡ none
  IsRead names caps params (some result) =
      (values : List String) × (decoded caps ≡ some values)
      × ((k : String) → lookup k result ≡ coalesce (named k names values) (lookup k params))

  coalesce_assoc :
      (k name value : String) (o : Option String) (params : List (String × String))
      → coalesce o (lookup k (insert name value params))
        ≡ coalesce (coalesce o (if str_eq name k then some value else none)) (lookup k params)
  coalesce_assoc k name value none params = lookup-insert name k value params ∙ ground arith
  coalesce_assoc k name value (some v) params = refl

  IsRead-cons :
      (name cap value : String) (names caps : List String) (params : List (String × String))
      (o : Option (List (String × String)))
      → decode cap ≡ some value
      → IsRead names caps (insert name value params) o
      → IsRead (List.◌∷◌ name names) (List.◌∷◌ cap caps) params o
  IsRead-cons name cap value names caps params none e h =
      ap (both (decode cap)) h ∙ ap (λ d. both d none) e
  IsRead-cons name cap value names caps params (some result) e (values, d, f) = (
    List.◌∷◌ value values,
    ap (both (decode cap)) d ∙ ap (λ o. both o (some values)) e,
    λ k. f k ∙ coalesce_assoc k name value (named k names values) params,
  )

  params_of-some :
      (name cap value : String) (names caps : List String) (params : List (String × String))
      → decode cap ≡ some value
      → params_of decode (List.◌∷◌ name names) (List.◌∷◌ cap caps) params
        ≡ params_of decode names caps (insert name value params)
  unfolding params_of
  params_of-some name cap value names caps params e = rw (e, params_of) refl

  params_of-none :
      (name cap : String) (names caps : List String) (params : List (String × String))
      → decode cap ≡ none
      → params_of decode (List.◌∷◌ name names) (List.◌∷◌ cap caps) params ≡ none
  unfolding params_of
  params_of-none name cap names caps params e = rw (e, params_of) refl

  params_of-IsRead :
      (ps : List Part) (caps : List String) (params : List (String × String))
      → Fits ps caps
      → IsRead (names_of ps) caps params (params_of decode (names_of ps) caps params)
  unfolding params_of
  params_of-IsRead List.[] List.[] params h = (List.[], refl, λ k. refl)
  params_of-IsRead List.[] (List.◌∷◌ cap caps) params h = absurd h
  params_of-IsRead (List.◌∷◌ (char c) ps) caps params h = params_of-IsRead ps caps params h
  params_of-IsRead (List.◌∷◌ (param name) ps) List.[] params h = absurd h
  params_of-IsRead (List.◌∷◌ (param name) ps) (List.◌∷◌ cap caps) params (c, h) =
      elim (Option-cases (decode cap)) [
        | inl e ↦
            subst (IsRead (List.◌∷◌ name (names_of ps)) (List.◌∷◌ cap caps) params)
              (sym (params_of-none name cap (names_of ps) caps params e))
              (ap (λ d. both d (decoded caps)) e)
        | inr (value, e) ↦
            let rest = params_of decode (names_of ps) caps (insert name value params) in
            subst (IsRead (List.◌∷◌ name (names_of ps)) (List.◌∷◌ cap caps) params)
              (sym (params_of-some name cap value (names_of ps) caps params e))
              (IsRead-cons name cap value (names_of ps) caps params rest e
                (params_of-IsRead ps caps (insert name value params) h))
      ]

  -- `params_match` by what the parameters are.
  abbrev result_of : Option (List (String × String)) → RouteMatch
  result_of none = route_threw
  result_of (some params) = matched params

  coalesce-none : (o : Option String) → coalesce o none ≡ o
  coalesce-none none = refl
  coalesce-none (some v) = refl

  result_of-IsResult :
      (names caps : List String) (o : Option (List (String × String)))
      → IsRead names caps List.[] o
      → IsResult names caps (result_of o)
  result_of-IsResult names caps none h = h
  result_of-IsResult names caps (some params) (values, d, f) =
      (values, d, λ k. f k ∙ unfold lookup in coalesce-none (named k names values))

  params_match-result_of :
      (names caps : List String)
      → params_match decode names (some caps) ≡ result_of (params_of decode names caps List.[])
  unfolding params_match
  params_match-result_of names caps = elim (Option-cases (params_of decode names caps List.[])) [
    | inl e ↦ rw (e, params_match) refl
    | inr (params, e) ↦ rw (e, params_match) refl
  ]

  -- The captures that fit a pattern give what they stand for.
  pub params_match-IsResult :
      (ps : List Part) (caps : List String)
      → Fits ps caps
      → IsResult (names_of ps) caps (params_match decode (names_of ps) (some caps))
  params_match-IsResult ps caps h =
      subst (IsResult (names_of ps) caps) (sym (params_match-result_of (names_of ps) caps)) (
        result_of-IsResult (names_of ps) caps (params_of decode (names_of ps) caps List.[])
          (params_of-IsRead ps caps List.[] h))
