-- ===== src/Plugins/Owned.antt =====
-- The entries of one kind of capability, and the plugins that they belong to.
use mathlib.Core.Path.{subst}
use ig_desktop.Prelude.{
  ◌≡◌, refl, ap, ◌∙◌, String, true, false, Option, none, some, List, [], ◌∷◌, if◌then◌else◌, str_eq,
  eq_iff, is_some, arith, Bool-cases, inl, inr,
}
use ig_desktop.Prelude.Assoc.{
  lookup, insert, delete, has, IsMap, insert-IsMap, AllEntries, AllEntries-insert, AllEntries-map,
  lookup-insert, lookup-delete, lookup-insert_self,
}
use ig_desktop.Plugins.{PluginManifest, PluginSource, RegisteredPlugin, RouteCapability}
use ig_desktop.Plugins.Registry.{
  Registered, set_one, set_each, set_list, set_routes, set_route_list, route_error, route_id,
  remove_of,
}

-- Each capability stands under its id, and its plugin is registered.
abbrev pub Owned :
    {C K : Type 0} → List (String × RegisteredPlugin) → List (String × Registered C K) → Type 0
Owned plugins entries =
    IsMap entries × AllEntries (λ k v. (v.id ≡ k) × (has v.manifest.id plugins ≡ true)) entries

has-insert :
    (id k : String) (p : RegisteredPlugin) (ps : List (String × RegisteredPlugin))
    → has k ps ≡ true
    → has k (insert id p ps) ≡ true
unfolding has
has-insert id k p ps h = ap is_some (lookup-insert id k p ps) ∙ ground (arith, h)

pub has-insert_self :
    (id : String) (p : RegisteredPlugin) (ps : List (String × RegisteredPlugin))
    → has id (insert id p ps) ≡ true
unfolding has
has-insert_self id p ps = ap is_some (lookup-insert_self id p ps)

has-delete :
    (id k : String) (ps : List (String × RegisteredPlugin))
    → str_eq id k ≡ false
    → has k ps ≡ true
    → has k (delete id ps) ≡ true
unfolding has
has-delete id k ps d h = ap is_some (lookup-delete id k ps) ∙ rw d h

module _ {C K : Type 0} where
  pub insert-Owned :
      (id : String) (p : RegisteredPlugin) (ps : List (String × RegisteredPlugin))
      (entries : List (String × Registered C K))
      → Owned ps entries
      → Owned (insert id p ps) entries
  insert-Owned id p ps entries (m, a) = (
    m,
    AllEntries-map (λ k v. (v.id ≡ k) × (has v.manifest.id ps ≡ true))
        (λ k v. (v.id ≡ k) × (has v.manifest.id (insert id p ps) ≡ true)) entries
        (λ k v h. (h.0, has-insert id v.manifest.id p ps h.1)) a,
  )

  module _ (m : PluginManifest) (source : PluginSource) (ps : List (String × RegisteredPlugin))
      (there : has m.id ps ≡ true) where
    pub set_one-Owned :
        (key : String) (k : K) (c : Option C) (entries : List (String × Registered C K))
        → Owned ps entries
        → Owned ps (set_one m source key k c entries)
    unfolding set_one
    set_one-Owned key k none entries h = h
    set_one-Owned key k (some c) entries (u, a) =
        let v : Registered C K = record {
          id = key;
          manifest = m;
          capability = k;
          source = source;
          component = c;
        } in
        (
          insert-IsMap key v entries u,
          AllEntries-insert (λ k v. (v.id ≡ k) × (has v.manifest.id ps ≡ true)) key v entries
              (refl, there) a,
        )

    set_each-Owned :
        (key : K → String) (find : K → Option C) (ks : List K)
        (entries : List (String × Registered C K))
        → Owned ps entries
        → Owned ps (set_each m source key find ks entries)
    unfolding set_each
    set_each-Owned key find [] entries h = h
    set_each-Owned key find (k ∷ ks) entries h =
        set_each-Owned key find ks (set_one m source (key k) k (find k) entries)
          (set_one-Owned (key k) k (find k) entries h)

    pub set_list-Owned :
        (key : K → String) (find : K → Option C) (ks : Option (List K))
        (entries : List (String × Registered C K))
        → Owned ps entries
        → Owned ps (set_list m source key find ks entries)
    unfolding set_list
    set_list-Owned key find none entries h = h
    set_list-Owned key find (some ks) entries h = set_each-Owned key find ks entries h

  -- What is left of an entry when the capabilities of a plugin are removed.
  abbrev pub unless_of : String → Option (Registered C K) → Option (Registered C K)
  unless_of id none = none
  unless_of id (some v) = if str_eq v.manifest.id id then none else some v

  pub lookup-remove_of :
      (id k : String) (entries : List (String × Registered C K))
      → IsMap entries
      → lookup k (remove_of id entries) ≡ unless_of id (lookup k entries)
  unfolding lookup remove_of
  lookup-remove_of id k [] u = refl
  lookup-remove_of id k ((j, v) ∷ entries) (p, u) = elim (Bool-cases (str_eq v.manifest.id id)) [
    | inl b ↦ elim (Bool-cases (str_eq j k)) [
      | inl c ↦
          let gone : lookup k entries ≡ none =
            subst (λ i. lookup i entries ≡ none) ((eq_iff j k).0 c) p in
          rw (b, c, lookup-remove_of id k entries u, gone) (rw b refl)
      | inr c ↦ rw (b, c) (lookup-remove_of id k entries u)
    ]
    | inr b ↦ elim (Bool-cases (str_eq j k)) [
      | inl c ↦ rw (b, c) (rw b refl)
      | inr c ↦ rw (b, c) (lookup-remove_of id k entries u)
    ]
  ]

  pub remove_of-Owned :
      (id : String) (ps : List (String × RegisteredPlugin))
      (entries : List (String × Registered C K))
      → Owned ps entries
      → Owned (delete id ps) (remove_of id entries)
  unfolding remove_of
  remove_of-Owned id ps [] h = (tt, tt)
  remove_of-Owned id ps ((j, v) ∷ entries) ((p, u), (q, a)) =
      let (u', a') = remove_of-Owned id ps entries (u, a) in
      elim (Bool-cases (str_eq v.manifest.id id)) [
        | inl b ↦ rw b (u', a')
        | inr b ↦
            let other : str_eq id v.manifest.id ≡ false =
              ground (arith, b, eq_iff v.manifest.id id, eq_iff id v.manifest.id) in
            rw b (
              (lookup-remove_of id j entries u ∙ ap (unless_of id) p, u'),
              ((q.0, has-delete id v.manifest.id ps other q.1), a'),
            )
      ]

module _ {C : Type 0} (syntax_error : String → String) (m : PluginManifest) (source : PluginSource)
    (find : RouteCapability → Option C) (ps : List (String × RegisteredPlugin))
    (there : has m.id ps ≡ true) where
  set_routes-Owned :
      (ks : List RouteCapability) (entries : List (String × Registered C RouteCapability))
      → Owned ps entries
      → Owned ps (set_routes syntax_error m source find ks entries).1
  unfolding set_routes
  set_routes-Owned [] entries h = h
  set_routes-Owned (k ∷ ks) entries h =
      let next = set_one m source (route_id m.id k.path) k (find k) entries in
      elim (route_error syntax_error (find k) k)
        as (λ o.
          Owned ps
            (elim o as (λ o. Option String × List (String × Registered C RouteCapability)) [
              | some e ↦ (some e, entries)
              | none ↦ set_routes syntax_error m source find ks next
            ]).1) [
              | some e ↦ h
              | none ↦
                  set_routes-Owned ks next
                    (set_one-Owned m source ps there (route_id m.id k.path) k (find k) entries h)
            ]

  pub set_route_list-Owned :
      (ks : Option (List RouteCapability)) (entries : List (String × Registered C RouteCapability))
      → Owned ps entries
      → Owned ps (set_route_list syntax_error m source find ks entries).1
  unfolding set_route_list
  set_route_list-Owned none entries h = h
  set_route_list-Owned (some ks) entries h = set_routes-Owned ks entries h
