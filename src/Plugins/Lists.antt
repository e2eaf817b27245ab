-- ===== src/Plugins/Lists.antt =====
-- The lists of visualizers and processors are complete and in order.
use ig_desktop.Prelude.{
  ◌≡◌, refl, sym, ap, ◌∙◌, String, Bool, true, false, ◌&&◌, List, [], ◌∷◌, ◌++◌, map, str_eq, keep,
  keep-All, All, All-imp, arith, Bool-cases, inl, inr, or_default,
}
use ig_desktop.Prelude.Int.{ℤ, pos, ltb_ℤ, eqb_ℤ, ◌≤ℤ◌, ltb_ℤ_false}
use ig_desktop.Prelude.Assoc.{values}
use ig_desktop.Prelude.Sort.{sort, place, IsSorted, sort-IsSorted}
use ig_desktop.Plugins.{RegisteredPlugin, DataProcessorCapability, VisualizerCapability}
use ig_desktop.Plugins.Registry.{PluginRegistry, Registered}
use ig_desktop.Plugins.Queries.{
  Datasource, is_applicable, priority_before, sorted_visualizers, get_visualizers_for_datasource,
  Processor, is_ready, processors_of, processors_in, order_before, get_data_processors_for_stage,
}

ltb_ℤ_asymm : (a b : ℤ) → ltb_ℤ a b ≡ true → ltb_ℤ b a ≡ false
ltb_ℤ_asymm a b h = ground arith

ltb_ℤ_trans : (a b c : ℤ) → ltb_ℤ a b ≡ false → ltb_ℤ b c ≡ false → ltb_ℤ a c ≡ false
ltb_ℤ_trans a b c h k = ground arith

ltb_ℤ_eqb : (a b n : ℤ) → eqb_ℤ a n ≡ true → eqb_ℤ b n ≡ true → ltb_ℤ a b ≡ false
ltb_ℤ_eqb a b n h k = ground arith

module _ {A : Type 0} where
  -- The numbers of the entries never fall.
  abbrev pub Rises : (A → ℤ) → List A → Type 0
  Rises number [] = Unit
  Rises number (x ∷ xs) = All (λ y. number x ≤ℤ number y) xs × Rises number xs

  -- The numbers of the entries never rise.
  abbrev pub Falls : (A → ℤ) → List A → Type 0
  Falls number [] = Unit
  Falls number (x ∷ xs) = All (λ y. number y ≤ℤ number x) xs × Falls number xs

  keep-keep : (p q : A → Bool) (xs : List A) → keep q (keep p xs) ≡ keep (λ x. p x && q x) xs
  keep-keep p q [] = refl
  keep-keep p q (x ∷ xs) = ground (arith, keep-keep p q xs)

  keep-append : (p : A → Bool) (xs ys : List A) → keep p (xs ++ ys) ≡ keep p xs ++ keep p ys
  keep-append p [] ys = refl
  keep-append p (x ∷ xs) ys = ground (arith, keep-append p xs ys)

  keep-Falls :
      (number : A → ℤ) (p : A → Bool) (xs : List A) → Falls number xs → Falls number (keep p xs)
  keep-Falls number p [] h = tt
  keep-Falls number p (x ∷ xs) (a, h) =
      elim (p x) as (λ b. Falls number (elim b [ true ↦ x ∷ keep p xs | false ↦ keep p xs ])) [
        | true ↦ (keep-All (λ y. number y ≤ℤ number x) p xs a, keep-Falls number p xs h)
        | false ↦ keep-Falls number p xs h
      ]

  -- Entries of which none has to stand in front of another keep their order.
  module _ (before : A → A → Bool) (q : A → Bool)
      (equal : (x y : A) → q x ≡ true → q y ≡ true → before y x ≡ false) where
    keep-place : (x : A) (xs : List A) → keep q (place before x xs) ≡ keep q (x ∷ xs)
    unfolding place
    keep-place x [] = refl
    keep-place x (y ∷ ys) = ground (arith, keep-place x ys, equal x y)

    keep-sort : (xs : List A) → keep q (sort before xs) ≡ keep q xs
    unfolding sort
    keep-sort [] = refl
    keep-sort (x ∷ xs) = ground (arith, keep-place x (sort before xs), keep-sort xs)

-- A list in which the ones of each number are in the order in which they were registered.
abbrev pub Same : {A : Type 0} → (A → ℤ) → List A → List A → Type 0
Same number xs ys = (n : ℤ) → keep (λ x. eqb_ℤ (number x) n) xs ≡ keep (λ x. eqb_ℤ (number x) n) ys

and_right : (a b : Bool) → (a && b) ≡ true → b ≡ true
and_right a b h = ground arith

module _ {C : Type 0} where
  abbrev pub priority_of : Registered C VisualizerCapability → ℤ
  priority_of v = or_default v.capability.priority (pos 0)

  IsSorted-Falls :
      (vs : List (Registered C VisualizerCapability))
      → IsSorted priority_before vs
      → Falls priority_of vs
  IsSorted-Falls [] h = tt
  IsSorted-Falls (v ∷ vs) (a, h) = (
    All-imp (λ w. priority_before w v ≡ false) (λ w. priority_of w ≤ℤ priority_of v) vs
        (λ w e. ltb_ℤ_false (priority_of v) (priority_of w) (unfold priority_before in e)) a,
    IsSorted-Falls vs h,
  )

  -- The visualizers that are listed for a datasource: none of a higher priority follows one of a lower,
  -- and those of each priority are the applicable ones with it among the registered visualizers, each
  -- as often as it is there and in the order of registration.
  pub get_visualizers_for_datasource-IsSorted :
      (ds : Datasource) (r : PluginRegistry C)
      → Falls priority_of (get_visualizers_for_datasource ds r)
        × Same priority_of
            (get_visualizers_for_datasource ds r)
            (keep (is_applicable ds) (values r.visualizers))
  unfolding get_visualizers_for_datasource sorted_visualizers
  get_visualizers_for_datasource-IsSorted ds r = (
    keep-Falls priority_of (is_applicable ds) (sort priority_before (values r.visualizers)) (
        IsSorted-Falls (sort priority_before (values r.visualizers)) (
          sort-IsSorted priority_before
            (λ x y. unfold priority_before in ltb_ℤ_asymm (priority_of x) (priority_of y))
            (λ x y z.
              unfold priority_before in ltb_ℤ_trans (priority_of x) (priority_of y) (priority_of z))
            (values r.visualizers))),
    λ n.
        let q = λ (v : Registered C VisualizerCapability). eqb_ℤ (priority_of v) n in
        let both = λ (v : Registered C VisualizerCapability). is_applicable ds v && q v in
        keep-keep (is_applicable ds) q (sort priority_before (values r.visualizers))
        ∙ keep-sort priority_before both
            (λ x y h k.
              unfold priority_before in
              ltb_ℤ_eqb (priority_of x) (priority_of y) n (and_right (is_applicable ds x) (q x) h)
                (and_right (is_applicable ds y) (q y) k))
            (values r.visualizers)
        ∙ sym (keep-keep (is_applicable ds) q (values r.visualizers)),
  )

abbrev pub order_of : Processor → ℤ
order_of t = or_default (t.1).order (pos 0)

-- Each plugin with each of its data processors.
abbrev pub all_processors : List RegisteredPlugin → List Processor
all_processors [] = []
all_processors (p ∷ ps) =
    map (λ dp. (p, dp)) (or_default p.manifest.data_processors []) ++ all_processors ps

abbrev pub is_for : String → Processor → Bool
is_for stage t = is_ready (t.0).status && str_eq (t.1).stage stage

processors_of-keep :
    (stage : String) (p : RegisteredPlugin) (dps : List DataProcessorCapability)
    → is_ready p.status ≡ true
    → processors_of stage p dps ≡ keep (is_for stage) (map (λ dp. (p, dp)) dps)
unfolding processors_of
processors_of-keep stage p [] h = refl
processors_of-keep stage p (dp ∷ dps) h = ground (arith, processors_of-keep stage p dps h, h)

keep-not_ready :
    (stage : String) (p : RegisteredPlugin) (dps : List DataProcessorCapability)
    → is_ready p.status ≡ false
    → keep (is_for stage) (map (λ dp. (p, dp)) dps) ≡ []
keep-not_ready stage p [] h = refl
keep-not_ready stage p (dp ∷ dps) h = ground (arith, keep-not_ready stage p dps h, h)

processors_in-keep :
    (stage : String) (ps : List RegisteredPlugin)
    → processors_in stage ps ≡ keep (is_for stage) (all_processors ps)
unfolding processors_in
processors_in-keep stage [] = refl
processors_in-keep stage (p ∷ ps) =
    let dps = or_default p.manifest.data_processors [] in
    let split = keep-append (is_for stage) (map (λ dp. (p, dp)) dps) (all_processors ps) in
    elim (Bool-cases (is_ready p.status)) [
      | inl b ↦ rw (b, split, processors_of-keep stage p dps b, processors_in-keep stage ps) refl
      | inr b ↦ rw (b, split, keep-not_ready stage p dps b) (processors_in-keep stage ps)
    ]

IsSorted-Rises : (ts : List Processor) → IsSorted order_before ts → Rises order_of ts
IsSorted-Rises [] h = tt
IsSorted-Rises (t ∷ ts) (a, h) = (
  All-imp (λ u. order_before u t ≡ false) (λ u. order_of t ≤ℤ order_of u) ts
      (λ u e. ltb_ℤ_false (order_of u) (order_of t) (unfold order_before in e)) a,
  IsSorted-Rises ts h,
)

-- The data processors of a stage: none of a lower order follows one of a higher, and those of each order
-- are the ones with it that the ready plugins have for the stage, each with its plugin, as often as it
-- is there and in the order of registration.
pub get_data_processors_for_stage-IsSorted :
    {C : Type 0} (stage : String) (r : PluginRegistry C)
    → Rises order_of (get_data_processors_for_stage stage r)
      × Same order_of
          (get_data_processors_for_stage stage r)
          (keep (is_for stage) (all_processors (values r.plugins)))
unfolding get_data_processors_for_stage
get_data_processors_for_stage-IsSorted stage r =
    let ts = processors_in stage (values r.plugins) in
    (
      IsSorted-Rises (sort order_before ts) (
          sort-IsSorted order_before
            (λ x y. unfold order_before in ltb_ℤ_asymm (order_of y) (order_of x))
            (λ x y z h k.
              unfold order_before in ltb_ℤ_trans (order_of z) (order_of y) (order_of x) k h)
            ts),
      λ n.
          let q = λ (t : Processor). eqb_ℤ (order_of t) n in
          keep-sort order_before q
            (λ x y h k. unfold order_before in ltb_ℤ_eqb (order_of y) (order_of x) n k h) ts
          ∙ ap (keep q) (processors_in-keep stage (values r.plugins)),
    )
