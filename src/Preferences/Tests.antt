-- ===== src/Preferences/Tests.antt =====
-- The preferences on small inputs.
use mathlib.Core.Path.{subst}
use ig_desktop.Prelude.{
  ℕ, ◌≤◌, ◌≡◌, refl, String, true, Option, none, some, List, [], ◌∷◌, if◌then◌else◌, str_eq, eq_iff,
  Bool-cases, inl, inr, ap, arith, bit, map_option,
}
use ig_desktop.Prelude.Int.{pos}
use ig_desktop.Prelude.Assoc.{lookup}
use ig_desktop.Js.Text.{join, split, starts_with}
use ig_desktop.Js.Json.{
  Json, Items, Members, str, num, arr, obj, no_item, item, no_member, member, null, at, items_of,
}
use ig_desktop.Preferences.Equality.{deep_equal, deep_equal?}
use ig_desktop.Preferences.Storage.{
  Storage, full_key, env_prefix, cleanup_environment, get_env_pref, set_env_pref,
}
use ig_desktop.Preferences.Recents.{get_recents, save_recent, save_k8s_recent, get_k8s_recents}
use ig_desktop.Preferences.History.{get_history, add_gadget_to_history, with_timestamp}
use ig_desktop.Preferences.Laws.{
  get_env_pref-set_env_pref, save_recent-AreRecents, AreRecents, times, texts,
}
use ig_desktop.Preferences.Cleanup.{lookup-cleanup_environment}
use ig_desktop.Preferences.Runs.{
  get_history-add_gadget_to_history, IsRun, expected, newest, base, stored,
}

abbrev texts_in : Items → List String
texts_in no_item = []
texts_in (item (str x) vs) = x ∷ texts_in vs
texts_in (item v vs) = texts_in vs

-- A text for each list of texts without a comma and for one list of objects.
abbrev stringify : Json → String
stringify (arr (item (obj ms) vs)) = "after"
stringify (arr vs) = join "," (texts_in vs)
stringify v = "null"

-- A run of an image at a time.
abbrev run : String → ℕ → Members
run image time = member "image" (str image) (
    member "params" (obj (member "sort" (str "x") no_member))
      (member "timestamp" (num (pos time)) no_member))

abbrev runs_before : List Json
runs_before = obj (run "trace_exec" 5) ∷ obj (run "trace_dns" 6) ∷ obj (run "trace_tcp" 4) ∷ []

abbrev runs_after : List Json
runs_after = obj (run "trace_dns" 9) ∷ obj (run "trace_exec" 5) ∷ []

abbrev parse : String → Option Json
parse text =
    if str_eq text "runs"
    then some (stored runs_before)
    else if str_eq text "after"
    then some (stored runs_after)
    else if str_eq text "{"
    then none
    else if str_eq text "7"
    then some (num (pos 7))
    else some (texts (split 44 text))

abbrev storage : Storage
storage =
    ("env:1:k8s-recent:pod", "a,b")
    ∷ ("env:2:k8s-recent:pod", "c")
    ∷ ("env:1:broken", "{")
    ∷ ("env:1:k8s-recent:node", "7")
    ∷ ("env:1:gadget-history", "runs")
    ∷ []

broken : get_env_pref stringify parse "1" "broken" storage ≡ none
unfolding get_env_pref
broken = refl

saved_again :
    map_option
      (get_k8s_recents stringify parse "1" "pod")
      (save_k8s_recent stringify parse "1" "pod" "b" storage)
    ≡ some (texts ("b" ∷ "a" ∷ []))
unfolding get_k8s_recents save_k8s_recent split items_of
saved_again = refl

-- A stored number has no `filter`.
not_saved : save_k8s_recent stringify parse "1" "node" "b" storage ≡ none
unfolding save_k8s_recent
not_saved = refl

same_params :
    deep_equal
      (obj (member "a" null (member "b" (str "x") no_member)))
      (obj (member "b" (str "x") (member "a" null no_member)))
    ≡ true
unfolding deep_equal
same_params = refl

abbrev pair : Json
pair = texts ("u" ∷ "v" ∷ [])

get_env_pref-set_env_pref_example :
    (get_env_pref stringify parse "1" "x" (set_env_pref stringify parse "1" "x" pair storage)
      ≡ some pair)
    × (lookup "env:2:k8s-recent:pod" (set_env_pref stringify parse "1" "x" pair storage) ≡ (
        if str_eq (full_key "1" "x") "env:2:k8s-recent:pod"
        then some (stringify pair)
        else lookup "env:2:k8s-recent:pod" storage))
unfolding join split items_of
get_env_pref-set_env_pref_example =
    get_env_pref-set_env_pref stringify parse "1" "x" "env:2:k8s-recent:pod" pair storage refl

recent_pods : AreRecents 2 ("a" ∷ "b" ∷ [])
recent_pods = record {
  short = omega arith;
  once = λ x. elim (Bool-cases (str_eq "a" x)) [
    | inl b ↦ subst (λ y. times y ("a" ∷ "b" ∷ []) ≤ 1) ((eq_iff "a" x).0 b) (omega arith)
    | inr b ↦ elim (Bool-cases (str_eq "b" x)) [
      | inl c ↦ subst (λ y. times y ("a" ∷ "b" ∷ []) ≤ 1) ((eq_iff "b" x).0 c) (omega arith)
      | inr c ↦ omega (arith, ap bit b, ap bit c)
    ]
  ];
}

save_recent-AreRecents_example :
    (map_option
        (get_recents stringify parse "1" "k8s-recent:pod")
        (save_recent stringify parse 2 "1" "k8s-recent:pod" "b" storage)
      ≡ some (texts ("b" ∷ "a" ∷ [])))
    × (AreRecents 2 ("b" ∷ "a" ∷ [])
        × (save_recent stringify parse 2 "1" "k8s-recent:pod" "" storage ≡ some storage))
unfolding join split get_recents items_of
save_recent-AreRecents_example =
    save_recent-AreRecents stringify parse 2 "1" "k8s-recent:pod" "b" storage true ("a" ∷ []) []
      refl refl refl refl recent_pods refl

lookup-cleanup_environment_example :
    lookup "env:1:broken" (cleanup_environment "1" storage)
    ≡ (if starts_with (env_prefix "1") "env:1:broken" then none else lookup "env:1:broken" storage)
lookup-cleanup_environment_example = lookup-cleanup_environment "1" "env:1:broken" storage

abbrev found : Option (Members × List Json)
found = some (run "trace_dns" 6, obj (run "trace_tcp" 4) ∷ [])

other_image : ¬ IsRun "trace_dns" (run "trace_dns" 9) (run "trace_exec" 5)
unfolding at
other_image (i, p) = cc i

-- The run is found, moved to the front and stamped; the third entry goes.
get_history-add_gadget_to_history_example :
    (map_option
        (get_history stringify parse "1")
        (add_gadget_to_history stringify parse "1" (run "trace_dns" 9) 2 storage)
      ≡ some (expected "trace_dns" (run "trace_dns" 9) 2 (obj (run "trace_exec" 5) ∷ []) found))
    × ((k : String)
        → at k (newest "trace_dns" (run "trace_dns" 9) found) ≡ (
            if str_eq "timestamp" k
            then at "timestamp" (run "trace_dns" 9)
            else at k (base "trace_dns" (run "trace_dns" 9) found)))
unfolding at deep_equal? get_history items_of with_timestamp
get_history-add_gadget_to_history_example =
    get_history-add_gadget_to_history stringify parse "1" "trace_dns" (run "trace_dns" 9) 2 storage
      (obj (run "trace_exec" 5) ∷ []) found refl ((other_image, tt), (refl, refl)) refl refl

stamped :
    map_option
      (get_history stringify parse "1")
      (add_gadget_to_history stringify parse "1" (run "trace_dns" 9) 2 storage)
    ≡ some (stored runs_after)
unfolding get_history add_gadget_to_history
stamped = refl
