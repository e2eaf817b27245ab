-- ===== src/Preferences/Recents.antt =====
-- The lists of recent values of env-preferences.ts.
use ig_desktop.Prelude.{
  ℕ, String, Option, none, some, List, [], ◌∷◌, keep, take, not, if◌then◌else◌, str_eq, map_option,
}
use ig_desktop.Js.Text.{join}
use ig_desktop.Js.Json.{Json, arr, str, no_item, items_of, list_of, or_empty}
use ig_desktop.Preferences.Equality.{strict_equal}
use ig_desktop.Preferences.Storage.{Storage, get_env_pref, set_env_pref}

-- `[value, ...recents.filter((v) => v !== value)].slice(0, n)`.
unfoldable pub with_recent : ℕ → String → List Json → List Json
unfolding strict_equal
with_recent n value recents =
    take n (str value ∷ keep (λ v. not (strict_equal v (str value))) recents)

-- The array that is saved; `none` is a value that has no `filter`, where the source throws.
unfoldable pub updated_recents : ℕ → String → Json → Option Json
unfolding with_recent items_of list_of
updated_recents n value (arr vs) = some (arr (items_of (with_recent n value (list_of vs))))
updated_recents n value _ = none

module _ (stringify : Json → String) (parse : String → Option Json) where
  unfoldable pub get_recents : String → String → Storage → Json
  unfolding get_env_pref or_empty
  get_recents environment_id key storage =
      or_empty (get_env_pref stringify parse environment_id key storage)

  -- `none` where it throws.
  unfoldable pub save_recent : ℕ → String → String → String → Storage → Option Storage
  unfolding get_recents set_env_pref updated_recents
  save_recent n environment_id key value storage =
      if str_eq value ""
      then some storage
      else map_option (λ saved. set_env_pref stringify parse environment_id key saved storage)
          (updated_recents n value (get_recents environment_id key storage))

  unfoldable pub k8s_key : String → String
  unfolding join
  k8s_key resource_type = join "" ("k8s-recent:" ∷ resource_type ∷ [])

  unfoldable pub get_k8s_recents : String → String → Storage → Json
  unfolding get_recents k8s_key
  get_k8s_recents environment_id resource_type storage =
      get_recents environment_id (k8s_key resource_type) storage

  unfoldable pub save_k8s_recent : String → String → String → Storage → Option Storage
  unfolding save_recent k8s_key
  save_k8s_recent environment_id resource_type value storage =
      save_recent 8 environment_id (k8s_key resource_type) value storage

  unfoldable pub clear_k8s_recents : String → String → Storage → Storage
  unfolding set_env_pref k8s_key
  clear_k8s_recents environment_id resource_type storage =
      set_env_pref stringify parse environment_id (k8s_key resource_type) (arr no_item) storage

  unfoldable pub get_gadget_url_recents : String → Storage → Json
  unfolding get_recents
  get_gadget_url_recents environment_id storage =
      get_recents environment_id "gadget-url-recent" storage

  unfoldable pub save_gadget_url_recent : String → String → Storage → Option Storage
  unfolding save_recent
  save_gadget_url_recent environment_id url storage =
      save_recent 10 environment_id "gadget-url-recent" url storage
