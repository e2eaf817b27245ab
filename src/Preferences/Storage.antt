-- ===== src/Preferences/Storage.antt =====
-- Local storage with the keys of an environment (env-preferences.ts). `stringify` and `parse` are
-- JSON's; `parse` is `none` where it throws.
use ig_desktop.Prelude.{String, Option, none, some, List, [], ◌∷◌, keep}
use ig_desktop.Prelude.Assoc.{lookup, insert, delete, keys}
use ig_desktop.Js.Text.{join, starts_with}
use ig_desktop.Js.Json.{Json}

-- `localStorage`.
abbrev pub Storage : Type 0
Storage = List (String × String)

unfoldable pub env_prefix : String → String
unfolding join
env_prefix environment_id = join "" ("env:" ∷ environment_id ∷ ":" ∷ [])

unfoldable pub full_key : String → String → String
unfolding join
full_key environment_id key = join "" ("env:" ∷ environment_id ∷ ":" ∷ key ∷ [])

unfoldable pub get_env_keys : String → Storage → List String
unfolding env_prefix starts_with keys
get_env_keys environment_id storage = keep (starts_with (env_prefix environment_id)) (keys storage)

unfoldable pub remove_all : List String → Storage → Storage
unfolding delete
remove_all [] storage = storage
remove_all (k ∷ ks) storage = remove_all ks (delete k storage)

unfoldable pub cleanup_environment : String → Storage → Storage
unfolding get_env_keys remove_all
cleanup_environment environment_id storage =
    remove_all (get_env_keys environment_id storage) storage

module _ (stringify : Json → String) (parse : String → Option Json) where
  -- A missing item is `undefined`, and so is one that does not parse.
  abbrev pub parse_item : Option String → Option Json
  parse_item none = none
  parse_item (some text) = parse text

  unfoldable pub get_env_pref : String → String → Storage → Option Json
  unfolding full_key lookup
  get_env_pref environment_id key storage =
      parse_item (lookup (full_key environment_id key) storage)

  unfoldable pub set_env_pref : String → String → Json → Storage → Storage
  unfolding full_key insert
  set_env_pref environment_id key value storage =
      insert (full_key environment_id key) (stringify value) storage
