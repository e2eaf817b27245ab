-- ===== src/Preferences/History.antt =====
-- The history of gadget runs of env-preferences.ts. A request is the object that is stored; as its type
-- says, it has a text as its image.
use ig_desktop.Prelude.{
  ℕ, suc, zero, String, Bool, true, false, ◌&&◌, Option, none, some, List, [], ◌∷◌, ◌++◌, take,
  drop, map_option, or_default,
}
use ig_desktop.Js.Json.{
  put, take_out, Json, Members, null, arr, obj, no_member, at, items_of, list_of, or_empty,
}
use ig_desktop.Preferences.Equality.{deep_equal?, strict_equal?, members_of}
use ig_desktop.Preferences.Storage.{Storage, get_env_pref, set_env_pref}

-- `{ ...existing, timestamp: request.timestamp }`; a value that is undefined is not stored.
unfoldable pub with_timestamp : Option Json → Members → Members
unfolding put take_out
with_timestamp none ms = take_out "timestamp" ms
with_timestamp (some t) ms = put "timestamp" t ms

-- What the spread takes of an entry. No text is an entry that was found, since it has no image.
unfoldable pub spread : Json → Members
unfolding members_of
spread v = or_default (members_of v) no_member

-- The same image and the same parameters; `none` is the exception at an entry that is null. What is
-- no object has neither.
unfoldable pub is_same_run : Members → Json → Option Bool
unfolding at deep_equal? strict_equal?
is_same_run request null = none
is_same_run request (obj entry) = some (
    strict_equal? (at "image" entry) (at "image" request)
    && deep_equal? (at "params" entry) (at "params" request))
is_same_run request _ =
    some (strict_equal? none (at "image" request) && deep_equal? none (at "params" request))

-- `history.findIndex(...)`: an exception, -1, or an index.
pub data Found : Type 0 where
  threw nowhere : Found
  found_at : ℕ → Found

unfoldable pub one_later : Found → Found
one_later threw = threw
one_later nowhere = nowhere
one_later (found_at i) = found_at (suc i)

-- One call of the callback, and what the later ones find.
unfoldable pub next_found : Option Bool → Found → Found
unfolding one_later
next_found none rest = threw
next_found (some true) rest = found_at zero
next_found (some false) rest = one_later rest

unfoldable pub find_index : Members → List Json → Found
unfolding is_same_run next_found
find_index request [] = nowhere
find_index request (h ∷ hs) = next_found (is_same_run request h) (find_index request hs)

abbrev pub entry_at : ℕ → List Json → Json
entry_at i [] = null
entry_at zero (h ∷ hs) = h
entry_at (suc i) (h ∷ hs) = entry_at i hs

unfoldable pub updated_history : Members → List Json → Found → Option (List Json)
unfolding with_timestamp at spread
updated_history request history threw = none
updated_history request history nowhere = some (obj request ∷ history)
updated_history request history (found_at i) = some (
    obj (with_timestamp (at "timestamp" request) (spread (entry_at i history))) ∷ take i history
    ++ drop (suc i) history)

-- The array that is saved; `none` where the source throws, also at a value that is no array.
unfoldable pub saved_history : Members → ℕ → Json → Option Json
unfolding list_of items_of updated_history find_index
saved_history request max_entries (arr vs) =
    map_option (λ updated. arr (items_of (take max_entries updated)))
      (updated_history request (list_of vs) (find_index request (list_of vs)))
saved_history request max_entries _ = none

module _ (stringify : Json → String) (parse : String → Option Json) where
  unfoldable pub get_history : String → Storage → Json
  unfolding get_env_pref or_empty
  get_history environment_id storage =
      or_empty (get_env_pref stringify parse environment_id "gadget-history" storage)

  -- `none` where it throws.
  unfoldable pub add_gadget_to_history : String → Members → ℕ → Storage → Option Storage
  unfolding get_history set_env_pref saved_history
  add_gadget_to_history environment_id request max_entries storage =
      map_option
        (λ saved. set_env_pref stringify parse environment_id "gadget-history" saved storage)
        (saved_history request max_entries (get_history environment_id storage))
