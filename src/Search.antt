-- ===== src/Search.antt =====
-- The search in tables: frontend/src/lib/utils/search-match.ts and workers/filter.worker.ts. A request
-- to the worker gives its response and its next state.
mod Incremental
mod Tests
use ig_desktop.Prelude.{
  ℕ, zero, suc, ◌+◌, String, Bool, true, false, not, ◌||◌, Option, none, some, List, [], ◌∷◌, ◌++◌,
  if◌then◌else◌, str_eq, any, keep, length,
}
use ig_desktop.Js.{Event, Value, undefined, null, bool, num, str, field}
use ig_desktop.Js.Text.{lower, includes, join}
use ig_desktop.Js.Numerals.{show_ℤ}

-- `value != null` and its text.
unfoldable pub searched : Value → Option String
unfolding show_ℤ
searched undefined = none
searched null = none
searched (bool b) = some (if b then "true" else "false")
searched (num n) = some (show_ℤ n)
searched (str s) = some s

unfoldable pub text_matches : String → Option String → Bool
unfolding includes lower
text_matches query none = false
text_matches query (some s) = includes query (lower s)

unfoldable pub entry_matches_search : Event → String → List String → Bool
unfolding searched text_matches field
entry_matches_search entry query field_names =
    any (λ n. text_matches query (searched (field n entry))) field_names

pub record Worker : Type 0 where
  pub current_filtered_events : List Event
  pub current_query : String
  pub current_field_names : List String

pub record FilterResponse : Type 0 where
  pub id : ℕ
  pub filtered_events : List Event
  pub match_indices : List ℕ

-- `0` to `n - 1`, from `i` on.
unfoldable pub indices : ℕ → ℕ → List ℕ
indices i zero = []
indices i (suc n) = i ∷ indices (i + 1) n

abbrev pub initial : Worker
initial = record { current_filtered_events = []; current_query = ""; current_field_names = [] }

unfoldable pub response : ℕ → List Event → FilterResponse
unfolding indices
response id events = record {
  id = id;
  filtered_events = events;
  match_indices = indices 0 (length events);
}

unfoldable pub filter : ℕ → List Event → String → List String → Worker → FilterResponse × Worker
unfolding entry_matches_search response lower
filter id events query field_names w =
    let found = keep (λ e. entry_matches_search e (lower query) field_names) events in
    (
      response id found,
      record {
        current_filtered_events = found;
        current_query = lower query;
        current_field_names = field_names;
      },
    )

-- The results that are kept: none if the query or the fields changed.
unfoldable pub kept : String → List String → Worker → List Event
unfolding join
kept query field_names w =
    if not (str_eq query w.current_query)
      || not (str_eq (join "," field_names) (join "," w.current_field_names))
    then []
    else w.current_filtered_events

unfoldable pub filter_incremental :
    ℕ → List Event → String → List String → Worker → FilterResponse × Worker
unfolding entry_matches_search response lower kept
filter_incremental id new_events query field_names w =
    let found =
      keep (λ e. entry_matches_search e (lower query) field_names) new_events
      ++ kept (lower query) field_names w in
    (
      response id found,
      record {
        current_filtered_events = found;
        current_query = lower query;
        current_field_names = field_names;
      },
    )
