-- ===== src/Search/Tests.antt =====
-- A search on small events.
use ig_desktop.Prelude.{◌≡◌, refl, String, [], ◌∷◌}
use ig_desktop.Js.{Event, str}
use ig_desktop.Search.{filter, initial}
use ig_desktop.Search.Incremental.{filter_incremental-filter, arrive, prepended}

abbrev event : String → Event
event name = ("comm", str name) ∷ []

filtered :
    (filter 0 (event "Bash" ∷ event "curl" ∷ []) "BA" ("comm" ∷ []) initial).0.filtered_events
    ≡ event "Bash" ∷ []
unfolding filter
filtered = refl

filter_incremental-filter_example :
    (arrive "BA"
      ("comm" ∷ [])
      1
      ((event "bat" ∷ []) ∷ (event "cat" ∷ event "Rebar" ∷ []) ∷ [])
      (filter 0 (event "Bash" ∷ []) "BA" ("comm" ∷ []) initial).1).current_filtered_events
    ≡ (filter 0
        (prepended "BA"
          ("comm" ∷ [])
          ((event "bat" ∷ []) ∷ (event "cat" ∷ event "Rebar" ∷ []) ∷ [])
          (event "Bash" ∷ []))
        "BA"
        ("comm" ∷ [])
        initial).0.filtered_events
filter_incremental-filter_example =
    filter_incremental-filter "BA" ("comm" ∷ []) 0
      ((event "bat" ∷ []) ∷ (event "cat" ∷ event "Rebar" ∷ []) ∷ []) (event "Bash" ∷ []) initial
