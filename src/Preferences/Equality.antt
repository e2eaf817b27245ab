-- ===== src/Preferences/Equality.antt =====
-- `deepEqual` of env-preferences.ts on JSON values.
use ig_desktop.Prelude.{ℕ, suc, ◌+◌, Bool, true, false, ◌&&◌, Option, none, some, str_eq, ◌==◌}
use ig_desktop.Prelude.Int.{eqb_ℤ}
use ig_desktop.Js.Json.{
  Json, Items, Members, null, bool, num, str, arr, obj, no_item, item, no_member, member, at,
}
use ig_desktop.Js.Numerals.{show_ℕ}

-- The members that `Object.keys` finds in an array: its indices, from `i` on.
unfoldable pub indexed : ℕ → Items → Members
unfolding show_ℕ
indexed i no_item = no_member
indexed i (item v vs) = member (show_ℕ i) v (indexed (i + 1) vs)

-- What `deepEqual` reads of an object; other values are compared by `===`.
unfoldable pub members_of : Json → Option Members
unfolding indexed
members_of (arr vs) = some (indexed 0 vs)
members_of (obj ms) = some ms
members_of _ = none

unfoldable pub count : Members → ℕ
count no_member = 0
count (member k v ms) = suc (count ms)

unfoldable pub count_items : Items → ℕ
count_items no_item = 0
count_items (item v vs) = suc (count_items vs)

abbrev same_bool : Bool → Bool → Bool
same_bool true b = b
same_bool false true = false
same_bool false false = true

-- `deepEqual` of a value and a property that may be missing, with its loop over the keys.
unfoldable mutual
  unfolding members_of count count_items at show_ℕ

  pub equal_at : Json → Option Json → Bool
  equal_at null (some null) = true
  equal_at (bool a) (some (bool b)) = same_bool a b
  equal_at (num a) (some (num b)) = eqb_ℤ a b
  equal_at (str a) (some (str b)) = str_eq a b
  equal_at (arr vs) (some b) = elim (members_of b) [
    | none ↦ false
    | some ns ↦ count_items vs == count ns && all_items 0 vs ns
  ]
  equal_at (obj ms) (some b) = elim (members_of b) [
    | none ↦ false
    | some ns ↦ count ms == count ns && all_members ms ns
  ]
  equal_at _ _ = false

  pub all_items : ℕ → Items → Members → Bool
  all_items i no_item ns = true
  all_items i (item v vs) ns = equal_at v (at (show_ℕ i) ns) && all_items (i + 1) vs ns

  pub all_members : Members → Members → Bool
  all_members no_member ns = true
  all_members (member k v ms) ns = equal_at v (at k ns) && all_members ms ns

unfoldable pub deep_equal : Json → Json → Bool
unfolding equal_at
deep_equal a b = equal_at a (some b)

-- The same for two properties that may be missing.
unfoldable pub deep_equal? : Option Json → Option Json → Bool
unfolding equal_at
deep_equal? none none = true
deep_equal? none (some b) = false
deep_equal? (some a) o = equal_at a o

-- `a === b`: an array or an object of local storage is no object of the program.
unfoldable pub strict_equal : Json → Json → Bool
strict_equal null null = true
strict_equal (bool a) (bool b) = same_bool a b
strict_equal (num a) (num b) = eqb_ℤ a b
strict_equal (str a) (str b) = str_eq a b
strict_equal _ _ = false

unfoldable pub strict_equal? : Option Json → Option Json → Bool
unfolding strict_equal
strict_equal? none none = true
strict_equal? (some a) (some b) = strict_equal a b
strict_equal? _ _ = false
