-- ===== src/Js/Json.antt =====
-- The values that `JSON.parse` gives; an object is the list of its members.
use ig_desktop.Prelude.{
  ◌≡◌, refl, ap, String, Bool, true, false, not, Option, none, some, List, [], ◌∷◌, if◌then◌else◌,
  str_eq, eq_iff, arith,
}
use ig_desktop.Prelude.Int.{ℤ, pos, eqb_ℤ}

mutual
  pub data Json : Type 0 where
    null : Json
    bool : Bool → Json
    num : ℤ → Json
    str : String → Json
    arr : Items → Json
    obj : Members → Json

  pub data Items : Type 0 where
    no_item : Items
    item : Json → Items → Items

  pub data Members : Type 0 where
    no_member : Members
    member : String → Json → Members → Members

-- `members[k]`.
unfoldable pub at : String → Members → Option Json
at k no_member = none
at k (member j v ms) = if str_eq j k then some v else at k ms

-- `members[k] = v` and `delete members[k]`.
unfoldable pub put : String → Json → Members → Members
put k v no_member = member k v no_member
put k v (member j w ms) = if str_eq j k then member j v ms else member j w (put k v ms)

unfoldable pub take_out : String → Members → Members
take_out k no_member = no_member
take_out k (member j w ms) = if str_eq j k then take_out k ms else member j w (take_out k ms)

unfoldable pub items_of : List Json → Items
items_of [] = no_item
items_of (v ∷ vs) = item v (items_of vs)

unfoldable pub list_of : Items → List Json
list_of no_item = []
list_of (item v vs) = v ∷ list_of vs

-- `!v`.
unfoldable pub is_falsy : Json → Bool
is_falsy null = true
is_falsy (bool b) = not b
is_falsy (num n) = eqb_ℤ n (pos 0)
is_falsy (str s) = str_eq s ""
is_falsy v = false

-- `v || []`.
unfoldable pub or_empty : Option Json → Json
unfolding is_falsy
or_empty none = arr no_item
or_empty (some v) = if is_falsy v then arr no_item else v

pub list_of-items_of : (vs : List Json) → list_of (items_of vs) ≡ vs
unfolding list_of items_of
list_of-items_of [] = refl
list_of-items_of (v ∷ vs) = ap (◌∷◌ v) (list_of-items_of vs)

pub at-put :
    (j k : String) (v : Json) (ms : Members)
    → at k (put j v ms) ≡ (if str_eq j k then some v else at k ms)
unfolding at put
at-put j k v no_member = refl
at-put j k v (member i w ms) = ground (arith, at-put j k v ms, eq_iff i j, eq_iff i k, eq_iff j k)

pub at-take_out :
    (j k : String) (ms : Members) → at k (take_out j ms) ≡ (if str_eq j k then none else at k ms)
unfolding at take_out
at-take_out j k no_member = ground arith
at-take_out j k (member i w ms) =
    ground (arith, at-take_out j k ms, eq_iff i j, eq_iff i k, eq_iff j k)
