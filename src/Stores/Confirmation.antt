-- ===== src/Stores/Confirmation.antt =====
-- `ConfirmationModalStore` of frontend/src/lib/stores/confirmation-modal.svelte.ts. A promise is the
-- number of the call of `confirm` that made it; `settled` lists the promises that were resolved, with
-- their values. The translation of a label is a parameter.
pub mod Promises
use ig_desktop.Prelude.{
  ℕ, ◌+◌, String, Bool, true, false, Option, none, some, List, [], ◌∷◌, ◌++◌, str_eq, if◌then◌else◌,
}

pub record ConfirmationOptions : Type 0 where
  pub message : String
  pub confirm_label : Option String
  pub cancel_label : Option String
  pub title : Option String

pub record ConfirmationState : Type 0 where
  pub is_open : Bool
  pub message : String
  pub confirm_label : String
  pub cancel_label : String
  pub title : String
  pub resolve : Option ℕ

pub record ConfirmationModalStore : Type 0 where
  pub state : ConfirmationState
  pub next : ℕ
  pub settled : List (ℕ × Bool)

unfoldable pub new_store : ConfirmationModalStore
new_store = record {
  state = record {
    is_open = false;
    message = "";
    confirm_label = "OK";
    cancel_label = "Cancel";
    title = "Confirm";
    resolve = none;
  };
  next = 0;
  settled = [];
}

-- `label || t(own)`.
unfoldable pub label_or : (String → String) → Option String → String → String
label_or t none own = t own
label_or t (some l) own = if str_eq l "" then t own else l

unfoldable pub confirm :
    (String → String) → ConfirmationOptions → ConfirmationModalStore → ConfirmationModalStore
unfolding label_or
confirm t o s = record s {
  state = record {
    is_open = true;
    message = o.message;
    confirm_label = label_or t o.confirm_label "OK";
    cancel_label = label_or t o.cancel_label "Cancel";
    title = label_or t o.title "Confirm";
    resolve = some s.next;
  };
  next = s.next + 1;
}

unfoldable pub close : ConfirmationModalStore → ConfirmationModalStore
close s = record s { state = record s.state { is_open = false; message = ""; resolve = none } }

-- `if (resolve) resolve(value)`.
unfoldable pub settle : Option ℕ → Bool → ConfirmationModalStore → ConfirmationModalStore
settle none value s = s
settle (some p) value s = record s { settled = s.settled ++ (p, value) ∷ [] }

unfoldable pub handle_confirm : ConfirmationModalStore → ConfirmationModalStore
unfolding close settle
handle_confirm s = settle s.state.resolve true (close s)

unfoldable pub handle_cancel : ConfirmationModalStore → ConfirmationModalStore
unfolding close settle
handle_cancel s = settle s.state.resolve false (close s)

pub data Action : Type 0 where
  asked : ConfirmationOptions → Action
  confirmed canceled : Action

unfoldable pub act : (String → String) → Action → ConfirmationModalStore → ConfirmationModalStore
unfolding confirm handle_confirm handle_cancel
act t (asked o) s = confirm t o s
act t confirmed s = handle_confirm s
act t canceled s = handle_cancel s

unfoldable pub run :
    (String → String) → List Action → ConfirmationModalStore → ConfirmationModalStore
unfolding act
run t [] s = s
run t (a ∷ acts) s = run t acts (act t a s)
