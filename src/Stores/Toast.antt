-- ===== src/Stores/Toast.antt =====
-- `ToastStore` of frontend/src/lib/stores/toast.svelte.ts. The id that `show` makes of the time and a
-- random number is an argument. A subscriber's exception is caught, so subscribers change nothing
-- here; `notified` lists the toasts they were called with.
pub mod Limit
use ig_desktop.Prelude.{
  ℕ, String, Bool, true, false, not, Option, none, some, List, [], ◌∷◌, ◌++◌, keep, length, ltb,
  str_eq, if◌then◌else◌, ◌==◌,
}

pub data ToastType : Type 0 where
  success error info warning : ToastType

-- `action` is whether the toast has one.
pub record Toast : Type 0 where
  pub id : String
  pub type : ToastType
  pub message : String
  pub duration : Option ℕ
  pub action : Bool

-- The toasts, the toasts handed to the subscribers, and the timeouts that are set: an id with a delay.
pub record ToastStore : Type 0 where
  pub toasts : List Toast
  pub notified : List Toast
  pub timeouts : List (String × ℕ)

unfoldable pub dismiss : String → ToastStore → ToastStore
dismiss id s = record s { toasts = keep (λ t. not (str_eq t.id id)) s.toasts }

unfoldable pub dismiss_all : ToastStore → ToastStore
dismiss_all s = record s { toasts = [] }

-- `if (toast.duration)`: a duration of 0 sets no timeout.
unfoldable pub with_timeout : Toast → List (String × ℕ) → List (String × ℕ)
with_timeout t timeouts = elim t.duration [
  | none ↦ timeouts
  | some d ↦ if d == 0 then timeouts else timeouts ++ (t.id, d) ∷ []
]

-- More than 5 toasts: the first one goes.
unfoldable pub enforce_limit : List Toast → ToastStore → ToastStore
unfolding dismiss
enforce_limit [] s = s
enforce_limit (t ∷ ts) s = if ltb 5 (length (t ∷ ts)) then dismiss t.id s else s

unfoldable pub show : Toast → ToastStore → ToastStore
unfolding with_timeout enforce_limit
show t s = enforce_limit (s.toasts ++ t ∷ []) (record {
  toasts = s.toasts ++ t ∷ [];
  notified = s.notified ++ t ∷ [];
  timeouts = with_timeout t s.timeouts;
})

abbrev toast : String → ToastType → String → ℕ → Bool → Toast
toast id type message duration action = record {
  id = id;
  type = type;
  message = message;
  duration = some duration;
  action = action;
}

-- The four short forms, with the duration given or their own.
abbrev pub or_own : Option ℕ → ℕ → ℕ
or_own none own = own
or_own (some d) own = d

unfoldable pub show_of_type :
    ToastType → String → String → Option ℕ → Bool → ToastStore → ToastStore
unfolding show
show_of_type success id message d action s = show (toast id success message (or_own d 5000) false) s
show_of_type error id message d action s = show (toast id error message (or_own d 7000) action) s
show_of_type info id message d action s = show (toast id info message (or_own d 4000) false) s
show_of_type warning id message d action s = show (toast id warning message (or_own d 6000) false) s

-- What can happen to the store; a timeout that fires is a dismissal.
pub data Action : Type 0 where
  shown : Toast → Action
  dismissed : String → Action
  all_dismissed : Action

unfoldable pub run : List Action → ToastStore → ToastStore
unfolding show dismiss dismiss_all
run [] s = s
run (shown t ∷ acts) s = run acts (show t s)
run (dismissed id ∷ acts) s = run acts (dismiss id s)
run (all_dismissed ∷ acts) s = run acts (dismiss_all s)
