-- ===== src/Stores/Tests.antt =====
-- The stores at concrete inputs, and their theorems applied to them.
use mathlib.Core.Bool.{true≢false}
use ig_desktop.Prelude.{
  ◌≤◌, ◌≡◌, ◌≢◌, refl, sym, ap, ◌∙◌, eq_iff, String, false, none, [], ◌∷◌, length, arith, str_eq,
  bit, Bool-cases, inl, inr,
}
use ig_desktop.Stores.Toast.{Toast, ToastStore, shown, dismissed, info, run}
use ig_desktop.Stores.Toast.Limit.{id_count, length-run}
use ig_desktop.Stores.Confirmation as Confirmation
use ig_desktop.Stores.Confirmation.{ConfirmationOptions, ConfirmationModalStore, new_store, confirm}
use ig_desktop.Stores.Confirmation.Promises.{IsSettling, run-IsSettling, confirm-abandons, times}

abbrev toast : String → Toast
toast id = record { id = id; type = info; message = "m"; duration = none; action = false }

abbrev none_yet : ToastStore
none_yet = record { toasts = []; notified = []; timeouts = [] }

length-run_example :
    length (run (shown (toast "a") ∷ dismissed "a" ∷ shown (toast "b") ∷ []) none_yet).toasts ≤ 5
length-run_example =
    length-run (shown (toast "a") ∷ dismissed "a" ∷ shown (toast "b") ∷ []) none_yet (omega arith)

abbrev one_toast : ToastStore
one_toast = record { toasts = toast "a" ∷ []; notified = []; timeouts = [] }

different : (id : String) → id_count id (toast "a" ∷ toast "b" ∷ []) ≤ 1
different id = elim (Bool-cases (str_eq "a" id)) [
  | inl a ↦ elim (Bool-cases (str_eq "b" id)) [
    | inl b ↦ absurd (apart ((eq_iff "a" id).0 a ∙ sym ((eq_iff "b" id).0 b)))
    | inr b ↦ omega (arith, ap bit a, ap bit b)
  ]
  | inr a ↦ elim (Bool-cases (str_eq "b" id)) [
    | inl b ↦ omega (arith, ap bit a, ap bit b)
    | inr b ↦ omega (arith, ap bit a, ap bit b)
  ]
]
  where
    apart : ◌≢◌ {A = String} "a" "b"
    apart e = true≢false (sym ((eq_iff "a" "b").1 e))

abbrev question : ConfirmationOptions
question = record { message = "Sure?"; confirm_label = none; cancel_label = none; title = none }

abbrev asked_once : ConfirmationModalStore
asked_once = Confirmation.run (λ l. l) (Confirmation.asked question ∷ []) new_store

run-IsSettling_example : IsSettling asked_once
run-IsSettling_example = run-IsSettling (λ l. l) (Confirmation.asked question ∷ [])

confirm-abandons_example :
    times 0
      (Confirmation.run
        (λ l. l)
        (Confirmation.confirmed ∷ [])
        (confirm (λ l. l) question asked_once)).settled
    ≡ 0
unfolding Confirmation.run new_store
confirm-abandons_example =
    confirm-abandons (λ l. l) question (Confirmation.confirmed ∷ []) asked_once 0
      (run-IsSettling (λ l. l) (Confirmation.asked question ∷ [])) refl
