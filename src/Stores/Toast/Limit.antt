-- ===== src/Stores/Toast/Limit.antt =====
-- At most five toasts, and the newest ones.
use ig_desktop.Prelude.{
  ℕ, ◌-◌, ◌≤◌, ◌≡◌, refl, sym, ap, ◌∙◌, String, Bool, true, false, not, List, [], ◌∷◌, ◌++◌, keep,
  length, length-append, length-keep-le, keep-cons, drop, ltb, str_eq, eq_refl, arith, Bool-cases,
  inl, inr, total, bit,
}
use ig_desktop.Stores.Toast.{
  Toast, ToastStore, dismiss, dismiss_all, enforce_limit, show, Action, shown, dismissed,
  all_dismissed, run,
}

-- The number of toasts with an id.
abbrev pub id_count : String → List Toast → ℕ
id_count id = total (λ t. bit (str_eq t.id id))

length-keep_first :
    (t : Toast) (ts : List Toast) → length (keep (λ u. not (str_eq u.id t.id)) (t ∷ ts)) ≤ length ts
length-keep_first t ts =
    let p : Toast → Bool = λ u. not (str_eq u.id t.id) in
    omega (arith, ap length (keep-cons p t ts false (ap not (eq_refl t.id))), length-keep-le p ts)

limited :
    (ts : List Toast) (s : ToastStore)
    → s.toasts ≡ ts
    → length ts ≤ 6
    → length (enforce_limit ts s).toasts ≤ 5
unfolding enforce_limit dismiss
limited [] s e h = omega (arith, ap length e)
limited (t ∷ ts) s e h = elim (Bool-cases (ltb 5 (length (t ∷ ts)))) [
  | inl b ↦ rw (b, e) (omega (arith, length-keep_first t ts))
  | inr b ↦ rw (b, e) (ground arith)
]

-- Whatever is shown and dismissed, no more than five toasts are there.
pub length-run :
    (acts : List Action) (s : ToastStore) → length s.toasts ≤ 5 → length (run acts s).toasts ≤ 5
unfolding run show dismiss dismiss_all
length-run [] s h = h
length-run (shown t ∷ acts) s h =
    length-run acts (show t s)
      (limited (s.toasts ++ t ∷ []) _ refl (omega (arith, length-append s.toasts (t ∷ []))))
length-run (dismissed id ∷ acts) s h =
    length-run acts (dismiss id s)
      (omega (arith, length-keep-le (λ t. not (str_eq t.id id)) s.toasts))
length-run (all_dismissed ∷ acts) s h = length-run acts (dismiss_all s) (omega arith)

keep_others :
    (id : String) (ts : List Toast) → id_count id ts ≡ 0 → keep (λ u. not (str_eq u.id id)) ts ≡ ts
keep_others id [] h = refl
keep_others id (t ∷ ts) h = elim (Bool-cases (str_eq t.id id)) [
  | inl b ↦ absurd (omega (arith, ap bit b))
  | inr b ↦
      keep-cons (λ u. not (str_eq u.id id)) t ts true (ap not b)
      ∙ ap (λ l. t ∷ l) (keep_others id ts (omega (arith, ap bit b)))
]

limited_newest :
    (ts : List Toast) (s : ToastStore)
    → s.toasts ≡ ts
    → length ts ≤ 6
    → ((id : String) → id_count id ts ≤ 1)
    → (enforce_limit ts s).toasts ≡ drop (length ts - 5) ts
unfolding enforce_limit dismiss
limited_newest [] s e h d = e
limited_newest (t ∷ ts) s e h d = elim (Bool-cases (ltb 5 (length (t ∷ ts)))) [
  | inl b ↦
      let one : length (t ∷ ts) - 5 ≡ 1 = ground arith in
      rw (b, e)
        (keep-cons (λ u. not (str_eq u.id t.id)) t ts false (ap not (eq_refl t.id))
          ∙ keep_others t.id ts (omega (arith, d t.id, ap bit (eq_refl t.id)))
          ∙ ap (λ n. drop n (t ∷ ts)) (sym one))
  | inr b ↦
      let none_over : length (t ∷ ts) - 5 ≡ 0 = ground arith in
      rw (b, e) (ap (λ n. drop n (t ∷ ts)) (sym none_over))
]

-- With at most five toasts, all of different ids, and a new id: after `show` the toasts are the newest
-- five of them and the new one.
show-newest :
    (t : Toast) (s : ToastStore)
    → length s.toasts ≤ 5
    → ((id : String) → id_count id (s.toasts ++ t ∷ []) ≤ 1)
    → (show t s).toasts ≡ drop (length s.toasts - 4) (s.toasts ++ t ∷ [])
unfolding show
show-newest t s h d =
    limited_newest (s.toasts ++ t ∷ []) _ refl (omega (arith, length-append s.toasts (t ∷ []))) d
    ∙ ap (λ n. drop n (s.toasts ++ t ∷ [])) (omega (arith, length-append s.toasts (t ∷ [])))
