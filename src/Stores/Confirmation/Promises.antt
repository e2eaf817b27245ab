-- ===== src/Stores/Confirmation/Promises.antt =====
-- What becomes of the promises of the confirmation modal.
use native.Mathlib.Decide.{dec_lt}
use ig_desktop.Prelude.{
  ℕ, ◌+◌, ◌≤◌, ◌<◌, ◌≡◌, refl, ap, ◌∙◌, String, Bool, true, false, Option, none, some, List, [],
  ◌∷◌, arith, bit, total, total-append, ◌==◌, is_some,
}
use ig_desktop.Stores.Confirmation.{
  ConfirmationOptions, ConfirmationModalStore, new_store, confirm, close, settle, handle_confirm,
  handle_cancel, Action, asked, confirmed, canceled, act, run,
}

-- How often a promise was resolved.
abbrev pub times : ℕ → List (ℕ × Bool) → ℕ
times p = total (λ e. bit (e.0 == p))

abbrev pub awaited : ℕ → Option ℕ → ℕ
awaited p none = 0
awaited p (some q) = bit (q == p)

-- A promise is resolved at most once, not while it is awaited and not before it is made; the modal
-- is open exactly while a promise is awaited.
pub record IsSettling (s : ConfirmationModalStore) : Type 0 where
  pub once : (p : ℕ) → times p s.settled + awaited p s.state.resolve ≤ 1
  pub made : (p : ℕ) → s.next ≤ p → times p s.settled + awaited p s.state.resolve ≡ 0
  pub shown : s.state.is_open ≡ is_some s.state.resolve

new_store-IsSettling : IsSettling new_store
unfolding new_store
new_store-IsSettling = record { once = λ p. omega arith; made = λ p h. omega arith; shown = refl }

confirm-IsSettling :
    (t : String → String) (o : ConfirmationOptions) (s : ConfirmationModalStore)
    → IsSettling s
    → IsSettling (confirm t o s)
unfolding confirm
confirm-IsSettling t o s v = record {
  once = λ p. ground (arith, v.once p, v.made p);
  made = λ p h. ground (arith, v.made p);
  shown = refl;
}

settle-IsSettling :
    (value : Bool) (s : ConfirmationModalStore) (o : Option ℕ)
    → s.state.resolve ≡ o
    → IsSettling s
    → IsSettling (settle o value (close s))
unfolding settle close
settle-IsSettling value s none e v = record {
  once = λ p. omega (arith, v.once p);
  made = λ p h. omega (arith, v.made p h);
  shown = refl;
}
settle-IsSettling value s (some q) e v = record {
  once = λ p. omega (
    arith,
    v.once p,
    ap (awaited p) e,
    total-append (λ (x : ℕ × Bool). bit (x.0 == p)) s.settled ((q, value) ∷ []),
  );
  made = λ p h. omega (
    arith,
    v.made p h,
    ap (awaited p) e,
    total-append (λ (x : ℕ × Bool). bit (x.0 == p)) s.settled ((q, value) ∷ []),
  );
  shown = refl;
}

act-IsSettling :
    (t : String → String) (a : Action) (s : ConfirmationModalStore)
    → IsSettling s
    → IsSettling (act t a s)
unfolding act handle_confirm handle_cancel
act-IsSettling t (asked o) s v = confirm-IsSettling t o s v
act-IsSettling t confirmed s v = settle-IsSettling true s s.state.resolve refl v
act-IsSettling t canceled s v = settle-IsSettling false s s.state.resolve refl v

-- Whatever is asked, confirmed and canceled, from a new store: a promise is resolved at most once, not
-- while it is awaited and not before it is made, and the modal is open exactly while one is awaited.
pub run-IsSettling : (t : String → String) (acts : List Action) → IsSettling (run t acts new_store)
unfolding run
run-IsSettling t acts = from acts new_store new_store-IsSettling
  where
    from :
        (acts : List Action) (s : ConfirmationModalStore) → IsSettling s → IsSettling (run t acts s)
    from [] s v = v
    from (a ∷ acts) s v = from acts (act t a s) (act-IsSettling t a s v)

settled_times :
    (value : Bool) (s : ConfirmationModalStore) (p : ℕ) (o : Option ℕ)
    → s.state.resolve ≡ o
    → p < s.next
    → awaited p s.state.resolve ≡ 0
    → (times p (settle o value (close s)).settled ≡ times p s.settled)
      × (p < (settle o value (close s)).next)
      × (awaited p (settle o value (close s)).state.resolve ≡ 0)
unfolding settle close
settled_times value s p none e h w = (refl, h, refl)
settled_times value s p (some q) e h w = (
  omega (
    arith,
    w,
    ap (awaited p) e,
    total-append (λ (x : ℕ × Bool). bit (x.0 == p)) s.settled ((q, value) ∷ []),
  ),
  h,
  refl,
)

-- A promise that is neither awaited nor still to be made stays as it is.
act-times :
    (t : String → String) (a : Action) (s : ConfirmationModalStore) (p : ℕ)
    → p < s.next
    → awaited p s.state.resolve ≡ 0
    → (times p (act t a s).settled ≡ times p s.settled)
      × (p < (act t a s).next)
      × (awaited p (act t a s).state.resolve ≡ 0)
unfolding act confirm handle_confirm handle_cancel close settle
act-times t (asked o) s p h w = (refl, omega arith, ground arith)
act-times t confirmed s p h w = settled_times true s p s.state.resolve refl h w
act-times t canceled s p h w = settled_times false s p s.state.resolve refl h w

run-times :
    (t : String → String) (acts : List Action) (s : ConfirmationModalStore) (p : ℕ)
    → p < s.next
    → awaited p s.state.resolve ≡ 0
    → times p (run t acts s).settled ≡ times p s.settled
unfolding run
run-times t [] s p h w = refl
run-times t (a ∷ acts) s p h w =
    let (same, later, unawaited) = act-times t a s p h w in
    run-times t acts (act t a s) p later unawaited ∙ same

-- A question asked while another one is open leaves the promise of the other one unresolved for good.
pub confirm-abandons :
    (t : String → String) (o : ConfirmationOptions) (acts : List Action)
    (s : ConfirmationModalStore) (p : ℕ)
    → IsSettling s
    → s.state.resolve ≡ some p
    → times p (run t acts (confirm t o s)).settled ≡ 0
unfolding confirm
confirm-abandons t o acts s p v e =
    let here : awaited p s.state.resolve ≡ 1 = ap (awaited p) e ∙ ground arith in
    let made : p < s.next = awaited_made (dec_lt p s.next) here in
    run-times t acts (confirm t o s) p (omega arith) (ground arith) ∙ omega (arith, v.once p)
  where
    awaited_made : Dec (p < s.next) → awaited p s.state.resolve ≡ 1 → p < s.next
    awaited_made (yes h) k = h
    awaited_made (no h) k =
        let none_left = v.made p (ground arith) in absurd (omega (arith, none_left, k))
