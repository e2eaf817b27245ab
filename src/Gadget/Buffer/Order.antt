-- ===== src/Gadget/Buffer/Order.antt =====
-- The event buffer loses no message, repeats none, and keeps them in order.
use ig_desktop.Prelude.{
  ◌≡◌, refl, sym, ap, ◌∙◌, Bool, true, false, not, ◌||◌, ◌&&◌, List, [], ◌∷◌, ◌++◌, arith,
  Bool-cases, inl, inr,
}
use mathlib.Core.Bool.{true≢false}
use mathlib.Core.List.{append_assoc, append-nil}
use ig_desktop.Gadget.Buffer.{
  EventBuffer, empty_buffer, add_event, start_flush, end_flush, is_empty_list, Reaches, init,
  arrive, fire, finish,
}

module _ {ℓ} {M : Type ℓ} where
  pub record Keeps (msgs : List M) (b : EventBuffer M) : Type ℓ where
    pub order : b.delivered ++ (b.taken ++ b.buffer) ≡ msgs
    pub exclusive : (b.timer && b.flushing) ≡ false
    pub armed : (is_empty_list b.buffer || b.timer || b.flushing) ≡ true
    pub idle : b.flushing ≡ false → b.taken ≡ []

  empty_taken :
      (b : EventBuffer M) → b.timer ≡ true → (b.timer && b.flushing) ≡ false → b.flushing ≡ false
  empty_taken b t e = rw t at e

  empty_or : (l : List M) → (is_empty_list l || (not (is_empty_list l))) ≡ true
  empty_or [] = refl
  empty_or (m ∷ ms) = refl

  init-Keeps : Keeps [] (empty_buffer {M = M})
  unfolding empty_buffer
  init-Keeps = record { order = refl; exclusive = refl; armed = refl; idle = λ e. refl }

  add_event-Keeps :
      (msgs : List M) (b : EventBuffer M) (msg : M)
      → Keeps msgs b
      → Keeps (msgs ++ msg ∷ []) (add_event msg b)
  unfolding add_event
  add_event-Keeps msgs b msg k = record {
    order =
        ap (λ l. b.delivered ++ l) (sym (append_assoc b.taken b.buffer (msg ∷ [])))
        ∙ sym (append_assoc b.delivered (b.taken ++ b.buffer) (msg ∷ []))
        ∙ ap (λ l. l ++ msg ∷ []) k.order;
    exclusive = ground (arith, k.exclusive);
    armed = ground arith;
    idle = k.idle;
  }

  start_flush-Keeps :
      (msgs : List M) (b : EventBuffer M)
      → b.timer ≡ true
      → Keeps msgs b
      → Keeps msgs (start_flush b)
  unfolding start_flush
  start_flush-Keeps msgs b t k = record {
    order =
        ap (λ l. b.delivered ++ l)
          (append-nil b.buffer
            ∙ ap (λ l. l ++ b.buffer) (sym (k.idle (empty_taken b t k.exclusive))))
        ∙ k.order;
    exclusive = refl;
    armed = refl;
    idle = λ e. ground arith;
  }

  end_flush-Keeps :
      (msgs : List M) (b : EventBuffer M)
      → b.flushing ≡ true
      → Keeps msgs b
      → Keeps msgs (end_flush b)
  unfolding end_flush
  end_flush-Keeps msgs b f k = record {
    order = append_assoc b.delivered b.taken b.buffer ∙ k.order;
    exclusive = ground arith;
    armed = ground arith;
    idle = λ e. refl;
  }

  -- In every state that steps reach: the messages delivered, taken and waiting are those that
  -- arrived, in order; a timer never runs beside a flush; and what waits has a timer or a flush.
  pub reached-Keeps : (msgs : List M) (b : EventBuffer M) → Reaches msgs b → Keeps msgs b
  reached-Keeps msgs b init = init-Keeps
  reached-Keeps msgs b (arrive ms c msg r) = add_event-Keeps ms c msg (reached-Keeps ms c r)
  reached-Keeps msgs b (fire ms c t r) = start_flush-Keeps ms c t (reached-Keeps ms c r)
  reached-Keeps msgs b (finish ms c f r) = end_flush-Keeps ms c f (reached-Keeps ms c r)

  eq_nil_of_is_empty : (l : List M) → is_empty_list l ≡ true → l ≡ []
  eq_nil_of_is_empty [] e = refl
  eq_nil_of_is_empty (m ∷ ms) e = absurd (true≢false (sym e))

  -- With no flush running, at most one more timeout delivers everything.
  settled_delivers :
      (msgs : List M) (b : EventBuffer M)
      → Reaches msgs b
      → Keeps msgs b
      → b.flushing ≡ false
      → (c : EventBuffer M) × Reaches msgs c × (c.delivered ≡ msgs)
  settled_delivers msgs b r k f = elim (Bool-cases b.timer) [
    | inl t ↦ (
      end_flush (start_flush b),
      finish msgs (start_flush b) (unfold start_flush in refl) (fire msgs b t r),
      unfold start_flush end_flush in
          (ap (λ l. b.delivered ++ (l ++ b.buffer)) (sym (k.idle f)) ∙ k.order),
    )
    | inr t ↦
        let nothing : b.buffer ≡ [] =
          eq_nil_of_is_empty b.buffer
            (no_timer (is_empty_list b.buffer) b.timer b.flushing t f k.armed) in
        (
          b,
          r,
          sym (append-nil b.delivered)
              ∙ ap (λ l. b.delivered ++ l) (sym (ap (λ l. l ++ []) (k.idle f)))
              ∙ ap (λ l. b.delivered ++ (b.taken ++ l)) (sym nothing)
              ∙ k.order,
        )
  ]
    where
      no_timer : (e t f : Bool) → t ≡ false → f ≡ false → (e || t || f) ≡ true → e ≡ true
      no_timer true t f _ _ h = refl
      no_timer false true f p q h = absurd (true≢false p)
      no_timer false false true p q h = absurd (true≢false q)
      no_timer false false false p q h = h

  -- From every state that steps reach, with no further message, steps lead to one in which all the
  -- messages that arrived are delivered, in order.
  pub delivers :
      (msgs : List M) (b : EventBuffer M)
      → Reaches msgs b
      → (c : EventBuffer M) × Reaches msgs c × (c.delivered ≡ msgs)
  delivers msgs b r = elim (Bool-cases b.flushing) [
    | inl f ↦
        let e = finish msgs b f r in
        settled_delivers msgs (end_flush b) e (reached-Keeps msgs (end_flush b) e)
          (unfold end_flush in refl)
    | inr f ↦ settled_delivers msgs b r (reached-Keeps msgs b r) f
  ]
