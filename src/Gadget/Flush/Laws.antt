-- ===== src/Gadget/Flush/Laws.antt =====
-- What a flush puts into the ring buffers.
use ig_desktop.Prelude.{
  suc, ◌+◌, ◌≡◌, refl, sym, ap, ◌∙◌, String, Bool, true, false, Option, none, some, List, [], ◌∷◌,
  ◌++◌, map, reverse, take, arith, length, length-append, keep, str_eq, eq_iff, or_default,
  Bool-cases, inl, inr, if◌then◌else◌,
}
use mathlib.Core.Path.{subst}
use mathlib.Core.List.{append_assoc, append-nil, reverse-cons, reverse-append, map-append}
use ig_desktop.Prelude.Assoc.{lookup, lookup-insert}
use ig_desktop.Js.{Event}
use ig_desktop.Ring.{Ring, push, push_many}
use ig_desktop.Ring.Refine.{Holds, push_many_refines}
use ig_desktop.Gadget.Processors.{
  Calls, Plugin, World, run_event_processors, run_processors, drain_synthetic_events, marked,
}
use ig_desktop.Gadget.Flush.{
  GadgetEventMessage, group_message, group_messages, Pushed, push_if_kept, push_messages,
  push_synthetic_events, flush_ring, datasource_of,
}

abbrev pub is_of : String → GadgetEventMessage → Bool
is_of id m = str_eq m.instance_id id

-- A list that is empty stands for no group.
abbrev pub group_of : String → List (String × List GadgetEventMessage) → List GadgetEventMessage
group_of id groups = or_default (lookup id groups) []

keep_one :
    (id : String) (m : GadgetEventMessage) (ms : List GadgetEventMessage) (b : Bool)
    → str_eq m.instance_id id ≡ b
    → keep (is_of id) (m ∷ ms) ≡ (if b then m ∷ keep (is_of id) ms else keep (is_of id) ms)
keep_one id m ms true e =
    ap (λ t. elim t [ true ↦ m ∷ keep (is_of id) ms | false ↦ keep (is_of id) ms ]) e
keep_one id m ms false e =
    ap (λ t. elim t [ true ↦ m ∷ keep (is_of id) ms | false ↦ keep (is_of id) ms ]) e

group_of-group_message :
    (id : String) (m : GadgetEventMessage) (groups : List (String × List GadgetEventMessage))
    → group_of id (group_message m groups) ≡ group_of id groups ++ keep (is_of id) (m ∷ [])
unfolding group_message
group_of-group_message id m groups =
    let new = or_default (lookup m.instance_id groups) [] ++ m ∷ [] in
    let found = lookup-insert m.instance_id id new groups in
    elim (Bool-cases (str_eq m.instance_id id)) [
      | inl b ↦
          ap (λ o. or_default o []) found
          ∙ ap (λ t. or_default (if t then some new else lookup id groups) []) b
          ∙ ap (λ i. or_default (lookup i groups) [] ++ m ∷ []) ((eq_iff m.instance_id id).0 b)
          ∙ ap (λ l. group_of id groups ++ l) (sym (keep_one id m [] true b))
      | inr b ↦
          ap (λ o. or_default o []) found
          ∙ ap (λ t. or_default (if t then some new else lookup id groups) []) b
          ∙ sym (append-nil (group_of id groups))
          ∙ ap (λ l. group_of id groups ++ l) (sym (keep_one id m [] false b))
    ]

keep-append_one :
    (id : String) (m : GadgetEventMessage) (ms : List GadgetEventMessage)
    → keep (is_of id) (m ∷ []) ++ keep (is_of id) ms ≡ keep (is_of id) (m ∷ ms)
keep-append_one id m ms = elim (Bool-cases (str_eq m.instance_id id)) [
  | inl b ↦
      ap (λ l. l ++ keep (is_of id) ms) (keep_one id m [] true b) ∙ sym (keep_one id m ms true b)
  | inr b ↦
      ap (λ l. l ++ keep (is_of id) ms) (keep_one id m [] false b) ∙ sym (keep_one id m ms false b)
]

-- The group of an instance is that instance's messages, in the order in which they came.
group_messages-group_of :
    (id : String) (ms : List GadgetEventMessage) (groups : List (String × List GadgetEventMessage))
    → group_of id (group_messages ms groups) ≡ group_of id groups ++ keep (is_of id) ms
unfolding group_messages
group_messages-group_of id [] groups = sym (append-nil (group_of id groups))
group_messages-group_of id (m ∷ ms) groups =
    group_messages-group_of id ms (group_message m groups)
    ∙ ap (λ l. l ++ keep (is_of id) ms) (group_of-group_message id m groups)
    ∙ append_assoc (group_of id groups) (keep (is_of id) (m ∷ [])) (keep (is_of id) ms)
    ∙ ap (λ l. group_of id groups ++ l) (keep-append_one id m ms)

abbrev cons_if : Option Event → List Event → List Event
cons_if none es = es
cons_if (some e) es = e ∷ es

module _ {ℓ} {S : Type ℓ} (calls : Calls S) (plugins : List Plugin)
    (instance_id datasource : String) (has_info : Bool) where
  -- What the processors keep of some messages, in the order given, and the world afterwards.
  unfoldable pub kept : List GadgetEventMessage → World S → List Event × World S
  kept [] w = ([], w)
  kept (m ∷ ms) w =
      let (o, w') =
        run_event_processors calls instance_id datasource has_info plugins m.payload w in
      let (es, w'') = kept ms w' in (cons_if o es, w'')

  record IsPushed (es : List Event) (w : World S) (p q : Pushed S) : Type ℓ where
    ring : q.ring ≡ push_many es p.ring
    count : q.pushed_count ≡ p.pushed_count + length es
    world : q.world ≡ w

  one_pushed :
      (o : Option Event) (w' : World S) (es : List Event) (w'' : World S) (p q : Pushed S)
      → IsPushed es w'' (push_if_kept calls plugins o w' p) q
      → IsPushed (cons_if o es) w'' p q
  unfolding push_if_kept push_many
  one_pushed none w' es w'' p q r = record { ring = r.ring; count = r.count; world = r.world }
  one_pushed (some e) w' es w'' p q r = record {
    ring = r.ring;
    count = omega (arith, r.count);
    world = r.world;
  }

  push_messages-IsPushed :
      (ms : List GadgetEventMessage) (p : Pushed S)
      → IsPushed
          (kept ms p.world).0
          (kept ms p.world).1
          p
          (push_messages calls plugins instance_id datasource has_info ms p)
  unfolding push_messages kept push_many push_if_kept
  push_messages-IsPushed [] p = record { ring = refl; count = omega arith; world = refl }
  push_messages-IsPushed (m ∷ ms) p =
      let (o, w') =
        run_event_processors calls instance_id datasource has_info plugins m.payload p.world in
      let q = push_if_kept calls plugins o w' p in
      one_pushed o w' (kept ms w').0 (kept ms w').1 p
        (push_messages calls plugins instance_id datasource has_info ms q)
        (push_messages-IsPushed ms q)

pub push_many-append :
    (xs ys : List Event) (r : Ring Event) → push_many (xs ++ ys) r ≡ push_many ys (push_many xs r)
unfolding push_many
push_many-append [] ys r = refl
push_many-append (x ∷ xs) ys r = push_many-append xs ys (push x r)

pub length-marked : (es : List Event) → length (marked es) ≡ length es
unfolding marked
length-marked [] = refl
length-marked (e ∷ es) = ap suc (length-marked es)

module _ {ℓ} {S : Type ℓ} (calls : Calls S) (plugins : List Plugin) (instance_id : String)
    (has_info : Bool) (msgs : List GadgetEventMessage) (ring : Ring Event) (w : World S) where
  -- What the flush of one instance pushes, first to last.
  abbrev pub outputs : List Event
  outputs =
      let (es, w') =
        kept calls plugins instance_id (datasource_of msgs) has_info (reverse msgs) w in
      es ++ marked (drain_synthetic_events instance_id w').0

  -- A flush pushes what the processors keep of an instance's messages, last message first, and then
  -- the synthetic events. The ring buffer holds the last of these in front of what it held, and the
  -- number pushed is theirs.
  pub flush_ring_refines :
      (xs : List Event)
      → Holds ring xs
      → Holds
          (flush_ring calls plugins instance_id has_info msgs ring w).ring
          (take ring.capacity (reverse outputs ++ xs))
        × ((flush_ring calls plugins instance_id has_info msgs ring w).pushed_count
            ≡ length outputs)
  unfolding flush_ring push_synthetic_events drain_synthetic_events
  flush_ring_refines xs h =
      let p : Pushed S = record { ring = ring; pushed_count = 0; world = w } in
      let source = datasource_of msgs in
      let q = push_messages calls plugins instance_id source has_info (reverse msgs) p in
      let es = (kept calls plugins instance_id source has_info (reverse msgs) w).0 in
      let i = push_messages-IsPushed calls plugins instance_id source has_info (reverse msgs) p in
      let left = λ (v : World S). (drain_synthetic_events instance_id v).0 in
      let same : outputs ≡ es ++ marked (left q.world) =
        ap (λ v. es ++ marked (left v)) (sym i.world) in
      let pushed : push_many (marked (left q.world)) q.ring ≡ push_many outputs ring =
        ap (push_many (marked (left q.world))) i.ring
        ∙ sym (push_many-append es (marked (left q.world)) ring)
        ∙ ap (λ l. push_many l ring) (sym same) in
      (
        subst (λ r. Holds r (take ring.capacity (reverse outputs ++ xs))) (sym pushed)
            (push_many_refines outputs ring xs h),
        omega (
          arith,
          i.count,
          ap length same,
          length-append es (marked (left q.world)),
          length-marked (left q.world),
        ),
      )

module _ {ℓ} {S : Type ℓ} (calls : Calls S) (instance_id : String) (has_info : Bool) where
  kept_without_plugins :
      (datasource : String) (ms : List GadgetEventMessage) (w : World S)
      → kept calls [] instance_id datasource has_info ms w ≡ (map (λ m. m.payload) ms, w)
  unfolding kept run_event_processors run_processors
  kept_without_plugins datasource [] w = refl
  kept_without_plugins datasource (m ∷ ms) w = elim (Bool-cases has_info) [
    | inl b ↦ simp (b, kept_without_plugins datasource ms w)
    | inr b ↦ simp (b, kept_without_plugins datasource ms w)
  ]

  reverse-map-reverse :
      (ms : List GadgetEventMessage)
      → reverse (map (λ m. m.payload) (reverse ms)) ≡ map (λ m. m.payload) ms
  reverse-map-reverse [] = refl
  reverse-map-reverse (m ∷ ms) =
      ap (λ l. reverse (map (λ m. m.payload) l)) (reverse-cons m ms)
      ∙ ap reverse (map-append (λ m. m.payload) (reverse ms) (m ∷ []))
      ∙ reverse-append (map (λ m. m.payload) (reverse ms)) (m.payload ∷ [])
      ∙ ap (λ l. m.payload ∷ l) (reverse-map-reverse ms)

  -- With no processor and nothing queued, the ring buffer holds the messages of the batch in the
  -- order in which they came, so that its newest item is the oldest message of the batch.
  pub flush_ring-order :
      (msgs : List GadgetEventMessage) (ring : Ring Event) (w : World S) (xs : List Event)
      → Holds ring xs
      → lookup instance_id w.queue ≡ none
      → Holds
          (flush_ring calls [] instance_id has_info msgs ring w).ring
          (take ring.capacity (map (λ m. m.payload) msgs ++ xs))
  unfolding drain_synthetic_events marked
  flush_ring-order msgs ring w xs h e =
      let k = kept_without_plugins (datasource_of msgs) (reverse msgs) w in
      let out : outputs calls [] instance_id has_info msgs ring w
          ≡ map (λ m. m.payload) (reverse msgs) =
        ap (λ t. t.0 ++ marked (or_default (lookup instance_id t.1.queue) [])) k
        ∙ ap (λ o. map (λ m. m.payload) (reverse msgs) ++ marked (or_default o [])) e
        ∙ append-nil _ in
      subst
        (λ l.
          Holds (flush_ring calls [] instance_id has_info msgs ring w).ring
            (take ring.capacity (l ++ xs)))
        (ap reverse out ∙ reverse-map-reverse msgs)
        (flush_ring_refines calls [] instance_id has_info msgs ring w xs h).0
