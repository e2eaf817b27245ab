-- ===== src/DnsMap/Joined.antt =====
-- Every edge of the DNS map joins one workload and one resolver, in the whole map and in the issues.
use mathlib.Core.Bool.{true≢false}
use ig_desktop.Prelude.{
  ℕ, ◌≡◌, refl, sym, ap, ◌∙◌, String, Bool, true, Option, none, some, List, [], ◌∷◌, map, arith,
  total, total-map, total-keep, All, All-map, All-imp, keep, keep-All, str_eq, eq_iff, eq_refl, bit,
  Bool-cases, inl, inr,
}
use ig_desktop.Prelude.Assoc.{
  lookup, insert, upsert, has, values, IsMap, insert-IsMap, AllEntries, AllEntries-insert,
  AllEntries-lookup, AllEntries-map, AllEntries-values, weight-keyed, total-values, lookup-insert,
  lookup-insert_self,
}
use ig_desktop.Prelude.Sort.{total-sort}
use ig_desktop.Dns.Types.{DnsTransaction}
use ig_desktop.DnsMap.Identity.{build_address_identity_map, resolve_requester_identity}
use ig_desktop.DnsMap.Group.{
  Identities, Groups, WorkloadAccumulator, ResolverAccumulator, EdgeAccumulator, new_workload,
  add_to_workload, add_to_resolver, add_to_edge, workload_key_of, resolver_key_of, edge_id_of,
  add_transaction, add_transactions, group_transactions,
}
use ig_desktop.DnsMap.Model.{
  DnsMapModel, DnsWorkloadModel, DnsResolverModel, DnsMapEdgeModel, workload_model, resolver_model,
  edge_model, build_dns_map_model, filter_dns_map_model_issues_only, has_text, is_issue,
}

-- An edge has one workload and one resolver.
pub record IsJoinedEdge (model : DnsMapModel) (e : DnsMapEdgeModel) : Type 0 where
  pub workload :
      total (λ (w : DnsWorkloadModel). bit (str_eq w.key e.workload_key)) model.workloads ≡ 1
  pub resolver :
      total (λ (r : DnsResolverModel). bit (str_eq r.key e.resolver_key)) model.resolvers ≡ 1

abbrev pub IsJoined : DnsMapModel → Type 0
IsJoined model = All (IsJoinedEdge model) model.edges

-- What the loop keeps: values stand under their own keys, and the keys of an edge are there.
record AreKeyed (g : Groups) : Type 0 where
  workloads_map : IsMap g.workloads
  resolvers_map : IsMap g.resolvers
  workloads : AllEntries (λ k (w : WorkloadAccumulator). w.key ≡ k) g.workloads
  resolvers : AllEntries (λ k (r : ResolverAccumulator). r.key ≡ k) g.resolvers
  edges :
      AllEntries
        (λ k (e : EdgeAccumulator).
          (has e.workload_key g.workloads ≡ true) × (has e.resolver_key g.resolvers ≡ true))
        g.edges

has-insert {ℓ} :
    {V : Type ℓ} (k j : String) (v : V) (m : List (String × V))
    → has j m ≡ true
    → has j (insert k v m) ≡ true
unfolding has
has-insert k j v m h = ground (arith, lookup-insert k j v m)

has-insert_self {ℓ} :
    {V : Type ℓ} (k : String) (v : V) (m : List (String × V)) → has k (insert k v m) ≡ true
unfolding has
has-insert_self k v m = rw (lookup-insert_self k v m) refl

module _ (m : Identities) (t : DnsTransaction) (g : Groups) (h : AreKeyed g) where
  abbrev wk : String
  wk = workload_key_of m t

  abbrev rk : String
  rk = resolver_key_of t

  workload-key :
      (o : Option WorkloadAccumulator)
      → lookup wk g.workloads ≡ o
      → (add_to_workload wk (resolve_requester_identity t m) t o).key ≡ wk
  unfolding add_to_workload new_workload
  workload-key none e = refl
  workload-key (some w) e = AllEntries-lookup _ wk w g.workloads e h.workloads

  resolver-key :
      (o : Option ResolverAccumulator)
      → lookup rk g.resolvers ≡ o
      → (add_to_resolver rk t o).key ≡ rk
  unfolding add_to_resolver
  resolver-key none e = refl
  resolver-key (some r) e = AllEntries-lookup _ rk r g.resolvers e h.resolvers

  abbrev AreThere : Groups → EdgeAccumulator → Type 0
  AreThere k e = (has e.workload_key k.workloads ≡ true) × (has e.resolver_key k.resolvers ≡ true)

  abbrev next : Groups
  next = add_transaction m t g

  edge-AreThere :
      (o : Option EdgeAccumulator)
      → lookup (edge_id_of m t) g.edges ≡ o
      → AreThere next (add_to_edge wk rk t o)
  unfolding add_to_edge add_transaction upsert
  edge-AreThere none e = (has-insert_self wk _ g.workloads, has-insert_self rk _ g.resolvers)
  edge-AreThere (some x) e =
      let old = AllEntries-lookup _ (edge_id_of m t) x g.edges e h.edges in
      (
        has-insert wk x.workload_key _ g.workloads old.0,
        has-insert rk x.resolver_key _ g.resolvers old.1,
      )

  add_transaction-AreKeyed : AreKeyed next
  unfolding add_transaction upsert
  add_transaction-AreKeyed = record {
    workloads_map = insert-IsMap wk _ g.workloads h.workloads_map;
    resolvers_map = insert-IsMap rk _ g.resolvers h.resolvers_map;
    workloads =
        AllEntries-insert _ wk _ g.workloads (workload-key (lookup wk g.workloads) refl)
          h.workloads;
    resolvers =
        AllEntries-insert _ rk _ g.resolvers (resolver-key (lookup rk g.resolvers) refl)
          h.resolvers;
    edges =
        AllEntries-insert _ (edge_id_of m t) _ g.edges
          (edge-AreThere (lookup (edge_id_of m t) g.edges) refl)
          (AllEntries-map _ _ g.edges
            (λ k e old. (
              has-insert wk e.workload_key _ g.workloads old.0,
              has-insert rk e.resolver_key _ g.resolvers old.1,
            ))
            h.edges);
  }

add_transactions-AreKeyed :
    (m : Identities) (txns : List DnsTransaction) (g : Groups)
    → AreKeyed g
    → AreKeyed (add_transactions m txns g)
unfolding add_transactions
add_transactions-AreKeyed m [] g h = h
add_transactions-AreKeyed m (t ∷ ts) g h =
    add_transactions-AreKeyed m ts (add_transaction m t g) (add_transaction-AreKeyed m t g h)

build-IsJoined :
    (locale_before : String → String → Bool) (txns : List DnsTransaction) (timeout_ms : ℕ)
    → IsJoined (build_dns_map_model locale_before txns timeout_ms)
unfolding build_dns_map_model group_transactions workload_model resolver_model edge_model
build-IsJoined locale_before txns timeout_ms =
    let m = build_address_identity_map txns in
    let g = add_transactions m txns (record { workloads = []; resolvers = []; edges = [] }) in
    let k =
      add_transactions-AreKeyed m txns (record { workloads = []; resolvers = []; edges = [] })
        (record {
          workloads_map = tt;
          resolvers_map = tt;
          workloads = tt;
          resolvers = tt;
          edges = tt;
        }) in
    All-map (IsJoinedEdge (build_dns_map_model locale_before txns timeout_ms))
      (edge_model timeout_ms) (values g.edges)
      (AllEntries-values _ _ g.edges
        (λ id e there. record {
          workload =
              total-sort _ (λ (w : DnsWorkloadModel). bit (str_eq w.key e.workload_key))
                (map (workload_model timeout_ms) (values g.workloads))
              ∙ total-map (λ (w : DnsWorkloadModel). bit (str_eq w.key e.workload_key))
                  (workload_model timeout_ms) (values g.workloads)
              ∙ total-values (λ (w : WorkloadAccumulator). bit (str_eq w.key e.workload_key))
                  g.workloads
              ∙ weight-keyed (λ (w : WorkloadAccumulator). w.key) e.workload_key g.workloads
                  k.workloads_map k.workloads
              ∙ ap bit there.0;
          resolver =
              total-sort _ (λ (r : DnsResolverModel). bit (str_eq r.key e.resolver_key))
                (map (resolver_model timeout_ms) (values g.resolvers))
              ∙ total-map (λ (r : DnsResolverModel). bit (str_eq r.key e.resolver_key))
                  (resolver_model timeout_ms) (values g.resolvers)
              ∙ total-values (λ (r : ResolverAccumulator). bit (str_eq r.key e.resolver_key))
                  g.resolvers
              ∙ weight-keyed (λ (r : ResolverAccumulator). r.key) e.resolver_key g.resolvers
                  k.resolvers_map k.resolvers
              ∙ ap bit there.1;
        })
        k.edges)

-- The texts of a list are in it.
has_text-map {ℓ} :
    {A : Type ℓ} (f : A → String) (xs : List A) → All (λ x. has_text (map f xs) (f x) ≡ true) xs
has_text-map f [] = tt
has_text-map f (x ∷ xs) =
    (ground (arith, eq_refl (f x)), All-imp _ _ xs (λ y h. ground (arith, h)) (has_text-map f xs))

-- A count of one key is the same among those whose keys are in a list that has the key.
total-kept {ℓ} :
    {A : Type ℓ} (key : A → String) (texts : List String) (k : String) (xs : List A)
    → has_text texts k ≡ true
    → total (λ x. bit (str_eq (key x) k)) (keep (λ x. has_text texts (key x)) xs)
      ≡ total (λ x. bit (str_eq (key x) k)) xs
total-kept key texts k xs h =
    total-keep (λ x. bit (str_eq (key x) k)) (λ x. has_text texts (key x)) xs
      (λ x miss. elim (Bool-cases (str_eq (key x) k)) [
        | inl b ↦
            absurd (true≢false (sym h ∙ sym (ap (has_text texts) ((eq_iff (key x) k).0 b)) ∙ miss))
        | inr b ↦ ap bit b
      ])

module _ (model : DnsMapModel) (ws rs : List String) (shown : DnsMapModel)
    (left : shown.workloads ≡ keep (λ (w : DnsWorkloadModel). has_text ws w.key) model.workloads)
    (right : shown.resolvers
      ≡ keep (λ (r : DnsResolverModel). has_text rs r.key) model.resolvers) where
  narrowed :
      (es : List DnsMapEdgeModel)
      → All (IsJoinedEdge model) es
      → All (λ e. has_text ws e.workload_key ≡ true) es
      → All (λ e. has_text rs e.resolver_key ≡ true) es
      → All (IsJoinedEdge shown) es
  narrowed [] j h k = tt
  narrowed (e ∷ es) (j, js) (h, hs) (k, ks) = (
    record {
      workload =
          ap (total (λ (w : DnsWorkloadModel). bit (str_eq w.key e.workload_key))) left
          ∙ total-kept (λ (w : DnsWorkloadModel). w.key) ws e.workload_key model.workloads h
          ∙ j.workload;
      resolver =
          ap (total (λ (r : DnsResolverModel). bit (str_eq r.key e.resolver_key))) right
          ∙ total-kept (λ (r : DnsResolverModel). r.key) rs e.resolver_key model.resolvers k
          ∙ j.resolver;
    },
    narrowed es js hs ks,
  )

filter-IsJoined :
    (model : DnsMapModel) → IsJoined model → IsJoined (filter_dns_map_model_issues_only model)
unfolding filter_dns_map_model_issues_only
filter-IsJoined model j =
    let issue : DnsMapEdgeModel → Bool = λ e. is_issue e.counts.severity in
    let edges = keep issue model.edges in
    narrowed model (map (λ e. e.workload_key) edges) (map (λ e. e.resolver_key) edges)
      (filter_dns_map_model_issues_only model) refl refl edges
      (keep-All (IsJoinedEdge model) issue model.edges j)
      (has_text-map (λ (e : DnsMapEdgeModel). e.workload_key) edges)
      (has_text-map (λ (e : DnsMapEdgeModel). e.resolver_key) edges)

-- Every edge of the model has exactly one workload and one resolver in it, and so has every edge of the
-- model that shows the issues only.
pub build_dns_map_model-IsJoined :
    (locale_before : String → String → Bool) (txns : List DnsTransaction) (timeout_ms : ℕ)
    → IsJoined (build_dns_map_model locale_before txns timeout_ms)
      × IsJoined
          (filter_dns_map_model_issues_only (build_dns_map_model locale_before txns timeout_ms))
build_dns_map_model-IsJoined locale_before txns timeout_ms =
    let model = build_dns_map_model locale_before txns timeout_ms in
    let joined = build-IsJoined locale_before txns timeout_ms in
    (joined, filter-IsJoined model joined)
