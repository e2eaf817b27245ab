-- ===== src/DnsMap/Partition.antt =====
-- The DNS map counts every transaction once at each level.
use ig_desktop.Prelude.{
  ℕ, ◌≡◌, refl, ap, ◌∙◌, String, Bool, Option, none, some, List, [], ◌∷◌, ◌++◌, map, length, total,
  total-map, total-cong, keep, str_eq,
}
use ig_desktop.Prelude.Assoc.{lookup, values, weight, total-values}
use ig_desktop.Prelude.Sort.{sort, total-sort, length-sort}
use ig_desktop.Prelude.Grouping.{group, items?, items-group, weight-group_empty}
use ig_desktop.Dns.Types.{DnsTransaction}
use ig_desktop.Dns.Correlate.{newer}
use ig_desktop.Dns.Severity.{summarize_dns_severity}
use ig_desktop.Dns.Severity.Laws.{summarize_dns_severity-IsConsistent}
use ig_desktop.DnsMap.Identity.{build_address_identity_map, resolve_requester_identity}
use ig_desktop.DnsMap.Group.{
  Identities, Groups, WorkloadAccumulator, ResolverAccumulator, EdgeAccumulator, new_workload,
  add_to_workload, add_to_resolver, add_to_edge, workload_key_of, resolver_key_of, edge_id_of,
  add_transaction, add_transactions, group_transactions,
}
use ig_desktop.DnsMap.Model.{
  DnsMapModel, DnsWorkloadModel, DnsResolverModel, DnsMapEdgeModel, workload_model, resolver_model,
  edge_model, build_dns_map_model, sort_newest_first,
}

module _ (m : Identities) where
  abbrev pub to_workload : DnsTransaction → Option WorkloadAccumulator → WorkloadAccumulator
  to_workload t = add_to_workload (workload_key_of m t) (resolve_requester_identity t m) t

  abbrev pub to_resolver : DnsTransaction → Option ResolverAccumulator → ResolverAccumulator
  to_resolver t = add_to_resolver (resolver_key_of t) t

  abbrev pub to_edge : DnsTransaction → Option EdgeAccumulator → EdgeAccumulator
  to_edge t = add_to_edge (workload_key_of m t) (resolver_key_of t) t

  -- The one loop is three groupings side by side.
  record IsGrouped (txns : List DnsTransaction) (g h : Groups) : Type 0 where
    workloads :
        h.workloads ≡ group (workload_key_of m) to_workload (λ a. a.transactions) txns g.workloads
    resolvers :
        h.resolvers ≡ group resolver_key_of to_resolver (λ a. a.transactions) txns g.resolvers
    edges : h.edges ≡ group (edge_id_of m) to_edge (λ a. a.transactions) txns g.edges

  add_transactions-IsGrouped :
      (txns : List DnsTransaction) (g : Groups) → IsGrouped txns g (add_transactions m txns g)
  unfolding add_transactions add_transaction group
  add_transactions-IsGrouped [] g = record { workloads = refl; resolvers = refl; edges = refl }
  add_transactions-IsGrouped (t ∷ ts) g =
      let r = add_transactions-IsGrouped ts (add_transaction m t g) in
      record { workloads = r.workloads; resolvers = r.resolvers; edges = r.edges }

  to_workload-adds :
      (t : DnsTransaction) (o : Option WorkloadAccumulator)
      → (to_workload t o).transactions
        ≡ items? (workload_key_of m) to_workload (λ a. a.transactions) o ++ t ∷ []
  unfolding add_to_workload
  to_workload-adds t none = unfold new_workload in refl
  to_workload-adds t (some w) = refl

  to_resolver-adds :
      (t : DnsTransaction) (o : Option ResolverAccumulator)
      → (to_resolver t o).transactions
        ≡ items? resolver_key_of to_resolver (λ a. a.transactions) o ++ t ∷ []
  unfolding add_to_resolver
  to_resolver-adds t none = refl
  to_resolver-adds t (some r) = refl

  to_edge-adds :
      (t : DnsTransaction) (o : Option EdgeAccumulator)
      → (to_edge t o).transactions ≡ items? (edge_id_of m) to_edge (λ a. a.transactions) o ++ t ∷ []
  unfolding add_to_edge
  to_edge-adds t none = refl
  to_edge-adds t (some e) = refl

total-sorted_ids :
    (txns : List DnsTransaction) (timeout_ms : ℕ)
    → (summarize_dns_severity (sort_newest_first txns) timeout_ms).total ≡ length txns
unfolding sort_newest_first
total-sorted_ids txns timeout_ms =
    let c = summarize_dns_severity-IsConsistent (sort newer txns) timeout_ms in
    c.1 ∙ length-sort newer txns

module _ {ℓ κ} {A : Type ℓ} {B : Type κ} (before : B → B → Bool) (model : A → B) (count : B → ℕ)
    (size : A → ℕ) (same : (a : A) → count (model a) ≡ size a) where
  -- A sum over the models of a map's values is one over the map.
  total-models :
      (entries : List (String × A))
      → total count (sort before (map model (values entries))) ≡ weight size entries
  total-models entries =
      total-sort before count (map model (values entries))
      ∙ total-map count model (values entries)
      ∙ total-cong (λ a. count (model a)) size (values entries) same
      ∙ total-values size entries

-- The counts of a model, added up over the workloads, the resolvers and the edges.
abbrev pub workload_totals : DnsMapModel → ℕ
workload_totals model = total (λ (w : DnsWorkloadModel). w.counts.total) model.workloads

abbrev pub resolver_totals : DnsMapModel → ℕ
resolver_totals model = total (λ (r : DnsResolverModel). r.counts.total) model.resolvers

abbrev pub edge_totals : DnsMapModel → ℕ
edge_totals model = total (λ (e : DnsMapEdgeModel). e.counts.total) model.edges

-- The counts of the workloads, those of the resolvers and those of the edges each add up to the number
-- of transactions, so that every transaction is counted at one workload, one resolver and one edge.
pub build_dns_map_model-totals :
    (locale_before : String → String → Bool) (txns : List DnsTransaction) (timeout_ms : ℕ)
    → let model = build_dns_map_model locale_before txns timeout_ms in
      (workload_totals model ≡ length txns)
      × (resolver_totals model ≡ length txns)
      × (edge_totals model ≡ length txns)
unfolding build_dns_map_model group_transactions workload_model resolver_model edge_model
build_dns_map_model-totals locale_before txns timeout_ms =
    let m = build_address_identity_map txns in
    let empty : Groups = record { workloads = []; resolvers = []; edges = [] } in
    let g = add_transactions m txns empty in
    let r = add_transactions-IsGrouped m txns empty in
    (
      total-models _ (workload_model timeout_ms) (λ w. w.counts.total) (λ a. length a.transactions)
            (λ a. total-sorted_ids a.transactions timeout_ms) g.workloads
          ∙ ap (weight (λ (a : WorkloadAccumulator). length a.transactions)) r.workloads
          ∙ weight-group_empty (workload_key_of m) (to_workload m) (λ a. a.transactions)
              (to_workload-adds m) txns,
      total-models _ (resolver_model timeout_ms) (λ w. w.counts.total) (λ a. length a.transactions)
            (λ a. total-sorted_ids a.transactions timeout_ms) g.resolvers
          ∙ ap (weight (λ (a : ResolverAccumulator). length a.transactions)) r.resolvers
          ∙ weight-group_empty resolver_key_of (to_resolver m) (λ a. a.transactions)
              (to_resolver-adds m) txns,
      total-map (λ (e : DnsMapEdgeModel). e.counts.total) (edge_model timeout_ms) (values g.edges)
          ∙ total-cong _ (λ (a : EdgeAccumulator). length a.transactions) (values g.edges)
              (λ a. total-sorted_ids a.transactions timeout_ms)
          ∙ total-values (λ (a : EdgeAccumulator). length a.transactions) g.edges
          ∙ ap (weight (λ (a : EdgeAccumulator). length a.transactions)) r.edges
          ∙ weight-group_empty (edge_id_of m) (to_edge m) (λ a. a.transactions) (to_edge-adds m)
              txns,
    )

-- Behind an edge stand exactly the transactions whose workload and resolver give its id, in the order
-- in which they came.
edge_transactions :
    (txns : List DnsTransaction) (id : String)
    → elim (lookup id (group_transactions txns).edges) as (λ _. List DnsTransaction) [
      | none ↦ []
      | some e ↦ e.transactions
    ]
      ≡ keep (λ t. str_eq (edge_id_of (build_address_identity_map txns) t) id) txns
unfolding group_transactions
edge_transactions txns id =
    let m = build_address_identity_map txns in
    let empty : Groups = record { workloads = []; resolvers = []; edges = [] } in
    ap
      (λ (l : List (String × EdgeAccumulator)).
        items? (edge_id_of m) (to_edge m) (λ a. a.transactions) (lookup id l))
      (add_transactions-IsGrouped m txns empty).edges
    ∙ items-group (edge_id_of m) (to_edge m) (λ a. a.transactions) (to_edge-adds m) id txns []
