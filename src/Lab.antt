-- ===== src/Lab.antt =====
-- internal/http/lab/service.go: what the lab does with the search index, and its views of the
-- outbox. A text that an answer carries as a lesson is left out.
use go_commerce.Base.{
  ℕ, zero, suc, ◌+◌, ◌≡◌, refl, Bool, true, false, not, Option, none, some, List, [], ◌∷◌, ◌==◌,
  ltb, if◌then◌else◌, length, where_rows, arith,
}
use go_commerce.Base.Int.{ℤ, pos}
use go_commerce.Base.Text.{Text, is_empty}
use go_commerce.Domain.Errors.{Error, Result, ok, err, unavailable, internal}
use go_commerce.Store.Table.{Table}
use go_commerce.Store.Models.{Product, EventRow}
use go_commerce.Relay.{
  Outbox, list_pending, pending_count, relay_once, Pause, set_paused, is_paused,
}
use go_commerce.Workers.Audit.{Reply}
use go_commerce.Search.{
  Remote, Outcome, done, failed, ProductDocument, CollectionStats, ensure_products_collection,
  index_product, stats, search_client,
}
pub mod Reindex

pub record ReindexResult : Type 0 where
  pub indexed : ℕ
  pub failed : ℕ

abbrev pub counted : {A : Type 0} → Outcome A → ReindexResult → ReindexResult
counted (done a) r = record r { indexed = r.indexed + 1 }
counted (failed e) r = record r { failed = r.failed + 1 }

-- The loop over the rows read: a product that cannot be indexed is counted, and the next one tried.
unfoldable pub index_all : Table Product → ReindexResult → Remote → ReindexResult × Remote
unfolding index_product
index_all [] r w = (r, w)
index_all ((id, p) ∷ rows) r w =
    index_all rows (counted (index_product id p w).0 r) (index_product id p w).1

abbrev pub is_live : ℕ × Product → Bool
is_live row = not row.1.is_deleted

abbrev pub live_products : Table Product → Table Product
live_products ps = where_rows is_live ps

abbrev pub indexed_all : ReindexResult × Remote → Result ReindexResult × Remote
indexed_all (r, w) = (ok r, w)

abbrev pub ensured :
    {A : Type 0} → Outcome (Unit {0}) × Remote → (Remote → Result A × Remote) → Result A × Remote
ensured (done u, w) f = f w
ensured (failed e, w) f = (err internal, w)

-- `TypesenseReindex`, from the products that the query reads.
unfoldable pub reindex : Bool → Table Product → Remote → Result ReindexResult × Remote
unfolding ensure_products_collection index_all
reindex false ps w = (err unavailable, w)
reindex true ps w =
    ensured (ensure_products_collection w)
      λ v. indexed_all (index_all (live_products ps) (record { indexed = 0; failed = 0 }) v)

abbrev pub without_counts : Result ReindexResult × Remote → Result (Unit {0}) × Remote
without_counts (ok r, w) = (ok tt, w)
without_counts (err e, w) = (err e, w)

abbrev pub backfill : Table Product → CollectionStats × Remote → Result (Unit {0}) × Remote
unfolding reindex
backfill ps (c, w) =
    if ltb 0 c.num_documents
    then (ok tt, w)
    else if length (live_products ps) == 0
    then (ok tt, w)
    else without_counts (reindex true ps w)

-- `BootstrapTypesense`
unfoldable pub bootstrap : Bool → Table Product → Remote → Result (Unit {0}) × Remote
unfolding ensure_products_collection stats reindex
bootstrap false ps w = (ok tt, w)
bootstrap true ps w = ensured (ensure_products_collection w) (λ v. backfill ps (stats v))

-- `TypesenseExplore`: the statistics, and the documents of a query that is not empty.
pub record Explored : Type 0 where
  pub stats : CollectionStats
  pub results : List ProductDocument

abbrev pub with_results :
    CollectionStats → Result (List ProductDocument) × Remote → Result Explored × Remote
with_results c (ok docs, w) = (ok (record { stats = c; results = docs }), w)
with_results c (err e, w) = (err e, w)

unfoldable pub explore : (Text → ℕ) → Bool → Text → Remote → Result Explored × Remote
unfolding stats search_client
explore parse_float false query w = (err unavailable, w)
explore parse_float true query w =
    if is_empty query
    then (ok (record { stats = (stats w).0; results = [] }), (stats w).1)
    else with_results (stats w).0 (search_client parse_float query (pos 10) (stats w).1)

-- `OutboxPending` and `OutboxRelayOnce`, where there is a relay, whose reads do not fail.
unfoldable pub outbox_pending : ℤ → Outbox → ℕ × List EventRow
unfolding list_pending pending_count
outbox_pending limit o = (pending_count o, list_pending limit o)

unfoldable pub outbox_relay_once : Outbox → Option ℕ × Outbox
unfolding relay_once
outbox_relay_once o = (if (relay_once o).0 then some (relay_once o).1 else none, (relay_once o).2)
