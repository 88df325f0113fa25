-- ===== src/Lab/Reindex.antt =====
-- A reindexing accounts for every product.
use go_commerce.Base.{ℕ, ◌+◌, ◌≡◌, ap, true, [], ◌∷◌, length, arith}
use go_commerce.Domain.Errors.{ok}
use go_commerce.Store.Table.{Table}
use go_commerce.Store.Models.{Product}
use go_commerce.Search.{Remote, Outcome, done, failed, index_product, ensure_products_collection}
use go_commerce.Lab.{
  ReindexResult, counted, index_all, live_products, indexed_all, ensured, reindex,
}

abbrev total : ReindexResult → ℕ
total r = r.indexed + r.failed

counted-total : {A : Type 0} (o : Outcome A) (r : ReindexResult) → total (counted o r) ≡ total r + 1
counted-total (done a) r = omega arith
counted-total (failed e) r = omega arith

index_all-total :
    (rows : Table Product) (r : ReindexResult) (w : Remote)
    → total (index_all rows r w).0 ≡ total r + length rows
unfolding index_all
index_all-total [] r w = omega arith
index_all-total ((id, p) ∷ rows) r w = omega (
  arith,
  index_all-total rows (counted (index_product id p w).0 r) (index_product id p w).1,
  counted-total (index_product id p w).0 r,
)

-- However the search engine answers, a reindexing that returns counts every product that is not
-- deleted once, as indexed or as failed.
pub reindex_counts_all :
    (ps : Table Product) (w : Remote) (r : ReindexResult)
    → (reindex true ps w).0 ≡ ok r
    → r.indexed + r.failed ≡ length (live_products ps)
unfolding reindex
reindex_counts_all ps w r h = of_schema (ensure_products_collection w) h
  where
    zeros : ReindexResult
    zeros = record { indexed = 0; failed = 0 }

    of_schema :
        (o : Outcome (Unit {0}) × Remote)
        → (ensured {A = ReindexResult} o
            (λ v. indexed_all (index_all (live_products ps) zeros v))).0
          ≡ ok r
        → r.indexed + r.failed ≡ length (live_products ps)
    of_schema (done u, v) g =
        let same : (index_all (live_products ps) zeros v).0 ≡ r = cc in
        omega (arith, ap total same, index_all-total (live_products ps) zeros v)
    of_schema (failed e, v) g = absurd (cc)
