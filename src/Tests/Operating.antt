-- ===== src/Tests/Operating.antt =====
-- Runs of the readiness probe and of the lab.
use go_commerce.Base.{◌+◌, ◌≡◌, ◌↔◌, refl, true, false, [], ◌∷◌, length}
use go_commerce.Base.Text.{codes}
use go_commerce.Search.{
  Remote, through, accepted, refused, execute, index_product, ensure_products_collection,
}
use go_commerce.Health.{HasDown, AllUp, ready, status_of, up, checkers, readiness_follows_checks}
use go_commerce.Lab.{reindex, index_all, live_products}
use go_commerce.Lab.Reindex.{reindex_counts_all}
use go_commerce.Tests.{catalogue}

-- MongoDB is down.
readiness_follows_checks_example :
    ((status_of (ready (checkers true true false true true)) ≡ 503)
      ↔ HasDown true (checkers true true false true true))
    × ((ready (checkers true true false true true) ≡ up)
        ↔ AllUp (checkers true true false true true))
readiness_follows_checks_example = readiness_follows_checks (checkers true true false true true)

-- The second of three documents is refused.
abbrev engine : Remote
engine = record {
  requests = [];
  answers =
      through accepted
      ∷ through accepted
      ∷ through accepted
      ∷ through accepted
      ∷ through (refused (codes "timeout"))
      ∷ through accepted
      ∷ through accepted
      ∷ [];
}

reindex_counts_all_example : 2 + 1 ≡ length (live_products catalogue)
unfolding reindex index_all index_product ensure_products_collection execute
reindex_counts_all_example =
    reindex_counts_all catalogue engine (record { indexed = 2; failed = 1 }) refl
