-- ===== src/Tests/Searching.antt =====
-- Runs of the search client.
use go_commerce.Base.{ℕ, refl, true, none, some, [], ◌∷◌}
use go_commerce.Base.Int.{pos}
use go_commerce.Base.Text.{Text, codes, trim_space}
use go_commerce.Search.Values.{string, number}
use go_commerce.Search.{Hit, hits, accepted, refused, through, open_state, Remote, search_products}
use go_commerce.Search.Degrades.{Degraded, Sent, search_degrades}

abbrev rice_hit : Hit
rice_hit = record {
  id = string (codes "1");
  user_id = number 3;
  name = string (codes "rice");
  description = string [];
  price = number 5;
}

abbrev missing : Text
missing = codes "status: 404 response: Not Found"

abbrev remote : Remote
remote = record {
  requests = [];
  answers =
      through (refused missing)
      ∷ through accepted
      ∷ through (hits (some (none ∷ some rice_hit ∷ [])))
      ∷ open_state
      ∷ [];
}

abbrev no_float : Text → ℕ
no_float t = 0

search_degrades_example :
    Degraded (search_products no_float true (codes " rice") (pos 500) remote).0
    × Sent
        (trim_space (codes " rice"))
        3
        remote
        (search_products no_float true (codes " rice") (pos 500) remote).1
unfolding trim_space
search_degrades_example = search_degrades no_float (codes " rice") (pos 500) remote refl
