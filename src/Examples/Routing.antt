-- ===== src/Examples/Routing.antt =====
-- Egress and the model router on concrete adapters and providers.
use heike.Prelude.{
  ℕ, ◌≡◌, ◌==◌, ◌&&◌, ◌||◌, not, refl, true, false, Option, none, some, List, [], ◌∷◌, String,
  differ, mem, IsDistinct, lookup, keys,
}
use heike.Errors.{Result, ok, err, sentinel, transient}
use heike.Ingress.Resolver.{SessionMeta}
use heike.Egress.{DefaultEgress, OutputAdapter}
use heike.Egress.Routing.{add, remove, Change}
use heike.Model.Router.{Provider, Router, embedding_try_order, route_embedding}
use heike.Model.Embedding.{is_ok, embedding_try_order_complete, route_embedding-found}

abbrev cli : OutputAdapter
cli = record { name = "cli"; send = λ session content. none; health = none }

abbrev from_cli : Result (Option SessionMeta)
from_cli = ok (
    some (record {
      id = "s1";
      title = "";
      status = "active";
      created_at = 0;
      updated_at = 0;
      metadata = ("source", "cli") ∷ [];
    }))

abbrev changes : List Change
changes = add (some cli) ∷ add (some (record cli { name = "slack" })) ∷ remove "slack" ∷ []

-- A provider that answers, and one that fails.
abbrev steady : Provider String String ℕ
steady = record { generate = λ n request. ok request; embed = λ text. ok 5 }

abbrev broken : Provider String String ℕ
broken = record {
  generate = λ n request. err (sentinel transient);
  embed = λ text. err (sentinel transient);
}

abbrev router : Router String String ℕ
router = record {
  providers = ("large", broken) ∷ ("small", steady) ∷ [];
  fallback = "small";
  max_fallback_attempts = 5;
}

embedding_try_order_complete_example :
    IsDistinct (embedding_try_order (λ names. names) router "large")
    × ((x : String)
        → mem x (embedding_try_order (λ names. names) router "large")
          ≡ not (x == "") && ("large" == x || ("small" == x || mem x (keys router.providers))))
embedding_try_order_complete_example =
    embedding_try_order_complete (λ names. names) router "large" (λ x names. refl)

route_embedding-found_example :
    is_ok (route_embedding (λ names. names) (λ e. false) router (λ k. none) "large" "text") ≡ true
route_embedding-found_example =
    route_embedding-found (λ names. names) (λ e. false) router "large" "text" "small" steady 5
      (λ x names. refl) (differ "small" "" refl) (unfold lookup in refl) refl

abbrev one_adapter : DefaultEgress
one_adapter = ("cli", cli) ∷ []
