-- ===== src/Tests/Registering.antt =====
-- HandleFunc with the method "*", on an empty table.
use iceberg.Common.Map.{Map, put, get_or}
use iceberg.Common.Text.{split}
use iceberg.Router.{parse_segments, parse_segment, route_compare, rank_from}
use iceberg.Common.Text.{text_beq, text_beq_iff}
use iceberg.Bootstrap.Options.{Handler, Visit, no_options}
use iceberg.Bootstrap.Server.{exposing, handle_func, methods_of, serve_http}
use iceberg.Bootstrap.Server.Methods.{registered, for_any, handle_func-serve_http}
use iceberg.Proxies.Http.{Answer, refused}
use iceberg.Netio.Message.{new_error, new_request}
use iceberg.Router.{parse_route, create_hash}
use iceberg.Router.Best.{IsCandidate}
use iceberg.Router.Spec.{NoCollision, Registered, table_of}
use iceberg.Common.Url.{Url}
use mathlib.Core.List.{Memᴰ}
use iceberg.Common.{ℕ, List, [], none, some, ◌≡◌, refl, false, true, sym, ◌∙◌}
use iceberg.Common.Go.{Go, ret}
use iceberg.Common.Text.{Text, codes, text_eq}

abbrev hello : Url
hello = record { scheme = []; user = none; host = []; path = codes "/hello"; raw_query = [] }

abbrev same_text : Text → Text
same_text s = s

abbrev same_answer : Answer → Answer
same_answer a = a

abbrev teapot : Handler ℕ Answer
teapot v rv = ret (refused (new_error (codes "teapot") 418))

abbrev parse_url : Text → Go Text Url
parse_url s = ret hello

abbrev at_hello : List (Registered (Handler ℕ Answer))
at_hello =
    registered same_text same_answer hello (exposing same_text same_answer no_options teapot)
      (methods_of (codes "*")) []

differ : (a b : Text) → text_beq a b ≡ false → a ≡ b → ⊥
differ a b apart e = let wrong : false ≡ true = sym apart ∙ (text_beq_iff a b).1 e in absurd (cc)

at_hello-NoCollision : NoCollision same_text at_hello
unfolding parse_route create_hash
at_hello-NoCollision = (
  (
    λ e. absurd (differ _ _ refl e),
    (
      λ e. absurd (differ _ _ refl e),
      (λ e. absurd (differ _ _ refl e), (λ e. absurd (differ _ _ refl e), tt)),
    ),
  ),
  (
    (
      λ e. absurd (differ _ _ refl e),
      (λ e. absurd (differ _ _ refl e), (λ e. absurd (differ _ _ refl e), tt)),
    ),
    (
      (λ e. absurd (differ _ _ refl e), (λ e. absurd (differ _ _ refl e), tt)),
      ((λ e. absurd (differ _ _ refl e), tt), (tt, tt)),
    ),
  ),
)

abbrev put_hello : Visit ℕ
put_hello = record {
  writer = record { header = some []; status = 0; body = [] };
  request = record new_request { method = codes "put"; url = some hello; header = some [] };
  uuid = codes "7";
  turns = [];
  world = 0;
}

put_hello-IsCandidate :
    IsCandidate
      (parse_route same_text hello (codes "put"))
      (codes "put")
      (parse_route same_text hello (codes "PUT"))
unfolding parse_route parse_segments parse_segment split put route_compare rank_from get_or
put_hello-IsCandidate = (refl, λ e. cc)

handle_func-serve_http_example :
    (values : Map Text Text) × (serve_http same_text same_answer
        (handle_func same_text same_answer parse_url
          (codes "/hello")
          (codes "*")
          teapot
          []
          (table_of same_text [])).1
        hello
        put_hello
      ≡ teapot put_hello (some values))
handle_func-serve_http_example =
    handle_func-serve_http same_text same_answer parse_url (codes "/hello") (codes "*") teapot []
      hello hello put_hello (codes "PUT") refl at_hello-NoCollision
      (for_any refl (Memᴰ.tail (Memᴰ.tail (Memᴰ.tail (Memᴰ.head refl))))) put_hello-IsCandidate tt
