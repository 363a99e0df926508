-- ===== src/Tests/Routing.antt =====
-- The router at a small table: two patterns, one of them with a parameter.
use iceberg.Router.Spec.{Registered, NoCollision, table_of}
use iceberg.Router.Serving.{Served, find-Served}
use iceberg.Router.{create_hash}
use mathlib.Core.List.{Memᴰ}
use iceberg.Router.Binding.{bound_name, IsRange, get-bind_in, bind-HasNoColon}
use iceberg.Router.Best.{IsBest, bucket, IsCandidate, find-IsBest, find-failed_iff}
use mathlib.Core.List.{Permᴰ}
use iceberg.Common.{
  ℕ, [], ◌∷◌, ◌<◌, ◌≡◌, ◌↔◌, refl, none, false, ◌+◌, some, nat_eq, inl, inr, All, length, ◌≢◌, ◌≤◌,
  List,
}
use iceberg.Common.Map.{get, get_or, put, Map}
use iceberg.Common.Text.{Text, text_eq, codes, split, has_prefix}
use iceberg.Common.Url.{Url}
use iceberg.Router.{
  Route, RouteTable, matched, parse_segment, parse_segments, rank_from, route_compare, parse_route,
  register, pick, pick_all, conclude, find, bind_from, serve, RouterError, bind, bind_in, failed,
}
use iceberg.Router.Rank.{
  Fits, literals, route_compare-lt_iff, route_compare-perm, route_compare-ne-zero_iff,
  route_compare_of_Fits,
}
use iceberg.Router.Parsed.{parse_route-Fits_self, route_compare-parse_route}
use iceberg.Router.Table.{
  empty_table, IsValid, register-register, find-register, find-serve, register-IsValid,
  empty_table-IsValid,
}

-- Stands for the digest: any function does.
abbrev same_text : Text → Text
same_text s = s

abbrev at_path : Text → Url
at_path path = record { scheme = []; user = none; host = []; path = path; raw_query = [] }

abbrev user_pattern : Url
user_pattern = at_path (codes "/users/:id")

abbrev me_pattern : Url
me_pattern = at_path (codes "/users/me")

abbrev get_method : Text
get_method = codes "get"

abbrev table : RouteTable ℕ
table =
    register same_text me_pattern get_method 2
      (register same_text user_pattern get_method 1 empty_table)

abbrev parsed : Url → Route
parsed url = parse_route same_text url get_method

user_route-Fits : Fits (parsed user_pattern) (parsed me_pattern)
unfolding parse_route parse_segments parse_segment split put get_or
user_route-Fits = record { same_length = refl; accepted = (inr refl, (inl refl, tt)) }

find_me :
    find same_text table me_pattern get_method ≡ matched (parsed me_pattern) (parsed me_pattern)
unfolding find register parse_route parse_segments parse_segment split put get get_or pick_all pick
    route_compare rank_from conclude
find_me = refl

serve_seven :
    serve table (find same_text table (at_path (codes "/users/7")) get_method)
    ≡ some (1, some ((codes "users", codes "users") ∷ (codes "id", codes "7") ∷ []))
unfolding serve find register parse_route parse_segments parse_segment split put get get_or pick_all
    pick route_compare rank_from conclude bind_from
serve_seven = refl

me_fits :
    route_compare (parsed user_pattern) (parsed me_pattern)
    ≡ 1 + length (parsed user_pattern).route_values + literals (parsed user_pattern).route_values
me_fits = route_compare_of_Fits user_route-Fits

me_is_matched :
    (route_compare (parsed user_pattern) (parsed me_pattern) ≢ 0)
    ↔ Fits (parsed user_pattern) (parsed me_pattern)
me_is_matched = route_compare-ne-zero_iff (parsed user_pattern) (parsed me_pattern)

user_ranks_below_me :
    (route_compare (parsed user_pattern) (parsed me_pattern)
      < route_compare (parsed me_pattern) (parsed me_pattern))
    ↔ (literals (parsed user_pattern).route_values < literals (parsed me_pattern).route_values)
user_ranks_below_me =
    route_compare-lt_iff (parsed user_pattern) (parsed me_pattern) (parsed me_pattern)
      user_route-Fits (parse_route-Fits_self same_text me_pattern get_method get_method)

abbrev two_values : Route → Route
two_values r = record r { route_values = (2, codes "me") ∷ (1, codes "users") ∷ [] }

two_values_rank :
    route_compare (parsed me_pattern) (parsed me_pattern)
    ≡ route_compare (two_values (parsed me_pattern)) (parsed me_pattern)
unfolding parse_route parse_segments parse_segment split put
two_values_rank =
    route_compare-perm (parsed me_pattern) (two_values (parsed me_pattern)) (parsed me_pattern)
      ∣ Permᴰ.swap refl refl ∣₁

user_ranks_itself : route_compare (parsed user_pattern) (parsed user_pattern) ≢ 0
user_ranks_itself = route_compare-parse_route same_text user_pattern get_method get_method

find-IsBest_example :
    (parsed me_pattern ≡ parsed me_pattern)
    × IsBest (parsed me_pattern) get_method (bucket table (parsed me_pattern)) (parsed me_pattern)
find-IsBest_example =
    find-IsBest same_text table me_pattern get_method (parsed me_pattern) (parsed me_pattern)
      find_me

find-failed_iff_example :
    ((e : RouterError) × (find same_text table (at_path (codes "/users")) get_method ≡ failed e))
    ↔ All
        (λ r. ¬ IsCandidate (parsed (at_path (codes "/users"))) get_method r)
        (bucket table (parsed (at_path (codes "/users"))))
find-failed_iff_example = find-failed_iff same_text table (at_path (codes "/users")) get_method

user_table-IsValid : IsValid (register same_text user_pattern get_method 1 (empty_table {H = ℕ}))
user_table-IsValid =
    register-IsValid same_text user_pattern get_method 1 empty_table empty_table-IsValid

register-IsValid_example : IsValid table
register-IsValid_example =
    register-IsValid same_text me_pattern get_method 2
      (register same_text user_pattern get_method 1 empty_table) user_table-IsValid

registered_twice :
    register same_text me_pattern get_method 5 (register same_text me_pattern get_method 4 table)
    ≡ register same_text me_pattern get_method 4 table
registered_twice = register-register same_text me_pattern get_method 4 5 table

me_served :
    (handler : ℕ) × (values : Map Text Text) × (serve table
        (matched (parsed me_pattern) (parsed me_pattern))
      ≡ some (handler, some values))
me_served =
    find-serve same_text me_pattern get_method table (parsed me_pattern) (parsed me_pattern)
      register-IsValid_example find_me

find-register_example :
    (lrt : Route) × (find same_text
        (register same_text user_pattern get_method 3 (empty_table {H = ℕ}))
        me_pattern
        get_method
      ≡ matched lrt (parsed me_pattern))
    × (route_compare (parsed user_pattern) (parsed me_pattern)
        ≤ route_compare lrt (parsed me_pattern))
unfolding get
find-register_example =
    find-register same_text user_pattern get_method me_pattern get_method 3 empty_table refl refl
      user_route-Fits

abbrev bound : Map Text Text
bound = (codes "users", codes "users") ∷ (codes "id", codes "?") ∷ []

-- The client asked for "/users/:7" and the handler is given "?".
bind_colon : bind (parsed user_pattern) (parsed (at_path (codes "/users/:7"))) ≡ some bound
unfolding bind bind_from route_compare rank_from parse_route parse_segments parse_segment split put
    get_or
bind_colon = refl

colon_is_bound_plainly : All (λ x. has_prefix x.1 (codes ":") ≡ false) bound
colon_is_bound_plainly =
    bind-HasNoColon same_text (parsed user_pattern) (at_path (codes "/users/:7")) get_method bound
      bind_colon

-- Two parameters of one name, and the second visited first.
abbrev twice_pattern : Url
twice_pattern = at_path (codes "/:a/:a")

abbrev last_first : Map ℕ Text
last_first = (2, codes "?") ∷ (1, codes "?") ∷ []

abbrev first_wins : Map Text Text
first_wins = (codes "a", codes "x") ∷ []

bind_last_first :
    bind_in last_first (parsed twice_pattern) (parsed (at_path (codes "/x/y"))) ≡ some first_wins
unfolding bind_in bind_from route_compare rank_from parse_route parse_segments parse_segment split
    put get_or
bind_last_first = refl

last_first-IsRange : IsRange last_first (parsed twice_pattern).route_values
unfolding parse_route parse_segments parse_segment split put
last_first-IsRange x = (
  λ m. elim m [
    | Memᴰ.head e ↦ Memᴰ.tail (Memᴰ.head e)
    | Memᴰ.tail (Memᴰ.head e) ↦ Memᴰ.head e
    | Memᴰ.tail (Memᴰ.tail m) ↦ elim m [ ]
  ],
  λ m. elim m [
    | Memᴰ.head e ↦ Memᴰ.tail (Memᴰ.head e)
    | Memᴰ.tail (Memᴰ.head e) ↦ Memᴰ.head e
    | Memᴰ.tail (Memᴰ.tail m) ↦ elim m [ ]
  ],
)

get-bind_in_example :
    (y : ℕ × Text) × Memᴰ y (parsed twice_pattern).route_values
    × (bound_name (parsed twice_pattern) y ≡ bound_name (parsed twice_pattern) (2, codes "?"))
    × (get (bound_name (parsed twice_pattern) (2, codes "?")) first_wins
        ≡ some (get_or y.0 (parsed (at_path (codes "/x/y"))).route_values []))
unfolding parse_route parse_segments parse_segment split put
get-bind_in_example =
    get-bind_in (parsed twice_pattern) (parsed (at_path (codes "/x/y"))) last_first (2, codes "?")
      first_wins last_first-IsRange (Memᴰ.tail (Memᴰ.head refl)) bind_last_first

abbrev registrations : List (Registered ℕ)
registrations =
    record { url = me_pattern; method = get_method; handler = 2 }
    ∷ record { url = user_pattern; method = get_method; handler = 1 }
    ∷ []

registrations-NoCollision : NoCollision same_text registrations
unfolding parse_route create_hash
registrations-NoCollision = ((λ e. absurd (cc), tt), (tt, tt))

find-Served_example :
    Served same_text registrations me_pattern get_method
      (find same_text (table_of same_text registrations) me_pattern get_method)
find-Served_example =
    find-Served same_text registrations me_pattern get_method registrations-NoCollision
