-- ===== src/Tests/Sorting.antt =====
-- Sort on seven callers that are their levels, two of them pre callers and one of two levels.
use iceberg.Common.Slice.{values, append}
use iceberg.Common.{refl, ℕ, [], ◌∷◌, List, ◌++◌, ◌≡◌}
use iceberg.Netio.Sort.{
  level_response, level_post, sort_loop, sort_step, sort, level_connect, level_pre, level_request,
  level_response,
}
use iceberg.Netio.Sort.Order.{sort-concat, of_level, latest_of}

abbrev same_level : ℕ → ℕ
same_level c = c

abbrev callers : List ℕ
callers = 4 ∷ 2 ∷ 8 ∷ 24 ∷ 4 ∷ 32 ∷ 16 ∷ []

-- The first pre caller is lost.
sort-callers :
    sort same_level same_level (callers ++ 1 ∷ []) ≡ 2 ∷ 4 ∷ 8 ∷ 24 ∷ 1 ∷ 24 ∷ 16 ∷ 32 ∷ []
unfolding sort sort_loop sort_step values append
sort-callers = refl

sort-concat_example :
    sort same_level same_level (callers ++ 1 ∷ [])
    ≡ of_level same_level same_level level_connect callers
      ++ latest_of same_level same_level level_pre [] callers
      ++ of_level same_level same_level level_request callers
      ++ (1 ∷ [])
      ++ of_level same_level same_level level_response callers
      ++ latest_of same_level same_level level_post [] callers
sort-concat_example =
    sort-concat same_level same_level callers 1
      (refl, (refl, (refl, (refl, (refl, (refl, (refl, tt))))))) refl
