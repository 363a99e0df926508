-- ===== src/Netio/Sort.antt =====
-- Sort of internal/common/netio/exports.go: callers in the order in which a request meets them.
-- `main`, `pre` and `post` are slices over shared arrays, since `pre` and `post` are appended to
-- `main`; the three other lists are only ever appended to themselves and are plain lists here.
pub mod Order
use Prim.Native.Nat.{bit_and}
use iceberg.Common.{ℕ, List, [], ◌∷◌, ◌++◌, Bool, ◌==◌, if◌then◌else◌}
use iceberg.Common.Slice.{Slice, Heap, empty_slice, empty_heap, values, append}

abbrev pub level_none : ℕ
level_none = 1

abbrev pub level_connect : ℕ
level_connect = 2

abbrev pub level_pre : ℕ
level_pre = 4

abbrev pub level_request : ℕ
level_request = 8

abbrev pub level_response : ℕ
level_response = 16

abbrev pub level_post : ℕ
level_post = 32

-- `level & flag == flag`
abbrev pub has_level : ℕ → ℕ → Bool
has_level flag level = bit_and level flag == flag

pub record Sorting {ℓ} (C : Type ℓ) : Type ℓ where
  pub heap : Heap C
  pub main : Slice
  pub pre : Slice
  pub post : Slice
  pub connect : List C
  pub request : List C
  pub respone : List C

module _ {ℓ} {C : Type ℓ} (level : C → ℕ) (grow : ℕ → ℕ) where
  abbrev append_main : C → Sorting C → Sorting C
  append_main caller s =
      let (heap, main) = append grow s.heap s.main caller in record s { heap = heap; main = main }

  -- The tests of one round behind the two that `continue`.
  abbrev sort_flags : C → Sorting C → Sorting C
  sort_flags caller s =
      let s₁ = if has_level level_none (level caller) then append_main caller s else s in
      record s₁ {
        connect =
            if has_level level_connect (level caller)
            then s₁.connect ++ caller ∷ []
            else s₁.connect;
        request =
            if has_level level_request (level caller)
            then s₁.request ++ caller ∷ []
            else s₁.request;
        respone =
            if has_level level_response (level caller)
            then s₁.respone ++ caller ∷ []
            else s₁.respone;
      }

  unfoldable pub sort_step : C → Sorting C → Sorting C
  sort_step caller s =
      let (heap, slice) = append grow s.heap s.main caller in
      if level caller == level_pre
      then record s { heap = heap; pre = slice }
      else if level caller == level_post
      then record s { heap = heap; post = slice }
      else sort_flags caller s

  unfoldable pub sort_loop : List C → Sorting C → Sorting C
  sort_loop [] s = s
  sort_loop (caller ∷ callers) s = sort_loop callers (sort_step caller s)

  abbrev pub initial : Sorting C
  initial = record {
    heap = empty_heap;
    main = empty_slice;
    pre = empty_slice;
    post = empty_slice;
    connect = [];
    request = [];
    respone = [];
  }

  -- The list `final` of Sort, read when the loop is over.
  abbrev pub final : Sorting C → List C
  final s =
      s.connect
      ++ values s.heap s.pre
      ++ s.request
      ++ values s.heap s.main
      ++ s.respone
      ++ values s.heap s.post

  unfoldable pub sort : List C → List C
  unfolding sort_loop
  sort callers = final (sort_loop callers initial)
