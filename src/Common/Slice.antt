-- ===== src/Common/Slice.antt =====
-- Go slices over shared backing arrays: an append within the capacity writes into the array that
-- other slices may see, one beyond it copies to a new array. The runtime's choice of a capacity is
-- the parameter `grow`.
use iceberg.Common.{ℕ, suc, List, [], ◌∷◌, ◌++◌, take, drop, ltb, ◌==◌, if◌then◌else◌}

pub record Slice : Type 0 where
  pub array : ℕ
  pub len : ℕ
  pub cap : ℕ

-- The arrays, each with the items written to it so far; those from `next` on are not in use.
pub record Heap {ℓ} (A : Type ℓ) : Type ℓ where
  pub arrays : ℕ → List A
  pub next : ℕ

-- make([]A, 0), and the heap before any append.
abbrev pub empty_slice : Slice
empty_slice = record { array = 0; len = 0; cap = 0 }

module _ {ℓ} {A : Type ℓ} where
  abbrev pub empty_heap : Heap A
  empty_heap = record { arrays = λ i. []; next = 1 }

  unfoldable pub values : Heap A → Slice → List A
  values h s = take s.len (h.arrays s.array)

  abbrev pub store : Heap A → ℕ → List A → ℕ → List A
  store h i items j = if i == j then items else h.arrays j

  -- append(s, x)
  unfoldable pub append : (ℕ → ℕ) → Heap A → Slice → A → Heap A × Slice
  append grow h s x =
      let items = h.arrays s.array in
      if ltb s.len s.cap
      then (
        record h { arrays = store h s.array (take s.len items ++ x ∷ drop (suc s.len) items) },
        record s { len = suc s.len },
      )
      else (
        record { arrays = store h h.next (take s.len items ++ x ∷ []); next = suc h.next },
        record { array = h.next; len = suc s.len; cap = grow s.cap },
      )
