-- ===== src/History/Sampling.antt =====
-- history.py: which points `_series_from_states` keeps.
use bitaxe_fleet.Prelude.{ℕ, ◌≡◌, ◌≤◌, ◌<◌, ◌+◌, ◌-◌, List, length, get_elem?}
use bitaxe_fleet.Python.Library.{Library}
use bitaxe_fleet.History.{returned, sample_index, sampled}

module _ {A : Type 0} where
  -- The points that are kept, and where each of them stood: at most 1440, in their order and each at
  -- most once, with the first and the last.
  pub record IsSample (xs ys : List A) : Type 0 where
    pub bounded_length : length ys ≤ 1440
    pub position : ℕ → ℕ
    pub increases : (i j : ℕ) → i < j → j < length ys → position i < position j
    pub reads : (i : ℕ) → i < length ys → get_elem? ys i ≡ get_elem? xs (position i)
    pub within : (i : ℕ) → i < length ys → position i < length xs
    pub first : position 0 ≡ 0
    pub last : 0 < length ys → position (length ys - 1) + 1 ≡ length xs

  -- what the comprehension over a range gives
  Sampled : List A → ℕ → ℕ → Type 0
  Sampled xs first count =
      (ys : List A) × (sampled xs first count ≡ returned ys)
      × (length ys ≡ count)
      × ((i : ℕ) → i < count → get_elem? ys i ≡ get_elem? xs (sample_index (length xs) (first + i)))
