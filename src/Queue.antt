-- ===== src/Queue.antt =====
-- corral/corral/detail/Queue.h: a queue in a circular buffer that grows on demand.
-- `buffer_` is a list of cells, `none` for raw storage; `head_` and `tail_` are offsets into it.
-- Not modelled: a failing `malloc`, and exceptions of T's constructors.
mod Window
mod Tests
pub mod Refine
pub mod Trace
use hf_qcorral.Prelude.{
  ℕ, ◌+◌, ◌-◌, ◌*◌, ◌%◌, max, Bool, List, [], ◌∷◌, Option, none, some, length, get_elem?, set, take,
  drop, replicate, ltb, ◌==◌, if◌then◌else◌, size_mod, inc_size, dec_size,
}

pub record Queue {ℓ} (A : Type ℓ) : Type ℓ where
  pub buffer : List (Option A)
  pub capacity : ℕ
  pub head : ℕ
  pub tail : ℕ
  pub size : ℕ

-- `if (++p == buffer_ + capacity_) p = buffer_;`
abbrev pub next : ℕ → ℕ → ℕ
next limit p = if p + 1 == limit then 0 else p + 1

module _ {ℓ} {A : Type ℓ} where
  unfoldable pub make : ℕ → Queue A
  make limit = record {
    buffer = replicate limit none;
    capacity = limit;
    head = 0;
    tail = 0;
    size = 0;
  }

  abbrev pub is_empty : Queue A → Bool
  is_empty q = q.size == 0

  -- `none` where the code reads a cell that holds no object.
  unfoldable pub front : Queue A → Option A
  front q = elim (get_elem? q.buffer q.head) [ none ↦ none | some cell ↦ cell ]

  unfoldable pub pop_front : Queue A → Queue A
  pop_front q = record q {
    buffer = set q.buffer q.head none;
    head = next q.capacity q.head;
    size = dec_size q.size;
  }

  -- The cells of the span `[from, to)`.
  abbrev pub span : List (Option A) → ℕ → ℕ → List (Option A)
  span cells from to = take (to - from) (drop from cells)

  pub first_range : Queue A → List (Option A)
  first_range q =
      if is_empty q
      then []
      else if ltb q.head q.tail
      then span q.buffer q.head q.tail
      else span q.buffer q.head q.capacity

  pub second_range : Queue A → List (Option A)
  second_range q =
      if is_empty q then [] else if ltb q.head q.tail then [] else span q.buffer 0 q.tail

  -- `std::uninitialized_move`: the cells are written one after another from `at` on.
  pub write_cells : List (Option A) → ℕ → List (Option A) → List (Option A)
  write_cells cells at [] = cells
  write_cells cells at (c ∷ cs) = write_cells (set cells at c) (at + 1) cs

  -- The lambda of `grow`; it moves a range to the tail of the new queue.
  pub move_range : Queue A → List (Option A) → Queue A
  move_range q range = record q {
    buffer = write_cells q.buffer q.tail range;
    tail = q.tail + length range;
    size = q.size + length range;
  }

  abbrev pub grown_capacity : Queue A → ℕ
  grown_capacity q = max 8 ((q.capacity * 2) % size_mod)

  pub grow : Queue A → Queue A
  grow q = move_range (move_range (make (grown_capacity q)) (first_range q)) (second_range q)

  -- The write at the tail that `push_back` and `emplace_back` end in.
  pub append_cell : A → Queue A → Queue A
  append_cell u q = record q {
    buffer = set q.buffer q.tail (some u);
    tail = next q.capacity q.tail;
    size = inc_size q.size;
  }

  pub push_back : A → Queue A → Queue A
  push_back u q = append_cell u (if q.size == q.capacity then grow q else q)
