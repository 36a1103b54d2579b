-- ===== src/IntrusivePtr.antt =====
-- corral/corral/detail/IntrusivePtr.h: pointers that count the references to an object.
-- The variables that hold pointers are a list; a variable that was destroyed holds nothing.
pub mod Counts
pub mod Life
mod Tests
use hf_qcorral.Prelude.{
  ℕ, ◌+◌, Bool, true, false, ◌||◌, ◌&&◌, Option, none, some, List, [], ◌∷◌, ◌++◌, ◌==◌, ltb,
  if◌then◌else◌, get_elem?, set, length, inc_size, dec_size,
}

-- A RefCounted object: `refCount_`, and how often it was deleted; `fault` records a use of it
-- afterwards.
pub record Object : Type 0 where
  pub ref_count : ℕ
  pub deleted : ℕ
  pub fault : Bool

unfoldable pub make : Object
make = record { ref_count = 0; deleted = 0; fault = false }

abbrev pub Objects : Type 0
Objects = ℕ → Object

abbrev pub update : ℕ → (Object → Object) → Objects → Objects
update p f m = λ q. if q == p then f (m q) else m q

abbrev pub count_up : Object → Object
count_up o = record o { ref_count = inc_size o.ref_count; fault = o.fault || ltb 0 o.deleted }

abbrev pub count_down : Object → Object
count_down o =
    let n = dec_size o.ref_count in
    record {
      ref_count = n;
      deleted = if n == 0 then o.deleted + 1 else o.deleted;
      fault = o.fault || ltb 0 o.deleted;
    }

unfoldable pub ref : Option ℕ → Objects → Objects
ref none m = m
ref (some p) m = update p count_up m

unfoldable pub deref : Option ℕ → Objects → Objects
deref none m = m
deref (some p) m = update p count_down m

pub record Program : Type 0 where
  pub vars : List (Option ℕ)
  pub objects : Objects

abbrev pub held : Option (Option ℕ) → Option ℕ
held none = none
held (some p) = p

abbrev pub pointer : ℕ → Program → Option ℕ
pointer i s = held (get_elem? s.vars i)

-- The constructors: from a pointer, by copy, and by move.
unfoldable pub construct : Option ℕ → Program → Program
unfolding ref
construct p s = record { vars = s.vars ++ p ∷ []; objects = ref p s.objects }

unfoldable pub copy : ℕ → Program → Program
unfolding construct
copy i s = construct (pointer i s) s

unfoldable pub move : ℕ → Program → Program
move i s = record s { vars = set s.vars i none ++ pointer i s ∷ [] }

-- The assignment: its argument is a copy or what was moved, which then has the old pointer and is
-- destroyed.
unfoldable pub assign_copy : ℕ → ℕ → Program → Program
unfolding ref deref
assign_copy i j s = record {
  vars = set s.vars i (pointer j s);
  objects = deref (pointer i s) (ref (pointer j s) s.objects);
}

unfoldable pub assign_move : ℕ → ℕ → Program → Program
unfolding deref
assign_move i j s =
    let moved = set s.vars j none in
    record {
      vars = set moved i (pointer j s);
      objects = deref (held (get_elem? moved i)) s.objects;
    }

-- The destructor.
unfoldable pub destroy : ℕ → Program → Program
unfolding deref
destroy i s = record { vars = set s.vars i none; objects = deref (pointer i s) s.objects }

pub data Use : Type 0 where
  adopts : Option ℕ → Use
  copies moves destroys : ℕ → Use
  assigns move_assigns : ℕ → ℕ → Use

abbrev pub is_there : Objects → Option ℕ → Bool
is_there m none = true
is_there m (some p) = (m p).deleted == 0

-- A variable that is assigned to or destroyed is there, and what a pointer is made from was not
-- deleted.
abbrev pub is_possible : Use → Program → Bool
is_possible (adopts p) s = is_there s.objects p
is_possible (copies i) s = ltb i (length s.vars)
is_possible (moves i) s = ltb i (length s.vars)
is_possible (destroys i) s = ltb i (length s.vars)
is_possible (assigns i j) s = ltb i (length s.vars) && ltb j (length s.vars)
is_possible (move_assigns i j) s = ltb i (length s.vars) && ltb j (length s.vars)

unfoldable pub apply : Use → Program → Program
unfolding construct copy move destroy assign_copy assign_move
apply (adopts p) s = construct p s
apply (copies i) s = copy i s
apply (moves i) s = move i s
apply (destroys i) s = destroy i s
apply (assigns i j) s = assign_copy i j s
apply (move_assigns i j) s = assign_move i j s

unfoldable pub run : Program → List Use → Program
unfolding apply
run s [] = s
run s (u ∷ us) = run (if is_possible u s then apply u s else s) us
