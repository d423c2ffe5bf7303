-- ===== src/Containers/MruSet.antt =====
-- A set that keeps its most recent elements: mruset (src/mruset.h), at numbers. std::set is a list
-- that rises, std::deque a list.
pub mod Invariant
pub mod Size
use dsvalue.Prelude.{
  ℕ, zero, suc, ◌+◌, Bool, true, false, not, ◌&&◌, List, [], ◌∷◌, ◌++◌, if◌then◌else◌, ltb, ◌==◌,
  length, contains,
}

-- std::set::insert of an element that is not there.
unfoldable pub add : ℕ → List ℕ → List ℕ
add x [] = x ∷ []
add x (y ∷ ys) = let rest = add x ys in if ltb x y then x ∷ y ∷ ys else y ∷ rest

-- std::set::erase of an element.
unfoldable pub remove : ℕ → List ℕ → List ℕ
remove x [] = []
remove x (y ∷ ys) = let rest = remove x ys in if y == x then rest else y ∷ rest

pub record MruSet : Type 0 where
  pub set : List ℕ
  pub queue : List ℕ
  pub n_max_size : ℕ

-- mruset::mruset
abbrev pub new_mruset : ℕ → MruSet
new_mruset n_max_size = record { set = []; queue = []; n_max_size = n_max_size }

-- set.erase(queue.front()); queue.pop_front();
unfoldable pub drop_front : MruSet → MruSet
unfolding remove
drop_front s = elim s.queue [
  | [] ↦ s
  | front ∷ rest ↦ record s { set = remove front s.set; queue = rest }
]

-- mruset::insert, and whether the element is new. The new element is in the set when the front of the
-- queue goes.
unfoldable pub insert : MruSet → ℕ → MruSet × Bool
unfolding add drop_front
insert s x =
    if contains s.set x
    then (s, false)
    else (let added = record s { set = add x s.set } in
        let kept =
          if not (s.n_max_size == 0) && length s.queue == s.n_max_size
          then drop_front added
          else added in
        (record kept { queue = kept.queue ++ x ∷ [] }, true))

-- The loop of max_size, which takes the front of the queue until `n` elements are left; the fuel
-- bounds the rounds.
unfoldable pub shrink : ℕ → ℕ → MruSet → MruSet
unfolding drop_front
shrink zero n s = s
shrink (suc fuel) n s =
    let rest = shrink fuel n (drop_front s) in if ltb n (length s.queue) then rest else s

-- mruset::max_size(size_type)
unfoldable pub max_size : MruSet → ℕ → MruSet
unfolding shrink
max_size s n = record (if n == 0 then s else shrink (length s.queue) n s) { n_max_size = n }
