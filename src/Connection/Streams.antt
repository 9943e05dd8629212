-- ===== src/Connection/Streams.antt =====
-- `std::map<int64_t, std::shared_ptr<Stream>>`, as a list by ascending key.
pub mod Order
use oxen_libquic.Base.{ℕ, Option, none, some, List, [], ◌∷◌, ◌==◌, ltb, if◌then◌else◌}
use oxen_libquic.Stream.{Stream}

abbrev pub StreamMap : Type 0
StreamMap = List (ℕ × Stream)

unfoldable pub find : ℕ → StreamMap → Option Stream
find id [] = none
find id ((k, s) ∷ m) = if k == id then some s else find id m

-- `m[id] = s`.
unfoldable pub assign : ℕ → Stream → StreamMap → StreamMap
assign id s [] = (id, s) ∷ []
assign id s ((k, t) ∷ m) =
    if id == k
    then (id, s) ∷ m
    else if ltb id k
    then (id, s) ∷ (k, t) ∷ m
    else (k, t) ∷ assign id s m

-- `m.emplace(id, s)`: an element that is there stays.
unfoldable pub emplace : ℕ → Stream → StreamMap → StreamMap
emplace id s [] = (id, s) ∷ []
emplace id s ((k, t) ∷ m) =
    if id == k
    then (k, t) ∷ m
    else if ltb id k
    then (id, s) ∷ (k, t) ∷ m
    else (k, t) ∷ emplace id s m

unfoldable pub erase : ℕ → StreamMap → StreamMap
erase id [] = []
erase id ((k, t) ∷ m) = if k == id then m else (k, t) ∷ erase id m
