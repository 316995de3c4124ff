-- ===== src/Mappings.antt =====
-- The table of the master's memory mappings (Monitor/src/mappings.c), as the list that runs from
-- the dummy node's successor.
pub mod Laws
pub mod Disjoint
use aurora_mvee.Base.{
  ℕ, ◌+◌, Bool, ◌&&◌, ◌||◌, Option, none, some, List, [], ◌∷◌, ◌++◌, ltb, leb, ◌==◌, if◌then◌else◌,
}
use aurora_mvee.Kernel.{Addr}
use aurora_mvee.Words.{wrap}
use aurora_mvee.World.{Mapping}

-- `addMapping`: the new node goes behind the last one.
unfoldable pub add_mapping : Mapping → List Mapping → List Mapping
add_mapping m [] = m ∷ []
add_mapping m (n ∷ ns) = n ∷ add_mapping m ns

-- `removeMapping`: drops the first node with the address; `none` stands for -1.
unfoldable pub remove_mapping : Addr → List Mapping → Option (List Mapping)
remove_mapping a [] = none
remove_mapping a (n ∷ ns) =
    let rest = remove_mapping a ns in
    if n.addr == a then some ns else elim rest [ none ↦ none | some ms ↦ some (n ∷ ms) ]

-- The test of `findMapping`: the node holds the address.
unfoldable pub covers : Mapping → Addr → Bool
unfolding wrap
covers m a =
    ((m.addr == a) && (m.len == 0))
    || (ltb 0 m.len && (leb m.addr a && ltb a (wrap (m.addr + m.len))))

-- `findMapping`: the first node that holds the address; `none` stands for NULL.
unfoldable pub find_mapping : Addr → List Mapping → Option Mapping
find_mapping a [] = none
find_mapping a (n ∷ ns) = let rest = find_mapping a ns in if covers n a then some n else rest
