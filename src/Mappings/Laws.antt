-- ===== src/Mappings/Laws.antt =====
-- How the three operations of the mapping table work together.
use aurora_mvee.Base.{
  ap, ◌+◌, ◌<◌, ◌≡◌, refl, true, false, none, some, List, [], ◌∷◌, ◌++◌, arith, if◌then◌else◌,
  Bool-cases, inl, inr,
}
use aurora_mvee.Kernel.{Addr}
use aurora_mvee.Words.{u64_mod}
use aurora_mvee.World.{Mapping}
use aurora_mvee.Mappings.{add_mapping, remove_mapping, covers, find_mapping}

-- What a mapping that ends inside the address space satisfies.
abbrev pub Fits : List Mapping → Type 0
Fits [] = Unit
Fits (m ∷ ms) = (m.addr + m.len < u64_mod) × Fits ms

pub covers_self : (m : Mapping) → m.addr + m.len < u64_mod → covers m m.addr ≡ true
unfolding covers
covers_self m h = ground arith

-- No mapping of the list holds the address.
abbrev pub NoneCovers : Addr → List Mapping → Type 0
NoneCovers a [] = Unit
NoneCovers a (m ∷ ms) = (covers m a ≡ false) × NoneCovers a ms

-- A search goes through the old mappings first, then to the added one.
pub find_mapping-add_mapping :
    (a : Addr) (m : Mapping) (ms : List Mapping)
    → find_mapping a (add_mapping m ms)
      ≡ elim (find_mapping a ms) [ some n ↦ some n | none ↦ (if covers m a then some m else none) ]
unfolding find_mapping add_mapping
find_mapping-add_mapping a m [] = refl
find_mapping-add_mapping a m (n ∷ ns) = ground (arith, find_mapping-add_mapping a m ns)

-- Where the search finds a mapping that begins at the address itself, removal takes out exactly
-- that one, and the mappings before and behind it stay in their order.
pub remove_mapping-find_mapping :
    (a : Addr) (ms : List Mapping) (m : Mapping)
    → Fits ms
    → find_mapping a ms ≡ some m
    → m.addr ≡ a
    → (before behind : List Mapping) × (ms ≡ before ++ m ∷ behind)
      × NoneCovers a before
      × (remove_mapping a ms ≡ some (before ++ behind))
unfolding find_mapping remove_mapping
remove_mapping-find_mapping a [] m fits found starts = cc
remove_mapping-find_mapping a (n ∷ ns) m fits found starts = elim (Bool-cases (covers n a)) [
  | inl here ↦ ([], ns, ground arith, tt, ground arith)
  | inr later ↦
      let (before, behind, split, apart, removed) =
        remove_mapping-find_mapping a ns m fits.1 (ground arith) starts in
      (
        n ∷ before,
        behind,
        ap (λ l. n ∷ l) split,
        (later, apart),
        ground (arith, removed, covers_self n fits.0),
      )
]
