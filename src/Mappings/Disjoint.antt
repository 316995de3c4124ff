-- ===== src/Mappings/Disjoint.antt =====
-- The table of mappings as a partial function from addresses, for tables whose mappings share no
-- address.
use aurora_mvee.Base.{
  ap, subst, ◌∙◌, ◌≡◌, refl, true, false, none, some, List, [], ◌∷◌, arith, if◌then◌else◌, ◌==◌,
  Bool-cases, inl, inr,
}
use aurora_mvee.Kernel.{Addr}
use aurora_mvee.World.{Mapping}
use aurora_mvee.Mappings.{add_mapping, remove_mapping, covers, find_mapping}
use aurora_mvee.Mappings.Laws.{Fits, NoneCovers, covers_self, find_mapping-add_mapping}

-- The mapping shares no address with those of the table.
abbrev pub Apart : Mapping → List Mapping → Type 0
Apart m ms = (a : Addr) → covers m a ≡ true → NoneCovers a ms

-- No two mappings of the table share an address.
abbrev pub Disjoint : List Mapping → Type 0
Disjoint [] = Unit
Disjoint (m ∷ ms) = Apart m ms × Disjoint ms

pub find_mapping-none : (a : Addr) (ms : List Mapping) → NoneCovers a ms → find_mapping a ms ≡ none
unfolding find_mapping
find_mapping-none a [] free = refl
find_mapping-none a (m ∷ ms) free = rw (free.0) (find_mapping-none a ms free.1)

pub NoneCovers-add_mapping :
    (a : Addr) (m : Mapping) (ms : List Mapping)
    → covers m a ≡ false
    → NoneCovers a ms
    → NoneCovers a (add_mapping m ms)
unfolding add_mapping
NoneCovers-add_mapping a m [] off free = (off, tt)
NoneCovers-add_mapping a m (n ∷ ns) off free = (free.0, NoneCovers-add_mapping a m ns off free.1)

-- Two mappings that share no address are apart in either order.
pub not_both :
    (m n : Mapping) (a : Addr)
    → ((b : Addr) → covers m b ≡ true → covers n b ≡ false)
    → covers n a ≡ true
    → covers m a ≡ false
not_both m n a off on = elim (Bool-cases (covers m a)) [
  | inl here ↦ cc (off a here, on)
  | inr free ↦ free
]

add_mapping-Disjoint :
    (m : Mapping) (ms : List Mapping) → Apart m ms → Disjoint ms → Disjoint (add_mapping m ms)
unfolding add_mapping
add_mapping-Disjoint m [] apart disjoint = (λ a on. tt, tt)
add_mapping-Disjoint m (n ∷ ns) apart disjoint = (
  λ a on.
      NoneCovers-add_mapping a m ns (not_both m n a (λ b here. (apart b here).0) on)
        (disjoint.0 a on),
  add_mapping-Disjoint m ns (λ a on. (apart a on).1) disjoint.1,
)

-- A mapping that shares no address with a disjoint table leaves it disjoint when it is added, and
-- a search then finds it at all its addresses, and what it found before at all others.
pub add_mapping-extends :
    (m : Mapping) (ms : List Mapping)
    → Apart m ms
    → Disjoint ms
    → Disjoint (add_mapping m ms)
      × ((a : Addr)
          → find_mapping a (add_mapping m ms) ≡ (if covers m a then some m else find_mapping a ms))
add_mapping-extends m ms apart disjoint = (
  add_mapping-Disjoint m ms apart disjoint,
  λ a. elim (Bool-cases (covers m a)) [
    | inl on ↦
        let gone = find_mapping-none a ms (apart a on) in
        let e = find_mapping-add_mapping a m ms in ground (arith, e, gone, on)
    | inr off ↦ ground (arith, find_mapping-add_mapping a m ms, off)
  ],
)

-- What a table is after the removal of `m`.
record Erased (m : Mapping) (ms ns : List Mapping) : Type 0 where
  disjoint : Disjoint ns
  fewer : (b : Addr) → NoneCovers b ms → NoneCovers b ns
  found : (b : Addr) → find_mapping b ns ≡ (if covers m b then none else find_mapping b ms)

first-Erased : (m : Mapping) (ms : List Mapping) → Apart m ms → Disjoint ms → Erased m (m ∷ ms) ms
unfolding find_mapping
first-Erased m ms apart disjoint = record {
  disjoint = disjoint;
  fewer = λ b free. free.1;
  found = λ b. elim (Bool-cases (covers m b)) [
    | inl on ↦ rw on (find_mapping-none b ms (apart b on))
    | inr off ↦ rw off refl
  ];
}

behind-Erased :
    (m n : Mapping) (ms ns : List Mapping)
    → Apart n ms
    → ((b : Addr) → covers m b ≡ true → covers n b ≡ false)
    → Erased m ms ns
    → Erased m (n ∷ ms) (n ∷ ns)
unfolding find_mapping
behind-Erased m n ms ns apart off erased = record {
  disjoint = (λ b on. erased.fewer b (apart b on), erased.disjoint);
  fewer = λ b free. (free.0, erased.fewer b free.1);
  found = λ b. ground (arith, off b, erased.found b);
}

-- Where no mapping holds an address, one that a search finds does not hold it.
found_in :
    (a : Addr) (m : Mapping) (ms : List Mapping)
    → find_mapping a ms ≡ some m
    → (b : Addr) → NoneCovers b ms
    → covers m b ≡ false
unfolding find_mapping
found_in a m [] found b free = cc
found_in a m (n ∷ ms) found b free = elim (Bool-cases (covers n a)) [
  | inl here ↦ let same : some n ≡ some m = rw here at found in cc (same, free.0)
  | inr later ↦ found_in a m ms (rw later at found) b free.1
]

-- What a mapping that stands behind another one holds, the other one does not hold.
found_behind :
    (a : Addr) (m n : Mapping) (ms : List Mapping)
    → Apart n ms
    → find_mapping a ms ≡ some m
    → (b : Addr) → covers m b ≡ true
    → covers n b ≡ false
found_behind a m n ms apart found b on =
    not_both n m b (λ c here. found_in a m ms found c (apart c here)) on

erased :
    (a : Addr) (ms : List Mapping) (m : Mapping)
    → Fits ms
    → Disjoint ms
    → find_mapping a ms ≡ some m
    → m.addr ≡ a
    → (ns : List Mapping) × (remove_mapping a ms ≡ some ns) × Erased m ms ns
unfolding find_mapping remove_mapping
erased a [] m fits disjoint found starts = cc
erased a (n ∷ ms) m fits disjoint found starts = elim (Bool-cases (covers n a)) [
  | inl here ↦
      let same : some n ≡ some m = rw here at found in
      let it_is : n ≡ m = cc same in
      let begins : (n.addr == a) ≡ true = ground (arith, ap (λ x. x.addr) it_is ∙ starts) in
      (
        ms,
        rw begins refl,
        subst (λ x. Erased x (n ∷ ms) ms) it_is (first-Erased n ms disjoint.0 disjoint.1),
      )
  | inr later ↦
      let (ns, removed, rest) = erased a ms m fits.1 disjoint.1 (rw later at found) starts in
      (
        n ∷ ns,
        ground (arith, removed, later, covers_self n fits.0),
        behind-Erased m n ms ns disjoint.0 (found_behind a m n ms disjoint.0 (rw later at found))
            rest,
      )
]

-- Where the search of a disjoint table finds a mapping that begins at the address itself, removal
-- leaves the table disjoint; a search then finds nothing at the addresses of that mapping, and what
-- it found before at all others.
pub remove_mapping-erases :
    (a : Addr) (ms : List Mapping) (m : Mapping)
    → Fits ms
    → Disjoint ms
    → find_mapping a ms ≡ some m
    → m.addr ≡ a
    → (ns : List Mapping) × (remove_mapping a ms ≡ some ns)
      × Disjoint ns
      × ((b : Addr) → find_mapping b ns ≡ (if covers m b then none else find_mapping b ms))
remove_mapping-erases a ms m fits disjoint found starts =
    let (ns, removed, rest) = erased a ms m fits disjoint found starts in
    (ns, removed, rest.disjoint, rest.found)
