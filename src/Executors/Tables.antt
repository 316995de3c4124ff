-- ===== src/Executors/Tables.antt =====
-- What mmap.c and munmap.c of Monitor/src/sys make of a table of mappings that share no address, and
-- the protection of addresses that no recorded mapping holds.
use aurora_mvee.Base.{
  ap, sym, subst, ◌∙◌, ◌≡◌, ◌≢◌, refl, true, false, none, some, List, ◌∷◌, arith, if◌then◌else◌,
  ◌==◌, ◌&&◌, ℕ,
}
use aurora_mvee.Words.{to_int}
use aurora_mvee.Kernel.{Kernel, exit_stop, stopped, cont, waited, Addr}
use aurora_mvee.World.{World, Mapping, first, second, arg}
use aurora_mvee.World.Monad.{Succeeds, monad}
use aurora_mvee.Security.{check_mmap_perms}
use aurora_mvee.Mappings.{add_mapping, find_mapping, remove_mapping, covers}
use aurora_mvee.Mappings.Laws.{Fits, NoneCovers}
use aurora_mvee.Mappings.Disjoint.{
  Disjoint, Apart, NoneCovers-add_mapping, find_mapping-none, add_mapping-extends,
  remove_mapping-erases,
}
use aurora_mvee.Executors.Args.{same_arg, check, arg_of, resume_both}
use aurora_mvee.Executors.Maps.{
  same_int_arg, exec_syscall_mmap, exec_syscall_mprotect, unmap, exec_syscall_munmap,
}
use aurora_mvee.Executors.Mapped.{same_mmap_args, exec_syscall_mmap-len_zero}
use aurora_mvee.Executors.Seek.{Succeeds-mono}
use aurora_mvee.Variant.{resume_variant_from_wait, request, update}

-- A mapping with the length 0 holds its first address only.
zero_covers : (m : Mapping) (a : Addr) → m.len ≡ 0 → a ≢ m.addr → covers m a ≡ false
unfolding covers
zero_covers m a empty apart = ground (arith, empty, apart)

zero_covered : (m : Mapping) (a : Addr) → m.len ≡ 0 → covers m a ≡ true → m.addr ≡ a
unfolding covers
zero_covered m a empty on = ground (arith, empty, on)

-- Let no recorded mapping hold the address that the master's call returns, and no two of them share
-- an address. Where the arguments agree and the protection is allowed, mmap returns 0 and leaves a
-- table whose mappings share no address; a search finds the new mapping, with the length 0, at the
-- address that was returned, and what it found before at each other address.
pub exec_syscall_mmap-Disjoint :
    (k : Kernel) (w : World) (sig addr is_error : ℕ)
    → same_mmap_args w ≡ true
    → check_mmap_perms (to_int (arg w.master 2)) (to_int (arg w.master 3)) ≡ true
    → k.status (waited w.master.pid ∷ cont w.master.pid ∷ w.trace) w.master.pid ≡ some (stopped sig)
    → k.stop (waited w.master.pid ∷ cont w.master.pid ∷ w.trace) w.master.pid
      ≡ exit_stop addr is_error
    → NoneCovers addr w.mappings
    → Disjoint w.mappings
    → Succeeds
        (λ w'.
          Disjoint w'.mappings
          × ((map : Mapping) × (find_mapping addr w'.mappings ≡ some map) × (map.len ≡ 0))
          × ((a : Addr) → a ≢ addr → find_mapping a w'.mappings ≡ find_mapping a w.mappings))
        (exec_syscall_mmap k first second w)
unfolding covers
exec_syscall_mmap-Disjoint k w sig addr is_error same allowed stops returns free disjoint =
    let map : Mapping = record {
      addr = addr;
      len = 0;
      prot = to_int (arg w.master 2);
      flags = to_int (arg w.master 3);
    } in
    let here : covers map addr ≡ true = ground arith in
    let apart : Apart map w.mappings =
      λ a on. subst (λ x. NoneCovers x w.mappings) (zero_covered map a refl on) free in
    let (kept, finds) = add_mapping-extends map w.mappings apart disjoint in
    Succeeds-mono (exec_syscall_mmap k first second w)
      (λ w' e.
        let found = finds addr in
        (
          subst Disjoint (sym e) kept,
          (map, ap (find_mapping addr) e ∙ rw here at found, refl),
          λ a differs.
              let off = zero_covers map a refl differs in
              let other = finds a in ap (find_mapping a) e ∙ rw off at other,
        ))
      (exec_syscall_mmap-len_zero k w sig addr is_error same allowed stops returns)

-- Let no two recorded mappings share an address, the lengths agree, no mapping of the table run over
-- the end of the address space, and the search find a mapping that begins at the address. Then
-- munmap returns 0 and leaves a table whose mappings share no address; a search finds nothing at the
-- addresses of the removed mapping, and what it found before at all others.
pub exec_syscall_munmap-Disjoint :
    (w : World) (map : Mapping)
    → same_arg first second 1 w ≡ true
    → Fits w.mappings
    → Disjoint w.mappings
    → find_mapping (arg w.master 0) w.mappings ≡ some map
    → map.addr ≡ arg w.master 0
    → Succeeds
        (λ w'.
          Disjoint w'.mappings
          × ((a : Addr)
              → find_mapping a w'.mappings
                ≡ (if covers map a then none else find_mapping a w.mappings)))
        (exec_syscall_munmap first second w)
unfolding exec_syscall_munmap unmap check arg_of monad resume_both resume_variant_from_wait request
    update
exec_syscall_munmap-Disjoint w map same fits disjoint found starts =
    let begins : (map.addr == arg w.master 0) ≡ true = ground (arith, starts) in
    let (ns, removed, rest, finds) =
      remove_mapping-erases (arg w.master 0) w.mappings map fits disjoint found starts in
    let removed_map : remove_mapping map.addr w.mappings ≡ some ns =
      subst (λ a. remove_mapping a w.mappings ≡ some ns) (sym starts) removed in
    rw (same, found, begins, removed_map) (rest, finds)

-- An mprotect of an address inside a mapping that mmap has recorded with the length 0 is not checked:
-- whatever the mapping's flags are, the protection may be any, and both variants are resumed. No
-- older mapping holds the address, and the lengths and the protections agree.
pub exec_syscall_mprotect-unchecked :
    (w : World) (map : Mapping) (older : List Mapping)
    → w.mappings ≡ add_mapping map older
    → map.len ≡ 0
    → arg w.master 0 ≢ map.addr
    → NoneCovers (arg w.master 0) older
    → (same_arg first second 1 w && same_int_arg first second 2 w) ≡ true
    → Succeeds
        (λ w'. w'.trace ≡ cont w.replica.pid ∷ cont w.master.pid ∷ w.trace)
        (exec_syscall_mprotect first second w)
unfolding exec_syscall_mprotect check arg_of monad resume_both resume_variant_from_wait request
    update
exec_syscall_mprotect-unchecked w map older table empty inside free same =
    let gone : find_mapping (arg w.master 0) w.mappings ≡ none =
      ap (find_mapping (arg w.master 0)) table
      ∙ find_mapping-none _ (add_mapping map older)
          (NoneCovers-add_mapping _ map older (zero_covers map _ empty inside) free) in
    rw (same, gone) refl
