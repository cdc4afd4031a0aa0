-- ===== src/Catalog/Lifecycle/Reading.antt =====
-- `withSnapshot` of `CatalogLifecycle`: a lease of the repository for the time of a read.
use hifld_next.Common.{
  ℕ, ◌+◌, ◌-◌, eqb, if◌then◌else◌, List, [], ◌∷◌, ◌++◌, Option, none, some, get_or,
}
use hifld_next.Catalog.Objects.{has, remove_object, get_count, set_count, delete_count}
use hifld_next.Catalog.Lifecycle.State.{Repository, CatalogLifecycle, System}

abbrev pub leased : ℕ → CatalogLifecycle → ℕ
leased k l = get_or (get_count k l.leases) 0

-- One more lease of the repository.
unfoldable pub lease : Repository → System → System
lease r s = record s {
  life = record s.life { leases = set_count r.object (leased r.object s.life + 1) s.life.leases };
  reads = r.object ∷ s.reads;
}

-- `withSnapshot` up to its `await`, of the repository that it finds.
unfoldable pub lease_found : Option Repository → System → System
lease_found none s = s
lease_found (some r) s = lease r s

abbrev pub begin_read : System → System
begin_read s = lease_found s.life.repository s

abbrev pub remove_one : ℕ → List ℕ → List ℕ
remove_one k [] = []
remove_one k (x ∷ xs) = let rest = remove_one k xs in if eqb x k then xs else x ∷ rest

-- The `finally` of `withSnapshot`, of a read of the repository. `closes` takes the close at its end.
unfoldable pub release : ℕ → System → System
release k s =
    let remaining = get_or (get_count k s.life.leases) 1 - 1 in
    if eqb remaining 0
    then record s {
      life = record s.life {
        leases = delete_count k s.life.leases;
        retired = remove_object k s.life.retired;
      };
      closes = if has k s.life.retired then s.closes ++ k ∷ [] else s.closes;
      reads = remove_one k s.reads;
    }
    else record s {
      life = record s.life { leases = set_count k remaining s.life.leases };
      reads = remove_one k s.reads;
    }

-- A read ends where one is pending.
unfoldable pub end_read : ℕ → System → System
end_read k s = if has k s.reads then release k s else s
