-- ===== src/Hosts/Stop/Laws.antt =====
-- What a stop does to the rows, the services and the report.
use code_server_spawner.Common.{
  String, Bool, true, false, not, none, some, List, [], ◌∷◌, ◌≡◌, refl, ◌⊎◌, arith, ◌==◌, str_eq,
  keep, if◌then◌else◌,
}
use code_server_spawner.Common.Dict.{contains}
use code_server_spawner.Hosts.{CodeHost}
use code_server_spawner.Hosts.Stop.{World, Faults, stop_host}

-- The rows other than the one of a host.
abbrev pub others : CodeHost → List CodeHost → List CodeHost
others ch = keep (λ h. not (h.id == ch.id))

pub contains-keep_ne :
    (k : String) (xs : List String) → contains k (keep (λ s. not (str_eq s k)) xs) ≡ false
contains-keep_ne k [] = refl
contains-keep_ne k (x ∷ xs) = ground (arith, contains-keep_ne k xs)

module _ (faults : Faults) (ch : CodeHost) (push : Bool) (w : World) where
  -- The report on the row is the truth: it is gone, alone, exactly when `deleted` is set, and this
  -- turns on the database alone, whatever the push and the service did.
  pub stop_host-deletes :
      ((stop_host faults ch push w).0.deleted ≡ not (faults.delete_fails ch))
      × ((stop_host faults ch push w).1.hosts
          ≡ (if (stop_host faults ch push w).0.deleted then others ch w.hosts else w.hosts))
      × ((stop_host faults ch push w).1.classes ≡ w.classes)
  unfolding stop_host
  stop_host-deletes = ground arith

  -- A stop that is reported as done leaves no live service of the host; one that is not is reported
  -- with an error, and the services are as they were.
  pub stop_host-stops :
      let (r, w') = stop_host faults ch push w in
      ((r.stopped ≡ true) × (r.stop_error ≡ none) × (contains ch.service_id w'.services ≡ false))
      ⊎ ((r.stopped ≡ false)
          × ((e : String) × (r.stop_error ≡ some e))
          × (w'.services ≡ w.services))
  unfolding stop_host
  stop_host-stops = ground (arith, contains-keep_ne ch.service_id w.services)
