-- ===== src/Autoscale/Sidecar.antt =====
-- The record of the empty nodes in its file: `_load_empty_since_sidecar` and
-- `_save_empty_since_sidecar` of cspawn/cs_docker/autoscale.py. The JSON codec and the ISO format of
-- a datetime are arguments; a write that fails leaves the file as it is, since it goes to another
-- file first.
mod Tests
use code_server_spawner.Common.{
  String, Bool, true, false, not, Option, none, some, List, [], ◌∷◌, ◌≡◌, refl, ◌∙◌, ap, inl, inr,
  arith, str_eq, keep, All, Bool-cases, if◌then◌else◌,
}
use code_server_spawner.Common.Dict.{Dict, lookup, insert}
use code_server_spawner.Common.Dict.Update.{update, Distinct, lookup-update}
use code_server_spawner.Common.Time.{Datetime, aware, as_utc}
use code_server_spawner.Tiers.{Json, Fields, object, text, end, field, field_of}

-- `json.loads`, `json.dumps`, `datetime.fromisoformat` and `isoformat`
pub record Codec : Type 0 where
  pub loads : String → Option Json
  pub dumps : Json → String
  pub fromisoformat : String → Option Datetime
  pub isoformat : Datetime → String

-- `if dt.tzinfo is None: dt = dt.replace(tzinfo=timezone.utc)`
abbrev pub with_zone : Datetime → Datetime
with_zone d = aware (as_utc d)

module _ (codec : Codec) where
  -- The entry of a node, unless it is no text or no datetime.
  abbrev pub read_entry : Json → Option Datetime
  read_entry (text s) = elim (codec.fromisoformat s) [ none ↦ none | some d ↦ some (with_zone d) ]
  read_entry _ = none

  -- The loop over the entries; of two under one key, the later one counts, as in the decoder's dict.
  pub read_entries : Fields → Dict Datetime → Dict Datetime
  read_entries end result = result
  read_entries (field fqdn value rest) result = read_entries rest (elim (read_entry value) [
    | none ↦ keep (λ e. not (str_eq e.0 fqdn)) result
    | some d ↦ insert fqdn d result
  ])

  read_object : Option Json → Dict Datetime
  unfolding read_entries
  read_object (some (object entries)) = read_entries entries []
  read_object _ = []

  -- `_load_empty_since_sidecar(data_dir)`, from the text of the file, if it can be read
  unfoldable pub load_empty_since_sidecar : Option String → Dict Datetime
  unfolding read_object field_of
  load_empty_since_sidecar none = []
  load_empty_since_sidecar (some content) = elim (codec.loads content) [
    | some (object raw) ↦ read_object (field_of "empty_since" raw)
    | _ ↦ []
  ]

  -- `{fqdn: dt.isoformat() for fqdn, dt in empty_since.items()}`
  pub write_entries : Dict Datetime → Fields
  write_entries [] = end
  write_entries ((fqdn, d) ∷ empty_since) =
      field fqdn (text (codec.isoformat d)) (write_entries empty_since)

  abbrev pub payload : Dict Datetime → Json
  payload empty_since = object (field "empty_since" (object (write_entries empty_since)) end)

  -- `_save_empty_since_sidecar(data_dir, empty_since)`: the file afterwards
  abbrev pub save_empty_since_sidecar : Bool → Dict Datetime → Option String → Option String
  save_empty_since_sidecar fails empty_since file =
      if fails then file else some (codec.dumps (payload empty_since))

  abbrev zoned : Dict Datetime → Dict Datetime
  zoned [] = []
  zoned ((fqdn, d) ∷ rest) = (fqdn, with_zone d) ∷ zoned rest

  -- The ISO format of each datetime is read back.
  abbrev pub ReadsBack : Dict Datetime → Type 0
  ReadsBack = All (λ l. codec.fromisoformat (codec.isoformat l.1) ≡ some l.1)

  read-write_entries :
      (d acc : Dict Datetime)
      → ReadsBack d
      → read_entries (write_entries d) acc ≡ update (zoned d) acc
  unfolding read_entries write_entries
  read-write_entries [] acc h = refl
  read-write_entries ((fqdn, x) ∷ d) acc (iso, h) =
      rw (read_entries, read_entry, iso) (read-write_entries d (insert fqdn (with_zone x) acc) h)

  All-zoned :
      (k : String) (d : Dict Datetime)
      → All (λ l. str_eq l.0 k ≡ false) d
      → All (λ l. str_eq l.0 k ≡ false) (zoned d)
  All-zoned k [] h = tt
  All-zoned k ((j, x) ∷ d) (e, h) = (e, All-zoned k d h)

  Distinct-zoned : (d : Dict Datetime) → Distinct d → Distinct (zoned d)
  Distinct-zoned [] h = tt
  Distinct-zoned ((j, x) ∷ d) (a, h) = (All-zoned j d a, Distinct-zoned d h)

  lookup-zoned :
      (k : String) (d : Dict Datetime)
      → (elim (lookup k (zoned d)) [ none ↦ none | some v ↦ some v ])
        ≡ (elim (lookup k d) [ none ↦ none | some x ↦ some (with_zone x) ])
  lookup-zoned k [] = refl
  lookup-zoned k ((j, x) ∷ d) = elim (Bool-cases (str_eq j k)) [
    | inl e ↦ rw e refl
    | inr e ↦ rw e (lookup-zoned k d)
  ]

  -- A record that is saved and loaded gives for every node the time that it had, with the zone
  -- written out: given distinct names, and codecs that read back what they write.
  pub load-save :
      (d : Dict Datetime) (file : Option String) (k : String)
      → Distinct d
      → ReadsBack d
      → codec.loads (codec.dumps (payload d)) ≡ some (payload d)
      → lookup k (load_empty_since_sidecar (save_empty_since_sidecar false d file))
        ≡ (elim (lookup k d) [ none ↦ none | some x ↦ some (with_zone x) ])
  unfolding load_empty_since_sidecar read_object field_of
  load-save d file k u h json =
      rw (json, read-write_entries d [] h)
        (lookup-update k (zoned d) [] (Distinct-zoned d u) ∙ lookup-zoned k d)
