-- ===== src/Nodes/Droplets.antt =====
-- Which droplet a node spec means: `_resolve_droplet_by_spec` of cspawn/cli/node.py. The list of the
-- droplets and the membership in the project, which DigitalOcean answers, are arguments, and so are
-- Python's `str.format` and `str` of a number.
mod Tests
use Prim.Native.String.{◌++◌ as append}
use code_server_spawner.Common.{
  ℕ, String, Bool, true, false, not, ◌&&◌, Option, none, some, List, [], ◌∷◌, str_eq, is_some,
  if◌then◌else◌, Outcome, raises, returns, ◌>>=◌, ◌>>◌, or_raise, raise_if, outside,
}
use code_server_spawner.Common.Dict.{contains}
use code_server_spawner.Common.Text.{before_dot, after_dot, has_dot, strip, is_number, number_from}
use code_server_spawner.Nodes.Contract.{split_template}

pub record Droplet : Type 0 where
  pub id : ℕ
  pub name : String
  pub tags : List String

-- The settings that the function is given; `none` stands for what is falsy.
pub record Naming : Type 0 where
  pub do_names : String
  pub do_tag : Option String
  pub do_project : Option String

-- `_find_by_name(candidate)`
unfoldable pub find_by_name : List Droplet → String → Option Droplet
find_by_name [] name = none
find_by_name (d ∷ ds) name = if str_eq d.name name then some d else find_by_name ds name

-- `a or b`
abbrev pub or_find : Option Droplet → Option Droplet → Option Droplet
or_find none other = other
or_find (some d) other = some d

-- `domain_suffix`, where it is truthy
unfoldable pub domain_suffix : String → Option String
unfolding after_dot
domain_suffix template = elim (after_dot template) [
  | none ↦ none
  | some s ↦ if str_eq s "" then none else some s
]

-- `template.split(".")[0].split("{serial}")[0]`
abbrev pub short_prefix : String → String
short_prefix template = elim (split_template (before_dot template)) [
  | none ↦ before_dot template
  | some (prefix, _) ↦ prefix
]

-- `f"{short}.{domain_suffix}"`
abbrev pub dotted : String → String → String
dotted short suffix = append short (append "." suffix)

module _ (format_serial : String → ℕ → String) (show : ℕ → String) (in_project : Droplet → Bool)
    (naming : Naming) (droplets : Outcome (List Droplet)) where
  -- A spec of digits.
  pub resolve_serial : List Droplet → ℕ → Outcome (Droplet × String)
  unfolding find_by_name before_dot split_template
  resolve_serial ds serial = do
    tag ← or_raise naming.do_tag (outside "Numeric spec requires DO_TAG and DO_PROJECT configured")
    project ←
        or_raise naming.do_project
          (outside "Numeric spec requires DO_TAG and DO_PROJECT configured")
    let fqdn = format_serial naming.do_names serial
    let short = append (short_prefix naming.do_names) (show serial)
    target ←
        or_raise (or_find (find_by_name ds fqdn) (find_by_name ds short))
          (outside "No droplet found for serial")
    raise_if (not (contains tag target.tags)) (outside "Droplet does not have required tag")
    raise_if (not (in_project target)) (outside "Droplet not in required project")
    returns (target, fqdn)

  -- A spec with a dot.
  pub resolve_fqdn : List Droplet → String → Outcome (Droplet × String)
  unfolding find_by_name domain_suffix strip before_dot
  resolve_fqdn ds spec = do
    let fqdn = strip spec
    let by_short =
        (if is_some (domain_suffix naming.do_names)
          then find_by_name ds (before_dot fqdn)
          else none)
    target ←
        or_raise (or_find (find_by_name ds fqdn) by_short) (outside "No droplet found matching")
    returns (target, fqdn)

  -- Any other spec.
  pub resolve_short : List Droplet → String → Outcome (Droplet × String)
  unfolding find_by_name domain_suffix strip has_dot
  resolve_short ds spec =
      let short = strip spec in
      elim (find_by_name ds short) [
        | some target ↦ returns (
          target,
          if has_dot target.name then target.name else (elim (domain_suffix naming.do_names) [
            | none ↦ target.name
            | some suffix ↦ dotted target.name suffix
          ]),
        )
        | none ↦ elim (domain_suffix naming.do_names) [
          | none ↦ raises (outside "No droplet found matching")
          | some suffix ↦ elim (find_by_name ds (dotted short suffix)) [
            | none ↦ raises (outside "No droplet found matching")
            | some target ↦ returns (target, dotted short suffix)
          ]
        ]
      ]

  -- `_resolve_droplet_by_spec(...)`
  unfoldable pub resolve_droplet_by_spec : String → Outcome (Droplet × String)
  unfolding resolve_serial resolve_fqdn resolve_short is_number number_from has_dot
  resolve_droplet_by_spec spec = elim droplets [
    | raises _ ↦ raises (outside "Failed to list droplets")
    | returns ds ↦
        if is_number spec
        then resolve_serial ds (number_from 0 spec)
        else if has_dot spec
        then resolve_fqdn ds spec
        else resolve_short ds spec
  ]
