-- ===== src/Iac/Loading/Connectors/Immutable.antt =====
-- What holds of the connectors of a manifest that raises no blocker for them.
use weldall.Prelude.{
  ℕ, not, ◌||◌, nat_eq, ◌⊎◌, Result, ok, err, ◌==◌, subst, some-inj, ◌≡◌, refl, sym, ap, ◌∙◌, inl,
  inr, String, Bool, true, false, Option, none, some, List, [], ◌∷◌, arith, eq_iff, Bool-cases,
  Option-cases, Any,
}
use weldall.Iac.Json.{Json, text_field, flag_field, get_field}
use weldall.Iac.Contracts.{Blocker, PlanError, or_null}
use weldall.Iac.Graph.{provider_mcp}
use weldall.Iac.Decision.{same_text}
use weldall.Iac.Rows.{ConnectorRow}
use weldall.Iac.Loading.{Schemas}
use weldall.Iac.Loading.References.Guarded.{append-nil}
use weldall.Iac.Loading.Connectors.{
  is_known, has_secrets, block_if, if_current, is_parsed, find_connector, changes_provider,
  lacks_secret, changes_client, config_blockers, connector_blockers,
}

block_if-nil : (test : Bool) (b : Blocker) → block_if test b ≡ [] → test ≡ false
block_if-nil true b h = cc
block_if-nil false b h = refl

-- The type is a provider's, and that provider takes the configuration.
abbrev pub IsParsed : Schemas → Json → String → Type 0
IsParsed c config type =
    ((type ≡ "google") ⊎ (type ≡ "atlassian") ⊎ (type ≡ "atlassian-mcp"))
    × (parsed : Json) × (c.parse_configuration type (or_null (get_field "provider" config))
        ≡ some parsed)

-- Enabled only with a secret that is stored, or by a provider that registers itself.
abbrev pub HasSecret : Schemas → Json → String → Bool → Type 0
HasSecret c config type stored =
    (flag_field "enabled" config ≡ false) ⊎ (stored ≡ true) ⊎ (c.has_registration type ≡ true)

-- The client is not in use, or its identity stays.
abbrev pub KeepsClient : Schemas → Json → String → ConnectorRow → Type 0
KeepsClient c config type row =
    ((row.connections ≡ 0) × (row.attempts ≡ 0))
    ⊎ (c.configuration_identity type row.provider_config
        ≡ c.configuration_identity type (or_null (get_field "provider" config)))

-- The configuration parses and has its secret; where the connector exists, the type and the envelope
-- are those of the configuration, and its client stays or is not in use.
abbrev pub IsAdmissible : Schemas → Json → Option ConnectorRow → Type 0
IsAdmissible c config none =
    (type : String) × (text_field "type" config ≡ some type)
    × IsParsed c config type
    × HasSecret c config type false
IsAdmissible c config (some row) =
    (text_field "type" config ≡ some row.provider_type)
    × IsParsed c config row.provider_type
    × HasSecret c config row.provider_type row.has_secrets
    × (text_field "envelopeProvider" config ≡ some row.envelope_provider)
    × KeepsClient c config row.provider_type row

provider_mcp-ok :
    (o : Option String) (mcp : Bool)
    → provider_mcp o ≡ ok mcp
    → (type : String) × (o ≡ some type)
      × ((type ≡ "google") ⊎ (type ≡ "atlassian") ⊎ (type ≡ "atlassian-mcp"))
unfolding provider_mcp
provider_mcp-ok none mcp h = cc
provider_mcp-ok (some type) mcp h = elim (Bool-cases (type == "google")) [
  | inl google ↦ (type, refl, inl ((eq_iff type "google").0 google))
  | inr other ↦ elim (Bool-cases (type == "atlassian")) [
    | inl atlassian ↦ (type, refl, inr (inl ((eq_iff type "atlassian").0 atlassian)))
    | inr other' ↦ elim (Bool-cases (type == "atlassian-mcp")) [
      | inl is_mcp ↦ (type, refl, inr (inr ((eq_iff type "atlassian-mcp").0 is_mcp)))
      | inr none_of_them ↦ cc (rw (other, other', none_of_them) at h)
    ]
  ]
]

is_known-ok : (r : Result PlanError Bool) → is_known r ≡ true → (mcp : Bool) × (r ≡ ok mcp)
is_known-ok (ok mcp) h = (mcp, refl)
is_known-ok (err e) h = cc

is_parsed-IsParsed :
    (c : Schemas) (config : Json)
    → is_parsed c config ≡ true
    → (type : String) × (text_field "type" config ≡ some type) × IsParsed c config type
unfolding is_parsed
is_parsed-IsParsed c config h =
    elim (Bool-cases (is_known (provider_mcp (text_field "type" config)))) [
      | inr unknown ↦ cc (rw unknown at h)
      | inl known ↦
          let (mcp, e) = is_known-ok (provider_mcp (text_field "type" config)) known in
          let (type, of_type, listed) = provider_mcp-ok (text_field "type" config) mcp e in
          let taken = rw (known, of_type) at h in
          elim (Option-cases (c.parse_configuration type (or_null (get_field "provider" config)))) [
            | inl refused ↦ cc (rw refused at taken)
            | inr (parsed, p) ↦ (type, of_type, (listed, parsed, p))
          ]
    ]

lacks_secret-HasSecret :
    (c : Schemas) (config : Json) (current : Option ConnectorRow) (type : String)
    → text_field "type" config ≡ some type
    → lacks_secret c config current ≡ false
    → HasSecret c config type (has_secrets current)
unfolding lacks_secret
lacks_secret-HasSecret c config current type of_type h =
    elim (Bool-cases (flag_field "enabled" config)) [
      | inr off ↦ inl off
      | inl on ↦ elim (Bool-cases (has_secrets current)) [
        | inl stored ↦ inr (inl stored)
        | inr missing ↦ elim (Bool-cases (c.has_registration type)) [
          | inl registers ↦ inr (inr registers)
          | inr no_registration ↦ cc (rw (on, missing, of_type, no_registration) at h)
        ]
      ]
    ]

unused_zero :
    (connections attempts : ℕ)
    → (not (nat_eq connections 0) || not (nat_eq attempts 0)) ≡ false
    → (connections ≡ 0) × (attempts ≡ 0)
unused_zero connections attempts h = ground arith

changes_client-KeepsClient :
    (c : Schemas) (config : Json) (row : ConnectorRow)
    → text_field "type" config ≡ some row.provider_type
    → changes_client c config row ≡ false
    → KeepsClient c config row.provider_type row
unfolding changes_client
changes_client-KeepsClient c config row of_type h =
    let old = c.configuration_identity row.provider_type row.provider_config in
    let new = c.configuration_identity row.provider_type (or_null (get_field "provider" config)) in
    elim (Bool-cases (old == new)) [
      | inl same ↦ inr ((eq_iff old new).0 same)
      | inr differs ↦
          let unused =
            rw (of_type, differs, (eq_iff row.provider_type row.provider_type).1 refl) at h in
          inl (unused_zero row.connections row.attempts unused)
    ]

same_text-some : (s : String) (o : Option String) → same_text (some s) o ≡ true → o ≡ some s
same_text-some s none h = cc
same_text-some s (some u) h = ap some (sym ((eq_iff s u).0 h))

provider_kept :
    (config : Json) (row : ConnectorRow)
    → changes_provider config row ≡ false
    → (text_field "type" config ≡ some row.provider_type)
      × (text_field "envelopeProvider" config ≡ some row.envelope_provider)
unfolding changes_provider
provider_kept config row h = (
  same_text-some row.provider_type (text_field "type" config) (ground arith),
  same_text-some row.envelope_provider (text_field "envelopeProvider" config) (ground arith),
)

config_blockers-nil :
    (c : Schemas) (rows : List ConnectorRow) (name : String) (config : Json)
    → config_blockers c rows (name, config) ≡ []
    → IsAdmissible c config (find_connector (text_field "key" config) rows)
unfolding config_blockers
config_blockers-nil c rows name config h = elim (Bool-cases (is_parsed c config)) [
  | inr bad ↦ cc (rw (bad, config_blockers) at h)
  | inl parsed ↦
      let (provider, rest) = append-nil (block_if _ _) _ (rw (parsed, config_blockers) at h) in
      let (secret, client) = append-nil (block_if _ _) _ rest in
      let current = find_connector (text_field "key" config) rows in
      let same_provider : if_current (changes_provider config) current ≡ false =
        block_if-nil _ _ provider in
      let secret_there : lacks_secret c config current ≡ false = block_if-nil _ _ secret in
      let same_client : if_current (changes_client c config) current ≡ false =
        block_if-nil _ _ client in
      let (type, of_type, parsed_as) = is_parsed-IsParsed c config parsed in
      elim (Option-cases current) [
        | inl e ↦ rw e (
          type,
          of_type,
          parsed_as,
          lacks_secret-HasSecret c config none type of_type (rw e at secret_there),
        )
        | inr (row, e) ↦
            let (row_type, envelope) = provider_kept config row (rw e at same_provider) in
            rw e (
              row_type,
              subst (IsParsed c config) (some-inj type row.provider_type _ of_type row_type)
                  parsed_as,
              lacks_secret-HasSecret c config (some row) row.provider_type row_type
                  (rw e at secret_there),
              envelope,
              changes_client-KeepsClient c config row row_type (rw e at same_client),
            )
      ]
]

-- Where no blocker is raised for the connectors of a manifest, the configuration of each of them is
-- taken by its provider, and if it is enabled, there is a secret or the provider registers itself.
-- Where a connector has its key already, the type and the envelope stay, and the identity of the
-- client stays or neither connections nor attempts use it.
pub connector_blockers-IsAdmissible :
    (c : Schemas) (rows : List ConnectorRow) (entries : List (String × Json)) (name : String)
    (config : Json)
    → connector_blockers c rows entries ≡ []
    → Any (λ e. e ≡ (name, config)) entries
    → IsAdmissible c config (find_connector (text_field "key" config) rows)
unfolding connector_blockers
connector_blockers-IsAdmissible c rows [] name config h there = elim there [ ]
connector_blockers-IsAdmissible c rows (e ∷ es) name config h (inl same) =
    config_blockers-nil c rows name config (
      ap (config_blockers c rows) (sym same)
      ∙ (append-nil (config_blockers c rows e) (connector_blockers c rows es) h).0)
connector_blockers-IsAdmissible c rows (e ∷ es) name config h (inr there) =
    connector_blockers-IsAdmissible c rows es name config
      (append-nil (config_blockers c rows e) (connector_blockers c rows es) h).1 there
