-- ===== src/Iac/Desired.antt =====
-- desiredObjects of apps/weldall/src/server/iac/planner.ts: the manifest as addressable objects.
use weldall.Prelude.{[], String, Option, none, some, List, ◌++◌, map, sort, Ordering}
use weldall.Iac.Json.{Json, ◌+s◌, text_field}
use weldall.Iac.Contracts.{
  Host, Kind, scope, resource, machine, email_assignment, group_assignment, skill, connector,
  shared_connection, group_provider, login_provider, kind_text, Manifest, DesiredObject,
}

-- A field that the manifest's schema requires to be a text.
abbrev pub required : Option String → String
required none = "undefined"
required (some s) = s

unfoldable pub identity_of : Kind → Json → String
unfolding text_field
identity_of login_provider state = required (text_field "id" state)
identity_of machine state = required (text_field "clientId" state)
identity_of skill state = required (text_field "slug" state)
identity_of email_assignment state = required (text_field "email" state)
identity_of group_assignment state =
    required (text_field "provider" state) +s ":" +s required (text_field "groupId" state)
identity_of _ state = required (text_field "key" state)

unfoldable pub objects_of : Kind → List (String × Json) → List DesiredObject
unfolding identity_of
objects_of kind entries =
    map
      (λ (name, state). record {
        address = kind_text kind +s "." +s name;
        kind = kind;
        identity = identity_of kind state;
        state = state;
      })
      entries

abbrev pub by_address : Host → DesiredObject → DesiredObject → Ordering
by_address h left right = h.locale_compare left.address right.address

-- `manifest.section ?? {}`
abbrev pub entries_or_none : Option (List (String × Json)) → List (String × Json)
entries_or_none none = []
entries_or_none (some entries) = entries

unfoldable pub unsorted_objects : Manifest → List DesiredObject
unfolding objects_of
unsorted_objects m =
    objects_of shared_connection (entries_or_none m.shared_connections)
    ++ (objects_of group_provider (entries_or_none m.group_providers)
        ++ (objects_of login_provider (entries_or_none m.login_providers)
            ++ (objects_of connector m.connectors
                ++ (objects_of scope m.scopes
                    ++ (objects_of resource m.resources
                        ++ (objects_of machine m.machines
                            ++ (objects_of skill m.skills
                                ++ (objects_of email_assignment m.email_assignments
                                    ++ objects_of group_assignment m.group_assignments))))))))

unfoldable pub desired_objects : Host → Manifest → List DesiredObject
unfolding unsorted_objects
desired_objects h m = sort (by_address h) (unsorted_objects m)
