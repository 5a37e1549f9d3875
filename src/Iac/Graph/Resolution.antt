-- ===== src/Iac/Graph/Resolution.antt =====
-- A plan without blockers leaves no skill that asks for a source which is not there.
use weldall.Prelude.{
  ok-inj, result-cases, ◌>>=◌, if◌then◌else◌, All-map_pred, bind-eq-ok, ◌≡◌, ap, sym, ◌∙◌, eq_iff,
  ◌==◌, Option, some, none, Bool, false, ◌&&◌, refl, inl, inr, true, false, List, [], ◌∷◌, ◌++◌,
  arith, All, Bool-cases, ok, map, String, subst, Any,
}
use weldall.Iac.Json.{Json, null, bool, num, str, arr, obj, get_field, text_field, is_true, text_of}
use weldall.Iac.Contracts.{
  exact, on_resource, on_connector_type, resource, connector, same_kind_iff, Host, Dependency,
  skill, same_kind, DesiredObject, CurrentObject,
}
use weldall.Iac.Order.{read_field, is_text, Subject, dependencies_of, of_desired, of_current}
use weldall.Iac.Graph.{
  names_connector, provider_mcp, answers, resolves, breaks, skill_blockers, object_blockers,
  blockers_of, retained, mcp_graph_blockers,
}

-- An object answers a dependency: it is enabled, and it is the resource or the connector that is
-- named, or a connector of the type that is named; of the connectors' providers one has MCP tools.
abbrev pub IsEnabled : Subject → Type 0
IsEnabled o = get_field "enabled" o.state ≡ some (bool true)

abbrev pub Answers : Dependency → Subject → Type 0
Answers (on_resource key) o = (o.kind ≡ resource) × (o.identity ≡ key) × IsEnabled o
Answers (exact key) o =
    (o.kind ≡ connector)
    × (o.identity ≡ key)
    × IsEnabled o
    × (get_field "type" o.state ≡ some (str "atlassian-mcp"))
Answers (on_connector_type type) o =
    (o.kind ≡ connector)
    × (type ≡ "atlassian-mcp")
    × IsEnabled o
    × (get_field "type" o.state ≡ some (str type))

is_true-some : (v : Option Json) → is_true v ≡ true → v ≡ some (bool true)
is_true-some none h = cc
is_true-some (some (bool true)) h = refl
is_true-some (some (bool false)) h = cc
is_true-some (some null) h = cc
is_true-some (some (num n)) h = cc
is_true-some (some (str s)) h = cc
is_true-some (some (arr xs)) h = cc
is_true-some (some (obj fs)) h = cc

text_of-some : (v : Option Json) (s : String) → text_of v ≡ some s → v ≡ some (str s)
text_of-some none s h = cc
text_of-some (some (str t)) s h = cc
text_of-some (some (bool b)) s h = cc
text_of-some (some null) s h = cc
text_of-some (some (num n)) s h = cc
text_of-some (some (arr xs)) s h = cc
text_of-some (some (obj fs)) s h = cc

provider_mcp-ok_true :
    (type : Option String) → provider_mcp type ≡ ok true → type ≡ some "atlassian-mcp"
unfolding provider_mcp
provider_mcp-ok_true none h = cc
provider_mcp-ok_true (some type) h = elim (Bool-cases (type == "google")) [
  | inl google ↦ cc (rw google at h)
  | inr other ↦ elim (Bool-cases (type == "atlassian")) [
    | inl atlassian ↦ cc (rw (other, atlassian) at h)
    | inr other' ↦ elim (Bool-cases (type == "atlassian-mcp")) [
      | inl mcp ↦ ap some ((eq_iff type "atlassian-mcp").0 mcp)
      | inr none_of_them ↦ cc (rw (other, other', none_of_them) at h)
    ]
  ]
]

read_field-eq-ok :
    (name : String) (value : Json) (v : Option Json)
    → read_field name value ≡ ok v
    → get_field name value ≡ v
unfolding read_field
read_field-eq-ok name null v h = cc
read_field-eq-ok name (bool b) v h = ok-inj _ v _ refl h
read_field-eq-ok name (num n) v h = ok-inj _ v _ refl h
read_field-eq-ok name (str s) v h = ok-inj _ v _ refl h
read_field-eq-ok name (arr xs) v h = ok-inj _ v _ refl h
read_field-eq-ok name (obj fs) v h = ok-inj _ v _ refl h

is_text-some : (o : Option String) (s : String) → is_text o s ≡ true → o ≡ some s
is_text-some none s h = cc
is_text-some (some t) s h = ap some ((eq_iff t s).0 h)

and-left : (a b : Bool) → (a && b) ≡ true → a ≡ true
and-left true b h = refl
and-left false b h = cc

and-right : (a b : Bool) → (a && b) ≡ true → b ≡ true
and-right true b h = h
and-right false b h = cc

same_texts : (s t : String) → some (str s) ≡ some (str t) → s ≡ t
same_texts s t h = cc

-- What an answering connector has, and what makes it answer.
connector_answers :
    (dep : Dependency) (o : Subject)
    → (read_field "enabled" o.state >>= λ enabled.
        if is_true enabled
        then (provider_mcp (text_field "type" o.state) >>= λ mcp. ok (mcp && names_connector dep o))
        else ok false)
      ≡ ok true
    → IsEnabled o
      × (get_field "type" o.state ≡ some (str "atlassian-mcp"))
      × (names_connector dep o ≡ true)
unfolding text_field
connector_answers dep o h =
    let (enabled, e, h') = bind-eq-ok (read_field "enabled" o.state) _ true h in
    let enabled_is = read_field-eq-ok "enabled" o.state enabled e in
    elim (Bool-cases (is_true enabled)) [
      | inr off ↦ cc (rw off at h')
      | inl on ↦
          let (mcp, e', h'') =
            bind-eq-ok (provider_mcp (text_field "type" o.state)) _ true (rw on at h') in
          let both : (mcp && names_connector dep o) ≡ true = ok-inj _ true _ refl h'' in
          let has_mcp = and-left mcp (names_connector dep o) both in
          (
            enabled_is ∙ is_true-some enabled on,
            text_of-some (get_field "type" o.state) "atlassian-mcp"
                (provider_mcp-ok_true (text_field "type" o.state) (e' ∙ ap ok has_mcp)),
            and-right mcp (names_connector dep o) both,
          )
    ]

answers-ok_true : (dep : Dependency) (o : Subject) → answers dep o ≡ ok true → Answers dep o
unfolding answers text_field
answers-ok_true (on_resource key) o h =
    elim (Bool-cases (same_kind o.kind resource && o.identity == key)) [
      | inr other ↦ cc (rw other at h)
      | inl this ↦
          let (enabled, e, h') = bind-eq-ok (read_field "enabled" o.state) _ true (rw this at h) in
          (
            (same_kind_iff o.kind resource).0 (and-left (same_kind o.kind resource) _ this),
            (eq_iff o.identity key).0 (and-right (same_kind o.kind resource) _ this),
            read_field-eq-ok "enabled" o.state enabled e
                ∙ is_true-some enabled (ok-inj _ true _ refl h'),
          )
    ]
answers-ok_true (exact key) o h = elim (Bool-cases (same_kind o.kind connector)) [
  | inr other ↦ cc (rw other at h)
  | inl this ↦
      let (on, type, named) = connector_answers (exact key) o (rw this at h) in
      ((same_kind_iff o.kind connector).0 this, (eq_iff o.identity key).0 named, on, type)
]
answers-ok_true (on_connector_type type) o h = elim (Bool-cases (same_kind o.kind connector)) [
  | inr other ↦ cc (rw other at h)
  | inl this ↦
      let (on, mcp, named) = connector_answers (on_connector_type type) o (rw this at h) in
      let is_type =
        text_of-some (get_field "type" o.state) type
          (is_text-some (text_field "type" o.state) type named) in
      (
        (same_kind_iff o.kind connector).0 this,
        same_texts type "atlassian-mcp" (sym is_type ∙ mcp),
        on,
        is_type,
      )
]

resolves-ok_true :
    (os : List Subject) (dep : Dependency) → resolves os dep ≡ ok true → Any (Answers dep) os
unfolding resolves
resolves-ok_true [] dep h = cc
resolves-ok_true (o ∷ os) dep h = elim (result-cases (answers dep o)) [
  | inr (e, failed) ↦ cc (rw (failed, resolves) at h)
  | inl (b, e) ↦ elim (Bool-cases b) [
    | inl this ↦ inl (answers-ok_true dep o (e ∙ ap ok this))
    | inr other ↦ inr (resolves-ok_true os dep (rw (e ∙ ap ok other, resolves) at h))
  ]
]

breaks-ok_false :
    (final current : List Subject) (dep : Dependency)
    → breaks final current true dep ≡ ok false
    → resolves final dep ≡ ok true
unfolding breaks
breaks-ok_false final current dep h =
    let (found, e, e') = bind-eq-ok (resolves final dep) _ false h in
    elim (Bool-cases found) [
      | inl yes_found ↦ rw yes_found at e
      | inr no_found ↦ cc (rw no_found at e')
    ]

-- The dependencies of a skill, if they parse, are all answered.
abbrev pub IsAnswered : Host → List Subject → Subject → Type 0
IsAnswered h final o =
    same_kind o.kind skill ≡ true
    → (deps : List Dependency) → dependencies_of h o.state ≡ ok deps
    → All (λ dep. resolves final dep ≡ ok true) deps

skill_blockers-ok_nil :
    (final current : List Subject) (o : Subject) (deps : List Dependency)
    → skill_blockers final current true o deps ≡ ok []
    → All (λ dep. resolves final dep ≡ ok true) deps
unfolding skill_blockers
skill_blockers-ok_nil final current o [] h = tt
skill_blockers-ok_nil final current o (dep ∷ deps) h =
    let (broken, e, h') = bind-eq-ok (breaks final current true dep) _ [] h in
    let (others, e', h'') = bind-eq-ok (skill_blockers final current true o deps) _ [] h' in
    elim (Bool-cases broken) [
      | inl is_broken ↦ cc (rw is_broken at h'')
      | inr fine ↦ (
        breaks-ok_false final current dep (rw fine at e),
        skill_blockers-ok_nil final current o deps (ground (arith, e', h'', fine)),
      )
    ]

append-eq-nil : {A : Type 0} (xs ys : List A) → xs ++ ys ≡ [] → (xs ≡ []) × (ys ≡ [])
append-eq-nil [] ys h = (refl, h)
append-eq-nil (x ∷ xs) ys h = cc

object_blockers-ok_nil :
    (h : Host) (final current : List Subject) (o : Subject)
    → object_blockers h final current true o ≡ ok []
    → IsAnswered h final o
unfolding object_blockers
object_blockers-ok_nil h final current o e is_skill deps parsed =
    skill_blockers-ok_nil final current o deps (rw parsed at (rw is_skill at e))

blockers_of-ok_nil :
    (h : Host) (final current : List Subject) (os : List Subject)
    → blockers_of h final current true os ≡ ok []
    → All (IsAnswered h final) os
unfolding blockers_of
blockers_of-ok_nil h final current [] e = tt
blockers_of-ok_nil h final current (o ∷ os) e =
    let (first, e1, h1) = bind-eq-ok (object_blockers h final current true o) _ [] e in
    let (others, e2, h2) = bind-eq-ok (blockers_of h final current true os) _ [] h1 in
    let (first_nil, others_nil) = append-eq-nil first others (ground (arith, h2)) in
    (
      object_blockers-ok_nil h final current o (rw first_nil at e1),
      blockers_of-ok_nil h final current os (rw others_nil at e2),
    )

IsAnswered-of_ok_nil :
    (h : Host) (workspace : String) (desired : List DesiredObject) (current : List CurrentObject)
    → mcp_graph_blockers h workspace desired current ≡ ok []
    → All
        (IsAnswered h (map of_current (retained workspace current) ++ map of_desired desired))
        (map of_desired desired)
unfolding mcp_graph_blockers
IsAnswered-of_ok_nil h workspace desired current e =
    let kept = map of_current (retained workspace current) in
    let wanted = map of_desired desired in
    let now = map of_current current in
    let (first, e1, h1) = bind-eq-ok (blockers_of h (kept ++ wanted) now false kept) _ [] e in
    let (others, e2, h2) = bind-eq-ok (blockers_of h (kept ++ wanted) now true wanted) _ [] h1 in
    let (_, others_nil) = append-eq-nil first others (ground (arith, h2)) in
    blockers_of-ok_nil h (kept ++ wanted) now wanted (rw others_nil at e2)

All-Any :
    (P : Subject → Type 0) (objects : List DesiredObject) (o : DesiredObject)
    → All P (map of_desired objects)
    → Any (λ x. x ≡ o) objects
    → P (of_desired o)
All-Any P [] o hs there = elim there [ ]
All-Any P (x ∷ xs) o (h, hs) (inl e) = subst (λ y. P (of_desired y)) e h
All-Any P (x ∷ xs) o (h, hs) (inr there) = All-Any P xs o hs there

-- If the dependency graph raises no blocker, then every dependency of a skill that the manifest asks
-- for has an object that answers it: an enabled one, which the manifest asks for, or which is there
-- and is not the workspace's own.
pub mcp_graph_blockers-ok_nil :
    (h : Host) (workspace : String) (desired : List DesiredObject) (current : List CurrentObject)
    (o : DesiredObject) (deps : List Dependency)
    → mcp_graph_blockers h workspace desired current ≡ ok []
    → Any (λ x. x ≡ o) desired
    → same_kind o.kind skill ≡ true
    → dependencies_of h o.state ≡ ok deps
    → All
        (λ dep.
          Any (Answers dep) (map of_current (retained workspace current) ++ map of_desired desired))
        deps
mcp_graph_blockers-ok_nil h workspace desired current o deps e there is_skill parsed =
    let final = map of_current (retained workspace current) ++ map of_desired desired in
    All-map_pred (λ dep. resolves final dep ≡ ok true) (λ dep. Any (Answers dep) final) deps
      (λ dep. resolves-ok_true final dep)
      (All-Any (IsAnswered h final) desired o (IsAnswered-of_ok_nil h workspace desired current e)
        there is_skill deps parsed)
