-- ===== src/Sdk/Replay/Once.antt =====
-- A key is accepted once until it expires, and the store keeps within its capacity.
use weldall.Prelude.{
  ℕ, ◌≤◌, ◌<◌, ◌≡◌, ◌≢◌, refl, ap, ◌∙◌, ◌⊎◌, inl, inr, String, Option, none, some, List, [], ◌∷◌,
  arith, Option-cases, length, All, eq_iff, lookup, lookup-insert, IsDistinct, IsDistinct-insert,
  length-insert_absent, ok, err,
}
use weldall.Sdk.Replay.{
  Store, Call, Reply, accepted, refused, sweep, admit, consume, run, Namespace, namespace_text,
  full, replay_detected, answer, in_namespace, consume_replay,
}
use weldall.Iac.Json.{◌+s◌}
use weldall.Sdk.Replay.Sweep.{
  lookup-sweep_fresh, lookup-sweep-none, lookup-sweep_expired, IsDistinct-sweep, length-sweep-le,
}

module _ (max_entries : ℕ) where
  -- What one call does to the store after the sweep: nothing, or one new key.
  admit-IsDistinct :
      (now : ℕ) (key : String) (t : Option ℕ) (values : Store)
      → IsDistinct values
      → IsDistinct (admit max_entries now key t values).1
  unfolding admit
  admit-IsDistinct now key none values d = d
  admit-IsDistinct now key (some t) values d = elim (Option-cases (lookup key values)) [
    | inr (x, e) ↦ ground (arith, e)
    | inl e ↦ ground (arith, e, IsDistinct-insert key t values d)
  ]

  length-admit-le :
      (now : ℕ) (key : String) (t : Option ℕ) (values : Store)
      → length values ≤ max_entries
      → length (admit max_entries now key t values).1 ≤ max_entries
  unfolding admit
  length-admit-le now key none values h = h
  length-admit-le now key (some t) values h = elim (Option-cases (lookup key values)) [
    | inr (x, e) ↦ ground (arith, e)
    | inl e ↦ ground (arith, e, length-insert_absent key t values e)
  ]

  admit_keeps :
      (now : ℕ) (key k : String) (t : Option ℕ) (x : ℕ) (values : Store)
      → lookup k values ≡ some x
      → lookup k (admit max_entries now key t values).1 ≡ some x
  unfolding admit
  admit_keeps now key k none x values h = h
  admit_keeps now key k (some t) x values h = elim (Option-cases (lookup key values)) [
    | inr (y, e) ↦ ground (arith, e)
    | inl e ↦ ground (arith, e, lookup-insert key k t values, eq_iff key k)
  ]

  admit_stores :
      (now : ℕ) (key : String) (t : ℕ) (values : Store)
      → (admit max_entries now key (some t) values).0 ≡ accepted
      → lookup key (admit max_entries now key (some t) values).1 ≡ some t
  unfolding admit
  admit_stores now key t values h = elim (Option-cases (lookup key values)) [
    | inr (y, e) ↦ ground (arith, e)
    | inl e ↦ ground (arith, e, lookup-insert key key t values, eq_iff key key)
  ]

  admit_known :
      (now : ℕ) (key : String) (t : Option ℕ) (x : ℕ) (values : Store)
      → lookup key values ≡ some x
      → (admit max_entries now key t values).0 ≡ refused
  unfolding admit
  admit_known now key none x values h = refl
  admit_known now key (some t) x values h = ground (arith, h)

  consume-IsDistinct :
      (c : Call) (values : Store) → IsDistinct values → IsDistinct (consume max_entries c values).1
  unfolding consume
  consume-IsDistinct c values d =
      admit-IsDistinct c.now c.key c.expires_at (sweep c.now values values)
        (IsDistinct-sweep c.now values values d)

  run-IsDistinct :
      (cs : List Call) (values : Store) → IsDistinct values → IsDistinct (run max_entries cs values)
  unfolding run
  run-IsDistinct [] values d = d
  run-IsDistinct (c ∷ cs) values d =
      run-IsDistinct cs (consume max_entries c values).1 (consume-IsDistinct c values d)

  consume_keeps :
      (c : Call) (values : Store) (k : String) (x : ℕ)
      → IsDistinct values
      → c.now < x
      → lookup k values ≡ some x
      → lookup k (consume max_entries c values).1 ≡ some x
  unfolding consume
  consume_keeps c values k x d p h =
      admit_keeps c.now c.key k c.expires_at x (sweep c.now values values)
        (lookup-sweep_fresh c.now values values k x d (inr h) p h)

  run_keeps :
      (cs : List Call) (values : Store) (k : String) (x : ℕ)
      → IsDistinct values
      → All (λ c. c.now < x) cs
      → lookup k values ≡ some x
      → lookup k (run max_entries cs values) ≡ some x
  unfolding run
  run_keeps [] values k x d ps h = h
  run_keeps (c ∷ cs) values k x d (p, ps) h =
      run_keeps cs (consume max_entries c values).1 k x (consume-IsDistinct c values d) ps
        (consume_keeps c values k x d p h)

  consume_stores :
      (c : Call) (values : Store) (t : ℕ)
      → c.expires_at ≡ some t
      → (consume max_entries c values).0 ≡ accepted
      → lookup c.key (consume max_entries c values).1 ≡ some t
  unfolding consume
  consume_stores c values t e h =
      rw e (admit_stores c.now c.key t (sweep c.now values values) (rw e at h))

  consume_known :
      (c : Call) (values : Store) (x : ℕ)
      → IsDistinct values
      → c.now < x
      → lookup c.key values ≡ some x
      → (consume max_entries c values).0 ≡ refused
  unfolding consume
  consume_known c values x d p h =
      admit_known c.now c.key c.expires_at x (sweep c.now values values)
        (lookup-sweep_fresh c.now values values c.key x d (inr h) p h)

  -- Whatever was consumed before and is consumed in between, a key that was accepted is refused
  -- until it expires.
  pub run-consume_refused :
      (before between : List Call) (first later : Call) (t : ℕ)
      → first.expires_at ≡ some t
      → (consume max_entries first (run max_entries before [])).0 ≡ accepted
      → All (λ c. c.now < t) between
      → later.key ≡ first.key
      → later.now < t
      → (consume max_entries later
          (run max_entries between (consume max_entries first (run max_entries before [])).1)).0
        ≡ refused
  run-consume_refused before between first later t e h ps same p =
      let start = run max_entries before [] in
      let distinct = consume-IsDistinct first start (run-IsDistinct before [] tt) in
      let after = (consume max_entries first start).1 in
      let stored =
        run_keeps between after first.key t distinct ps (consume_stores first start t e h) in
      consume_known later (run max_entries between after) t (run-IsDistinct between after distinct)
        p (ap (λ k. lookup k (run max_entries between after)) same ∙ stored)

  -- The store never holds more keys than its capacity.
  pub length-run-le :
      (cs : List Call) (values : Store)
      → length values ≤ max_entries
      → length (run max_entries cs values) ≤ max_entries
  unfolding run consume
  length-run-le [] values h = h
  length-run-le (c ∷ cs) values h = length-run-le cs (consume max_entries c values).1 (
      length-admit-le c.now c.key c.expires_at (sweep c.now values values)
        (omega (arith, length-sweep-le c.now values values)))

  admit-accepts :
      (now : ℕ) (key : String) (t : ℕ) (values : Store)
      → key ≢ ""
      → now < t
      → lookup key values ≡ none
      → length values < max_entries
      → (admit max_entries now key (some t) values).0 ≡ accepted
  unfolding admit
  admit-accepts now key t values ne p e room = ground (arith, e, eq_iff key "")

  -- A non-empty key with an expiry to come, which is new or has expired, is accepted while there is
  -- room.
  pub consume-accepts :
      (c : Call) (values : Store) (t : ℕ)
      → c.key ≢ ""
      → c.expires_at ≡ some t
      → c.now < t
      → (lookup c.key values ≡ none) ⊎ ((x : ℕ) × (lookup c.key values ≡ some x) × (x ≤ c.now))
      → length values < max_entries
      → (consume max_entries c values).0 ≡ accepted
  unfolding consume
  consume-accepts c values t ne e p unknown room =
      let gone : lookup c.key (sweep c.now values values) ≡ none = elim unknown [
        | inl h ↦ lookup-sweep-none c.now values values c.key h
        | inr (x, h, q) ↦ lookup-sweep_expired c.now values values c.key x h q
      ] in
      rw e (
        admit-accepts c.now c.key t (sweep c.now values values) ne p gone
          (omega (arith, length-sweep-le c.now values values)))

  answer-accepted : (r : Reply) → answer r ≡ ok tt → r ≡ accepted
  answer-accepted accepted h = refl
  answer-accepted refused h = cc
  answer-accepted full h = cc

  -- A token that passed in a namespace is a detected replay there until it expires, also when the
  -- store is full by then.
  pub consume_replay-detected :
      (before between : List Call) (namespace : Namespace) (first later : Call) (t : ℕ)
      → first.expires_at ≡ some t
      → (consume_replay max_entries namespace first (some (run max_entries before []))).0 ≡ ok tt
      → All (λ c. c.now < t) between
      → later.key ≡ first.key
      → later.now < t
      → (consume_replay max_entries namespace later (
          some (
            run max_entries between
              (consume max_entries
                (in_namespace namespace first)
                (run max_entries before [])).1))).0
        ≡ err replay_detected
  unfolding consume_replay
  consume_replay-detected before between namespace first later t e h ps same p =
      let start = run max_entries before [] in
      let passed = answer-accepted (consume max_entries (in_namespace namespace first) start).0 h in
      ap answer (
        run-consume_refused before between (in_namespace namespace first)
          (in_namespace namespace later) t e passed ps
          (ap (λ k. namespace_text namespace +s ":" +s k) same) p)
