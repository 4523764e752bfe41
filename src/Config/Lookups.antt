-- ===== src/Config/Lookups.antt =====
-- `GetRule`, `GetEndpoint`, `GetTransport` and `GetScheduledRules` of internal/config/config.go on a
-- configuration that `Validate` accepts.
use syncrules.Prelude.{
  Text, text_eq, text_iff, Bool, true, none, some, List, [], ◌∷◌, ◌==◌, ok, ◌≡◌, ◌≢◌, ◌↔◌, inl, inr,
  refl, arith, Member, Member-All, Bool-cases, text_ne,
}
use syncrules.Domain.{
  Error, transport_not_found, endpoint_not_found, invalid_rule, Transport, transport_is_valid,
  Endpoint, SyncRule,
}
use syncrules.Config.{
  Config, find_named, get_transport, get_endpoint, get_rule, scheduled_rules, get_scheduled_rules,
  is_scheduled, validate, enabled_rules, get_enabled_rules,
}
use syncrules.Config.Loops.{Named, DistinctNames}
use syncrules.Config.Consistency.{
  transport_name, endpoint_name, rule_name, TransportIsValid, EndpointIsValid, RuleIsValid,
  IsConsistent, validate-IsConsistent,
}

module _ {A : Type 0} (name : A → Text) (missing : Error) where
  -- A name of the list is found.
  find_named-Named :
      (k : Text) (xs : List A)
      → Named name k xs
      → (x : A) × (find_named name missing k xs ≡ ok x) × Member x xs
  unfolding find_named
  find_named-Named k [] n = absurd n
  find_named-Named k (x ∷ xs) n = elim (Bool-cases (name x == k)) [
    | inl e ↦ (x, ground arith, inl refl)
    | inr e ↦ elim n [
      | inl q ↦ absurd (text_ne (name x) k e q)
      | inr q ↦ let found = find_named-Named k xs q in (found.0, ground arith, inr found.2)
    ]
  ]

  Member-Named : (x : A) (xs : List A) → Member x xs → Named name (name x) xs
  Member-Named x [] m = absurd m
  Member-Named x (y ∷ xs) (inl e) = inl (rw e refl)
  Member-Named x (y ∷ xs) (inr m) = inr (Member-Named x xs m)

  name_differs :
      (x y : A) (xs : List A) → (¬ Named name (name y) xs) → Member x xs → name y ≢ name x
  name_differs x y xs fresh m e = fresh (rw e (Member-Named x xs m))

  -- Where the names are distinct, each thing is found by its own name.
  find_named-Member :
      (x : A) (xs : List A)
      → DistinctNames name xs
      → Member x xs
      → find_named name missing (name x) xs ≡ ok x
  unfolding find_named
  find_named-Member x [] d m = absurd m
  find_named-Member x (y ∷ xs) (fresh, d) (inl e) = ground (arith, text_iff (name y) (name x))
  find_named-Member x (y ∷ xs) (fresh, d) (inr m) =
      ground
        (arith, text_iff (name y) (name x), name_differs x y xs fresh m, find_named-Member x xs d m)

Member-scheduled_rules :
    (r : SyncRule) (rules : List SyncRule)
    → Member r (scheduled_rules rules) ↔ (Member r rules × (is_scheduled r ≡ true))
unfolding scheduled_rules
Member-scheduled_rules r [] = ground arith
Member-scheduled_rules r (x ∷ rules) = ground (arith, Member-scheduled_rules r rules)

-- An endpoint that is found, has a root, and whose transport is found and of a known type.
abbrev pub Opens : Config → Text → Type 0
Opens c k =
    (e : Endpoint) × (t : Transport) × (get_endpoint c k ≡ ok e)
    × (get_transport c e.transport ≡ ok t)
    × (transport_is_valid t.type ≡ true)
    × (e.root ≢ [])

endpoint-Opens :
    (duration_ok : Text → Bool) (c : Config) (k : Text)
    → IsConsistent duration_ok c
    → Named endpoint_name k c.endpoints
    → Opens c k
unfolding get_endpoint get_transport
endpoint-Opens duration_ok c k (ts, _, es, _, _, _, _, _) n =
    let e = find_named-Named endpoint_name endpoint_not_found k c.endpoints n in
    let good = Member-All (EndpointIsValid c.transports) c.endpoints e.0 es e.2 in
    let t = find_named-Named transport_name transport_not_found e.0.transport c.transports good.1 in
    (e.0, t.0, e.1, t.1, (Member-All TransportIsValid c.transports t.0 ts t.2).1, good.2)

-- After a successful validation, each rule is found by its name, both of its endpoints are found with
-- a root, and their transports are found and of a known type.
pub validate-Opens :
    (duration_ok : Text → Bool) (c : Config) (r : SyncRule)
    → validate duration_ok c ≡ none
    → Member r c.rules
    → (get_rule c r.name ≡ ok r) × Opens c r.source_endpoint × Opens c r.target_endpoint
unfolding get_rule
validate-Opens duration_ok c r v m =
    let good = (validate-IsConsistent duration_ok c).0 v in
    let rule = Member-All (RuleIsValid c.endpoints) c.rules r good.4 m in
    (
      find_named-Member rule_name invalid_rule r c.rules good.5 m,
      endpoint-Opens duration_ok c r.source_endpoint good rule.1,
      endpoint-Opens duration_ok c r.target_endpoint good rule.2,
    )

abbrev pub ScheduleIsEnabled : SyncRule → Type 0
ScheduleIsEnabled r = elim r.schedule [ some s ↦ s.enabled ≡ true | none ↦ Unit ]

Member-enabled_rules :
    (r : SyncRule) (rules : List SyncRule)
    → Member r (enabled_rules rules) ↔ (Member r rules × (r.enabled ≡ true))
unfolding enabled_rules
Member-enabled_rules r [] = ground arith
Member-enabled_rules r (x ∷ rules) = ground (arith, Member-enabled_rules r rules)

is_scheduled_lem :
    (r : SyncRule) → (is_scheduled r ≡ true) ↔ ((r.enabled ≡ true) × ScheduleIsEnabled r)
unfolding is_scheduled
is_scheduled_lem r = ground arith

-- The scheduler's rules are exactly the enabled rules of the configuration whose own schedule, if they
-- have one, is enabled too.
pub get_scheduled_rules-Member :
    (c : Config) (r : SyncRule)
    → Member r (get_scheduled_rules c) ↔ (Member r (get_enabled_rules c) × ScheduleIsEnabled r)
unfolding get_scheduled_rules get_enabled_rules
get_scheduled_rules-Member c r =
    ground
      (arith, Member-scheduled_rules r c.rules, Member-enabled_rules r c.rules, is_scheduled_lem r)
