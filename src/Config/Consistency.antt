-- ===== src/Config/Consistency.antt =====
-- What `Config.Validate` of internal/config/config.go accepts.
use syncrules.Prelude.{
  Text, text_eq, text_iff, Bool, true, none, some, List, [], ◌∷◌, ◌≡◌, ◌≢◌, ◌↔◌, inl, inr, arith,
  All,
}
use syncrules.Prelude.Dict.{Dict}
use syncrules.Domain.{Transport, transport_is_valid, Endpoint, SyncRule, validate as validate_rule}
use syncrules.Config.{
  Config, marked, check_transport, check_endpoint, check_rule, check_transports, check_endpoints,
  check_rules, interval_ok, check_intervals, check_durations, validate,
}
use syncrules.Config.Loops.{
  Named, DistinctNames, Checks, mark_all, marked-mark_all, marked-nil, validate_loop-cases,
}

abbrev pub transport_name : Transport → Text
transport_name t = t.name

abbrev pub endpoint_name : Endpoint → Text
endpoint_name e = e.name

abbrev pub rule_name : SyncRule → Text
rule_name r = r.name

-- A transport has a name and a known type.
abbrev pub TransportIsValid : Transport → Type 0
TransportIsValid t = (t.name ≢ []) × (transport_is_valid t.type ≡ true)

-- An endpoint has a name, a transport of the list and a root.
abbrev pub EndpointIsValid : List Transport → Endpoint → Type 0
EndpointIsValid transports e =
    (e.name ≢ []) × Named transport_name e.transport transports × (e.root ≢ [])

-- A rule has a name, joins endpoints of the list, and is valid in itself.
abbrev pub RuleIsValid : List Endpoint → SyncRule → Type 0
RuleIsValid endpoints r =
    (r.name ≢ [])
    × Named endpoint_name r.source_endpoint endpoints
    × Named endpoint_name r.target_endpoint endpoints
    × (validate_rule r ≡ none)

check_transport_lem :
    (t : Transport) → (check_transport t ≡ none) ↔ (transport_is_valid t.type ≡ true)
unfolding check_transport
check_transport_lem t = ground arith

check_endpoint_lem :
    (names : Dict Bool) (e : Endpoint)
    → (check_endpoint names e ≡ none)
      ↔ ((e.transport ≢ []) × (marked e.transport names ≡ true) × (e.root ≢ []))
unfolding check_endpoint
check_endpoint_lem names e = ground (arith, text_iff e.transport [], text_iff e.root [])

check_rule_lem :
    (names : Dict Bool) (r : SyncRule)
    → (check_rule names r ≡ none) ↔ (
        (marked r.source_endpoint names ≡ true)
        × (marked r.target_endpoint names ≡ true)
        × (validate_rule r ≡ none))
unfolding check_rule
check_rule_lem names r = ground arith

-- A name of a thing that passed is not empty.
Named-Passes :
    {A : Type 0} (name : A → Text) (P : A → Type 0) (k : Text) (xs : List A)
    → All (λ x. (name x ≢ []) × P x) xs
    → Named name k xs
    → k ≢ []
Named-Passes name P k [] all n = absurd n
Named-Passes name P k (x ∷ xs) (p, ps) (inl e) = ground arith
Named-Passes name P k (x ∷ xs) (p, ps) (inr n) = Named-Passes name P k xs ps n

check_transports_lem :
    (ts : List Transport) → Checks transport_name (check_transports ts) ts (All TransportIsValid ts)
unfolding check_transports
check_transports_lem ts =
    validate_loop-cases transport_name _ _ check_transport ts TransportIsValid
      (λ t. ground (arith, check_transport_lem t))

check_endpoints_lem :
    (ts : List Transport) (es : List Endpoint)
    → All TransportIsValid ts
    → Checks endpoint_name
        (check_endpoints (mark_all transport_name [] ts) es)
        es
        (All (EndpointIsValid ts) es)
unfolding check_endpoints
check_endpoints_lem ts es h =
    validate_loop-cases endpoint_name _ _ (check_endpoint (mark_all transport_name [] ts)) es
      (EndpointIsValid ts)
      (λ e. ground (
        arith,
        check_endpoint_lem (mark_all transport_name [] ts) e,
        marked-mark_all transport_name e.transport [] ts,
        marked-nil e.transport,
        Named-Passes transport_name (λ t. transport_is_valid t.type ≡ true) e.transport ts h,
      ))

check_rules_lem :
    (es : List Endpoint) (rs : List SyncRule)
    → Checks rule_name (check_rules (mark_all endpoint_name [] es) rs) rs (All (RuleIsValid es) rs)
unfolding check_rules
check_rules_lem es rs =
    validate_loop-cases rule_name _ _ (check_rule (mark_all endpoint_name [] es)) rs
      (RuleIsValid es)
      (λ r. ground (
        arith,
        check_rule_lem (mark_all endpoint_name [] es) r,
        marked-mark_all endpoint_name r.source_endpoint [] es,
        marked-mark_all endpoint_name r.target_endpoint [] es,
        marked-nil r.source_endpoint,
        marked-nil r.target_endpoint,
      ))

module _ (duration_ok : Text → Bool) where
  -- The interval of a schedule is empty or a duration.
  abbrev pub IntervalIsValid : SyncRule → Type 0
  IntervalIsValid r = elim r.schedule [
    | none ↦ Unit
    | some s ↦ interval_ok duration_ok s.interval ≡ true
  ]

  check_intervals_lem :
      (rules : List SyncRule)
      → (check_intervals duration_ok rules ≡ none) ↔ All IntervalIsValid rules
  unfolding check_intervals
  check_intervals_lem [] = ground arith
  check_intervals_lem (r ∷ rules) = ground (arith, check_intervals_lem rules)

  -- What the configuration file must fulfil.
  abbrev pub IsConsistent : Config → Type 0
  IsConsistent c =
      All TransportIsValid c.transports
      × DistinctNames transport_name c.transports
      × All (EndpointIsValid c.transports) c.endpoints
      × DistinctNames endpoint_name c.endpoints
      × All (RuleIsValid c.endpoints) c.rules
      × DistinctNames rule_name c.rules
      × (interval_ok duration_ok c.scheduler.default_interval ≡ true)
      × All IntervalIsValid c.rules

  check_durations_lem :
      (c : Config)
      → (check_durations duration_ok c ≡ none) ↔ (
          (interval_ok duration_ok c.scheduler.default_interval ≡ true)
          × All IntervalIsValid c.rules)
  unfolding check_durations
  check_durations_lem c = ground (arith, check_intervals_lem c.rules)

  -- Validate accepts exactly the configurations in which every thing has a name of its own and is
  -- valid, every endpoint refers to a transport, every rule to endpoints, and every interval is a duration.
  pub validate-IsConsistent : (c : Config) → (validate duration_ok c ≡ none) ↔ IsConsistent c
  unfolding validate
  validate-IsConsistent c = ground (
    arith,
    check_transports_lem c.transports,
    check_endpoints_lem c.transports c.endpoints,
    check_rules_lem c.endpoints c.rules,
    check_durations_lem c,
  )
