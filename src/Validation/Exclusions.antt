-- ===== src/Validation/Exclusions.antt =====
-- `isTargetExcluded` against a description of when a rule applies.
use mathlib.Core.Bool.{and-eq-true_iff, or-true}
use arka.Prelude.{
  ◌≡◌, refl, sym, ap, ◌∙◌, ◌≢◌, ◌↔◌, ◌⊎◌, inl, inr, Bool, true, false, ◌&&◌, ◌||◌, Option, none,
  some, List, [], ◌∷◌, ◌++◌, arith, Text, codes, ℤ, pos, int_eq, int_eq_iff, Any, any, any_sound,
  any_complete, any-append, Any-map, Bool-cases, or_else, trim, to_lower_case, is_some, starts_with,
  starts_with_sound, ends_with, ends_with_sound, ends_with-append, text_eq, text_eq_iff,
  text_eq_refl, drop, any-Any, or-cases,
}
use arka.Validation.{
  ExclusionRules, ScopeOrExclusions, rules, scope, exclusion_rules, port_given, extract_port,
  port_excluded, clean_host_matches, host_matches, check_cidrs, check_hosts, check_rules,
  is_target_excluded, ip_in_cidr,
}

check_cidrs-excluded :
    (clean : Text) (cidrs : List Text)
    → (check_cidrs clean cidrs).excluded ≡ any (ip_in_cidr clean) cidrs
unfolding check_cidrs
check_cidrs-excluded clean [] = refl
check_cidrs-excluded clean (cidr ∷ cidrs) = ground (arith, check_cidrs-excluded clean cidrs)

check_hosts-excluded :
    (target clean : Text) (hosts cidrs : List Text)
    → (check_hosts target clean hosts cidrs).excluded
      ≡ (any (host_matches clean) hosts || any (ip_in_cidr clean) cidrs)
unfolding check_hosts
check_hosts-excluded target clean [] cidrs = check_cidrs-excluded clean cidrs
check_hosts-excluded target clean (h ∷ hosts) cidrs =
    ground (arith, check_hosts-excluded target clean hosts cidrs)

-- Whether some rule of the set applies to the target with that port.
abbrev pub rule_applies : Text → Option ℤ → ExclusionRules → Bool
rule_applies clean port r =
    port_excluded (or_else r.ports []) port
    || (any (host_matches clean) (or_else r.hostnames [])
        || any (ip_in_cidr clean) (or_else r.cidr_blocks []))

check_rules-excluded :
    (target clean : Text) (port : Option ℤ) (r : ExclusionRules)
    → (check_rules target clean port r).excluded ≡ rule_applies clean port r
unfolding check_rules
check_rules-excluded target clean port r =
    ground
      (arith, check_hosts-excluded target clean (or_else r.hostnames []) (or_else r.cidr_blocks []))

-- The target and the port that the rules are compared with.
abbrev pub subject : Text → Option ℤ → Text × Option ℤ
subject target explicit = extract_port (to_lower_case (trim target)) explicit

pub is_target_excluded-excluded :
    (target : Text) (s : ScopeOrExclusions) (explicit : Option ℤ)
    → (is_target_excluded target s explicit).excluded
      ≡ rule_applies (subject target explicit).0 (subject target explicit).1 (exclusion_rules s)
unfolding is_target_excluded
is_target_excluded-excluded target s explicit =
    check_rules-excluded target (subject target explicit).0 (subject target explicit).1
      (exclusion_rules s)

-- The port is given, is not 0, and is listed.
abbrev pub PortListed : Option ℤ → List ℤ → Type 0
PortListed none ports = ⊥
PortListed (some p) ports = (p ≢ pos 0) × Any (λ x. p ≡ x) ports

-- A hostname rule in its clean form is the target itself; or it is "*." and a domain, and the
-- target is the domain, or some text, a dot and the domain.
pub data HostRule (clean rule : Text) : Type 0 where
  exact : starts_with rule (codes "*.") ≡ false → clean ≡ rule → HostRule clean rule
  apex : rule ≡ codes "*." ++ clean → HostRule clean rule
  subdomain :
      (name domain : Text)
      → rule ≡ codes "*." ++ domain
      → clean ≡ name ++ (codes "." ++ domain)
      → HostRule clean rule

wildcard_sound :
    (clean rule domain : Text)
    → rule ≡ codes "*." ++ domain
    → (ends_with clean (drop 1 rule) || text_eq clean (drop 2 rule)) ≡ true
    → HostRule clean rule
wildcard_sound clean rule domain e h =
    elim (or-cases (ends_with clean (drop 1 rule)) (text_eq clean (drop 2 rule)) h) [
      | inl sub ↦
          let (name, k) = ends_with_sound clean (drop 1 rule) sub in
          subdomain name domain e (k ∙ ap (λ t. name ++ drop 1 t) e)
      | inr same ↦
          apex (e ∙ ap (λ t. codes "*." ++ t) (sym ((text_eq_iff _ _).0 same ∙ ap (drop 2) e)))
    ]

clean_host_matches_sound :
    (clean rule : Text) → clean_host_matches clean rule ≡ true → HostRule clean rule
unfolding clean_host_matches
clean_host_matches_sound clean rule h = elim (Bool-cases (starts_with rule (codes "*."))) [
  | inl wild ↦
      let (domain, e) = starts_with_sound rule (codes "*.") wild in
      wildcard_sound clean rule domain e (rw wild at h)
  | inr plain ↦ exact plain ((text_eq_iff _ _).0 (rw plain at h))
]

clean_host_matches_complete :
    (clean rule : Text) → HostRule clean rule → clean_host_matches clean rule ≡ true
unfolding clean_host_matches
clean_host_matches_complete clean rule (exact plain e) = rw plain ((text_eq_iff _ _).1 e)
clean_host_matches_complete clean rule (apex e) = rw (e, text_eq_refl clean) (or-true _)
clean_host_matches_complete clean rule (subdomain name domain e k) =
    rw (e, k, ends_with-append name (codes "." ++ domain))

host_matches_sound :
    (clean rule : Text)
    → host_matches clean rule ≡ true
    → HostRule clean (to_lower_case (trim rule))
unfolding host_matches
host_matches_sound clean rule h = clean_host_matches_sound clean _ h

host_matches_complete :
    (clean rule : Text)
    → HostRule clean (to_lower_case (trim rule))
    → host_matches clean rule ≡ true
unfolding host_matches
host_matches_complete clean rule h = clean_host_matches_complete clean _ h

-- When the rules apply to a target and a port, said without the loops.
abbrev pub Applies : Text → Option ℤ → ExclusionRules → Type 0
Applies clean port r =
    PortListed port (or_else r.ports [])
    ⊎ (Any (λ h. HostRule clean (to_lower_case (trim h))) (or_else r.hostnames [])
        ⊎ Any (λ c. ip_in_cidr clean c ≡ true) (or_else r.cidr_blocks []))

port_excluded_sound :
    (ports : List ℤ) (port : Option ℤ) → port_excluded ports port ≡ true → PortListed port ports
unfolding port_excluded
port_excluded_sound ports none h = cc
port_excluded_sound ports (some p) h =
    let (given, listed) = (and-eq-true_iff _ _).0 h in
    (
      λ e. not_zero p given e,
      Any-map (λ x k. (int_eq_iff p x).0 k) ports (any_sound (int_eq p) ports listed),
    )
  where
    not_zero : (p : ℤ) → port_given (some p) ≡ true → p ≢ pos 0
    not_zero p h e = cc (rw e at h)

port_excluded_complete :
    (ports : List ℤ) (port : Option ℤ) → PortListed port ports → port_excluded ports port ≡ true
unfolding port_excluded
port_excluded_complete ports none h = elim h [ ]
port_excluded_complete ports (some p) (nonzero, listed) =
    rw (any-Any (λ x. p ≡ x) (int_eq p) (λ x e. (int_eq_iff p x).1 e) ports listed)
      (given p nonzero)
  where
    given : (p : ℤ) → p ≢ pos 0 → (port_given (some p) && true) ≡ true
    given p h = ground (arith, int_eq_iff p (pos 0))

rule_applies_sound :
    (clean : Text) (port : Option ℤ) (r : ExclusionRules)
    → rule_applies clean port r ≡ true
    → Applies clean port r
rule_applies_sound clean port r h = elim (or-cases _ _ h) [
  | inl listed ↦ inl (port_excluded_sound _ port listed)
  | inr rest ↦ elim (or-cases _ _ rest) [
    | inl host ↦
        inr (inl (Any-map (host_matches_sound clean) _ (any_sound (host_matches clean) _ host)))
    | inr cidr ↦ inr (inr (any_sound (ip_in_cidr clean) _ cidr))
  ]
]

rule_applies_complete :
    (clean : Text) (port : Option ℤ) (r : ExclusionRules)
    → Applies clean port r
    → rule_applies clean port r ≡ true
rule_applies_complete clean port r (inl listed) = rw (port_excluded_complete _ port listed)
rule_applies_complete clean port r (inr (inl host)) =
    rw (any-Any _ (host_matches clean) (host_matches_complete clean) _ host) (or-true _)
rule_applies_complete clean port r (inr (inr cidr)) =
    rw
      (
        any_complete (ip_in_cidr clean) _ cidr,
        or-true (any (host_matches clean) (or_else r.hostnames [])),
      )
      (or-true _)

-- A target is excluded exactly when its port is a listed one (and not 0), or a hostname rule is
-- its name, its domain or a wildcard above it, or `ip_in_cidr` holds for it and a CIDR rule.
pub is_target_excluded_iff :
    (target : Text) (s : ScopeOrExclusions) (explicit : Option ℤ)
    → ((is_target_excluded target s explicit).excluded ≡ true)
      ↔ Applies (subject target explicit).0 (subject target explicit).1 (exclusion_rules s)
is_target_excluded_iff target s explicit =
    rw (is_target_excluded-excluded target s explicit)
      (rule_applies_sound _ _ (exclusion_rules s), rule_applies_complete _ _ (exclusion_rules s))

-- The rules of `r` with more entries.
abbrev pub add_rules : ExclusionRules → List ℤ → List Text → List Text → ExclusionRules
add_rules r ports hosts cidrs = record r {
  ports = some (or_else r.ports [] ++ ports);
  hostnames = some (or_else r.hostnames [] ++ hosts);
  cidr_blocks = some (or_else r.cidr_blocks [] ++ cidrs);
}

rule_applies-add_rules :
    (clean : Text) (port : Option ℤ) (r : ExclusionRules) (ports : List ℤ) (hosts cidrs : List Text)
    → rule_applies clean port r ≡ true
    → rule_applies clean port (add_rules r ports hosts cidrs) ≡ true
unfolding port_excluded
rule_applies-add_rules clean none r ports hosts cidrs h =
    rw (any-append (host_matches clean), any-append (ip_in_cidr clean)) (ground arith)
rule_applies-add_rules clean (some p) r ports hosts cidrs h =
    rw (any-append (int_eq p), any-append (host_matches clean), any-append (ip_in_cidr clean))
      (ground arith)

-- Exclusions only add up: a target that is excluded stays excluded under any further entries.
pub is_target_excluded-add_rules :
    (target : Text) (r : ExclusionRules) (explicit : Option ℤ) (ports : List ℤ)
    (hosts cidrs : List Text)
    → (is_target_excluded target (rules r) explicit).excluded ≡ true
    → (is_target_excluded target (scope (add_rules r ports hosts cidrs)) explicit).excluded ≡ true
unfolding exclusion_rules
is_target_excluded-add_rules target r explicit ports hosts cidrs h =
    is_target_excluded-excluded target (scope (add_rules r ports hosts cidrs)) explicit
    ∙ rule_applies-add_rules _ _ r ports hosts cidrs
        (sym (is_target_excluded-excluded target (rules r) explicit) ∙ h)

check_cidrs-reason :
    (clean : Text) (cidrs : List Text)
    → is_some (check_cidrs clean cidrs).reason ≡ (check_cidrs clean cidrs).excluded
unfolding check_cidrs
check_cidrs-reason clean [] = refl
check_cidrs-reason clean (c ∷ cs) = ground (arith, check_cidrs-reason clean cs)

check_hosts-reason :
    (target clean : Text) (hosts cidrs : List Text)
    → is_some (check_hosts target clean hosts cidrs).reason
      ≡ (check_hosts target clean hosts cidrs).excluded
unfolding check_hosts
check_hosts-reason target clean [] cidrs = check_cidrs-reason clean cidrs
check_hosts-reason target clean (h ∷ hs) cidrs =
    ground (arith, check_hosts-reason target clean hs cidrs)

-- A verdict has a reason exactly when it excludes.
pub is_target_excluded-reason :
    (target : Text) (s : ScopeOrExclusions) (explicit : Option ℤ)
    → is_some (is_target_excluded target s explicit).reason
      ≡ (is_target_excluded target s explicit).excluded
unfolding is_target_excluded check_rules
is_target_excluded-reason target s explicit = ground (
  arith,
  check_hosts-reason target (subject target explicit).0 (or_else (exclusion_rules s).hostnames [])
      (or_else (exclusion_rules s).cidr_blocks []),
)
