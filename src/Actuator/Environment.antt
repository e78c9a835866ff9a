-- ===== src/Actuator/Environment.antt =====
-- actuator/executor.py: the clients, the namespace and the dry-run switch, which it takes from the
-- environment of the process.
use samsung.Prelude.{
  ◌≡◌, refl, ap, ◌∙◌, not, every, arith, ℕ, ◌+◌, Bool, true, false, ◌&&◌, ◌||◌, Option, none, some,
  [], ◌∷◌, Text, codes, contains, leb, ◌==◌, nonempty, or_else, if◌then◌else◌,
}
use samsung.Schemas.{Target, Actions}
use samsung.Actuator.Cluster.{loaded, config_exception, other_exception, Cluster, IsReadOnly}

-- whitespace and upper case, of ASCII
abbrev pub is_space : ℕ → Bool
is_space c = (c == 32) || (leb 9 c && leb c 13)

abbrev to_lower : ℕ → ℕ
to_lower c = if leb b'A' c && leb c b'Z' then c + 32 else c

lstrip : Text → Text
lstrip [] = []
lstrip (c ∷ s) = if is_space c then lstrip s else c ∷ s

all_space : Text → Bool
all_space [] = true
all_space (c ∷ s) = is_space c && all_space s

rstrip : Text → Text
unfolding all_space
rstrip [] = []
rstrip (c ∷ s) = if all_space (c ∷ s) then [] else c ∷ rstrip s

unfoldable pub strip : Text → Text
unfolding lstrip rstrip
strip s = rstrip (lstrip s)

-- A text without white space is left as it is.
pub strip_none : (s : Text) → every (λ c. not (is_space c)) s ≡ true → strip s ≡ s
unfolding strip every
strip_none s h = ap rstrip (lstrip_none s h) ∙ rstrip_none s h
  where
    lstrip_none : (s : Text) → every (λ c. not (is_space c)) s ≡ true → lstrip s ≡ s
    lstrip_none [] h = unfold lstrip in refl
    lstrip_none (c ∷ s) h = unfold lstrip in ground arith

    rstrip_none : (s : Text) → every (λ c. not (is_space c)) s ≡ true → rstrip s ≡ s
    rstrip_none [] h = unfold rstrip in refl
    rstrip_none (c ∷ s) h = unfold rstrip all_space in ground (arith, rstrip_none s)

pub lower : Text → Text
lower [] = []
lower (c ∷ s) = to_lower c ∷ lower s

-- `s.strip().lower()`
unfoldable pub trimmed_lower : Text → Text
unfolding strip lower
trimmed_lower s = lower (strip s)

-- a text that is set and not empty
abbrev pub present : Option Text → Option Text
present none = none
present (some s) = if nonempty s then some s else none

-- `env in ("1", "true", "yes", "on")`
pub is_switch : Text → Bool
unfolding lower strip
is_switch s = contains (lower (strip s)) (codes "1" ∷ codes "true" ∷ codes "yes" ∷ codes "on" ∷ [])

-- The process: the world that its calls see, and whether the two clients are cached.
pub record Process (W : Type 0) : Type 0 where
  pub world : W
  pub clients_cached : Bool

module _ {W X : Type 0} (c : Cluster W X) where
  unfoldable pub is_dry_run : Actions → W → Bool
  unfolding is_switch
  is_dry_run actions w = elim actions.dry_run [
    | some b ↦ b
    | none ↦ is_switch (or_else (c.dry_run_variable w) [])
  ]

  -- the content of the namespace file, or "default"
  file_namespace : Option Text → Text
  unfolding strip
  file_namespace none = codes "default"
  file_namespace (some content) =
      if nonempty (strip content) then strip content else codes "default"

  pub resolve_namespace : Target → W → Text
  unfolding file_namespace
  resolve_namespace target w = elim (present target.namespace) [
    | some ns ↦ ns
    | none ↦ file_namespace (c.namespace_file w)
  ]

  -- both configurations in turn; the text is that of the exception that gets out
  load_config : W → Option Text × W
  load_config w =
      let (r, w') = c.load_incluster_config w in
      elim r [
        | loaded ↦ (none, w')
        | other_exception message ↦ (some message, w')
        | config_exception _ ↦
            let (r', w'') = c.load_kube_config w' in
            elim r' [
              | loaded ↦ (none, w'')
              | config_exception message ↦ (some message, w'')
              | other_exception message ↦ (some message, w'')
            ]
      ]

  -- `_load_clients`
  pub load_clients : Process W → Option Text × Process W
  unfolding load_config
  load_clients p =
      let (failure, w') = load_config p.world in
      if p.clients_cached then (none, p) else (
        failure,
        record { world = w'; clients_cached = elim failure [ none ↦ true | some _ ↦ false ] },
      )

  load_config_keeps : IsReadOnly c → (w : W) → (load_config w).1 ≡ w
  unfolding load_config
  load_config_keeps reads w =
      ground (arith, reads.incluster_keeps w, reads.kube_keeps (c.load_incluster_config w).1)

  -- loading the clients leaves the world as it was
  pub load_clients_keeps : IsReadOnly c → (p : Process W) → (load_clients p).1.world ≡ p.world
  unfolding load_clients
  load_clients_keeps reads p = ground (arith, load_config_keeps reads p.world)
