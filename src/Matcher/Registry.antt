-- ===== src/Matcher/Registry.antt =====
-- `ProblemMatcherRegistry` of crates/gitzero-agent/src/problem_matcher.rs. Each operation gives the
-- registry afterwards, also where it fails.
use gitzero.Prelude.Sets.{member, insert_element, Set}
use gitzero.Prelude.Utf8.{byte_len}
use gitzero.Matcher.Lines.{or}
use gitzero.Prelude.Result.{ok_or, ok, err, ◌>>=◌, Result}
use gitzero.Prelude.Split.{filter, is_empty}
use gitzero.Matcher.Patterns.{
  duplicate_owner, unavailable, invalid_file_path, too_many_in_file, too_many_in_job, compile,
  validate_owner, ProblemMatcherConfig, is_break, MatcherError, ProblemMatcher, Regexes,
}
use gitzero.Prelude.Map.{get, insert, Map}
use gitzero.Prelude.{
  Bool, List, Option, Text, [], any, eq_ignore_ascii_case, false, if◌then◌else◌, leb, length, ltb,
  nat_beq, nat_key, none, not, some, text_key, to_ascii_lowercase, true, ℕ, ◌&&◌, ◌++◌, ◌+◌, ◌==◌,
  ◌||◌, ◌∷◌,
}

abbrev pub max_per_config : ℕ
max_per_config = 32

abbrev pub max_per_job : ℕ
max_per_job = 128

pub record ProblemMatcherRegistry (Regex : Type 0) : Type 0 where
  pub fallback_workspace : Option Text
  pub workspaces : Map Text Text
  pub matcher_root : Option Text
  pub scopes : Map Text (List (ProblemMatcher Regex))

abbrev pub owner_of : {Regex : Type 0} → ProblemMatcher Regex → Text
owner_of m = to_ascii_lowercase m.owner

-- strip_ansi_color: the escape, a bracket, digits and semicolons, and an `m` if there is one. The
-- flag says that a color is being read.
abbrev pub is_color_digit : ℕ → Bool
is_color_digit c = (leb b'0' c && leb c b'9') || nat_beq c b';'

unfoldable pub strip_color : Bool → Text → Text
strip_color inside [] = []
strip_color inside (c ∷ []) = if inside && (is_color_digit c || nat_beq c b'm') then [] else c ∷ []
strip_color inside (c ∷ d ∷ s) = elim (inside && is_color_digit c) [
  | true ↦ strip_color true (d ∷ s)
  | false ↦ elim (inside && nat_beq c b'm') [
    | true ↦ strip_color false (d ∷ s)
    | false ↦ elim (nat_beq c 27 && nat_beq d b'[') [
      | true ↦ strip_color true s
      | false ↦ c ∷ strip_color false (d ∷ s)
    ]
  ]
]

unfoldable pub strip_ansi_color : Text → Text
unfolding strip_color
strip_ansi_color line = strip_color false line

module _ {Regex Captures : Type 0} (p : Regexes Regex Captures) where
  unfoldable pub register_workspace :
      Text → Text → ProblemMatcherRegistry Regex → ProblemMatcherRegistry Regex
  unfolding insert
  register_workspace scope workspace registry = record registry {
    workspaces = insert scope workspace registry.workspaces;
  }

  unfoldable pub workspace : Text → ProblemMatcherRegistry Regex → Option Text
  unfolding get
  workspace scope registry = or (get scope registry.workspaces) registry.fallback_workspace

  abbrev pub is_bad_path : Text → Bool
  is_bad_path path = is_empty path || ltb 4096 (byte_len path) || any is_break path

  -- What is read of the file, inside the root: its checks and its JSON are the file system's and
  -- serde_json's.
  module _ (load : Text → Text → Text → Result MatcherError (List ProblemMatcherConfig)) where
    unfoldable pub read_config :
        Text → Text → ProblemMatcherRegistry Regex → Result MatcherError (List ProblemMatcherConfig)
    unfolding workspace
    read_config scope path registry = if is_bad_path path then err invalid_file_path else do
      folder ← ok_or (workspace scope registry) unavailable
      root ← ok_or registry.matcher_root unavailable
      load folder root path

    -- The matchers of a file, with the owners so far.
    unfoldable pub compile_all :
        List ProblemMatcherConfig → Set → Result MatcherError (List (ProblemMatcher Regex))
    unfolding compile insert_element
    compile_all [] owners = ok []
    compile_all (config ∷ configs) owners = do
      compiled ← compile p config
      if member (owner_of compiled) owners then err duplicate_owner else do
        rest ← compile_all configs (insert_element (owner_of compiled) owners)
        ok (compiled ∷ rest)

    abbrev pub is_owned_by : List (ProblemMatcher Regex) → ProblemMatcher Regex → Bool
    is_owned_by matchers m = any (λ n. owner_of n == owner_of m) matchers

    abbrev pub active_of : Text → ProblemMatcherRegistry Regex → List (ProblemMatcher Regex)
    active_of scope registry = elim (get scope registry.scopes) [ none ↦ [] | some ms ↦ ms ]

    abbrev pub set_active :
        Text
        → List (ProblemMatcher Regex)
        → ProblemMatcherRegistry Regex
        → ProblemMatcherRegistry Regex
    set_active scope ms registry = record registry { scopes = insert scope ms registry.scopes }

    -- The active matchers are drained before the last check, so a refusal leaves none.
    unfoldable pub add_matchers :
        Text
        → List (ProblemMatcher Regex)
        → ProblemMatcherRegistry Regex
        → ProblemMatcherRegistry Regex × Result MatcherError (Unit {0})
    unfolding insert get filter
    add_matchers scope matchers registry =
        let retained = filter (λ m. not (is_owned_by matchers m)) (active_of scope registry) in
        if ltb max_per_job (length matchers + length retained)
        then (set_active scope [] registry, err too_many_in_job)
        else (set_active scope (matchers ++ retained) registry, ok tt)

    abbrev pub add_compiled :
        Text
        → ProblemMatcherRegistry Regex
        → Result MatcherError (List (ProblemMatcher Regex))
        → ProblemMatcherRegistry Regex × Result MatcherError (Unit {0})
    add_compiled scope registry (err e) = (registry, err e)
    add_compiled scope registry (ok []) = (registry, ok tt)
    add_compiled scope registry (ok (m ∷ matchers)) = add_matchers scope (m ∷ matchers) registry

    abbrev pub checked_count :
        List ProblemMatcherConfig → Result MatcherError (List ProblemMatcherConfig)
    checked_count configs =
        if ltb max_per_config (length configs) then err too_many_in_file else ok configs

    unfoldable pub add_from_file :
        Text
        → Text
        → ProblemMatcherRegistry Regex
        → ProblemMatcherRegistry Regex × Result MatcherError (Unit {0})
    unfolding read_config compile_all add_matchers
    add_from_file scope path registry = add_compiled scope registry (
        read_config scope path registry >>= λ configs.
        checked_count configs >>= λ configs. compile_all configs [])

    -- `retain` on the matchers of a scope, if it has any.
    unfoldable pub retain_matchers :
        Text
        → (ProblemMatcher Regex → Bool)
        → ProblemMatcherRegistry Regex
        → ProblemMatcherRegistry Regex
    unfolding get insert filter
    retain_matchers scope test registry = elim (get scope registry.scopes) [
      | none ↦ registry
      | some ms ↦ set_active scope (filter test ms) registry
    ]

    abbrev pub remove_valid :
        Text
        → Text
        → ProblemMatcherRegistry Regex
        → Result MatcherError (Unit {0})
        → ProblemMatcherRegistry Regex × Result MatcherError (Unit {0})
    remove_valid scope owner registry (err e) = (registry, err e)
    remove_valid scope owner registry (ok u) =
        (retain_matchers scope (λ m. not (eq_ignore_ascii_case m.owner owner)) registry, ok tt)

    unfoldable pub remove_owner :
        Text
        → Text
        → ProblemMatcherRegistry Regex
        → ProblemMatcherRegistry Regex × Result MatcherError (Unit {0})
    unfolding validate_owner retain_matchers
    remove_owner scope owner registry = remove_valid scope owner registry (validate_owner owner)

    unfoldable pub valid_owners : List ProblemMatcherConfig → Set → Result MatcherError Set
    unfolding validate_owner insert_element
    valid_owners [] owners = ok owners
    valid_owners (config ∷ configs) owners = do
      valid ← validate_owner config.owner
      valid_owners configs (insert_element (to_ascii_lowercase config.owner) owners)

    abbrev pub remove_owners :
        Text
        → ProblemMatcherRegistry Regex
        → Result MatcherError Set
        → ProblemMatcherRegistry Regex × Result MatcherError (Unit {0})
    remove_owners scope registry (err e) = (registry, err e)
    remove_owners scope registry (ok owners) =
        (retain_matchers scope (λ m. not (member (owner_of m) owners)) registry, ok tt)

    unfoldable pub remove_from_file :
        Text
        → Text
        → ProblemMatcherRegistry Regex
        → ProblemMatcherRegistry Regex × Result MatcherError (Unit {0})
    unfolding read_config valid_owners retain_matchers
    remove_from_file scope path registry = remove_owners scope registry (
        read_config scope path registry >>= λ configs.
        checked_count configs >>= λ configs. valid_owners configs [])
